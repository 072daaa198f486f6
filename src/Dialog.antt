-- ===== src/Dialog.antt =====
-- The window of the graphical user interface: what src/wxWidgets/wxSMARTmonitorApp.cpp and
-- src/wxWidgets/wxSMARTmonitorDialog.cpp do beside drawing. A thread other than that of the user
-- interface posts events to the application, which handles them in their order. The time in front of
-- a message is left out.
pub mod Events
pub mod Icon
use smartmonitor.Common.{
  ℕ, zero, suc, ◌+◌, Bool, true, false, List, [], ◌∷◌, ◌++◌, Option, none, some, ◌==◌,
  if◌then◌else◌, Bytes, codes,
}
use smartmonitor.Common.Decimal.{decimal}
use smartmonitor.ValueTable.{OverallRating, overall_unknown, at_least_1_warn}

-- `UserInterface::MessageType`
pub data MessageType : Type 0 where
  success_type error_type warning_type info_type : MessageType

-- `SMARTmonitorClient::CurrentAction`
pub data Action : Type 0 where
  cnnct_to_srv non_blck_cnnct_to_srv : Action
  read_num_bytes_for_supp_smart_ids_action read_supp_smart_ids_xml_data_action : Action
  read_num_bytes_for_smart_data_action read_smart_values_xml_data_action : Action
  has_read_smart_values_xml_data_action wait_for_smart_upd8_thread_term : Action
  after_wait_for_smart_upd8_thread_term : Action

-- The background of the message box.
pub data Colour : Type 0 where
  red yellow green white : Colour

-- The message box.
pub record MessageBox : Type 0 where
  pub colour : Colour
  pub text : Bytes

-- `SMARTdialog::ShowText`
unfoldable pub show_text : Bytes → MessageBox → MessageBox
show_text s box = record box { text = s }

-- the `switch` in `SMARTdialog::ShowMessage`; `none` is the type -1
unfoldable pub colour_of : Option MessageType → Colour
colour_of none = white
colour_of (some success_type) = green
colour_of (some error_type) = red
colour_of (some warning_type) = yellow
colour_of (some info_type) = white

-- `SMARTdialog::ShowMessage`
unfoldable pub show_message : Bytes → Option MessageType → MessageBox → MessageBox
unfolding colour_of
show_message s kind box = record { colour = colour_of kind; text = s }

-- the texts in `SMARTdialog::ShowCurrentAction`
unfoldable pub action_text : Action → Bytes
action_text cnnct_to_srv = codes "blocking connecting to server"
action_text non_blck_cnnct_to_srv = codes "NON-blocking connecting to server"
action_text read_num_bytes_for_supp_smart_ids_action =
    codes "reading number of bytes for supported S.M.A.R.T. IDs"
action_text read_num_bytes_for_smart_data_action =
    codes "reading number of bytes for S.M.A.R.T. data"
action_text read_supp_smart_ids_xml_data_action = codes "reading supported S.M.A.R.T. IDs data"
action_text read_smart_values_xml_data_action = codes "reading S.M.A.R.T. data"
action_text has_read_smart_values_xml_data_action = codes "finished reading S.M.A.R.T. data"
action_text wait_for_smart_upd8_thread_term =
    codes "waiting for S.M.A.R.T. data update thread termination"
action_text after_wait_for_smart_upd8_thread_term =
    codes "finished waiting for S.M.A.R.T. data update thread termination"

-- `SMARTdialog::ShowCurrentAction`
unfoldable pub show_current_action : Action → MessageBox → MessageBox
unfolding show_message action_text
show_current_action a box = show_message (action_text a) (some info_type) box

-- What is called: `ShowMessage` with and without a type, and `SetCurrentAction`.
pub data Call : Type 0 where
  typed_message : Bytes → MessageType → Call
  message : Bytes → Call
  current_action : Action → Call

-- The events that are posted, `none` for the type -1.
pub data PostedEvent : Type 0 where
  show_message_event : Bytes → Option MessageType → PostedEvent
  show_current_action_event : Action → PostedEvent

-- The message box and the events that are not handled yet, in the order of posting.
pub record Window : Type 0 where
  pub box : MessageBox
  pub pending : List PostedEvent

unfoldable pub in_ui_thread : Call → MessageBox → MessageBox
unfolding show_text show_message show_current_action
in_ui_thread (typed_message s kind) box = show_message s (some kind) box
in_ui_thread (message s) box = show_text s box
in_ui_thread (current_action a) box = show_current_action a box

unfoldable pub posted : Call → PostedEvent
posted (typed_message s kind) = show_message_event s (some kind)
posted (message s) = show_message_event s none
posted (current_action a) = show_current_action_event a

-- `wxSMARTmonitorApp::ShowMessage` and `wxSMARTmonitorApp::SetCurrentAction`; `in_ui` tells whether
-- they are called in the thread of the user interface
unfoldable pub call : Bool → Call → Window → Window
unfolding in_ui_thread posted
call in_ui c w =
    if in_ui
    then record w { box = in_ui_thread c w.box }
    else record w { pending = w.pending ++ posted c ∷ [] }

-- `OnShowMessage`, `OnShowCurrentAction`
unfoldable pub handle : PostedEvent → MessageBox → MessageBox
unfolding show_message show_current_action
handle (show_message_event s kind) box = show_message s kind box
handle (show_current_action_event a) box = show_current_action a box

-- `SMARTattrVal::Rtg::Rslt`, and what `UpdateSMARTvaluesUI` hands over
pub data Rslt : Type 0 where
  rslt_unknown rslt_at_least_1_warn rslt_ok : Rslt

unfoldable pub rslt_of : OverallRating → Rslt
rslt_of overall_unknown = rslt_unknown
rslt_of at_least_1_warn = rslt_at_least_1_warn

-- the icon of the window and of the task bar
pub data ShownIcon : Type 0 where
  ok_icon status_unknown_icon warning_icon : ShownIcon

-- `wxSMARTmonitorApp::ShowStateAccordingToSMARTvalues`, which has no case for an unknown status
unfoldable pub show_state_according_to_smart_values : Rslt → ShownIcon → ShownIcon
show_state_according_to_smart_values rslt_at_least_1_warn icon = warning_icon
show_state_according_to_smart_values rslt_ok icon = ok_icon
show_state_according_to_smart_values rslt_unknown icon = icon

-- `serverConnectionState`
pub data ServerConnectionState : Type 0 where
  connected_to_srv unconnected_to_srv connecting_to_srv : ServerConnectionState
  values_updated drct_smart_accss ended_drct_smart : ServerConnectionState

-- What the titles tell: the name of the program, the address of the service, whether the values are
-- read directly, the interval, and the time of the last update and now as texts.
pub record TitleInput : Type 0 where
  pub app_name : Bytes
  pub host : Bytes
  pub port : ℕ
  pub direct : Bool
  pub interval : ℕ
  pub last_update : Bytes
  pub now : Bytes

-- `wxSMARTmonitorApp::GetTitleInclDataSrc`
unfoldable pub get_title_incl_data_src : TitleInput → Bytes
get_title_incl_data_src t =
    (if t.direct
      then codes "wxSMARTmonitor--direct S.M.A.R.T. data"
      else codes "wxSMARTmonitor--data from " ++ t.host ++ codes ":" ++ decimal t.port)
    ++ (codes " in ca. " ++ decimal t.interval ++ codes " ms interval")

-- The window as far as `SetState` changes it, with `s_entireSMARTstatus` and
-- `GetSMARTvalsAndUpd8UIthreadID`.
pub record StateView : Type 0 where
  pub title : Bytes
  pub status : Rslt
  pub icon : ShownIcon
  pub thread_id : ℕ

-- the case of the states without a source of values
unfoldable pub ended : Bytes → StateView
ended title = record {
  title = title;
  status = rslt_unknown;
  icon = status_unknown_icon;
  thread_id = 0;
}

-- `SMARTdialog::SetState`
unfoldable pub set_state : TitleInput → ServerConnectionState → StateView → StateView
unfolding get_title_incl_data_src ended
set_state t values_updated v = record v {
  title = get_title_incl_data_src t ++ codes "--last update:" ++ t.now;
}
set_state t connected_to_srv v = record v { title = get_title_incl_data_src t }
set_state t unconnected_to_srv v = ended (
    t.app_name
    ++ codes "--last update at "
    ++ t.last_update
    ++ codes " from "
    ++ t.host
    ++ codes ":"
    ++ decimal t.port
    ++ codes "--unconnected")
set_state t ended_drct_smart v = ended (
    t.app_name
    ++ codes "--last update at "
    ++ t.last_update
    ++ codes " via direct S.M.A.R.T.(ended)")
set_state t connecting_to_srv v = v
set_state t drct_smart_accss v = v
