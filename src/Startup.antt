-- ===== src/Startup.antt =====
-- The start of the graphical client and its button for direct access: `OnInit`, `SetGetDirectSMARTvals`
-- and `setUI` in src/wxWidgets/wxSMARTmonitorApp.cpp, `StartAsyncDrctUpd8Thread` and `OnDrctSMARTaccss`
-- in src/wxWidgets/wxSMARTmonitorDialog.cpp, `EndUpdateUIthread` in src/client/SMARTmonitorClient.cpp.
-- Built with direct access, threads and the client; `EnsureSMARTattrToObsExist` does nothing then. The
-- thread runs from `start` until its loop ends, with an error or by `EndUpdateUIthread`. The icons and
-- the symbol of the task bar are left out.
pub mod Clicks
pub mod OneSource
use smartmonitor.Common.{
  ℕ, Bool, true, false, List, [], ◌∷◌, ◌++◌, if◌then◌else◌, Bytes, codes, not,
}
use smartmonitor.Common.Texts.{same}
use smartmonitor.Common.Decimal.{decimal}
use smartmonitor.AttrDefs.{start_async_update_thread}
use smartmonitor.CommandLine.{Parsed, called_help, sccssflly_parsed_all_cmd_lne_args}
use smartmonitor.ConfigFiles.{
  InitSmartRetCode, success, reading_config_file_failed, access_to_smart_denied,
  no_smart_capable_device_present, rethrown,
}
use smartmonitor.Dialog.{
  ServerConnectionState, connected_to_srv, unconnected_to_srv, connecting_to_srv, values_updated,
  drct_smart_accss, ended_drct_smart,
}

pub data GuiCall : Type 0 where
  show_dialog show_status_unknown_icon rebuild_ui post_connect_event : GuiCall
  gui_message_box gui_show_message set_status : Bytes → GuiCall
  start_updates_thread broadcast wait_for_termination close_socket start_attempt_cnt_down : GuiCall
  wait_for_thread_action after_wait_action : GuiCall
  change_state : ServerConnectionState → GuiCall
  dialog_connected_ui disable_connect_button enable_connect_in_dialog dialog_unconnected_ui :
      GuiCall

-- The calls are newest first.
pub record Gui : Type 0 where
  pub ids : List ℕ  -- m_IDsOfSMARTattrsToObserve
  pub updates : Bool  -- s_updateSMARTvalues
  pub is_running : Bool  -- m_updateSMARTparameterValuesThread
  pub gets_directly : Bool  -- p_getSMARTvaluesFunction
  pub direct_label : Bytes  -- of m_p_directSMARTaccesBtn
  pub direct_enabled : Bool
  pub tool_tip : Bytes
  pub gui_calls : List GuiCall

unfoldable pub add_gui_call : GuiCall → Gui → Gui
add_gui_call c g = record g { gui_calls = c ∷ g.gui_calls }

abbrev pub end_direct : Bytes
end_direct = codes "End Direct S.M.A.R.T."

-- `DrctSMARTaccssUIctrls`, `NoDrctSMARTaccessUIctrls`
unfoldable pub drct_smart_accss_ui_ctrls : Gui → Gui
drct_smart_accss_ui_ctrls g = record g { direct_label = end_direct }

unfoldable pub no_drct_smart_access_ui_ctrls : Gui → Gui
no_drct_smart_access_ui_ctrls g = record g { direct_label = codes "Direct S.M.A.R.T." }

-- `wxSMARTmonitorApp::setUI`; the first argument: whether the window for connecting exists
unfoldable pub set_ui : Bool → ServerConnectionState → Gui → Gui
unfolding add_gui_call drct_smart_accss_ui_ctrls no_drct_smart_access_ui_ctrls
set_ui has_dialog connected_to_srv g = add_gui_call dialog_connected_ui g
set_ui has_dialog connecting_to_srv g = add_gui_call disable_connect_button g
set_ui has_dialog unconnected_to_srv g =
    add_gui_call (if has_dialog then enable_connect_in_dialog else dialog_unconnected_ui) g
set_ui has_dialog drct_smart_accss g = drct_smart_accss_ui_ctrls g
set_ui has_dialog ended_drct_smart g = no_drct_smart_access_ui_ctrls g
set_ui has_dialog values_updated g = g

-- `SetGetDirectSMARTvals` with the interval in milliseconds
unfoldable pub set_get_direct_smart_vals : ℕ → Gui → Gui
unfolding add_gui_call set_ui
set_get_direct_smart_vals interval g =
    let text = codes "direct S.M.A.R.T. values in " ++ decimal interval ++ codes " ms interval" in
    set_ui false drct_smart_accss (add_gui_call (set_status text) g)

-- `StartAsyncUpdateThread` with the function for direct access
unfoldable pub start_direct_updates : Gui → Gui
unfolding add_gui_call
start_direct_updates g =
    if start_async_update_thread g.ids
    then add_gui_call start_updates_thread (record g { gets_directly = true; is_running = true })
    else add_gui_call (gui_show_message (codes "No S.M.A.R.T. attributes to observe")) g

unfoldable pub start_async_drct_upd8_thread : ℕ → Gui → Gui
unfolding add_gui_call start_direct_updates set_get_direct_smart_vals
start_async_drct_upd8_thread interval g =
    if start_async_update_thread g.ids
    then set_get_direct_smart_vals interval (start_direct_updates g)
    else add_gui_call (gui_message_box (codes "no S.M.A.R.T. attributes to observe defined")) g

-- `AfterGetSMARTvaluesLoop` of a client, behind which the thread ends; whether the values could be got
unfoldable pub thread_ends : Bool → Gui → Gui
unfolding add_gui_call
thread_ends got_values g =
    let closed = record (add_gui_call close_socket g) { is_running = false } in
    if got_values then closed else add_gui_call start_attempt_cnt_down closed

-- `EndUpdateUIthread`; the first argument: whether the last round of the thread got the values
unfoldable pub end_update_ui_thread : Bool → Gui → Gui
unfolding add_gui_call thread_ends
end_update_ui_thread got_values g =
    let cleared = record (add_gui_call broadcast g) { updates = false } in
    let waits = thread_ends got_values (add_gui_call wait_for_thread_action cleared) in
    let waited = add_gui_call after_wait_action (add_gui_call wait_for_termination waits) in
    if g.is_running
    then add_gui_call
        (change_state (if g.gets_directly then ended_drct_smart else unconnected_to_srv))
        (record waited { updates = true })
    else g

-- `OnDrctSMARTaccss`
unfoldable pub on_drct_smart_accss : ℕ → Bool → Gui → Gui
unfolding add_gui_call end_update_ui_thread no_drct_smart_access_ui_ctrls
    start_async_drct_upd8_thread
on_drct_smart_accss interval got_values g =
    if g.is_running
    then no_drct_smart_access_ui_ctrls (end_update_ui_thread got_values g)
    else start_async_drct_upd8_thread interval (add_gui_call rebuild_ui g)

-- `disableDrctSMARTaccss`; the first argument: whether the macro `directSMARTaccess` is defined
unfoldable pub disable_drct_smart_accss : Bool → Bytes → Gui → Gui
disable_drct_smart_accss has_macro cause g =
    if has_macro then record g { direct_enabled = false; tool_tip = cause } else g

-- What a call that reads files comes to: its result, or a `FileException` with the path.
pub data FileOutcome (A : Type 0) : Type 0 where
  returned : A → FileOutcome A
  open_failed : Bytes → FileOutcome A

-- The results of `ProcessCommandLineArgs`, `InitializeLogger`, `InitializeSMART` and
-- `ReadServiceConnectionSettings`, and the name of the file that is given to the last one.
pub record StartInput : Type 0 where
  pub parsed : Parsed
  pub has_logger : Bool
  pub init : FileOutcome InitSmartRetCode
  pub conf_file : Bytes
  pub settings : FileOutcome Bytes

-- The result of `OnInit`, or the exception that leaves it.
pub data Started : Type 0 where
  continues exits raises : Started

unfoldable pub disable_cause : InitSmartRetCode → Bytes
disable_cause access_to_smart_denied =
    codes "direct (without client/server)\naccess to S.M.A.R.T. denied\n"
    ++ codes "(maybe due to insufficient rights\n--start as administrator to enable)"
disable_cause success = codes "no built-in direct SMART access"
disable_cause reading_config_file_failed = codes "no built-in direct SMART access"
disable_cause no_smart_capable_device_present = codes "no built-in direct SMART access"
disable_cause rethrown = codes "no built-in direct SMART access"

unfoldable pub is_success : InitSmartRetCode → Bool
is_success success = true
is_success access_to_smart_denied = false
is_success reading_config_file_failed = false
is_success no_smart_capable_device_present = false
is_success rethrown = false

-- the handler for a `FileException`
unfoldable pub failed_to_open : Bytes → Gui → Gui × Started
unfolding add_gui_call
failed_to_open path g =
    (add_gui_call (gui_message_box (codes "failed to open file: " ++ path)) g, exits)

module _ (has_macro : Bool) (interval : ℕ) where
  -- the part of `OnInit` that chooses where the values come from
  unfoldable pub choose_source : InitSmartRetCode → Bytes → Gui → Gui
  unfolding add_gui_call start_async_drct_upd8_thread disable_drct_smart_accss disable_cause
      is_success
  choose_source code conf_file g =
      if not (same conf_file [])
      then disable_drct_smart_accss has_macro (disable_cause code)
          (add_gui_call post_connect_event g)
      else if is_success code
      then start_async_drct_upd8_thread interval (add_gui_call rebuild_ui g)
      else disable_drct_smart_accss has_macro (disable_cause code) g

  -- behind `ReadServiceConnectionSettings`
  unfoldable pub after_settings : InitSmartRetCode → Bytes → FileOutcome Bytes → Gui → Gui × Started
  unfolding add_gui_call choose_source failed_to_open
  after_settings code conf_file (open_failed path) g = failed_to_open path g
  after_settings code conf_file (returned error_msg) g =
      let shown = if same error_msg [] then g else add_gui_call (gui_show_message error_msg) g in
      (choose_source code conf_file (add_gui_call show_status_unknown_icon shown), continues)

  -- behind `InitializeSMART`
  unfoldable pub after_init : StartInput → FileOutcome InitSmartRetCode → Gui → Gui × Started
  unfolding after_settings failed_to_open
  after_init i (open_failed path) g = failed_to_open path g
  after_init i (returned reading_config_file_failed) g = (g, continues)
  after_init i (returned rethrown) g = (g, raises)
  after_init i (returned success) g = after_settings success i.conf_file i.settings g
  after_init i (returned access_to_smart_denied) g =
      after_settings access_to_smart_denied i.conf_file i.settings g
  after_init i (returned no_smart_capable_device_present) g =
      after_settings no_smart_capable_device_present i.conf_file i.settings g

  unfoldable pub after_command_line : StartInput → Parsed → Gui → Gui × Started
  unfolding after_init
  after_command_line i called_help g = (g, exits)
  after_command_line i sccssflly_parsed_all_cmd_lne_args g =
      if i.has_logger then after_init i i.init g else (g, exits)

  -- `OnInit`
  unfoldable pub on_init : StartInput → Gui → Gui × Started
  unfolding after_command_line add_gui_call
  on_init i g = after_command_line i i.parsed (add_gui_call show_dialog g)
