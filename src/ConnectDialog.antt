-- ===== src/ConnectDialog.antt =====
-- The window for connecting to a service: src/wxWidgets/ConnectToServerDialog.cpp. wxString's `ToULong`
-- is the parameter `to_ulong`; without a result it leaves the number as it is. What the window calls
-- is a list, oldest first; both timers are running or not, and their ticks are calls of their
-- handlers.
pub mod CountDown
pub mod Values
use smartmonitor.Common.{
  ℕ, zero, suc, ◌-◌, Bool, true, false, ◌&&◌, List, [], ◌∷◌, ◌++◌, Option, none, some, ltb,
  if◌then◌else◌, Bytes, codes,
}
use smartmonitor.Common.Decimal.{decimal}

pub data WindowCall : Type 0 where
  message_box show_message : Bytes → WindowCall
  reg_cancel_select_sig_handler close_socket interrupt_select : WindowCall
  cnnct_to_srv_and_get_smart_vals : WindowCall
  end_modal destroy uncnnctd_to_srv : WindowCall

-- The texts that are entered, the members of the application that are set, and the window.
pub record ConnectWindow : Type 0 where
  pub srv_addr_text : Bytes
  pub port_no_text : Bytes
  pub timeout_text : Bytes
  pub cnnctn_attmpt_text : Bytes
  pub service_host_name : Bytes
  pub socket_port_number : ℕ
  pub cnnct_time_out_in_sec : ℕ
  pub srv_cnnctn_cnt_down_in_sec : ℕ
  pub is_set : Bool  -- m_p_cnnctToSrvDlg
  pub time_out_in_seconds : ℕ  -- m_timeOutInSeconds, counted down by both timers
  pub cnnctn_timeout_timer : Bool
  pub cnnctn_attmpt_timer : Bool
  pub timeout_label : Bytes
  pub is_addr_marked : Bool  -- the red background
  pub calls : List WindowCall

unfoldable pub add_window_call : WindowCall → ConnectWindow → ConnectWindow
add_window_call c d = record d { calls = d.calls ++ (c ∷ []) }

-- `wxString::Format` of a number with a unit behind it
unfoldable pub seconds_label : Bytes → ℕ → Bytes → Bytes
seconds_label text n unit = text ++ (decimal n ++ unit)

-- `EndCnnctnTimeoutTimer`, `EndCnnctnAttemptTimer`; the title is the default one throughout
unfoldable pub end_cnnctn_timeout_timer : ConnectWindow → ConnectWindow
end_cnnctn_timeout_timer d = record d { cnnctn_timeout_timer = false; timeout_label = [] }

unfoldable pub end_cnnctn_attempt_timer : ConnectWindow → ConnectWindow
end_cnnctn_attempt_timer d = record d { cnnctn_attmpt_timer = false; timeout_label = [] }

-- `cancelCnnctnOrCnnctnAttmpt`, which `OnCancel` calls
unfoldable pub cancel_cnnctn_or_cnnctn_attmpt : ConnectWindow → ConnectWindow
unfolding add_window_call end_cnnctn_timeout_timer end_cnnctn_attempt_timer
cancel_cnnctn_or_cnnctn_attmpt d =
    end_cnnctn_attempt_timer
      (end_cnnctn_timeout_timer (add_window_call interrupt_select (add_window_call close_socket d)))

-- `End`, which `OnCloseWindow` calls
unfoldable pub end_window : Bool → ConnectWindow → ConnectWindow
unfolding add_window_call
end_window is_modal d =
    let e : ConnectWindow = record d {
      cnnctn_timeout_timer = false;
      cnnctn_attmpt_timer = false;
    } in
    let f : ConnectWindow = add_window_call (if is_modal then end_modal else destroy) e in
    add_window_call uncnnctd_to_srv (record f { is_set = false })

-- `OnSrvAddrChange`, `OnStartCntDown`
unfoldable pub on_srv_addr_change : ConnectWindow → ConnectWindow
on_srv_addr_change d = record d { is_addr_marked = false }

unfoldable pub on_start_cnt_down : ConnectWindow → ConnectWindow
on_start_cnt_down d = record d { cnnctn_timeout_timer = true }

-- `OnTimer`: a tick of the timer for the timeout
unfoldable pub on_timer : ConnectWindow → ConnectWindow
on_timer d =
    if ltb 0 d.time_out_in_seconds
    then record d {
      time_out_in_seconds = d.time_out_in_seconds - 1;
      timeout_label =
          seconds_label (codes "connection TIMEOUT in ca. ") (d.time_out_in_seconds - 1)
            (codes "s");
    }
    else record d { cnnctn_timeout_timer = false }

-- a message box unless a text was converted
unfoldable pub box_unless : Bool → Bytes → List WindowCall
box_unless converted text = if converted then [] else message_box text ∷ []

-- the part of `OnConnect` that connects
unfoldable pub connect_entered : Bool → ConnectWindow → ConnectWindow
unfolding cancel_cnnctn_or_cnnctn_attmpt add_window_call
connect_entered unknown_host e =
    let f : ConnectWindow = add_window_call cnnct_to_srv_and_get_smart_vals (
      cancel_cnnctn_or_cnnctn_attmpt
        (add_window_call reg_cancel_select_sig_handler (record e { is_set = true }))) in
    if unknown_host
    then add_window_call
        (show_message
          (codes "\"" ++ (e.service_host_name ++ codes "\" not found in host DataBase")))
        (record f { is_addr_marked = true })
    else f

module _ (to_ulong : Bytes → Option ℕ) where
  -- `StartSrvCnnctnCntDown`; `none` is its default -1.
  unfoldable pub start_srv_cnnctn_cnt_down : Option ℕ → ConnectWindow → ConnectWindow
  unfolding add_window_call
  start_srv_cnnctn_cnt_down secs d =
      let e : ConnectWindow = elim secs [
        | some n ↦ record d { time_out_in_seconds = n }
        | none ↦ elim (to_ulong d.timeout_text) [
          | some n ↦ record d { cnnct_time_out_in_sec = n; time_out_in_seconds = n }
          | none ↦
              add_window_call
                (message_box (codes "error converting timeout character string to integer"))
                (record d { time_out_in_seconds = d.cnnct_time_out_in_sec })
        ]
      ] in
      record e {
        timeout_label =
            seconds_label (codes "connection TIMEOUT in ca. ") e.time_out_in_seconds (codes " s");
        cnnctn_timeout_timer = true;
      }

  -- `StartSrvCnnctnAttmptCntDown`
  unfoldable pub start_srv_cnnctn_attmpt_cnt_down : Option ℕ → ConnectWindow → ConnectWindow
  unfolding add_window_call
  start_srv_cnnctn_attmpt_cnt_down secs d =
      let e : ConnectWindow = elim secs [
        | some n ↦ record d { time_out_in_seconds = n }
        | none ↦ elim (to_ulong d.cnnctn_attmpt_text) [
          | some n ↦ record d { srv_cnnctn_cnt_down_in_sec = n; time_out_in_seconds = n }
          | none ↦
              add_window_call
                (message_box (codes "error converting timeout attempt character string to integer"))
                (record d { time_out_in_seconds = d.srv_cnnctn_cnt_down_in_sec })
        ]
      ] in
      record e {
        timeout_label =
            seconds_label (codes "connection ATTEMPT in ca. ") e.time_out_in_seconds (codes " s");
        cnnctn_attmpt_timer = true;
      }

  -- `OnCnnctnAttmptTimer`: a tick of the timer for the next attempt
  unfoldable pub on_cnnctn_attmpt_timer : ConnectWindow → ConnectWindow
  unfolding add_window_call
  on_cnnctn_attmpt_timer d =
      let connected : ConnectWindow = start_srv_cnnctn_cnt_down none (
        add_window_call cnnct_to_srv_and_get_smart_vals
          (record d { cnnctn_attmpt_timer = false })) in
      if ltb 0 d.time_out_in_seconds
      then record d {
        timeout_label =
            seconds_label (codes "connection ATTEMPT in ca. ") d.time_out_in_seconds (codes "s");
        time_out_in_seconds = d.time_out_in_seconds - 1;
      }
      else connected

  -- a number that is entered: whether it is one, with the value of the member behind it
  unfoldable pub entered : Bytes → ℕ → Bool × ℕ
  entered text old = elim (to_ulong text) [ none ↦ (false, old) | some n ↦ (true, n) ]

  -- the part of `OnConnect` that takes over what is entered, with the message boxes for it
  unfoldable pub store_entered : ConnectWindow → ConnectWindow
  store_entered d =
      let (port_ok, port) = entered d.port_no_text d.socket_port_number in
      let (time_ok, time) = entered d.timeout_text d.cnnct_time_out_in_sec in
      let (wait_ok, wait) = entered d.cnnctn_attmpt_text d.srv_cnnctn_cnt_down_in_sec in
      record d {
        service_host_name = d.srv_addr_text;
        socket_port_number = port;
        cnnct_time_out_in_sec = time;
        srv_cnnctn_cnt_down_in_sec = wait;
        calls =
            d.calls
            ++ (box_unless port_ok
                  (codes "error converting port number character string to integer")
                ++ (box_unless time_ok
                      (codes "error converting timeout character string to integer")
                    ++ box_unless wait_ok
                        (codes "error converting timeout attempt character string to integer")));
      }

  -- `! convFailed`
  unfoldable pub all_converted : ConnectWindow → Bool
  all_converted d =
      (entered d.port_no_text d.socket_port_number).0
      && ((entered d.timeout_text d.cnnct_time_out_in_sec).0
          && (entered d.cnnctn_attmpt_text d.srv_cnnctn_cnt_down_in_sec).0)

  -- `OnConnect`. `unknown_host` is the test of the result of `CnnctToSrvAndGetSMARTvals`.
  unfoldable pub on_connect : Bool → ConnectWindow → ConnectWindow
  on_connect unknown_host d =
      if all_converted d
      then connect_entered unknown_host (store_entered d)
      else add_window_call
          (message_box
            (codes "not connecting to server because character string conversion failed."))
          (store_entered d)
