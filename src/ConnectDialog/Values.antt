-- ===== src/ConnectDialog/Values.antt =====
-- What `OnConnect` stores and what it does of the values that are entered.
use smartmonitor.Common.{
  ℕ, ◌≡◌, refl, ap, ◌∙◌, Bool, true, false, ◌&&◌, List, [], ◌∷◌, ◌++◌, append_assoc, append-nil,
  Option, if◌then◌else◌, Bytes, codes, Bool-cases, inl, inr,
}
use smartmonitor.ConnectDialog.{
  WindowCall, ConnectWindow, cnnct_to_srv_and_get_smart_vals, show_message,
  reg_cancel_select_sig_handler, close_socket, interrupt_select, add_window_call, entered,
  box_unless, cancel_cnnctn_or_cnnctn_attmpt, end_cnnctn_timeout_timer, end_cnnctn_attempt_timer,
  connect_entered, store_entered, all_converted, on_connect,
}

no_boxes :
    (p t w : Bool) (a b c : Bytes)
    → (p && (t && w)) ≡ true
    → box_unless p a ++ (box_unless t b ++ box_unless w c) ≡ []
unfolding box_unless
no_boxes true true true a b c h = refl
no_boxes true true false a b c h = absurd (let z : false ≡ true = h in cc)
no_boxes true false w a b c h = absurd (let z : false ≡ true = h in cc)
no_boxes false t w a b c h = absurd (let z : false ≡ true = h in cc)

-- the calls of connecting
abbrev pub connect_calls : Bool → Bytes → List WindowCall
connect_calls unknown_host host =
    reg_cancel_select_sig_handler
    ∷ close_socket
    ∷ interrupt_select
    ∷ cnnct_to_srv_and_get_smart_vals
    ∷ (if unknown_host
        then show_message (codes "\"" ++ (host ++ codes "\" not found in host DataBase")) ∷ []
        else [])

connect_entered_lem :
    (unknown_host : Bool) (e : ConnectWindow)
    → let f : ConnectWindow = connect_entered unknown_host e in
      ((f.service_host_name ≡ e.service_host_name)
        × ((f.socket_port_number ≡ e.socket_port_number)
            × ((f.cnnct_time_out_in_sec ≡ e.cnnct_time_out_in_sec)
                × (f.srv_cnnctn_cnt_down_in_sec ≡ e.srv_cnnctn_cnt_down_in_sec))))
      × ((f.cnnctn_timeout_timer ≡ false)
          × ((f.cnnctn_attmpt_timer ≡ false)
              × (f.calls ≡ e.calls ++ connect_calls unknown_host e.service_host_name)))
unfolding connect_entered add_window_call cancel_cnnctn_or_cnnctn_attmpt end_cnnctn_timeout_timer
    end_cnnctn_attempt_timer
connect_entered_lem true e = ((refl, (refl, (refl, refl))), (refl, (refl, simp append_assoc)))
connect_entered_lem false e = ((refl, (refl, (refl, refl))), (refl, (refl, simp append_assoc)))

-- `OnConnect` stores the host name and each number that can be converted, also when another one
-- cannot. Only when all can does it stop both timers, close the socket, interrupt the waiting and
-- connect, in this order and without a message before; otherwise it leaves both timers alone.
pub on_connect_lem :
    (to_ulong : Bytes → Option ℕ) (unknown_host : Bool) (d : ConnectWindow)
    → let e : ConnectWindow = on_connect to_ulong unknown_host d in
      ((e.service_host_name ≡ d.srv_addr_text)
        × ((e.socket_port_number ≡ (entered to_ulong d.port_no_text d.socket_port_number).1)
            × ((e.cnnct_time_out_in_sec
                  ≡ (entered to_ulong d.timeout_text d.cnnct_time_out_in_sec).1)
                × (e.srv_cnnctn_cnt_down_in_sec
                    ≡ (entered to_ulong d.cnnctn_attmpt_text d.srv_cnnctn_cnt_down_in_sec).1))))
      × ((all_converted to_ulong d ≡ true
            → (e.cnnctn_timeout_timer ≡ false)
              × ((e.cnnctn_attmpt_timer ≡ false)
                  × (e.calls ≡ d.calls ++ connect_calls unknown_host d.srv_addr_text)))
          × (all_converted to_ulong d ≡ false
              → (e.cnnctn_timeout_timer ≡ d.cnnctn_timeout_timer)
                × (e.cnnctn_attmpt_timer ≡ d.cnnctn_attmpt_timer)))
unfolding on_connect store_entered add_window_call all_converted
on_connect_lem to_ulong unknown_host d = elim (Bool-cases (all_converted to_ulong d)) [
  | inl q ↦
      let c = connect_entered_lem unknown_host (store_entered to_ulong d) in
      rw (on_connect, q)
        (
          c.0,
          (
            λ h. (
              c.1.0,
              (
                c.1.1.0,
                c.1.1.1
                    ∙ ap (λ x. x ++ connect_calls unknown_host d.srv_addr_text)
                        (ap (λ x. d.calls ++ x) (no_boxes _ _ _ _ _ _ q) ∙ append-nil d.calls),
              ),
            ),
            λ h. absurd (let z : true ≡ false = h in cc),
          ),
        )
  | inr q ↦
      rw (on_connect, q)
        (
          (refl, (refl, (refl, refl))),
          (λ h. absurd (let z : false ≡ true = h in cc), λ h. (refl, refl)),
        )
]
