-- ===== src/ConnectDialog/CountDown.antt =====
-- The counting of the two timers of the window.
use smartmonitor.Common.{
  ℕ, suc, ◌+◌, ◌≡◌, refl, sym, append-nil, ◌∙◌, true, false, List, [], ◌∷◌, ◌++◌, Option, inl, inr,
  Option-cases, codes, ltb, lt→ltb, ge→ltb, Bytes, length, arith,
}
use smartmonitor.ConnectDialog.{
  ConnectWindow, cnnct_to_srv_and_get_smart_vals, add_window_call, on_timer,
  start_srv_cnnctn_cnt_down, on_cnnctn_attmpt_timer, entered, box_unless,
}

-- Which timer ticks.
pub data Tick : Type 0 where
  timeout_tick attempt_tick : Tick

module _ (to_ulong : Bytes → Option ℕ) where
  unfoldable pub tick : Tick → ConnectWindow → ConnectWindow
  tick timeout_tick d = on_timer d
  tick attempt_tick d = on_cnnctn_attmpt_timer to_ulong d

  unfoldable pub ticks : List Tick → ConnectWindow → ConnectWindow
  ticks [] d = d
  ticks (t ∷ ts) d = ticks ts (tick t d)

  -- what a tick with seconds left changes
  abbrev Counted : ℕ → ConnectWindow → ConnectWindow → Type 0
  Counted n d e =
      (e.time_out_in_seconds ≡ n)
      × ((e.calls ≡ d.calls)
          × ((e.timeout_text ≡ d.timeout_text)
              × ((e.cnnctn_attmpt_timer ≡ d.cnnctn_attmpt_timer)
                  × (e.cnnctn_timeout_timer ≡ d.cnnctn_timeout_timer))))

  tick_lem :
      (t : Tick) (d : ConnectWindow) (n : ℕ)
      → d.time_out_in_seconds ≡ suc n
      → Counted n d (tick t d)
  unfolding tick on_timer on_cnnctn_attmpt_timer
  tick_lem timeout_tick d n e =
      let b : ltb 0 d.time_out_in_seconds ≡ true =
        lt→ltb 0 d.time_out_in_seconds (omega (arith, e)) in
      rw (on_timer, b) (omega (arith, e), (refl, (refl, (refl, refl))))
  tick_lem attempt_tick d n e =
      let b : ltb 0 d.time_out_in_seconds ≡ true =
        lt→ltb 0 d.time_out_in_seconds (omega (arith, e)) in
      rw (on_cnnctn_attmpt_timer, b) (omega (arith, e), (refl, (refl, (refl, refl))))

  counted_lem :
      (ts : List Tick) (d : ConnectWindow) (n : ℕ)
      → d.time_out_in_seconds ≡ length ts + n
      → Counted n d (ticks ts d)
  unfolding ticks
  counted_lem [] d n e = (omega (arith, e), (refl, (refl, (refl, refl))))
  counted_lem (t ∷ ts) d n e =
      let (a, (b, (c, (f, g)))) = tick_lem t d (length ts + n) (omega (arith, e)) in
      let (a', (b', (c', (f', g')))) = counted_lem ts (tick t d) n a in
      (a', (b' ∙ b, (c' ∙ c, (f' ∙ f, g' ∙ g))))

  -- the tick with no second left
  attempt_lem :
      (d : ConnectWindow)
      → d.time_out_in_seconds ≡ 0
      → ((tick attempt_tick d).calls
          ≡ (d.calls ++ (cnnct_to_srv_and_get_smart_vals ∷ []))
            ++ box_unless
                (entered to_ulong d.timeout_text 0).0
                (codes "error converting timeout character string to integer"))
        × (((tick attempt_tick d).cnnctn_attmpt_timer ≡ false)
            × ((tick attempt_tick d).cnnctn_timeout_timer ≡ true))
  unfolding tick on_cnnctn_attmpt_timer start_srv_cnnctn_cnt_down add_window_call box_unless entered
  attempt_lem d e =
      let b : ltb 0 d.time_out_in_seconds ≡ false =
        ge→ltb 0 d.time_out_in_seconds (omega (arith, e)) in
      elim (Option-cases (to_ulong d.timeout_text)) [
        | inl q ↦
            rw (on_cnnctn_attmpt_timer, start_srv_cnnctn_cnt_down, entered, b, q)
              (refl, (refl, refl))
        | inr (n, q) ↦
            rw (on_cnnctn_attmpt_timer, start_srv_cnnctn_cnt_down, entered, b, q)
              (sym (append-nil _), (refl, refl))
      ]

  -- While seconds are left, each tick of either timer counts one of them down, so that two running
  -- timers count twice as fast, and no attempt to connect is made. With no second left the next tick
  -- of the timer for the attempt makes exactly one, stops this timer and starts that for the timeout.
  pub count_down_lem :
      (ts : List Tick) (d : ConnectWindow) (n : ℕ)
      → d.time_out_in_seconds ≡ length ts + n
      → ((ticks ts d).time_out_in_seconds ≡ n)
        × (((ticks ts d).calls ≡ d.calls)
            × (n ≡ 0
                → ((tick attempt_tick (ticks ts d)).calls
                    ≡ (d.calls ++ (cnnct_to_srv_and_get_smart_vals ∷ []))
                      ++ box_unless
                          (entered to_ulong d.timeout_text 0).0
                          (codes "error converting timeout character string to integer"))
                  × (((tick attempt_tick (ticks ts d)).cnnctn_attmpt_timer ≡ false)
                      × ((tick attempt_tick (ticks ts d)).cnnctn_timeout_timer ≡ true))))
  count_down_lem ts d n e =
      let (a, (b, (c, f))) = counted_lem ts d n e in
      (a, (b, λ z. let (x, y) = attempt_lem (ticks ts d) (a ∙ z) in (x ∙ cc, y)))
