-- ===== src/Session/Ending.antt =====
-- What a session does with the socket, and that it ends.
use smartmonitor.Common.{
  ℕ, ◌+◌, ◌≡◌, ◌⊎◌, inl, inr, refl, Bool, true, false, List, [], ◌∷◌, Option, none, some, arith,
  ltb, ◌==◌, if◌then◌else◌, length, ltb→ge, take,
}
use smartmonitor.AttrDefs.{start_async_update_thread}
use smartmonitor.Session.{
  cnnctd_to_srv, if_count, read_num_bytes_for_smart_data, read_num_bytes_for_supp_smart_ids,
  TransmissionError, ClientCall, set_current_action, change_connection_state, show_error,
  show_success, start_cnt_down, close_socket, rebuild_user_interface, update_values_ui, before_wait,
  start_thread, ClientOps, State, add_call, handle_transmission_error, read_num_following_bytes,
  read_values, get_smart_attr_vals_from_srv, read_supported, get_supported_smart_ids_from_srv,
  give_up, show_and_start, get_smart_values_and_update_ui,
}

-- how often the socket was closed
unfoldable pub closes : List ClientCall → ℕ
closes [] = 0
closes (close_socket ∷ calls) = closes calls + 1
closes (set_current_action a ∷ calls) = closes calls
closes (change_connection_state s ∷ calls) = closes calls
closes (show_error t ∷ calls) = closes calls
closes (show_success t ∷ calls) = closes calls
closes (start_cnt_down s ∷ calls) = closes calls
closes (rebuild_user_interface ∷ calls) = closes calls
closes (update_values_ui ∷ calls) = closes calls
closes (before_wait ∷ calls) = closes calls
closes (start_thread ∷ calls) = closes calls

-- how often the thread was started
unfoldable pub starts : List ClientCall → ℕ
starts [] = 0
starts (start_thread ∷ calls) = starts calls + 1
starts (set_current_action a ∷ calls) = starts calls
starts (change_connection_state s ∷ calls) = starts calls
starts (show_error t ∷ calls) = starts calls
starts (show_success t ∷ calls) = starts calls
starts (start_cnt_down s ∷ calls) = starts calls
starts (rebuild_user_interface ∷ calls) = starts calls
starts (update_values_ui ∷ calls) = starts calls
starts (before_wait ∷ calls) = starts calls
starts (close_socket ∷ calls) = starts calls

module _ (World Supported Values : Type 0) (o : ClientOps World Supported Values) where
  abbrev pub St : Type 0
  St = State World Supported Values o

  -- Neither closes the socket nor starts the thread.
  abbrev pub IsQuiet : St → St → Type 0
  IsQuiet c d = (closes d.calls ≡ closes c.calls) × (starts d.calls ≡ starts c.calls)

  error-IsQuiet :
      (kind : TransmissionError) (got wanted rd_errno : ℕ) (c : St)
      → IsQuiet c (handle_transmission_error World Supported Values o kind got wanted rd_errno c)
  unfolding handle_transmission_error closes starts
  error-IsQuiet kind got wanted rd_errno c = (refl, refl)

  num-IsQuiet : (c : St) → IsQuiet c (read_num_following_bytes World Supported Values o c).0
  unfolding read_num_following_bytes handle_transmission_error closes starts
  num-IsQuiet c = ground arith

  values-IsQuiet : (c : St) (n : ℕ) → IsQuiet c (read_values World Supported Values o c n).0
  unfolding read_values handle_transmission_error closes starts
  values-IsQuiet c n = ground arith

  supported-IsQuiet : (c : St) (n : ℕ) → IsQuiet c (read_supported World Supported Values o c n).0
  unfolding read_supported handle_transmission_error closes starts
  supported-IsQuiet c n = ground arith

  if_count-IsQuiet :
      (c : St) (next : St → ℕ → St × ℕ) (r : St × Option ℕ)
      → ((d : St) (n : ℕ) → IsQuiet d (next d n).0)
      → IsQuiet c r.0
      → IsQuiet c (if_count World Supported Values o next r).0
  unfolding if_count
  if_count-IsQuiet c next (d, none) h q = q
  if_count-IsQuiet c next (d, some n) h q = ground (arith, h d n)

  pub srv_vals-IsQuiet :
      (c : St) → IsQuiet c (get_smart_attr_vals_from_srv World Supported Values o c).0
  unfolding get_smart_attr_vals_from_srv closes starts
  srv_vals-IsQuiet c =
      if_count-IsQuiet c (read_values World Supported Values o)
        (read_num_following_bytes World Supported Values o
          (add_call World Supported Values o (set_current_action read_num_bytes_for_smart_data) c))
        values-IsQuiet
        (num-IsQuiet
          (add_call World Supported Values o (set_current_action read_num_bytes_for_smart_data) c))

  srv_ids-IsQuiet :
      (c : St) → IsQuiet c (get_supported_smart_ids_from_srv World Supported Values o c).0
  unfolding get_supported_smart_ids_from_srv closes starts
  srv_ids-IsQuiet c =
      let b =
        add_call World Supported Values o (set_current_action read_num_bytes_for_supp_smart_ids)
          (record c { supported = o.no_supported }) in
      if_count-IsQuiet c (read_supported World Supported Values o)
        (read_num_following_bytes World Supported Values o b) supported-IsQuiet (num-IsQuiet b)

  -- The session goes on with the thread; or it was given up, with the socket closed and a count down of
  -- 60 seconds; or there is nothing to observe.
  abbrev pub Begun : St → St → Type 0
  Begun c e =
      ((starts e.calls ≡ starts c.calls + 1) × (closes e.calls ≡ closes c.calls))
      ⊎ (((starts e.calls ≡ starts c.calls)
            × (closes e.calls ≡ closes c.calls + 1)
            × (take 2 e.calls ≡ start_cnt_down (some 60) ∷ close_socket ∷ []))
          ⊎ ((starts e.calls ≡ starts c.calls)
              × (closes e.calls ≡ closes c.calls)
              × (o.ids_to_observe e.values ≡ [])))

  give_up-Begun : (c d : St) → IsQuiet c d → Begun c (give_up World Supported Values o d)
  unfolding give_up closes starts
  give_up-Begun c d (h, k) = inr (inl (k, omega (arith, h), refl))

  none_observed : (ids : List ℕ) → ltb 0 (length ids) ≡ false → ids ≡ []
  none_observed [] h = refl
  none_observed (id ∷ ids) h = absurd (omega (arith, ltb→ge 0 (length (id ∷ ids)) h))

  if_Begun :
      (c : St) (b : Bool) (x y : St)
      → (b ≡ true → Begun c x)
      → (b ≡ false → Begun c y)
      → Begun c (if b then x else y)
  if_Begun c true x y h k = h refl
  if_Begun c false x y h k = k refl

  start-Begun : (c d : St) → IsQuiet c d → Begun c (show_and_start World Supported Values o d)
  unfolding show_and_start closes starts start_async_update_thread
  start-Begun c d (h, k) =
      if_Begun c (ltb 0 (length (o.ids_to_observe (o.set_ids_to_read d.values)))) _ _
        (λ e. inl (omega (arith, k), h))
        (λ e. inr (inr (k, h, none_observed (o.ids_to_observe (o.set_ids_to_read d.values)) e)))

  -- However a session begins, either the thread that goes on with it is started and the socket stays
  -- open, or the socket is closed once and a count down of 60 seconds to the next attempt is the last
  -- call, or no attribute is to be observed, and then neither happens.
  pub session_begins :
      (c : St) → Begun c (get_smart_values_and_update_ui World Supported Values o c)
  unfolding get_smart_values_and_update_ui closes starts
  session_begins c =
      let b =
        add_call World Supported Values o (change_connection_state cnnctd_to_srv)
          (record c { values = o.no_values; connection_state = cnnctd_to_srv }) in
      let ids = get_supported_smart_ids_from_srv World Supported Values o b in
      let vals = get_smart_attr_vals_from_srv World Supported Values o ids.0 in
      let q : IsQuiet c ids.0 = srv_ids-IsQuiet b in
      let p : IsQuiet c vals.0 = (
        omega (arith, (srv_vals-IsQuiet ids.0).0, q.0),
        omega (arith, (srv_vals-IsQuiet ids.0).1, q.1),
      ) in
      if_Begun c (ltb 0 ids.1) _ _ (λ e. give_up-Begun c ids.0 q)
        (λ e.
          if_Begun c (vals.1 == 0) _ _ (λ f. start-Begun c vals.0 p)
            (λ f. give_up-Begun c vals.0 p))
