-- ===== src/Session/Thread.antt =====
-- When the thread of a client notices the end of a server.
use smartmonitor.Common.{
  ℕ, zero, suc, ◌⊎◌, inl, inr, ◌+◌, ◌≤◌, ◌<◌, ◌≡◌, ◌≢◌, refl, Bool, true, false, [], ◌∷◌, Option,
  none, some, arith, ltb, ◌==◌, if◌then◌else◌, length, take, ltb→ge, if_ind,
}
use smartmonitor.Session.{
  start_cnt_down, close_socket, before_wait, set_current_action, read_num_bytes_for_smart_data,
  ThreadRun, left_loop, stays_in_round, ClientOps, add_call, handle_transmission_error, if_count,
  read_num_following_bytes, read_values, get_smart_attr_vals_from_srv, after_get_smart_values_loop,
  update_thread,
}
use smartmonitor.Session.Ending.{closes, St, srv_vals-IsQuiet}

module _ (World Supported Values : Type 0) (o : ClientOps World Supported Values) where
  -- What is left to be delivered: each read takes as many bytes off it as it delivers.
  abbrev pub IsLeft : (World → ℕ) → Type 0
  IsLeft left = (w : World) (n : ℕ) → left (o.read w n).0 + length (o.read w n).1.0 ≤ left w

  abbrev S : Type 0
  S = St World Supported Values o

  module _ (left : World → ℕ) (h : IsLeft left) where
    -- A successful count took two bytes.
    Counted : S → S × Option ℕ → Type 0
    Counted c (d, none) = left d.world ≤ left c.world
    Counted c (d, some n) = left d.world + 2 ≤ left c.world

    num_left : (c : S) → Counted c (read_num_following_bytes World Supported Values o c)
    unfolding read_num_following_bytes handle_transmission_error Counted
    num_left c =
        if_ind (Counted c) (ltb (length (o.read c.world 2).1.0) 2) (λ e. omega (arith, h c.world 2))
          (λ e. omega (arith, h c.world 2, ltb→ge (length (o.read c.world 2).1.0) 2 e))

    values_left :
        (c : S) (n : ℕ) → left (read_values World Supported Values o c n).0.world ≤ left c.world
    unfolding read_values handle_transmission_error
    values_left c n = ground (arith, h c.world n)

    -- A round that succeeds takes something off.
    abbrev Used : S → S × ℕ → Type 0
    Used c r = left r.0.world + (if r.1 == 0 then 1 else 0) ≤ left c.world

    if_count_left :
        (c : S) (r : S × Option ℕ)
        → Counted c r
        → Used c (if_count World Supported Values o (read_values World Supported Values o) r)
    unfolding if_count Counted
    if_count_left c (d, none) q = omega arith
    if_count_left c (d, some n) q =
        if_ind (Used c) (n == 0) (λ e. omega arith) (λ e. ground (arith, values_left d n))

    round_left : (c : S) → Used c (get_smart_attr_vals_from_srv World Supported Values o c)
    unfolding get_smart_attr_vals_from_srv Counted
    round_left c =
        let b =
          add_call World Supported Values o (set_current_action read_num_bytes_for_smart_data) c in
        if_count_left c (read_num_following_bytes World Supported Values o b) (num_left b)

    -- how the thread ends, or where it stays
    abbrev pub Outcome : (ℕ → Bool) → S → ThreadRun S → Type 0
    Outcome returns c r =
        ((e : S) × (r ≡ left_loop e)
          × (closes e.calls ≡ closes c.calls + 1)
          × (take 2 e.calls ≡ start_cnt_down (some 60) ∷ close_socket ∷ []))
        ⊎ ((e : S) × (r ≡ stays_in_round e)
            × (closes e.calls ≡ closes c.calls)
            × ((i : ℕ) × (returns i ≡ false)))

    later-Outcome :
        (returns : ℕ → Bool) (c d : S) (r : ThreadRun S)
        → closes d.calls ≡ closes c.calls
        → Outcome returns d r
        → Outcome returns c r
    later-Outcome returns c d r q (inl (x, u, v, w)) = inl (x, u, omega (arith, v, q), w)
    later-Outcome returns c d r q (inr (x, u, v, w)) = inr (x, u, omega (arith, v, q), w)

    true-ne-false : {b : Bool} → b ≡ true → b ≢ false
    true-ne-false h = λ e. cc

    -- what holds of the state in which the thread ends
    abbrev Retries : S → S → Type 0
    Retries c e =
        (closes e.calls ≡ closes c.calls + 1)
        × (take 2 e.calls ≡ start_cnt_down (some 60) ∷ close_socket ∷ [])

    failed-Retries :
        (c d : S) (result : ℕ)
        → closes d.calls ≡ closes c.calls
        → (result == 0) ≡ false
        → Retries c (after_get_smart_values_loop World Supported Values o result d)
    unfolding after_get_smart_values_loop closes
    failed-Retries c d result q n =
        if_ind (Retries c) (result == 0) (λ e. absurd (true-ne-false e n))
          (λ e. (omega (arith, q), refl))

    round_ends :
        (c : S) (fuel i : ℕ) (returns flag : ℕ → Bool)
        → flag i ≡ true
        → (let r = get_smart_attr_vals_from_srv World Supported Values o c in
            let shown = add_call World Supported Values o before_wait r.0 in
            (r.1 == 0) ≡ true
            → Outcome returns shown
                (update_thread World Supported Values o fuel returns flag (i + 1) shown))
        → Outcome returns c (update_thread World Supported Values o (suc fuel) returns flag i c)
    unfolding update_thread closes
    round_ends c fuel i returns flag f g =
        let r = get_smart_attr_vals_from_srv World Supported Values o c in
        let shown = add_call World Supported Values o before_wait r.0 in
        let q : closes r.0.calls ≡ closes c.calls =
          (srv_vals-IsQuiet World Supported Values o c).0 in
        if_ind (Outcome returns c) (returns i)
          (λ _.
            if_ind (Outcome returns c) (r.1 == 0)
              (λ e.
                if_ind (Outcome returns c) (flag i)
                  (λ t.
                    later-Outcome returns c shown
                      (update_thread World Supported Values o fuel returns flag (i + 1) shown) q
                      (g e))
                  (λ t. absurd (true-ne-false f t)))
              (λ e.
                let (v, w) = failed-Retries c r.0 r.1 q e in
                inl (after_get_smart_values_loop World Supported Values o r.1 r.0, refl, v, w)))
          (λ e. inr (c, refl, refl, (i, e)))

    thread_ends :
        (fuel i : ℕ) (returns flag : ℕ → Bool) (c : S)
        → ((j : ℕ) → flag j ≡ true)
        → left c.world < fuel
        → Outcome returns c (update_thread World Supported Values o fuel returns flag i c)
    thread_ends zero i returns flag c f k = absurd (omega arith)
    thread_ends (suc fuel) i returns flag c f k = round_ends c fuel i returns flag (f i) (λ e.
        thread_ends fuel (i + 1) returns flag
          (add_call World Supported Values o before_wait
            (get_smart_attr_vals_from_srv World Supported Values o c).0)
          f (ground (arith, round_left c)))
