-- ===== src/UpdateLoop/Kept.antt =====
-- What the lines hold behind a round for direct access.
use smartmonitor.Common.{
  ℕ, ◌+◌, ◌≤◌, ◌≡◌, refl, sym, ap, ◌∙◌, subst, Bool, true, false, List, [], ◌∷◌, ◌++◌, append_assoc,
  length-append, Option, some, length, set, length-set, if◌then◌else◌, arith, bind_of, All,
  get_elem?,
}
use smartmonitor.Attr.{RawValue, is_consistent}
use smartmonitor.IdArray.{write}
use smartmonitor.IdArray.Write.{write-append}
use smartmonitor.UpdateLoop.Lines.{
  QueryLines, upd8_line, upd8_lines, upd8_carriers, upd8_smart_vals_drctly_thread_safe,
}
use smartmonitor.ConfigFiles.{access_success}

-- the raw values that are consistent, in the order of the IDs
unfoldable pub kept_values : (ℕ → ℕ × Bool) → List ℕ → List ℕ
kept_values checked [] = []
kept_values checked (id ∷ ids) =
    let rest = kept_values checked ids in if (checked id).1 then (checked id).0 ∷ rest else rest

write_below : (xs : List ℕ) (i v : ℕ) → i + 1 ≤ length xs → write xs i v ≡ some (set xs i v)
unfolding write
write_below xs i v h = ground arith

same_length :
    (done : List ℕ) (v t : ℕ) (ts : List ℕ) (q : QueryLines)
    → q.raw_values ≡ done ++ t ∷ ts
    → length (done ++ v ∷ ts) ≡ length q.raw_values
same_length done v t ts q e =
    length-append done (v ∷ ts) ∙ (sym (length-append done (t ∷ ts)) ∙ sym (ap length e))

module _ (size : ℕ) (tick : ℕ → ℕ) where
  line_dropped :
      (v : RawValue) (raw line : ℕ) (q : QueryLines) (raws : List ℕ)
      → is_consistent size v ≡ some (raw, false)
      → write q.raw_values line raw ≡ some raws
      → upd8_line size tick v line q ≡ some (record q { raw_values = raws }, line)
  unfolding upd8_line
  line_dropped v raw line q raws h k = bind_of _ h ∙ bind_of _ k

  line_kept :
      (v : RawValue) (raw line : ℕ) (q : QueryLines) (raws ticks : List ℕ)
      → is_consistent size v ≡ some (raw, true)
      → write q.raw_values line raw ≡ some raws
      → write q.tick_counts line (tick q.readings) ≡ some ticks
      → upd8_line size tick v line q
        ≡ some (
          record q { raw_values = raws; tick_counts = ticks; readings = q.readings + 1 },
          line + 1,
        )
  unfolding upd8_line
  line_kept v raw line q raws ticks h k l = bind_of _ h ∙ (bind_of _ k ∙ bind_of _ l)

  -- The lines from one on are filled, so many as values are kept, and the arrays stay as long.
  Filled : Option QueryLines → QueryLines → List ℕ → List ℕ → Type 0
  Filled o q done kept =
      (u : QueryLines) × ((o ≡ some u)
        × (((rest : List ℕ) × (u.raw_values ≡ done ++ (kept ++ rest)))
            × ((length u.raw_values ≡ length q.raw_values)
                × (length u.tick_counts ≡ length q.tick_counts))))

  -- the value of an ID can be read, as this raw value and whether it is consistent
  abbrev pub IsRead : List RawValue → ℕ → ℕ × Bool → Type 0
  IsRead values id r =
      (v : RawValue) × ((get_elem? values id ≡ some v) × (is_consistent size v ≡ some r))

  -- one attribute, in front of the others
  step-Filled :
      (values : List RawValue) (checked : ℕ → ℕ × Bool)
      → (id : ℕ) → IsRead values id (checked id)
      → (ids done : List ℕ) (t : ℕ) (ts : List ℕ) (q : QueryLines)
      → ((done rest : List ℕ) (q : QueryLines)
          → q.raw_values ≡ done ++ rest
          → length ids ≤ length rest
          → length done + length ids ≤ length q.tick_counts
          → Filled
              (upd8_lines size tick values ids (length done) q)
              q
              done
              (kept_values checked ids))
      → q.raw_values ≡ done ++ t ∷ ts
      → length ids + 1 ≤ length ts + 1
      → length done + (length ids + 1) ≤ length q.tick_counts
      → (r : ℕ × Bool) → checked id ≡ r
      → Filled
          (upd8_lines size tick values (id ∷ ids) (length done) q)
          q
          done
          (kept_values checked (id ∷ ids))
  unfolding Filled upd8_lines kept_values
  step-Filled values checked id (v, (gv, cv)) ids done t ts q ih e h k (raw, true) g =
      let w : write q.raw_values (length done) raw ≡ some (done ++ raw ∷ ts) =
        ap (λ xs. write xs (length done) raw) e ∙ write-append done t ts raw in
      let ticks = set q.tick_counts (length done) (tick q.readings) in
      let p : QueryLines = record q {
        raw_values = done ++ raw ∷ ts;
        tick_counts = ticks;
        readings = q.readings + 1;
      } in
      let n : length (done ++ raw ∷ []) ≡ length done + 1 = length-append done (raw ∷ []) in
      let l = length-set q.tick_counts (length done) (tick q.readings) in
      let (u, (s, ((rest, m), (l1, l2)))) =
        ih (done ++ raw ∷ []) ts p (sym (append_assoc done (raw ∷ []) ts)) (omega arith)
          (omega arith) in
      let run : upd8_lines size tick values ids (length done + 1) p ≡ some u =
        subst (λ i. upd8_lines size tick values ids i p ≡ some u) n s in
      (
        u,
        (
          bind_of _ gv
              ∙ bind_of _ (
                  line_kept v raw (length done) q (done ++ raw ∷ ts) ticks (cv ∙ ap some g) w
                    (write_below q.tick_counts (length done) (tick q.readings) (omega arith)))
              ∙ run,
          (
            rw (g) (rest, m ∙ append_assoc done (raw ∷ []) _),
            (l1 ∙ same_length done raw t ts q e, l2 ∙ l),
          ),
        ),
      )
  step-Filled values checked id (v, (gv, cv)) ids done t ts q ih e h k (raw, false) g =
      let w : write q.raw_values (length done) raw ≡ some (done ++ raw ∷ ts) =
        ap (λ xs. write xs (length done) raw) e ∙ write-append done t ts raw in
      let p : QueryLines = record q { raw_values = done ++ raw ∷ ts } in
      let (u, (s, (rest, (l1, l2)))) = ih done (raw ∷ ts) p refl (omega arith) (omega arith) in
      (
        u,
        (
          bind_of _ gv
              ∙ bind_of _ (line_dropped v raw (length done) q (done ++ raw ∷ ts) (cv ∙ ap some g) w)
              ∙ s,
          (rw (g) rest, (l1 ∙ same_length done raw t ts q e, l2)),
        ),
      )

  lines-Filled :
      (values : List RawValue) (checked : ℕ → ℕ × Bool)
      → (ids done rest : List ℕ) → All (λ id. IsRead values id (checked id)) ids
      → (q : QueryLines) → q.raw_values ≡ done ++ rest
      → length ids ≤ length rest
      → length done + length ids ≤ length q.tick_counts
      → Filled (upd8_lines size tick values ids (length done) q) q done (kept_values checked ids)
  unfolding Filled upd8_lines kept_values
  lines-Filled values checked [] done rest c q e h k = (q, (refl, ((rest, e), (refl, refl))))
  lines-Filled values checked (id ∷ ids) done [] c q e h k = absurd (omega arith)
  lines-Filled values checked (id ∷ ids) done (t ∷ ts) (c, cs) q e h k =
      step-Filled values checked id c ids done t ts q
        (λ done rest q. lines-Filled values checked ids done rest cs q) e (omega arith)
        (omega arith) (checked id) refl

  -- There is a slot for each ID, and its value can be read, be it consistent or not.
  abbrev pub IsReadable : List ℕ → List RawValue → Type 0
  IsReadable ids values = (checked : ℕ → ℕ × Bool) × All (λ id. IsRead values id (checked id)) ids

  carriers-Filled :
      (carriers : List (List RawValue)) (last : List RawValue) (checked : ℕ → ℕ × Bool)
      → (ids : List ℕ) → All (IsReadable ids) carriers
      → All (λ id. IsRead last id (checked id)) ids
      → (q : QueryLines) → length ids ≤ length q.raw_values
      → length ids ≤ length q.tick_counts
      → Filled
          (upd8_carriers size tick (carriers ++ last ∷ []) ids q)
          q
          []
          (kept_values checked ids)
  unfolding Filled upd8_carriers
  carriers-Filled [] last checked ids r c q h k =
      let (u, (s, v)) = lines-Filled last checked ids [] q.raw_values c q refl h (omega arith) in
      (u, (bind_of _ s, v))
  carriers-Filled (values ∷ carriers) last checked ids (r, rs) c q h k =
      let (u, (s, (_, (l1, l2)))) =
        lines-Filled values r.0 ids [] q.raw_values r.1 q refl h (omega arith) in
      let (w, (z, (rest, (m1, m2)))) =
        carriers-Filled carriers last checked ids rs c u (omega arith) (omega arith) in
      (w, (bind_of _ s ∙ z, (rest, (m1 ∙ l1, m2 ∙ l2))))

  -- If every observed ID has a slot in the values of each data carrier, where its value can be read, be it
  -- consistent or not, no more IDs are observed than there are lines, and no other thread changes the
  -- containers meanwhile, a round behind a successful access succeeds without leaving the
  -- arrays and sets the time of the update, and the lines begin with the consistent raw values of the
  -- last data carrier, in the order of the IDs and without gaps: those of the others are overwritten.
  pub last_carrier_kept :
      (carriers : List (List RawValue)) (last : List RawValue) (checked : ℕ → ℕ × Bool)
      → (ids : List ℕ) → All (IsReadable ids) carriers
      → All (λ id. IsRead last id (checked id)) ids
      → (q : QueryLines) → length ids ≤ length q.raw_values
      → length ids ≤ length q.tick_counts
      → (u : QueryLines) × ((upd8_smart_vals_drctly_thread_safe size tick access_success
              (carriers ++ last ∷ [])
              ids
              q
            ≡ some (u, access_success))
          × ((u.has_time ≡ true)
              × (((rest : List ℕ) × (u.raw_values ≡ kept_values checked ids ++ rest))
                  × ((length u.raw_values ≡ length q.raw_values)
                      × (length u.tick_counts ≡ length q.tick_counts)))))
  unfolding Filled upd8_smart_vals_drctly_thread_safe
  last_carrier_kept carriers last checked ids r c q h k =
      let (u, (s, v)) = carriers-Filled carriers last checked ids r c q h k in
      (record u { has_time = true }, (bind_of _ s, (refl, v)))
