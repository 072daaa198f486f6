-- ===== src/SupportedDialog/Filled.antt =====
-- What the window shows: one line for each supported ID, also for a full array.
use smartmonitor.Common.{
  ℕ, ◌+◌, ◌≤◌, ◌<◌, ◌≡◌, refl, sym, ap, ◌∙◌, Bool, true, List, [], ◌∷◌, ◌++◌, append_assoc,
  append-nil, some, ◌==◌, if◌then◌else◌, length, bind_of, set, length-set, length-append, All,
  All-mono, arith, Bool-cases, inl, inr,
}
use smartmonitor.IdArray.{write}
use smartmonitor.IdArray.Write.{get_elem?-append}
use smartmonitor.ListTable.{Lines}
use smartmonitor.SupportedDialog.{FillCall, insert_line, fill_calls, fill_from, fill_gui}

-- The entries in front of the mark, or all of them.
unfoldable pub before_mark : List ℕ → List ℕ
before_mark [] = []
before_mark (x ∷ xs) = let rest = before_mark xs in if x == 0 then [] else x ∷ rest

-- the calls for IDs, one after another
unfoldable pub calls_for : Bool → Bool → List ℕ → List FillCall
calls_for found create [] = []
calls_for found create (id ∷ ids) = fill_calls create found id ++ calls_for found create ids

module _ (insert_item : List ℕ → ℕ → ℕ → List ℕ) (found : Bool) where
  grow :
      (id : ℕ) (done ids : List ℕ) (v : Lines)
      → fill_from insert_item (length ids) (done ++ id ∷ ids) (length done + 1) true found v
        ≡ fill_from insert_item
            (length ids)
            ((done ++ (id ∷ [])) ++ ids)
            (length (done ++ (id ∷ [])))
            true
            found
            v
  grow id done ids v = cc (append_assoc done (id ∷ []) ids, length-append done (id ∷ []))

  module _
      (append_beyond : (items : List ℕ) (pos x : ℕ)
        → length items ≤ pos
        → insert_item items pos x ≡ items ++ (x ∷ [])) where
    fill_from_lem :
        (done ids : List ℕ) (t : Lines)
        → All (λ x. x < length t.line_number) ids
        → length t.items ≡ length done
        → (u : Lines) × ((fill_from insert_item
                (length ids)
                (done ++ ids)
                (length done)
                true
                found
                t
              ≡ some (u, calls_for found true (before_mark ids)))
            × ((u.items ≡ t.items ++ before_mark ids)
                × (length u.line_number ≡ length t.line_number)))
    unfolding fill_from calls_for before_mark insert_line write
    fill_from_lem done [] t a e = (t, (refl, (sym (append-nil t.items), refl)))
    fill_from_lem done (id ∷ ids) t (h, a) e = elim (Bool-cases (id == 0)) [
      | inl q ↦ (
        t,
        (
          bind_of _ (get_elem?-append done id ids) ∙ rw q refl,
          (rw (before_mark, q) (sym (append-nil t.items)), refl),
        ),
      )
      | inr q ↦
          let v : Lines = record {
            line_number = set t.line_number id (length done);
            items = insert_item t.items (length done) id;
          } in
          let w : write t.line_number id (length done) ≡ some v.line_number = ground arith in
          let k : length v.line_number ≡ length t.line_number =
            length-set t.line_number id (length done) in
          let j : v.items ≡ t.items ++ (id ∷ []) =
            append_beyond t.items (length done) id (omega (arith, e)) in
          let n : length v.items ≡ length (done ++ (id ∷ [])) =
            ap length j
            ∙ (length-append t.items (id ∷ []) ∙ omega (arith, e, length-append done (id ∷ []))) in
          let (u, (r, (i, m))) =
            fill_from_lem (done ++ (id ∷ [])) ids v
              (All-mono (λ x. x < length t.line_number) (λ x. x < length v.line_number) ids
                (λ x g. omega (arith, g, k)) a)
              n in
          (
            u,
            (
              bind_of _ (get_elem?-append done id ids) ∙ rw (q, w, grow id done ids v, r) refl,
              (
                rw (before_mark, q)
                    (i
                      ∙ (ap (λ x. x ++ before_mark ids) j
                          ∙ append_assoc t.items (id ∷ []) (before_mark ids))),
                m ∙ k,
              ),
            ),
          )
    ]

    -- When an item that is inserted behind the last one is appended and the IDs are inside the array
    -- of line numbers, `FillGUI` of a new window ends, never reads beyond the array of supported IDs
    -- even if it has no mark, and inserts and labels one line for each ID in front of the mark, in
    -- order.
    pub fill_gui_lem :
        (ids line_number : List ℕ)
        → All (λ x. x < length line_number) ids
        → (u : Lines) × ((fill_gui insert_item
                (length ids)
                ids
                true
                found
                (record { line_number = line_number; items = [] })
              ≡ some (u, calls_for found true (before_mark ids)))
            × (u.items ≡ before_mark ids))
    unfolding fill_gui
    fill_gui_lem ids line_number a =
        let (u, (r, (i, m))) =
          fill_from_lem [] ids (record { line_number = line_number; items = [] }) a refl in
        (u, (r, i))
