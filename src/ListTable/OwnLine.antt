-- ===== src/ListTable/OwnLine.antt =====
-- Which line of the table an attribute has.
use smartmonitor.Common.{
  ℕ, zero, suc, ◌+◌, ◌≤◌, ◌<◌, ◌≡◌, ◌≢◌, refl, sym, ap, ◌∙◌, true, false, List, [], ◌∷◌, ◌++◌,
  append_assoc, append-nil, Option, none, some, ◌>>=◌, length, get_elem?, set, get_elem?-set_self,
  get_elem?-set_ne, length-set, All, All-mono, subst, length-append, arith, Option-cases, inl, inr,
  bind_cong, bind_some,
}
use smartmonitor.Common.Sets.{IsAscending}
use smartmonitor.IdArray.{write, smart_ids_to_read_not_end, visit}
use smartmonitor.IdArray.Visit.{NonZero, visit-marked}
use smartmonitor.ListTable.{Lines, create_line, create_lines_from, create_lines}

own_line :
    (ids : List ℕ) (id line : ℕ) (lines : List ℕ)
    → get_elem? lines id ≡ some line
    → ((k x : ℕ) → get_elem? ids k ≡ some x → get_elem? lines x ≡ some (line + 1 + k))
    → (k x : ℕ) → get_elem? (id ∷ ids) k ≡ some x
    → get_elem? lines x ≡ some (line + k)
own_line ids id line lines g own zero x h =
    let z : some id ≡ some x = h in
    let e : id ≡ x = cc in
    subst (λ y. get_elem? lines y ≡ some (line + 0)) e (g ∙ ap some (omega arith))
own_line ids id line lines g own (suc k) x h = own k x h ∙ ap some (omega arith)

module _ (insert_item : List ℕ → ℕ → ℕ → List ℕ) where
  -- the lines for IDs, one after another
  create_each : List ℕ → ℕ → Lines → Option Lines
  create_each [] line t = some t
  create_each (id ∷ ids) line t =
      create_line insert_item id line t >>= λ u. create_each ids (line + 1) u

  -- Enough rounds visit the IDs and create a line for each.
  create_lines-visit :
      (fuel : ℕ) (ids : List ℕ) (line : ℕ) (t : Lines) (xs : List ℕ)
      → visit fuel ids line ≡ some xs
      → create_lines_from insert_item fuel ids line t ≡ create_each xs line t
  unfolding create_lines_from create_each visit
  create_lines-visit zero ids line t xs h =
      absurd (let z : ◌≡◌ {A = Option (List ℕ)} none (some xs) = h in cc)
  create_lines-visit (suc fuel) ids line t xs h =
      elim (Option-cases (smart_ids_to_read_not_end ids line)) [
        | inl q ↦
            absurd (
              let z : ◌≡◌ {A = Option (List ℕ)} none (some xs) = sym (rw (visit, q) refl) ∙ h in cc)
        | inr (false, q) ↦
            let z : ◌≡◌ {A = Option (List ℕ)} (some []) (some xs) = sym (rw (visit, q) refl) ∙ h in
            let e : [] ≡ xs = cc in rw (create_lines_from, q) (ap (λ zs. create_each zs line t) e)
        | inr (true, q) ↦ elim (Option-cases (get_elem? ids line)) [
          | inl g ↦ absurd (
              let z : ◌≡◌ {A = Option (List ℕ)} none (some xs) = sym (rw (visit, q, g) refl) ∙ h in
              cc)
          | inr (x, g) ↦
              let (ys, (k, z)) =
                bind_some (visit fuel ids (line + 1)) (λ ys. some (x ∷ ys)) xs
                  (sym (rw (visit, q, g) refl) ∙ h) in
              let e : x ∷ ys ≡ xs = cc in
              rw (create_lines_from, q, g)
                (bind_cong (create_line insert_item x line t) _ _
                    (λ u. create_lines-visit fuel ids (line + 1) u ys k)
                  ∙ ap (λ zs. create_each zs line t) e)
        ]
      ]

  module _
      (append_beyond : (items : List ℕ) (pos x : ℕ)
        → length items ≤ pos
        → insert_item items pos x ≡ items ++ (x ∷ [])) where
    -- What the loop leaves: the items in order, and a line for each.
    create_each_lem :
        (ids : List ℕ) (line : ℕ) (t : Lines)
        → IsAscending ids
        → All (λ x. line ≤ x) ids
        → All (λ x. x < length t.line_number) ids
        → length t.items ≡ line
        → (u : Lines) × ((create_each ids line t ≡ some u)
            × ((u.items ≡ t.items ++ ids)
                × (((k x : ℕ)
                      → get_elem? ids k ≡ some x
                      → get_elem? u.line_number x ≡ some (line + k))
                    × ((y : ℕ)
                        → All (λ x. y < x) ids
                        → get_elem? u.line_number y ≡ get_elem? t.line_number y))))
    unfolding create_each create_line write
    create_each_lem [] line t a lo hi e = (
      t,
      (
        refl,
        (
          sym (append-nil t.items),
          (λ k x h. absurd (let z : ◌≡◌ {A = Option ℕ} none (some x) = h in cc), λ y h. refl),
        ),
      ),
    )
    create_each_lem (id ∷ ids) line t (p, a) (l, lo) (h, hi) e =
        let w : write t.line_number id line ≡ some (set t.line_number id line) = ground arith in
        let items_eq : insert_item t.items id id ≡ t.items ++ (id ∷ []) =
          append_beyond t.items id id (omega (arith, e, l)) in
        let v : Lines = record {
          line_number = set t.line_number id line;
          items = insert_item t.items id id;
        } in
        let n : length v.items ≡ line + 1 =
          ap length items_eq ∙ (length-append t.items (id ∷ []) ∙ omega (arith, e)) in
        let (u, (r, (i, (own, kept)))) =
          create_each_lem ids (line + 1) v a
            (All-mono (λ y. id < y) (λ y. line + 1 ≤ y) ids (λ x g. omega (arith, g, l)) p)
            (All-mono (λ x. x < length t.line_number) (λ x. x < length v.line_number) ids
              (λ x g. omega (arith, g, length-set t.line_number id line)) hi)
            n in
        (
          u,
          (
            rw w r,
            (
              i ∙ (ap (λ x. x ++ ids) items_eq ∙ append_assoc t.items (id ∷ []) ids),
              (
                own_line ids id line u.line_number
                    (kept id p ∙ get_elem?-set_self t.line_number id line h) own,
                λ y (q, g).
                    kept y g ∙ get_elem?-set_ne t.line_number id y line (λ e. omega (arith, q, e)),
              ),
            ),
          ),
        )

    -- When an item that is inserted behind the last one is appended, `CreateLines` on the IDs in
    -- front of the mark, ascending, not 0 and inside the array, gives each ID its own line: the
    -- k-th ID gets line k, where its item is, however many more rounds than IDs there are.
    pub create_lines_lem :
        (ids junk : List ℕ) (fuel : ℕ) (line_number : List ℕ)
        → IsAscending ids
        → NonZero ids
        → All (λ x. x < length line_number) ids
        → length ids < fuel
        → (u : Lines) × ((create_lines insert_item fuel
                (ids ++ 0 ∷ junk)
                (record { line_number = line_number; items = [] })
              ≡ some u)
            × ((u.items ≡ ids)
                × ((k x : ℕ) → get_elem? ids k ≡ some x → get_elem? u.line_number x ≡ some k)))
    unfolding create_lines
    create_lines_lem ids junk fuel line_number a nz hi f =
        let t : Lines = record { line_number = line_number; items = [] } in
        let (u, (r, (i, (own, kept)))) =
          create_each_lem ids 0 t a (All-mono (λ x. x ≢ 0) (λ x. 0 ≤ x) ids (λ x g. omega arith) nz)
            hi refl in
        (
          u,
          (
            create_lines-visit fuel (ids ++ 0 ∷ junk) 0 t ids (visit-marked ids junk fuel nz f) ∙ r,
            (i, λ k x g. own k x g ∙ ap some (omega arith)),
          ),
        )
