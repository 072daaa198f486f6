-- ===== src/TextUi/Lines.antt =====
-- The lines of the attributes.
use smartmonitor.Common.{
  ℕ, ◌<◌, ◌≡◌, refl, List, [], ◌∷◌, Option, none, some, ◌==◌, arith, ◌⊎◌, inl, inr, Option-cases,
  Bool-cases, Bytes, sym, ap, ◌∙◌, ==_iff,
}
use smartmonitor.TextUi.{Table, line_of, place, re_build_user_interface, draw_names}

-- Lines are below the next one, and no two attributes have the same.
abbrev pub IsLaidOut : Table → Type 0
IsLaidOut t =
    ((a l : ℕ) → line_of t.lines a ≡ some l → l < t.last_line_number)
    × ((a b l : ℕ) → line_of t.lines a ≡ some l → line_of t.lines b ≡ some l → a ≡ b)

line_cases :
    (id n a l : ℕ) (ls : List (ℕ × ℕ))
    → line_of ((id, n) ∷ ls) a ≡ some l
    → ((id ≡ a) × (n ≡ l)) ⊎ (line_of ls a ≡ some l)
unfolding line_of
line_cases id n a l ls h = ground arith

place-IsLaidOut : (id : ℕ) (t : Table) → IsLaidOut t → IsLaidOut (place id t)
unfolding place
place-IsLaidOut id t (below, own) = elim (Option-cases (line_of t.lines id)) [
  | inr (l, e) ↦ rw (place, e) (below, own)
  | inl e ↦
      rw (place, e)
        (
          (λ a l h. elim (line_cases id t.last_line_number a l t.lines h) [
            | inl (_, q) ↦ omega (arith, q)
            | inr q ↦ omega (arith, below a l q)
          ]),
          (λ a b l h k.
              both t a b l (line_cases id t.last_line_number a l t.lines h)
                (line_cases id t.last_line_number b l t.lines k) below own),
        )
]
  where
    both :
        (t : Table) (a b l : ℕ)
        → ((id ≡ a) × (t.last_line_number ≡ l)) ⊎ (line_of t.lines a ≡ some l)
        → ((id ≡ b) × (t.last_line_number ≡ l)) ⊎ (line_of t.lines b ≡ some l)
        → ((c k : ℕ) → line_of t.lines c ≡ some k → k < t.last_line_number)
        → ((c d k : ℕ) → line_of t.lines c ≡ some k → line_of t.lines d ≡ some k → c ≡ d)
        → a ≡ b
    both t a b l (inl (p, _)) (inl (q, _)) below own = omega (arith, p, q)
    both t a b l (inl (p, q)) (inr h) below own = absurd (omega (arith, q, below b l h))
    both t a b l (inr h) (inl (p, q)) below own = absurd (omega (arith, q, below a l h))
    both t a b l (inr h) (inr k) below own = own a b l h k

-- the attributes that get values, one after another
unfoldable pub place_all : List ℕ → Table → Table
place_all [] t = t
place_all (id ∷ ids) t = place_all ids (place id t)

place_all-IsLaidOut : (ids : List ℕ) (t : Table) → IsLaidOut t → IsLaidOut (place_all ids t)
unfolding place_all
place_all-IsLaidOut [] t h = h
place_all-IsLaidOut (id ∷ ids) t h = place_all-IsLaidOut ids (place id t) (place-IsLaidOut id t h)

line_of-place :
    (id : ℕ) (t : Table) (a l : ℕ)
    → line_of t.lines a ≡ some l
    → line_of (place id t).lines a ≡ some l
unfolding place line_of
line_of-place id t a l h = elim (Option-cases (line_of t.lines id)) [
  | inr (k, e) ↦ rw (place, e) h
  | inl e ↦ elim (Bool-cases (id == a)) [
    | inr q ↦ rw (place, e, q) h
    | inl q ↦
        let r : id ≡ a = (==_iff id a).0 q in
        let z : ◌≡◌ {A = Option ℕ} none (some l) = sym e ∙ (ap (line_of t.lines) r ∙ h) in cc
  ]
]

-- an attribute keeps its line
line_of-place_all :
    (ids : List ℕ) (t : Table) (a l : ℕ)
    → line_of t.lines a ≡ some l
    → line_of (place_all ids t).lines a ≡ some l
unfolding place_all
line_of-place_all [] t a l h = h
line_of-place_all (id ∷ ids) t a l h =
    line_of-place_all ids (place id t) a l (line_of-place id t a l h)

new_line :
    (id : ℕ) (t : Table)
    → line_of t.lines id ≡ none
    → line_of (place id t).lines id ≡ some t.last_line_number
unfolding place line_of
new_line id t e = rw (place, e) (ground arith)

-- the table of a new `NcursesUI`
abbrev pub initial_table : Table
initial_table = record { lines = []; last_line_number = 0; drawn = [] }

-- The first time the window is built, with labels for the attributes `id ∷ ids` of a data carrier, no
-- two of them share a line. The attribute without a label that is set next gets the line of the
-- first one: both are drawn over each other.
pub lines_lem :
    (names : List (Bytes × ℕ)) (id : ℕ) (ids : List ℕ) (new : ℕ)
    → let t = re_build_user_interface names (place_all (id ∷ ids)) initial_table in
      line_of t.lines new ≡ none
      → ((a b l : ℕ) → line_of t.lines a ≡ some l → line_of t.lines b ≡ some l → a ≡ b)
        × (line_of (place new t).lines id ≡ some 2)
        × (line_of (place new t).lines new ≡ some 2)
unfolding re_build_user_interface
lines_lem names id ids new h =
    let begun : Table = record initial_table {
      last_line_number = 2;
      drawn = draw_names 0 names [];
    } in
    let t : Table = re_build_user_interface names (place_all (id ∷ ids)) initial_table in
    let laid : IsLaidOut begun =
      unfold line_of in ((λ a l h. ground arith), (λ a b l h k. ground arith)) in
    let first : line_of (place_all (id ∷ ids) begun).lines id ≡ some 2 =
      unfold place_all in
      line_of-place_all ids (place id begun) id 2 (new_line id begun (unfold line_of in refl)) in
    (
      (place_all-IsLaidOut (id ∷ ids) begun laid).1,
      line_of-place new t id 2 first,
      new_line new t h,
    )
