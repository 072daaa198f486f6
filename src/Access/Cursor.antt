-- ===== src/Access/Cursor.antt =====
-- The callback's cursor into the IDs to read does what a search for each ID does.
use smartmonitor.Common.{
  ℕ, ◌+◌, Option-cases, ◌<◌, ◌≤◌, ◌≡◌, refl, ap, ◌∙◌, List, [], ◌∷◌, ◌++◌, some, arith, ◌⊎◌, inl,
  inr, All, length,
}
use smartmonitor.IdArray.Spec.{Ascends, contains, contains_above, Ascends-All}
use smartmonitor.UnitGuess.{UnitSlot}
use smartmonitor.Access.Each.{AscendingAttrs, read_each, outcome}
use smartmonitor.Access.Total.{read_each-total}
use smartmonitor.Access.{
  ParsedAttr, AttrVal, AttrIds, Metrics, advance, head_is, take_value, get_smart_raw_value_callback,
  read_smart_attrs,
}

-- The IDs that are left agree with all of them from `lo` on.
Agrees : ℕ → List ℕ → List ℕ → Type 0
Agrees lo wanted rest = (t : ℕ) → lo ≤ t → contains rest t ≡ contains wanted t

Ascends-lower : (xs : List ℕ) (lo hi : ℕ) → lo ≤ hi → Ascends hi xs → Ascends lo xs
Ascends-lower [] lo hi h a = tt
Ascends-lower (x ∷ xs) lo hi h (p, a) = (omega arith, a)

-- What the loop of the callback has found.
Advanced : List ℕ → List ℕ → ℕ → ℕ → List ℕ → Type 0
Advanced rest junk lo s left =
    (advance s (rest ++ 0 ∷ junk) ≡ some (left ++ 0 ∷ junk))
    × (head_is s (left ++ 0 ∷ junk) ≡ some (contains rest s))
    × Agrees s rest left
    × Ascends lo left

agrees-cons : (x s t : ℕ) (rest : List ℕ) → x < s → s ≤ t → contains rest t ≡ contains (x ∷ rest) t
unfolding contains
agrees-cons x s t rest h k = ground arith

-- the cursor stands on an ID that is not below the attribute's
stands_lem :
    (x s lo : ℕ) (rest junk : List ℕ)
    → s ≤ x
    → Ascends lo (x ∷ rest)
    → Advanced (x ∷ rest) junk lo s (x ∷ rest)
unfolding Advanced advance head_is contains Agrees
stands_lem x s lo rest junk h (p, a) = (
  ground arith,
  ground (arith, contains_above rest s (Ascends-All rest s x h a)),
  (λ t k. refl),
  (p, a),
)

-- the cursor passes an ID below the attribute's
passes_lem :
    (x s lo : ℕ) (rest junk left : List ℕ)
    → lo < x
    → x < s
    → Advanced rest junk x s left
    → Advanced (x ∷ rest) junk lo s left
unfolding Advanced advance Agrees
passes_lem x s lo rest junk left p h (e, b, g, a) = (
  ground (arith, e),
  b ∙ ap some (agrees-cons x s s rest h (omega arith)),
  (λ t k. g t k ∙ agrees-cons x s t rest h k),
  Ascends-lower left lo x (omega arith) a,
)

le-or-lt : (a b : ℕ) → (a ≤ b) ⊎ (b < a)
le-or-lt a b = ground arith

advance_lem :
    (rest junk : List ℕ) (lo s : ℕ)
    → 0 < s
    → Ascends lo rest
    → (left : List ℕ) × Advanced rest junk lo s left
unfolding Advanced advance head_is contains Agrees
advance_lem [] junk lo s h a = ([], (ground arith, ground arith, (λ t k. refl), tt))
advance_lem (x ∷ rest) junk lo s h (p, a) = elim (le-or-lt s x) [
  | inl k ↦ (x ∷ rest, stands_lem x s lo rest junk k (p, a))
  | inr k ↦
      let (left, v) = advance_lem rest junk x s h a in
      (left, passes_lem x s lo rest junk left p k v)
]

read_smart_attrs-read_each_from :
    (k : AttrIds) (attrs : List (ParsedAttr × Metrics)) (wanted rest junk : List ℕ) (lo hi : ℕ)
    (values : List AttrVal) (slots : List UnitSlot)
    → AscendingAttrs lo attrs
    → Ascends hi rest
    → Agrees (lo + 1) wanted rest
    → outcome (
        read_smart_attrs k attrs
          (record { cursor = rest ++ 0 ∷ junk; values = values; slots = slots }))
      ≡ read_each wanted k attrs (values, slots)
unfolding outcome read_smart_attrs read_each get_smart_raw_value_callback Advanced Agrees
read_smart_attrs-read_each_from k [] wanted rest junk lo hi values slots up asc g = refl
read_smart_attrs-read_each_from k ((a, m) ∷ attrs) wanted rest junk lo hi values slots (p, up) asc
      g =
    let (left, (e, b, agrees, asc')) = advance_lem rest junk hi a.id (omega arith) asc in
    let c : contains rest a.id ≡ contains wanted a.id = g a.id (omega arith) in
    let still : (t : ℕ) → a.id + 1 ≤ t → contains left t ≡ contains wanted t =
      λ t q. agrees t (omega arith) ∙ g t (omega arith) in
    elim (Option-cases (take_value k m a (contains wanted a.id) values slots)) [
      | inl q ↦ rw (get_smart_raw_value_callback, e, b, c, q) refl
      | inr (r, q) ↦
          rw (get_smart_raw_value_callback, e, b, c, q)
            (read_smart_attrs-read_each_from k attrs wanted left junk a.id hi r.0 r.1 up asc' still)
    ]

-- For ascending attributes and ascending IDs to read with their mark, with every attribute in the
-- range of the values and the slots, the reading has a result: each attribute whose ID is to be read
-- is stored with its unit detection called, each other one is marked as not read.
pub read_smart_attrs-read_each :
    (k : AttrIds) (attrs : List (ParsedAttr × Metrics)) (wanted junk : List ℕ)
    (values : List AttrVal) (slots : List UnitSlot)
    → AscendingAttrs 0 attrs
    → Ascends 0 wanted
    → All (λ a. (a.0.id < length values) × (a.0.id < length slots)) attrs
    → (v : List AttrVal) × (t : List UnitSlot) × (read_each wanted k attrs (values, slots)
        ≡ some (v, t))
      × (outcome (
            read_smart_attrs k attrs
              (record { cursor = wanted ++ 0 ∷ junk; values = values; slots = slots }))
          ≡ some (v, t))
unfolding Agrees
read_smart_attrs-read_each k attrs wanted junk values slots up asc h =
    let (v, t, e) = read_each-total wanted k attrs values slots h in
    (
      v,
      t,
      e,
      read_smart_attrs-read_each_from k attrs wanted wanted junk 0 0 values slots up asc
            (λ x q. refl)
          ∙ e,
    )
