-- ===== src/Access/Total.antt =====
-- Attributes in the range of the arrays are always stored.
use smartmonitor.Common.{
  ℕ, Option-cases, ◌<◌, ◌≡◌, refl, Bool, true, false, List, [], ◌∷◌, Option, none, some, ◌==◌,
  if◌then◌else◌, inl, inr, All, length, set, get_elem?, length-set, get_elem?-in_range,
}
use smartmonitor.IdArray.Spec.{contains}
use smartmonitor.UnitGuess.{UnitSlot, guess_slot, guess_unit}
use smartmonitor.Access.{
  ParsedAttr, AttrVal, AttrIds, Metrics, take_value, guess_with, possibly_auto_detect_unit,
  update_value, stored, unread,
}
use smartmonitor.Access.Each.{read_each}

guess_unit-total :
    (slots : List UnitSlot) (id raw other : ℕ)
    → id < length slots
    → (t : List UnitSlot) × (guess_unit slots id raw other ≡ some t) × (length t ≡ length slots)
unfolding guess_unit
guess_unit-total slots id raw other h = elim (Option-cases (get_elem? slots id)) [
  | inl q ↦ absurd (get_elem?-in_range slots id h q)
  | inr (s, q) ↦ (
    set slots id (guess_slot s raw other),
    rw (guess_unit, q) refl,
    length-set slots id (guess_slot s raw other),
  )
]

guess_with-total :
    (o : Option ℕ) (slots : List UnitSlot) (id raw : ℕ)
    → id < length slots
    → (t : List UnitSlot) × (guess_with o slots id raw ≡ some t) × (length t ≡ length slots)
unfolding guess_with
guess_with-total none slots id raw h = (slots, refl, refl)
guess_with-total (some other) slots id raw h = guess_unit-total slots id raw other h

if-total : {A : Type 0} (b : Bool) (P : A → Type 0) (x y : A) → P x → P y → P (if b then x else y)
if-total true P x y p q = p
if-total false P x y p q = q

detect-total :
    (k : AttrIds) (m : Metrics) (id raw : ℕ) (slots : List UnitSlot)
    → id < length slots
    → (t : List UnitSlot) × (possibly_auto_detect_unit k m id raw slots ≡ some t)
      × (length t ≡ length slots)
unfolding possibly_auto_detect_unit
detect-total k m id raw slots h =
    let P : Option (List UnitSlot) → Type 0 =
      λ o. (t : List UnitSlot) × (o ≡ some t) × (length t ≡ length slots) in
    if-total (id == k.power_on_time) P _ _ (guess_unit-total slots id raw m.uptime_ms h) (
      if-total (id == k.gib_erased) P _ _ (slots, refl, refl)
        (if-total (id == k.total_data_written) P _ _
          (guess_with-total m.num_written_b slots id raw h)
          (if-total (id == k.total_data_read) P _ _ (guess_with-total m.num_read_b slots id raw h)
            (slots, refl, refl))))

update-total :
    (values : List AttrVal) (id : ℕ) (f : AttrVal → AttrVal)
    → id < length values
    → (v : List AttrVal) × (update_value values id f ≡ some v) × (length v ≡ length values)
unfolding update_value
update-total values id f h = elim (Option-cases (get_elem? values id)) [
  | inl q ↦ absurd (get_elem?-in_range values id h q)
  | inr (x, q) ↦ (set values id (f x), rw (update_value, q) refl, length-set values id (f x))
]

take_value-total :
    (k : AttrIds) (m : Metrics) (a : ParsedAttr) (b : Bool) (values : List AttrVal)
    (slots : List UnitSlot)
    → a.id < length values
    → a.id < length slots
    → (v : List AttrVal) × (t : List UnitSlot) × (take_value k m a b values slots ≡ some (v, t))
      × (length v ≡ length values)
      × (length t ≡ length slots)
unfolding take_value
take_value-total k m a true values slots h h' =
    let (t, e, l) = detect-total k m a.id a.raw slots h' in
    let (v, d, n) = update-total values a.id (stored m a) h in (v, t, rw (e, d) refl, n, l)
take_value-total k m a false values slots h h' =
    let (v, d, n) = update-total values a.id unread h in (v, slots, rw d refl, n, refl)

pub read_each-total :
    (wanted : List ℕ) (k : AttrIds) (attrs : List (ParsedAttr × Metrics)) (values : List AttrVal)
    (slots : List UnitSlot)
    → All (λ a. (a.0.id < length values) × (a.0.id < length slots)) attrs
    → (v : List AttrVal) × (t : List UnitSlot) × (read_each wanted k attrs (values, slots)
        ≡ some (v, t))
unfolding read_each
read_each-total wanted k [] values slots h = (values, slots, refl)
read_each-total wanted k ((a, m) ∷ attrs) values slots ((h, h'), hs) =
    let (v, t, e, l, n) = take_value-total k m a (contains wanted a.id) values slots h h' in
    let (v', t', e') = read_each-total wanted k attrs v t (rw (l, n) hs) in (v', t', rw e e')
