-- ===== src/XmlData/Slots.antt =====
-- The attributes of a message, and what the client's slots hold of them.
use smartmonitor.Common.{
  ℕ, zero, suc, ◌^◌, ◌≤◌, ◌<◌, ◌≡◌, ◌≢◌, refl, ap, ◌∙◌, Bool, true, false, ◌&&◌, List, [], ◌∷◌,
  Option, none, some, ◌==◌, if◌then◌else◌, length, get_elem?, set, length-set, get_elem?-set_self,
  get_elem?-set_ne, All, All-mono, arith, Bool-cases, Option-cases, inl, inr, subst,
}
use smartmonitor.Common.Words.{word, half_word}
use smartmonitor.Common.Sets.{IsAscending}
use smartmonitor.Entry.{SmartElement, ClientSlot, print_smart_element}

-- What the service knows of an attribute.
pub record Known : Type 0 where
  pub id : ℕ
  pub read : Bool
  pub consistent : Bool
  pub raw : ℕ
  pub unit : ℕ
  pub lower : ℕ
  pub upper : ℕ

-- The elements that it sends.
unfoldable pub elements_of : List Known → List SmartElement
elements_of [] = []
elements_of (k ∷ ks) =
    let rest = elements_of ks in
    elim (print_smart_element k.read k.consistent k.id k.raw k.unit k.lower k.upper) [
      | none ↦ rest
      | some e ↦ e ∷ rest
    ]

abbrev pub ids_of : List Known → List ℕ
ids_of [] = []
ids_of (k ∷ ks) = k.id ∷ ids_of ks

-- What the client then holds in a slot.
abbrev pub slot_of : Known → ClientSlot → ClientSlot
slot_of k s = record {
  successfully_read = true;
  raw = k.raw;
  unit = if k.unit == 0 then s.unit else k.unit;
  lower = k.lower;
  upper = k.upper;
}

-- numbers of the widths that they have
abbrev pub IsInRange : ℕ → List ClientSlot → Known → Type 0
IsInRange max slots k =
    (k.id ≤ max)
    × ((k.id < 2 ^ 31)
        × ((k.raw < half_word)
            × ((k.unit < word) × ((k.lower < word) × ((k.upper < word) × (k.id < length slots))))))

-- the slots behind one attribute, and behind all
unfoldable pub store_one : Known → List ClientSlot → List ClientSlot
store_one k slots = elim (k.read && k.consistent) [
  | true ↦ elim (get_elem? slots k.id) [ none ↦ slots | some s ↦ set slots k.id (slot_of k s) ]
  | false ↦ slots
]

unfoldable pub filled : List Known → List ClientSlot → List ClientSlot
filled [] slots = slots
filled (k ∷ ks) slots = filled ks (store_one k slots)

store_one-other :
    (k : Known) (slots : List ClientSlot) (y : ℕ)
    → k.id ≢ y
    → get_elem? (store_one k slots) y ≡ get_elem? slots y
unfolding store_one
store_one-other k slots y n = elim (Bool-cases (k.read && k.consistent)) [
  | inr q ↦ rw (store_one, q) refl
  | inl q ↦ elim (Option-cases (get_elem? slots k.id)) [
    | inl g ↦ rw (store_one, q, g) refl
    | inr (s, g) ↦ rw (store_one, q, g) (get_elem?-set_ne slots k.id y (slot_of k s) n)
  ]
]

store_one-length : (k : Known) (slots : List ClientSlot) → length (store_one k slots) ≡ length slots
unfolding store_one
store_one-length k slots = elim (Bool-cases (k.read && k.consistent)) [
  | inr q ↦ rw (store_one, q) refl
  | inl q ↦ elim (Option-cases (get_elem? slots k.id)) [
    | inl g ↦ rw (store_one, q, g) refl
    | inr (s, g) ↦ rw (store_one, q, g) (length-set slots k.id (slot_of k s))
  ]
]

pub filled-other :
    (ks : List Known) (slots : List ClientSlot) (y : ℕ)
    → All (λ x. x ≢ y) (ids_of ks)
    → get_elem? (filled ks slots) y ≡ get_elem? slots y
unfolding filled
filled-other [] slots y a = refl
filled-other (k ∷ ks) slots y (n, a) =
    filled-other ks (store_one k slots) y a ∙ store_one-other k slots y n

store_one-own :
    (k : Known) (slots : List ClientSlot) (s : ClientSlot)
    → (k.read && k.consistent) ≡ true
    → k.id < length slots
    → get_elem? slots k.id ≡ some s
    → get_elem? (store_one k slots) k.id ≡ some (slot_of k s)
unfolding store_one
store_one-own k slots s q h g = rw (store_one, q, g) (get_elem?-set_self slots k.id (slot_of k s) h)

id_above :
    (ks : List Known) (j : ℕ) (k : Known) (lo : ℕ)
    → All (λ x. lo < x) (ids_of ks)
    → get_elem? ks j ≡ some k
    → lo < k.id
id_above [] j k lo a h = absurd (let z : ◌≡◌ {A = Option Known} none (some k) = h in cc)
id_above (x ∷ ks) zero k lo (p, a) h =
    let z : some x ≡ some k = h in let e : x ≡ k = cc in subst (λ (y : Known). lo < y.id) e p
id_above (x ∷ ks) (suc j) k lo (p, a) h = id_above ks j k lo a h

pub filled-own :
    (ks : List Known) (slots : List ClientSlot) (j : ℕ) (k : Known) (s : ClientSlot)
    → IsAscending (ids_of ks)
    → get_elem? ks j ≡ some k
    → (k.read && k.consistent) ≡ true
    → k.id < length slots
    → get_elem? slots k.id ≡ some s
    → get_elem? (filled ks slots) k.id ≡ some (slot_of k s)
unfolding filled
filled-own [] slots j k s a h q l g =
    absurd (let z : ◌≡◌ {A = Option Known} none (some k) = h in cc)
filled-own (x ∷ ks) slots zero k s (p, a) h q l g =
    let z : some x ≡ some k = h in
    let e : k ≡ x = cc in
    let n : All (λ y. y ≢ k.id) (ids_of ks) =
      All-mono (λ y. x.id < y) (λ y. y ≢ k.id) (ids_of ks)
        (λ y b c. let d : k.id ≡ x.id = ap (λ (w : Known). w.id) e in omega (arith, b, c, d)) p in
    filled-other ks (store_one x slots) k.id n
    ∙ subst (λ (w : Known). get_elem? (store_one w slots) k.id ≡ some (slot_of k s)) e
        (store_one-own k slots s q l g)
filled-own (x ∷ ks) slots (suc j) k s (p, a) h q l g =
    let n : x.id < k.id = id_above ks j k x.id p h in
    let other : get_elem? (store_one x slots) k.id ≡ some s =
      store_one-other x slots k.id (λ e. omega (arith, n, e)) ∙ g in
    filled-own ks (store_one x slots) j k s a h q (omega (arith, l, store_one-length x slots)) other
