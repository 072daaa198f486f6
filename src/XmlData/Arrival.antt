-- ===== src/XmlData/Arrival.antt =====
-- All attributes of a message with values, at the service and at the client.
use smartmonitor.Common.{
  ℕ, ◌^◌, ◌<◌, ◌≡◌, ◌≢◌, refl, ◌∙◌, true, false, ◌&&◌, List, [], ◌∷◌, Option, none, some, bind_of,
  Bytes, length, get_elem?, set, length-set, get_elem?-in_range, All, All-mono, arith, Bool-cases,
  Option-cases, inl, inr,
}
use smartmonitor.Common.Words.{word, half_word}
use smartmonitor.Common.Decimal.{decimal}
use smartmonitor.Common.Sets.{IsAscending}
use smartmonitor.Entry.{SmartElement, ClientSlot, print_long, print_smart_element}
use smartmonitor.Entry.RoundTrip.{entry_arrives}
use smartmonitor.XmlData.Slots.{
  Known, elements_of, ids_of, slot_of, IsInRange, store_one, filled, filled-other, filled-own,
}
use smartmonitor.XmlData.{get_smart_raw_values}

print_none :
    (k : Known)
    → (k.read && k.consistent) ≡ false
    → print_smart_element k.read k.consistent k.id k.raw k.unit k.lower k.upper ≡ none
unfolding print_smart_element
print_none k q = rw q refl

print_some :
    (k : Known)
    → (k.read && k.consistent) ≡ true
    → (e : SmartElement) × ((print_smart_element k.read k.consistent k.id k.raw k.unit k.lower
            k.upper
          ≡ some e)
        × (print_smart_element true true k.id k.raw k.unit k.lower k.upper ≡ some e))
unfolding print_smart_element
print_some k q = (_, (rw q refl, refl))

module _ (max : ℕ) (to_int : Bytes → Option ℕ) (to_int64 : Bytes → Option ℕ) (atol : Bytes → ℕ)
    (reads_int : (n : ℕ) → n < 2 ^ 31 → to_int (decimal n) ≡ some n)
    (reads_int64 : (n : ℕ) → n < word → to_int64 (print_long n) ≡ some n)
    (reads_long : (n : ℕ) → n < half_word → atol (decimal n) ≡ n) where
  raw_values_lem :
      (ks : List Known) (slots : List ClientSlot)
      → All (IsInRange max slots) ks
      → get_smart_raw_values max to_int to_int64 atol (elements_of ks) slots
        ≡ some (filled ks slots)
  unfolding get_smart_raw_values elements_of filled store_one
  raw_values_lem [] slots a = refl
  raw_values_lem (k ∷ ks) slots (r, a) = elim (Bool-cases (k.read && k.consistent)) [
    | inr q ↦ rw (elements_of, print_none k q, filled, store_one, q) (raw_values_lem ks slots a)
    | inl q ↦
        let (e, (p, t)) = print_some k q in
        elim (Option-cases (get_elem? slots k.id)) [
          | inl g ↦ absurd (get_elem?-in_range slots k.id r.1.1.1.1.1.1 g)
          | inr (s, g) ↦
              let later : List ClientSlot = set slots k.id (slot_of k s) in
              let h =
                entry_arrives max to_int to_int64 atol reads_int reads_int64 reads_long k.id k.raw
                  k.unit k.lower k.upper slots s e r.0 r.1.0 r.1.1.0 r.1.1.1.0 r.1.1.1.1.0
                  r.1.1.1.1.1.0 g t in
              let b : All (IsInRange max later) ks =
                All-mono (IsInRange max slots) (IsInRange max later) ks
                  (λ x (m, (n, (o, (u, (l, (v, w)))))). (
                    m,
                    (n, (o, (u, (l, (v, omega (arith, w, length-set slots k.id (slot_of k s))))))),
                  ))
                  a in
              rw (elements_of, p, filled, store_one, q, g) (bind_of _ h ∙ raw_values_lem ks later b)
        ]
  ]

  -- The IDs ascend, the numbers are in the ranges of their types and of the client's slots: when the
  -- client has processed all elements that the service sends, the slot of each attribute that was
  -- read and is consistent holds its raw value, its bounds and its unit (a unit 0 leaves the unit
  -- that was there), and the slots of IDs that are not among them are as before.
  pub values_arrive :
      (ks : List Known) (slots : List ClientSlot)
      → IsAscending (ids_of ks)
      → All (IsInRange max slots) ks
      → (later : List ClientSlot) × ((get_smart_raw_values max to_int to_int64 atol
              (elements_of ks)
              slots
            ≡ some later)
          × (((j : ℕ) (k : Known) (s : ClientSlot)
                → get_elem? ks j ≡ some k
                → (k.read && k.consistent) ≡ true
                → k.id < length slots
                → get_elem? slots k.id ≡ some s
                → get_elem? later k.id ≡ some (slot_of k s))
              × ((y : ℕ) → All (λ x. x ≢ y) (ids_of ks) → get_elem? later y ≡ get_elem? slots y)))
  values_arrive ks slots a r = (
    filled ks slots,
    (
      raw_values_lem ks slots r,
      (λ j k s h q l g. filled-own ks slots j k s a h q l g, λ y n. filled-other ks slots y n),
    ),
  )
