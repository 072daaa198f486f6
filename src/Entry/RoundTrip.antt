-- ===== src/Entry/RoundTrip.antt =====
-- What the client keeps of an attribute is what the service knows of it.
use smartmonitor.Common.{
  ℕ, ◌^◌, ◌≤◌, ◌<◌, ◌≡◌, ◌≢◌, refl, true, List, [], ◌∷◌, Option, some, ◌==◌, if◌then◌else◌, Bytes,
  get_elem?, set, All, arith, Bool-cases, inl, inr,
}
use smartmonitor.Common.Words.{word, half_word}
use smartmonitor.Common.Decimal.{decimal, IsDigit, decimal-All, decimal-ne-nil}
use smartmonitor.UnitGuess.{remove_greater_bit}
use smartmonitor.SupportedIds.{check_smart_id_range}
use smartmonitor.Entry.{
  SmartElement, print_long, print_bound, print_unit, print_smart_element, ClientSlot, int_attribute,
  int64_attribute, unit_of, take_element, handle_single_smart_entry,
}

module _ (max : ℕ) (to_int : Bytes → Option ℕ) (to_int64 : Bytes → Option ℕ) (atol : Bytes → ℕ)
    (reads_int : (n : ℕ) → n < 2 ^ 31 → to_int (decimal n) ≡ some n)
    (reads_int64 : (n : ℕ) → n < word → to_int64 (print_long n) ≡ some n)
    (reads_long : (n : ℕ) → n < half_word → atol (decimal n) ≡ n) where
  bound_lem : (v : ℕ) → v < word → int64_attribute max to_int to_int64 atol (print_bound v) ≡ v
  unfolding int64_attribute print_bound
  bound_lem v h = elim (Bool-cases (v == 0)) [
    | inl e ↦ ground arith
    | inr e ↦ rw (print_bound, e, reads_int64 v h) refl
  ]

  digits_lem :
      (s : Bytes) (old : ℕ)
      → All IsDigit s
      → s ≢ []
      → unit_of max to_int to_int64 atol (some s) old ≡ atol s
  unfolding unit_of
  digits_lem [] old h n = absurd (n refl)
  digits_lem (c ∷ s) old (h, hs) n = ground arith

  unit_lem :
      (unit old : ℕ)
      → unit < word
      → unit_of max to_int to_int64 atol (print_unit unit) old ≡ (if unit == 0 then old else unit)
  unfolding print_unit print_long unit_of
  unit_lem unit old h = ground (
    arith,
    digits_lem (decimal unit) old (decimal-All unit) (decimal-ne-nil unit),
    reads_long unit,
    reads_long (remove_greater_bit unit),
  )

  element_lem :
      (id raw unit lower upper : ℕ) (s : ClientSlot) (e : SmartElement)
      → raw < half_word
      → unit < word
      → lower < word
      → upper < word
      → print_smart_element true true id raw unit lower upper ≡ some e
      → (e.id ≡ decimal id)
        × (take_element max to_int to_int64 atol e s ≡ record {
          successfully_read = true;
          raw = raw;
          unit = if unit == 0 then s.unit else unit;
          lower = lower;
          upper = upper;
        })
  unfolding print_smart_element take_element int64_attribute print_long
  element_lem id raw unit lower upper s e hr hu hl ht p =
      ground
        (arith, reads_int64 raw, unit_lem unit s.unit hu, bound_lem lower hl, bound_lem upper ht)

  -- A read and consistent value that the service sends for an ID in the range of the check and of the
  -- client's slots, with a raw value below 2 ^ 63: the client stores the raw value, both bounds and
  -- the unit with its flag for "at least"; a unit 0 leaves the unit that it had.
  pub entry_arrives :
      (id raw unit lower upper : ℕ) (slots : List ClientSlot) (s : ClientSlot) (e : SmartElement)
      → id ≤ max
      → id < 2 ^ 31
      → raw < half_word
      → unit < word
      → lower < word
      → upper < word
      → get_elem? slots id ≡ some s
      → print_smart_element true true id raw unit lower upper ≡ some e
      → handle_single_smart_entry max to_int to_int64 atol e slots
        ≡ some (
            set slots id (record {
              successfully_read = true;
              raw = raw;
              unit = if unit == 0 then s.unit else unit;
              lower = lower;
              upper = upper;
            }))
  unfolding handle_single_smart_entry int_attribute check_smart_id_range
  entry_arrives id raw unit lower upper slots s e hm hi hr hu hl ht g p =
      let (q, t) = element_lem id raw unit lower upper s e hr hu hl ht p in
      ground (arith, q, t, reads_int id hi, g)
