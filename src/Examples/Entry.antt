-- ===== src/Examples/Entry.antt =====
-- A power-on time in hours, whose unit is known to be at least 50 minutes.
use smartmonitor.Common.{
  ℕ, ◌+◌, ◌-◌, ◌^◌, ◌<◌, ◌≡◌, ◌≢◌, refl, ap, true, false, ◌&&◌, List, [], ◌∷◌, replicate, length,
  get_elem?, Option, none, some, ◌==◌, if◌then◌else◌, Bytes, All, codes, arith,
}
use smartmonitor.Common.Words.{word, half_word}
use smartmonitor.Common.Decimal.{
  decimal, IsDigit, value, value-decimal, decimal-All, decimal-ne-nil,
}
use smartmonitor.Entry.{print_long, ClientSlot}
use smartmonitor.XmlData.{RootElement, XmlResult, parsed, xml_error, get_smart_raw_values}
use smartmonitor.XmlData.Slots.{Known, elements_of, ids_of, slot_of}
use smartmonitor.XmlData.Arrival.{values_arrive}

to_int : Bytes → Option ℕ
to_int s = some (value 0 s)

to_int-decimal : (n : ℕ) → n < 2 ^ 31 → to_int (decimal n) ≡ some n
unfolding to_int
to_int-decimal n h = ap some (value-decimal n)

to_int64 : Bytes → Option ℕ
to_int64 [] = none
to_int64 (c ∷ s) = if c == b'-' then some (word - value 0 s) else some (value 0 (c ∷ s))

to_int64-digits : (s : Bytes) → All IsDigit s → s ≢ [] → to_int64 s ≡ some (value 0 s)
unfolding to_int64
to_int64-digits [] h n = absurd (n refl)
to_int64-digits (c ∷ s) (h, hs) n = ground arith

to_int64-print_long : (n : ℕ) → n < word → to_int64 (print_long n) ≡ some n
unfolding to_int64 print_long
to_int64-print_long n h = ground (
  arith,
  to_int64-digits (decimal n) (decimal-All n) (decimal-ne-nil n),
  value-decimal n,
  value-decimal (word - n),
)

abbrev slot : ClientSlot
slot = record { successfully_read = false; raw = 0; unit = 0; lower = 0; upper = 0 }

abbrev ten_slots : List ClientSlot
ten_slots = replicate 10 slot

-- The power-on time, and an attribute that could not be read.
abbrev two_known : List Known
two_known =
    record { id = 5; read = false; consistent = true; raw = 1; unit = 0; lower = 0; upper = 0 }
    ∷ record {
      id = 9;
      read = true;
      consistent = true;
      raw = 7;
      unit = half_word + 3000000;
      lower = 3000000;
      upper = 0;
    }
    ∷ []

values_arrive_example :
    (later : List ClientSlot) × ((get_smart_raw_values 255 to_int to_int64
          (value 0)
          (elements_of two_known)
          ten_slots
        ≡ some later)
      × (((j : ℕ) (k : Known) (s : ClientSlot)
            → get_elem? two_known j ≡ some k
            → (k.read && k.consistent) ≡ true
            → k.id < length ten_slots
            → get_elem? ten_slots k.id ≡ some s
            → get_elem? later k.id ≡ some (slot_of k s))
          × ((y : ℕ)
              → All (λ x. x ≢ y) (ids_of two_known)
              → get_elem? later y ≡ get_elem? ten_slots y)))
values_arrive_example =
    values_arrive 255 to_int to_int64 (value 0) to_int-decimal to_int64-print_long
      (λ n h. value-decimal n) two_known ten_slots (ground arith) (ground arith)

abbrev root : RootElement
root = record {
  model = some (codes "M");
  firmware = some (codes "F");
  serial_number = some (codes "1");
  smart = [];
  supported_smart_ids = none;
}

-- an XML library that only looks at the first element
abbrev parse_first : Bytes → ℕ → XmlResult
parse_first [] n = parsed none
parse_first (c ∷ s) n = if c == b'<' then parsed (some root) else xml_error 1
