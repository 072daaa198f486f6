-- ===== src/Examples/Text.antt =====
-- Printed IDs and times.
use smartmonitor.Common.{
  ℕ, ◌≡◌, refl, List, [], ◌∷◌, Option, none, some, arith, ltb, lt→ltb, ◌<◌, ◌^◌, if◌then◌else◌,
  Bytes, codes,
}
use smartmonitor.Common.Decimal.{decimal, digits, value, value-decimal}
use smartmonitor.IdArray.Spec.{ids}
use smartmonitor.SupportedIds.{print_ids, print_more, get_supported_smart_attributes}
use smartmonitor.SupportedIds.RoundTrip.{supported_ids_arrive}
use smartmonitor.TimeFormat.{fmt_via_oss}
use smartmonitor.TimeFormat.ReadBack.{read, time_read_back}

abbrev to_number : Bytes → Option ℕ
to_number s = if ltb (value 0 s) (2 ^ 31) then some (value 0 s) else none

to_number-decimal : (n : ℕ) → n < 2 ^ 31 → to_number (decimal n) ≡ some n
to_number-decimal n h = rw (value-decimal n, lt→ltb n (2 ^ 31) h) refl

supported_ids_arrive_example :
    (array : List ℕ) × (get_supported_smart_attributes 255 4 to_number
        (codes "1,5,194")
        (0 ∷ 0 ∷ 0 ∷ 0 ∷ [])
      ≡ some (array, 1 ∷ 5 ∷ 194 ∷ []))
    × (ids array ≡ 1 ∷ 5 ∷ 194 ∷ [])
unfolding print_ids print_more decimal digits
supported_ids_arrive_example =
    supported_ids_arrive 255 4 to_number to_number-decimal (1 ∷ 5 ∷ 194 ∷ []) (0 ∷ 0 ∷ 0 ∷ 0 ∷ [])
      (codes "1,5,194") (ground arith) (ground arith) (omega arith) refl refl

time_read_back_example : read 0 0 (fmt_via_oss 93784005) ≡ 93784005
time_read_back_example = time_read_back 93784005 (omega arith)
