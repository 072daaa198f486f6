-- ===== src/Examples/CfgLoader.antt =====
-- Small configuration files.
use Prim.Native.Nat.{Ordering, compare}
use smartmonitor.Common.{
  ℕ, ◌<◌, ◌^◌, ◌≡◌, refl, true, List, [], ◌∷◌, ◌++◌, Option, none, some, arith, Bytes, codes, ltb,
  lt→ltb, if◌then◌else◌,
}
use smartmonitor.Common.Decimal.{decimal, value, value-decimal, decimal-All}
use smartmonitor.IdArray.{set_supported_smart_ids}
use smartmonitor.AttrDefs.{get_smart_attr_def}
use smartmonitor.AttrDefs.Table.{no_def}
use smartmonitor.CfgLoader.{
  DefElement, Tables, ata_defs, read_smart_attr_defs, get_smart_attributes_to_observe,
  CarrierElement, ModelAndFirmware, get_data_carrier_attr_defs, read_smart_data_carrier_defs,
}
use smartmonitor.CfgLoader.Definitions.{defs_of, last_def, ata_definitions}
use smartmonitor.CfgLoader.Carriers.{StrcmpLaws, first_with, models_of, first_definition_wins}
use smartmonitor.CfgLoader.Numbers.{
  number_list, insert_all, IsInt, digits-NoComma, numbers_observed,
}

abbrev element : DefElement
element = record { id = 1; name = some (codes "errors"); critical = some (codes "yes") }

abbrev tables : Tables
tables = record { ata = no_def ∷ no_def ∷ []; nvme = no_def ∷ no_def ∷ [] }

ata_definitions_example :
    (later : Tables) × (v : ℕ) × (read_smart_attr_defs ata_defs (some (element ∷ [])) tables
      ≡ some (true, (later, v)))
    × ((id : ℕ)
        → id < 2
        → get_smart_attr_def later.ata id ≡ last_def id (defs_of [] (element ∷ [])) (some no_def))
ata_definitions_example = ata_definitions element [] tables (omega arith, tt)

-- `strcmp` by the codes
abbrev compare_codes : Bytes → Bytes → Ordering
compare_codes [] [] = Ordering.eq
compare_codes [] (d ∷ t) = Ordering.lt
compare_codes (c ∷ s) [] = Ordering.gt
compare_codes (c ∷ s) (d ∷ t) = elim (compare c d) [
  | Ordering.lt ↦ Ordering.lt
  | Ordering.eq ↦ compare_codes s t
  | Ordering.gt ↦ Ordering.gt
]

codes_equal : (s t : Bytes) → compare_codes s t ≡ Ordering.eq → s ≡ t
codes_equal [] [] h = refl
codes_equal [] (d ∷ t) h = cc
codes_equal (c ∷ s) [] h = cc
codes_equal (c ∷ s) (d ∷ t) h = ground (arith, codes_equal s t)

codes_self : (s : Bytes) → compare_codes s s ≡ Ordering.eq
codes_self [] = refl
codes_self (c ∷ s) = ground (arith, codes_self s)

codes_flip : (s t : Bytes) → compare_codes s t ≡ Ordering.lt → compare_codes t s ≡ Ordering.gt
codes_flip [] [] h = cc
codes_flip [] (d ∷ t) h = refl
codes_flip (c ∷ s) [] h = cc
codes_flip (c ∷ s) (d ∷ t) h = ground (arith, codes_flip s t)

codes_flip_back : (s t : Bytes) → compare_codes s t ≡ Ordering.gt → compare_codes t s ≡ Ordering.lt
codes_flip_back [] [] h = cc
codes_flip_back [] (d ∷ t) h = cc
codes_flip_back (c ∷ s) [] h = refl
codes_flip_back (c ∷ s) (d ∷ t) h = ground (arith, codes_flip_back s t)

codes-StrcmpLaws : StrcmpLaws compare_codes
codes-StrcmpLaws = record {
  equal = codes_equal;
  self = codes_self;
  flip = codes_flip;
  flip_back = codes_flip_back;
}

abbrev carrier_elements : List CarrierElement
carrier_elements =
    (record {
      model = some (codes "SSD");
      firmware = some (codes "1");
      max_tera_bytes_written = some 150;
      params = (9, some (codes "1h")) ∷ [];
    })
    ∷ (record {
      model = some (codes "SSD");
      firmware = some (codes "1");
      max_tera_bytes_written = none;
      params = [];
    })
    ∷ []

first_definition_wins_example :
    (os : List ModelAndFirmware) × (ms : List ModelAndFirmware) × (models_of compare_codes
        codes-StrcmpLaws 255 carrier_elements
      ≡ some os)
    × (read_smart_data_carrier_defs compare_codes 255 carrier_elements [] ≡ some ms)
    × ((model firmware : Bytes)
        → get_data_carrier_attr_defs compare_codes ms model firmware
          ≡ first_with compare_codes codes-StrcmpLaws os model firmware)
first_definition_wins_example =
    first_definition_wins compare_codes codes-StrcmpLaws 255 carrier_elements
      ((omega arith, tt), (tt, tt))

abbrev convert_int : Bytes → Option ℕ
convert_int s = if ltb (value 0 s) (2 ^ 31) then some (value 0 s) else none

convert_int-decimal : (n : ℕ) → IsInt n → convert_int (decimal n) ≡ some n
convert_int-decimal n h = rw (value-decimal n, lt→ltb n (2 ^ 31) h) refl

numbers_observed_example :
    get_smart_attributes_to_observe convert_int
      (number_list (5 ∷ 9 ∷ []) ++ decimal 194)
      []
      (0 ∷ 0 ∷ 0 ∷ [])
    ≡ (insert_all (5 ∷ 9 ∷ []) [], set_supported_smart_ids (5 ∷ 9 ∷ []) (0 ∷ 0 ∷ 0 ∷ []))
numbers_observed_example =
    numbers_observed convert_int convert_int-decimal (5 ∷ 9 ∷ []) (decimal 194) [] (0 ∷ 0 ∷ 0 ∷ [])
      (omega arith, (omega arith, tt))
      (digits-NoComma convert_int convert_int-decimal (decimal 194) (decimal-All 194))
