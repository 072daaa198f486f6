-- ===== src/Entry.antt =====
-- One S.M.A.R.T. attribute of a message: what `BeforeWait` in src/service/SMARTmonitorService.cpp
-- writes of it, and what `HandleSingleSMARTentry` in src/tinyxml2/ProcessSMARTdata.cpp makes of it.
-- The conversions of tinyxml2 and `atol` are parameters; the time of retrieval is left out.
pub mod RoundTrip
use smartmonitor.Common.{
  ℕ, ◌+◌, ◌-◌, ◌%◌, ◌^◌, Bool, true, false, ◌&&◌, List, [], ◌∷◌, Option, none, some, ltb, ◌==◌,
  if◌then◌else◌, ◌>>=◌, Bytes, get_elem?, set,
}
use smartmonitor.Common.Words.{word, half_word}
use smartmonitor.Common.Decimal.{decimal}
use smartmonitor.UnitGuess.{set_greater_bit, remove_greater_bit}
use smartmonitor.SupportedIds.{check_smart_id_range, in_range, too_high, negative}

-- The attributes of an element `SMART`.
pub record SmartElement : Type 0 where
  pub id : Bytes
  pub raw_value : Bytes
  pub unit : Option Bytes
  pub lower_unit_bound : Option Bytes
  pub upper_unit_bound : Option Bytes

-- `oss << v` of a `long int`, as its bit pattern
unfoldable pub print_long : ℕ → Bytes
print_long v = if ltb v half_word then decimal v else b'-' ∷ decimal (word - v)

-- an attribute is only written if its value is not 0
unfoldable pub print_bound : ℕ → Option Bytes
print_bound v = if v == 0 then none else some (print_long v)

unfoldable pub print_unit : ℕ → Option Bytes
print_unit unit =
    if unit == 0
    then none
    else if ltb unit half_word
    then some (print_long unit)
    else some (b'>' ∷ print_long (remove_greater_bit unit))

-- `BeforeWait` for one attribute: nothing without a consistent raw value
unfoldable pub print_smart_element : Bool → Bool → ℕ → ℕ → ℕ → ℕ → ℕ → Option SmartElement
print_smart_element read consistent id raw unit lower upper =
    if read && consistent
    then some (record {
      id = decimal id;
      raw_value = decimal raw;
      unit = print_unit unit;
      lower_unit_bound = print_bound lower;
      upper_unit_bound = print_bound upper;
    })
    else none

-- What the client keeps of an attribute.
pub record ClientSlot : Type 0 where
  pub successfully_read : Bool
  pub raw : ℕ
  pub unit : ℕ
  pub lower : ℕ
  pub upper : ℕ

module _ (max : ℕ) (to_int : Bytes → Option ℕ) (to_int64 : Bytes → Option ℕ)
    (atol : Bytes → ℕ) where
  -- `IntAttribute`, `Int64Attribute` with the default 0
  unfoldable pub int_attribute : Bytes → ℕ
  int_attribute s = elim (to_int s) [ none ↦ 0 | some n ↦ n ]

  unfoldable pub int64_attribute : Option Bytes → ℕ
  int64_attribute none = 0
  int64_attribute (some s) = elim (to_int64 s) [ none ↦ 0 | some n ↦ n ]

  -- the unit that is stored over `old`
  unfoldable pub unit_of : Option Bytes → ℕ → ℕ
  unit_of none old = old
  unit_of (some []) old = old
  unit_of (some (c ∷ s)) old = if c == b'>' then set_greater_bit (atol s) else atol (c ∷ s)

  -- a slot behind the check of its ID
  unfoldable pub take_element : SmartElement → ClientSlot → ClientSlot
  take_element e s =
      let raw = int64_attribute (some e.raw_value) in
      if ltb raw half_word
      then record {
        successfully_read = true;
        raw = raw;
        unit = unit_of e.unit s.unit;
        lower = int64_attribute e.lower_unit_bound;
        upper = int64_attribute e.upper_unit_bound;
      }
      else record s { successfully_read = false }

  -- `HandleSingleSMARTentry`
  unfoldable pub handle_single_smart_entry :
      SmartElement → List ClientSlot → Option (List ClientSlot)
  handle_single_smart_entry e slots =
      let id = int_attribute e.id in
      elim (check_smart_id_range max id) [
        | in_range ↦ get_elem? slots id >>= λ s. some (set slots id (take_element e s))
        | too_high ↦ some slots
        | negative ↦ some slots
      ]
