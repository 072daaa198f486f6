-- ===== src/UnitGuess.antt =====
-- src/attributes/SMARTuniqueID.hpp: the unit detection `SMARTuniqueID::guessUnit`.
pub mod Baseline
pub mod Bounds
pub mod Metered
pub mod Exact
use smartmonitor.Common.{
  ℕ, ◌+◌, ◌/◌, ◌%◌, ◌-◌, ◌<◌, Bool, List, [], ◌∷◌, Option, none, some, ltb, if◌then◌else◌,
  get_elem?, set,
}
use smartmonitor.Common.Words.{word, half_word, u64, sub64, slt, sdiv2}

-- `enum states`
pub data GuessState : Type 0 where
  get_min_unit get_unit_till_val_inc get_unit : GuessState

-- What the arrays of `SMARTuniqueID` hold at one S.M.A.R.T. attribute ID.
pub record UnitSlot : Type 0 where
  pub state : GuessState
  pub prev_raw : ℕ  -- m_prevSMARTrawVals, uint64_t
  pub other_metric : ℕ  -- m_otherMetricVal, uint64_t
  pub raw_diff : ℕ  -- m_SMARTrawValDiffs, uint64_t
  pub last_inc : ℕ  -- otherMtrcValAtLastSMARTrawValInc, long int
  pub lower : ℕ  -- lowerUnitBound, long int
  pub upper : ℕ  -- upperUnitBound, long int
  pub unit : ℕ  -- units, long int whose highest bit says "at least"

-- `initAttrVals`: memset to 0xFF or to 0
unfoldable pub init_slot : UnitSlot
init_slot = record {
  state = get_min_unit;
  prev_raw = word - 1;
  other_metric = word - 1;
  raw_diff = 0;
  last_inc = 0;
  lower = 0;
  upper = 0;
  unit = 0;
}

-- `setGreaterBit(value)` and `removeBits(value, mask of the highest bit)`
abbrev pub set_greater_bit : ℕ → ℕ
set_greater_bit v = v % half_word + half_word

abbrev pub remove_greater_bit : ℕ → ℕ
remove_greater_bit v = v % half_word

-- `case getMinUnit`
unfoldable pub on_min_unit : UnitSlot → ℕ → ℕ → UnitSlot
on_min_unit s raw other =
    let u = sub64 other s.other_metric in
    if ltb other s.other_metric
    then record s { other_metric = other; prev_raw = raw }
    else if ltb s.prev_raw raw
    then record s {
      state = get_unit_till_val_inc;
      lower = u;
      unit = u;
      other_metric = other;
      prev_raw = raw;
    }
    else record s { unit = set_greater_bit u }

-- `case getUnitTillValInc`
unfoldable pub on_till_val_inc : UnitSlot → ℕ → ℕ → UnitSlot
on_till_val_inc s raw other =
    let rd = sub64 raw s.prev_raw in
    let u = sub64 other s.other_metric / rd in
    let wait = sub64 other s.other_metric in
    if ltb s.prev_raw raw
    then record s { state = get_unit; raw_diff = rd; lower = u; upper = u; unit = u }
    else record s {
      lower = if slt s.lower wait then wait else s.lower;
      unit = set_greater_bit wait;
    }

-- the new bounds of `case getUnit`, from the freshly calculated unit
unfoldable pub lower_bound : UnitSlot → ℕ → ℕ
lower_bound s calc = if slt calc s.lower then calc else s.lower

unfoldable pub upper_bound : UnitSlot → ℕ → ℕ
upper_bound s calc =
    if slt calc s.lower then s.upper else if slt s.upper calc then calc else s.upper

-- `lowerUnitBound + (upperUnitBound - lowerUnitBound) / 2`
unfoldable pub midpoint : ℕ → ℕ → ℕ
midpoint lo hi = u64 (lo + sdiv2 (sub64 hi lo))

-- `case getUnit`
unfoldable pub on_unit : UnitSlot → ℕ → ℕ → UnitSlot
on_unit s raw other =
    let rd = sub64 raw s.prev_raw in
    let calc = sub64 other s.other_metric / rd in
    let lo = lower_bound s calc in
    let hi = upper_bound s calc in
    if ltb s.prev_raw raw
    then (if ltb s.raw_diff rd
        then record s {
          raw_diff = rd;
          last_inc = calc;
          lower = lo;
          upper = hi;
          unit = midpoint lo hi;
        }
        else s)
    else s

unfoldable pub dispatch : GuessState → UnitSlot → ℕ → ℕ → UnitSlot
dispatch get_min_unit s raw other = on_min_unit s raw other
dispatch get_unit_till_val_inc s raw other = on_till_val_inc s raw other
dispatch get_unit s raw other = on_unit s raw other

-- `guessUnit(SMARTattrID, SMARTrawVal, otherVal)` at the slot of its attribute
unfoldable pub guess_slot : UnitSlot → ℕ → ℕ → UnitSlot
unfolding dispatch
guess_slot s raw other = dispatch s.state s raw other

-- A call for an attribute ID beyond the arrays has no defined result.
unfoldable pub guess_unit : List UnitSlot → ℕ → ℕ → ℕ → Option (List UnitSlot)
guess_unit slots id raw other = elim (get_elem? slots id) [
  | none ↦ none
  | some s ↦ some (set slots id (guess_slot s raw other))
]

-- A history of calls for one attribute, oldest first: raw value and other metric.
unfoldable pub run : UnitSlot → List (ℕ × ℕ) → UnitSlot
run s [] = s
run s ((raw, other) ∷ h) = run (guess_slot s raw other) h
