-- ===== src/Display.antt =====
-- The display of a client: src/client/SMARTmonitorClient.cpp. What the display shows is the list of the
-- calls of `SetAttribute` and of the other hooks, oldest first. The raw values are unbounded; the
-- arithmetic of `double` is a parameter.
pub mod RealValue
use smartmonitor.Common.{
  ℕ, zero, suc, ◌+◌, ◌-◌, ◌*◌, ◌%◌, ◌^◌, Bool, true, false, ◌&&◌, ◌||◌, not, List, [], ◌∷◌, ◌++◌,
  Option, none, some, ◌>>=◌, ltb, leb, ◌==◌, if◌then◌else◌, Bytes, codes,
}
use smartmonitor.Common.Words.{half_word, u64}
use smartmonitor.Common.Decimal.{decimal}
use smartmonitor.Common.Texts.{same}
use smartmonitor.TimeFormat.{fmt_via_oss}
use smartmonitor.UnitGuess.{remove_greater_bit}
use smartmonitor.Formatter.{
  AtaFormatIds, NvmeFormatIds, FormatOps, DefaultUnit, fmt_human_readable, ata_fmt_human_readable,
  nvme_fmt_human_readable, ata_fmt_raw_val, nvme_fmt_raw_val, ata_use_default_unit,
  nvme_use_default_unit,
}

-- The local variables of `getRealValue`.
pub record UnitScan : Type 0 where
  pub error : Bool
  pub curr_num : ℕ  -- uint64_t
  pub is_number : Bool
  pub real : ℕ  -- realCircaSMARTattrRawVal

-- a character that is no digit, at an index of the unit
unfoldable pub scan_unit_char : UnitScan → ℕ → ℕ → UnitScan
scan_unit_char s i ch =
    if ch == b'B'
    then s
    else if ch == b'G'
    then record s { curr_num = u64 (s.curr_num * 1000000000) }
    else if ch == b'h'
    then record s { curr_num = u64 (s.curr_num * 3600000) }
    else if ch == b's'
    then record s { curr_num = u64 (s.curr_num * 1000) }
    else if ch == 194
    then (if i == 0 then s else record s { error = true })
    else if ch == 176
    then (if i == 1 then s else record s { error = true })
    else if ch == b'C'
    then (if i == 2 then record s { curr_num = 1 } else record s { error = true })
    else record s { error = true }

abbrev pub is_digit : ℕ → Bool
is_digit ch = leb b'0' ch && leb ch b'9'

-- one round of the loop in `getRealValue`
unfoldable pub scan_unit : ℕ → UnitScan → ℕ → ℕ → UnitScan
unfolding scan_unit_char
scan_unit raw s i ch =
    let base = if s.is_number then u64 (s.curr_num * 10) else 0 in
    let next = scan_unit_char (record s { is_number = false }) i ch in
    if is_digit ch
    then record s { is_number = true; curr_num = u64 (base + (ch - b'0')) }
    else record next { real = next.real + raw * next.curr_num }

unfoldable pub scan_units : ℕ → UnitScan → ℕ → Bytes → UnitScan
scan_units raw s i [] = s
scan_units raw s i (ch ∷ unit) = scan_units raw (scan_unit raw s i ch) (i + 1) unit

-- `getRealValue`: whether there was an error, and the real value
unfoldable pub get_real_value : Bytes → ℕ → Bool × ℕ
unfolding scan_units
get_real_value unit raw =
    let s =
      scan_units raw (record { error = false; curr_num = 0; is_number = false; real = 0 }) 0 unit in
    (s.error, s.real)

-- `double`: the conversions from the bit pattern of a `long` and to `uint64_t`, the division and
-- the test for 0
pub record DoubleOps (D : Type 0) : Type 0 where
  pub zero_d : D
  pub of_long : ℕ → D
  pub to_u64 : D → ℕ
  pub div_d : D → D → D
  pub is_zero : D → Bool

-- What the display shows of a value besides its rating.
pub record Shown : Type 0 where
  pub real_circa : ℕ
  pub unit_text : Bytes
  pub unit_accuracy : Bytes
  pub human_readable : Bytes

-- the bounds and the unit of an attribute, `long` bit patterns
pub record UnitInfo : Type 0 where
  pub unit : ℕ
  pub lower : ℕ
  pub upper : ℕ

module _ (o : FormatOps) (a : AtaFormatIds) (n : NvmeFormatIds) (nvme : Bool) (id : ℕ) where
  unfoldable pub fmt : ℕ → Option Bytes
  fmt raw = fmt_human_readable o a n nvme id raw true

  -- `useDeterminedUnits` without a determined unit; `real` is the real value before
  unfoldable pub with_default_unit : ℕ → ℕ → Option Shown
  with_default_unit real raw =
      let d =
        if nvme
        then nvme_use_default_unit o n id real raw
        else ata_use_default_unit o a id real raw in
      let text =
        if nvme
        then nvme_fmt_human_readable o n id d.num_for_human_readable false
        else ata_fmt_human_readable o a id d.num_for_human_readable false in
      text >>= λ human. some (record {
        real_circa = d.real_circa;
        unit_text = d.unit_text;
        unit_accuracy = [];
        human_readable = human;
      })

  module _ (D : Type 0) (f : DoubleOps D) where
    -- the highest bit of the unit is set: "at least"
    unfoldable pub with_at_least_unit : UnitInfo → ℕ → Option Shown
    unfolding fmt
    with_at_least_unit u raw =
        let low = f.of_long u.lower in
        let unmasked = remove_greater_bit u.unit in
        let bounded = not (f.is_zero low) in
        let real = if bounded then raw * f.to_u64 low else raw * unmasked in
        (if bounded
          then (fmt (f.to_u64 low) >>= λ low_text. some (codes ">=~" ++ low_text))
          else some [])
        >>= λ accuracy. fmt unmasked >>= λ unit_text. fmt real >>= λ human. some (record {
          real_circa = real;
          unit_text = codes ">=~" ++ unit_text;
          unit_accuracy = accuracy;
          human_readable = codes ">=~" ++ human;
        })

    -- the unit is determined between bounds
    unfoldable pub with_unit : UnitInfo → ℕ → Option Shown
    unfolding fmt
    with_unit u raw =
        let low = f.of_long u.lower in
        let high = f.of_long u.upper in
        let accuracy = if f.is_zero high then f.zero_d else f.div_d low high in
        (if f.is_zero accuracy
          then some []
          else (fmt (f.to_u64 low) >>= λ low_text. fmt (f.to_u64 high) >>= λ high_text.
              some (codes " " ++ low_text ++ codes "-" ++ high_text)))
        >>= λ range. fmt u.unit >>= λ unit_text. fmt (raw * u.unit) >>= λ human. some (record {
          real_circa = raw * u.unit;
          unit_text = codes "~" ++ unit_text;
          unit_accuracy = range;
          human_readable = codes "~" ++ human;
        })

    -- `useDeterminedUnits`
    unfoldable pub use_determined_units : UnitInfo → ℕ → ℕ → Option Shown
    unfolding with_at_least_unit with_unit with_default_unit
    use_determined_units u real raw =
        if remove_greater_bit u.unit == 0
        then with_default_unit real raw
        else if leb half_word u.unit
        then with_at_least_unit u raw
        else with_unit u raw

    -- the part of `upd8rawAndH_andTime` that finds unit and real value; the unit of the model is
    -- empty if it is not known
    unfoldable pub find_unit : Bytes → UnitInfo → ℕ → Option Shown
    unfolding use_determined_units fmt
    find_unit param_unit u raw =
        let (error, real) = get_real_value param_unit raw in
        if same param_unit []
        then use_determined_units u 0 raw
        else if error
        then use_determined_units u real raw
        else (fmt real >>= λ human. some (record {
          real_circa = real;
          unit_text = param_unit;
          unit_accuracy = [];
          human_readable = human;
        }))
