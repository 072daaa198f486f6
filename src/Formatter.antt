-- ===== src/Formatter.antt =====
-- Values as text: src/SMARTvalueFormatter.hpp and src/SMARTvalueFormatter.cpp, built with unbounded raw
-- values. Names of the header file of SI prefixes, of attribute IDs and of the conversions of
-- temperatures stand for code outside of the repository.
pub mod Prefixes
use smartmonitor.Common.{
  ℕ, zero, suc, ◌+◌, ◌*◌, ◌/◌, ◌%◌, ◌^◌, Bool, true, false, ◌&&◌, not, List, [], ◌∷◌, ◌++◌, Option,
  none, some, ◌>>=◌, ◌==◌, if◌then◌else◌, Bytes, codes,
}
use smartmonitor.Common.Words.{u64}
use smartmonitor.Common.Decimal.{decimal}
use smartmonitor.TimeFormat.{fmt_via_oss}
use smartmonitor.Rating.{is_case}

-- "°C" in UTF-8
abbrev pub deg_c : Bytes
deg_c = 194 ∷ 176 ∷ b'C' ∷ []

-- TU_Bln361095timeMilliSecsPerHour
abbrev pub milli_secs_per_hour : ℕ
milli_secs_per_hour = 3600000

-- The attribute IDs that the `switch` statements name.
pub record AtaFormatIds : Type 0 where
  pub power_on_time : ℕ
  pub head_flying_hours : ℕ
  pub temp_diff_or_airflow_temp : ℕ
  pub dev_temp : ℕ
  pub total_data_written : ℕ
  pub total_data_read : ℕ
  pub spin_up_time : ℕ
  pub hexadecimal : List ℕ  -- the cases of `fmtRawVal`
  pub counts : List ℕ  -- the cases of the unit "#?"

pub record NvmeFormatIds : Type 0 where
  pub composite_temperature : ℕ
  pub power_on_hours : ℕ
  pub controller_busy_time : ℕ
  pub total_data_written : ℕ
  pub total_data_read : ℕ
  pub percentages : List ℕ  -- the cases of the unit "%?"
  pub counts : List ℕ  -- the cases of the unit "#?"

-- `GetMectricPrefixSymbolAndRemainder`, of remainder and factor: the symbol and both as they are
-- afterwards; `GetDegCfromCurrMinMax`: minimum, maximum and current; `GetTempInDegC`;
-- `TU_Bln361095dataCarrierATA_SMARTgetCurrTemp`; `std::hex` with `std::uppercase`
pub record FormatOps : Type 0 where
  pub prefix_symbol : ℕ → ℕ → ℕ × (ℕ × ℕ)
  pub deg_c_from_curr_min_max : ℕ → ℕ × (ℕ × ℕ)
  pub get_temp_in_deg_c : ℕ → ℕ
  pub get_curr_temp : ℕ → ℕ
  pub upper_hex : ℕ → Bytes

-- What is stored by `useDefaultUnit`: the real value, which some cases leave as it was, the unit
-- and the number to format.
pub record DefaultUnit : Type 0 where
  pub real_circa : ℕ
  pub unit_text : Bytes
  pub num_for_human_readable : ℕ

-- `SMARTvalueFormatter::GetTimeFrom_h`
unfoldable pub get_time_from_h : ℕ → Bytes
get_time_from_h raw = decimal (raw / 24) ++ codes "d" ++ decimal (raw % 24) ++ codes "h"

-- the range "[min...max]" behind a temperature, if both are known
unfoldable pub temp_range : ℕ → ℕ → Bytes
temp_range lo hi =
    if not (lo == 0) && not (hi == 0)
    then codes "[" ++ decimal lo ++ deg_c ++ codes "..." ++ decimal hi ++ deg_c ++ codes "]"
    else []

-- `SMARTvalueFormatter::TempDiffOrAirflowTemp_DegCforCurrMinMax`
unfoldable pub temp_diff_or_airflow_temp : ℕ → Bytes
unfolding temp_range
temp_diff_or_airflow_temp raw =
    decimal (raw % 256) ++ deg_c ++ temp_range (raw / 2 ^ 16 % 256) (raw / 2 ^ 24 % 256)

-- `SMARTvalueFormatter::GetDegCfromCurr`
unfoldable pub get_deg_c_from_curr : ℕ → Bytes
get_deg_c_from_curr raw = decimal (raw % 65536) ++ deg_c

module _ (o : FormatOps) where
  -- The `do` loop of `GetNumberWithSIprefix` with a remainder and a factor. `none`: the fuel is used
  -- up.
  unfoldable pub with_prefixes : ℕ → ℕ → ℕ → Option Bytes
  with_prefixes zero remainder factor = none
  with_prefixes (suc fuel) remainder factor =
      let (symbol, (rem, fac)) = o.prefix_symbol remainder factor in
      let rest = with_prefixes fuel rem fac in
      if symbol == b' '
      then some (decimal fac)
      else (rest >>= λ text. some (decimal fac ++ symbol ∷ text))

  -- `GetNumberWithSIprefix`; one round more than the number is enough
  unfoldable pub get_number_with_si_prefix : ℕ → Option Bytes
  unfolding with_prefixes
  get_number_with_si_prefix raw = with_prefixes (suc raw) raw raw

  -- `FmtTotalDataRdWr`; what it reads of the model changes nothing
  unfoldable pub fmt_total_data_rd_wr : ℕ → Bool → Option Bytes
  fmt_total_data_rd_wr raw unit_known = get_number_with_si_prefix raw >>= λ text.
      some (if unit_known then text ++ codes "B" else text)

  -- `FmtDegC_forCurrAndMinAndMax`
  unfoldable pub fmt_deg_c_for_curr_and_min_and_max : ℕ → Bytes
  unfolding temp_range
  fmt_deg_c_for_curr_and_min_and_max raw =
      let (lo, (hi, curr)) = o.deg_c_from_curr_min_max raw in
      decimal curr ++ deg_c ++ temp_range lo hi

  -- `ATA::SMART::AttrVal::FmtHumanReadable`
  unfoldable pub ata_fmt_human_readable : AtaFormatIds → ℕ → ℕ → Bool → Option Bytes
  ata_fmt_human_readable k id raw unit_known =
      if (id == k.power_on_time)
      then some (fmt_via_oss (u64 raw))
      else if (id == k.head_flying_hours)
      then some (fmt_via_oss (u64 raw))
      else if (id == k.temp_diff_or_airflow_temp)
      then some (temp_diff_or_airflow_temp (u64 raw))
      else if (id == k.dev_temp)
      then some (fmt_deg_c_for_curr_and_min_and_max (u64 raw))
      else if (id == k.total_data_written)
      then fmt_total_data_rd_wr raw unit_known
      else if (id == k.total_data_read)
      then fmt_total_data_rd_wr raw unit_known
      else get_number_with_si_prefix (u64 raw)

  -- `NVMe::SMART::AttrVal::FmtHumanReadable`
  unfoldable pub nvme_fmt_human_readable : NvmeFormatIds → ℕ → ℕ → Bool → Option Bytes
  nvme_fmt_human_readable k id raw unit_known =
      if (id == k.composite_temperature)
      then some (decimal (o.get_temp_in_deg_c (u64 raw)) ++ codes " " ++ deg_c)
      else if (id == k.power_on_hours)
      then some (fmt_via_oss (u64 raw))
      else if (id == k.total_data_written)
      then fmt_total_data_rd_wr raw true
      else if (id == k.total_data_read)
      then fmt_total_data_rd_wr raw true
      else get_number_with_si_prefix raw

  -- `FmtHumanReadable` of a data carrier; `nvme` tells the bus type
  unfoldable pub fmt_human_readable :
      AtaFormatIds → NvmeFormatIds → Bool → ℕ → ℕ → Bool → Option Bytes
  fmt_human_readable a n nvme id raw unit_known =
      if nvme
      then nvme_fmt_human_readable n id raw unit_known
      else ata_fmt_human_readable a id raw unit_known

  -- `ATA::SMART::AttrVal::fmtRawVal`
  unfoldable pub ata_fmt_raw_val : AtaFormatIds → ℕ → ℕ → Bytes
  ata_fmt_raw_val k id raw =
      if is_case id k.hexadecimal then o.upper_hex raw ++ codes "h" else decimal raw

  -- `NVMe::SMART::AttrVal::fmtRawVal`
  unfoldable pub nvme_fmt_raw_val : ℕ → Bytes
  nvme_fmt_raw_val raw = decimal raw

  -- the inner `switch` of the ATA `useDefaultUnit`
  unfoldable pub ata_other_unit : AtaFormatIds → ℕ → Bytes
  ata_other_unit k id =
      if is_case id k.counts
      then codes "#?"
      else if (id == k.total_data_written)
      then codes ">=1sector?"
      else if (id == k.total_data_read)
      then codes ">=1sector?"
      else codes "?"

  -- `ATA::SMART::AttrVal::useDefaultUnit`; `real` is the real value before
  unfoldable pub ata_use_default_unit : AtaFormatIds → ℕ → ℕ → ℕ → DefaultUnit
  unfolding ata_other_unit
  ata_use_default_unit k id real raw =
      if (id == k.dev_temp)
      then record {
        real_circa = o.get_curr_temp raw;
        unit_text = 239 ∷ 191 ∷ 189 ∷ b'C' ∷ b'?' ∷ [];
        num_for_human_readable = raw;
      }
      else if (id == k.power_on_time)
      then record {
        real_circa = real;
        unit_text = codes "~h?";
        num_for_human_readable = raw * milli_secs_per_hour;
      }
      else if (id == k.head_flying_hours)
      then record {
        real_circa = real;
        unit_text = codes "~h?";
        num_for_human_readable = raw % 2 ^ 24 * milli_secs_per_hour;
      }
      else if (id == k.spin_up_time)
      then record { real_circa = real; unit_text = codes "ms?"; num_for_human_readable = raw }
      else record {
        real_circa = raw;
        unit_text = ata_other_unit k id;
        num_for_human_readable = raw;
      }

  -- the inner `switch` of the NVMe `useDefaultUnit`: the unit and the factor
  unfoldable pub nvme_other_unit : NvmeFormatIds → ℕ → Bytes × ℕ
  nvme_other_unit k id =
      if is_case id k.percentages
      then (codes "%?", 1)
      else if (id == k.total_data_written)
      then (codes "512000B?", 512000)
      else if (id == k.total_data_read)
      then (codes "512000B?", 512000)
      else if is_case id k.counts
      then (codes "#?", 1)
      else (codes "?", 1)

  -- `NVMe::SMART::AttrVal::useDefaultUnit`
  unfoldable pub nvme_use_default_unit : NvmeFormatIds → ℕ → ℕ → ℕ → DefaultUnit
  unfolding nvme_other_unit
  nvme_use_default_unit k id real raw =
      if (id == k.composite_temperature)
      then record {
        real_circa = o.get_temp_in_deg_c (u64 raw);
        unit_text = codes "K";
        num_for_human_readable = raw;
      }
      else if (id == k.power_on_hours)
      then record {
        real_circa = real;
        unit_text = codes "~h?";
        num_for_human_readable = raw * milli_secs_per_hour;
      }
      else if (id == k.controller_busy_time)
      then record { real_circa = real; unit_text = codes "s?"; num_for_human_readable = raw }
      else record {
        real_circa = raw;
        unit_text = (nvme_other_unit k id).0;
        num_for_human_readable = raw * (nvme_other_unit k id).1;
      }
