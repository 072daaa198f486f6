-- ===== src/Rating.antt =====
-- The rating of attribute values: src/SMARTvalueRater.hpp, src/SMARTattrValRtngDecl.hpp and
-- src/attributes/defineRtgRngValsAsFloat.c, for raw values of the type `uint64_t`. The arithmetic of
-- `float` is a parameter.
pub mod Temperature
pub mod Manufacturer
use smartmonitor.Common.{
  ℕ, ◌+◌, ◌-◌, ◌*◌, ◌%◌, ◌^◌, Bool, true, false, ◌||◌, List, [], ◌∷◌, Option, none, some, ltb, leb,
  ◌==◌, if◌then◌else◌,
}
use smartmonitor.Common.Words.{word, half_word, sub64}
use smartmonitor.Attr.{get_nxt_gtr_max_nrmlzd_val}

-- `float`: the literals, the conversions from an unsigned number and from the bit pattern of a
-- `long int`, the operations and the tests `>` and `==`
pub record FloatOps (F : Type 0) : Type 0 where
  pub zero_f : F  -- 0.0f
  pub one_f : F  -- 1.0f, also BestRtgVal and the result OK
  pub two_f : F  -- 2.0, RtgValRng
  pub minus_one_f : F  -- -1.0f, also WorstRtgVal
  pub three_f : F  -- the result Unknown
  pub of_nat : ℕ → F
  pub of_long : ℕ → F
  pub mul : F → F → F
  pub div : F → F → F
  pub sub : F → F → F
  pub gt : F → F → Bool
  pub eq_f : F → F → Bool

-- The attribute IDs that the `switch` statements name.
pub record NvmeIds : Type 0 where
  pub composite_temperature : ℕ
  pub available_spare : ℕ
  pub percentage_used : ℕ
  pub media_errors : ℕ
  pub error_info_log_entry_count : ℕ

pub record AtaIds : Type 0 where
  pub error_counts : List ℕ  -- the cases from ReadErrorRate to FreeFallEvtCnt
  pub total_data_written : ℕ
  pub dev_temp : ℕ

unfoldable pub is_case : ℕ → List ℕ → Bool
is_case id [] = false
is_case id (x ∷ xs) = (x == id) || is_case id xs

-- TU_Bln361095dataCarrierMinCritTempInDegC, MinWarnTempInDegC, MaxWarnTempInDegC
abbrev pub min_crit_temp : ℕ
min_crit_temp = 69

abbrev pub min_warn_temp : ℕ
min_warn_temp = 46

abbrev pub max_warn_temp : ℕ
max_warn_temp = 25

module _ (F : Type 0) (o : FloatOps F) where
  -- `Get1ToMns1Rng`, behind the choice of the maximum
  unfoldable pub scaled_quotient : ℕ → ℕ → F → F
  scaled_quotient divident thresh quotient =
      if o.gt quotient o.zero_f
      then (if o.gt quotient o.one_f then o.one_f else quotient)
      else if o.eq_f quotient o.zero_f
      then o.minus_one_f
      else o.div (o.mul quotient (o.of_nat divident)) (o.of_nat thresh)

  unfoldable pub get_1_to_mns1_rng : ℕ → ℕ → ℕ → ℕ → F
  get_1_to_mns1_rng gtr max_val curr thresh =
      let divident = sub64 (get_nxt_gtr_max_nrmlzd_val gtr max_val curr thresh) thresh in
      let divisor = sub64 curr thresh in
      if divident == 0
      then o.zero_f
      else scaled_quotient divident thresh (o.div (o.of_long divisor) (o.of_nat divident))

  -- `WorstRtgVal > 0 ? WorstRtgVal : WorstRtgVal * -1`
  unfoldable pub abs_worst : F
  abs_worst =
      if o.gt o.minus_one_f o.zero_f then o.minus_one_f else o.mul o.minus_one_f o.minus_one_f

  -- `GetIntoRtgRng`
  unfoldable pub get_into_rtg_rng : ℕ → ℕ → ℕ → F
  unfolding abs_worst
  get_into_rtg_rng best worst raw =
      let ratio =
        if leb worst best
        then o.div (o.of_nat raw) (o.of_nat best)
        else o.div (o.sub (o.of_nat worst) (o.of_nat raw)) (o.of_nat worst) in
      o.sub (o.mul ratio o.two_f) abs_worst

  unfoldable pub rate_acc_deg_celsius : ℕ → F
  unfolding get_into_rtg_rng
  rate_acc_deg_celsius t =
      if ltb min_crit_temp t
      then o.minus_one_f
      else if ltb min_warn_temp t
      then get_into_rtg_rng (min_warn_temp - (min_crit_temp - min_warn_temp)) min_crit_temp t
      else if ltb t max_warn_temp
      then o.minus_one_f
      else o.one_f

  unfoldable pub get_prcnt_usd_rtng : ℕ → F
  unfolding get_into_rtg_rng
  get_prcnt_usd_rtng raw = get_into_rtg_rng 0 100 raw

  -- `AvailSpareRtg`: the statement under its `if` has no effect.
  unfoldable pub avail_spare_rtg : ℕ → ℕ → F
  unfolding get_into_rtg_rng
  avail_spare_rtg thresh raw = get_into_rtg_rng 100 thresh raw

  unfoldable pub ok_or_warn : ℕ → F
  ok_or_warn raw = if raw == 0 then o.one_f else o.zero_f

  unfoldable pub nvme_smart_rtg : NvmeIds → ℕ → ℕ → ℕ → F
  nvme_smart_rtg k id spare_thresh raw =
      if id == k.composite_temperature
      then rate_acc_deg_celsius raw
      else if id == k.available_spare
      then avail_spare_rtg spare_thresh raw
      else if id == k.percentage_used
      then get_prcnt_usd_rtng raw
      else if id == k.media_errors
      then ok_or_warn raw
      else if id == k.error_info_log_entry_count
      then ok_or_warn raw
      else o.three_f

  -- `getRemainingTotalDataWritten`, converted to `uint64_t`
  unfoldable pub get_remaining_total_data_written : ℕ → ℕ → ℕ
  get_remaining_total_data_written max_tera written =
      if max_tera == 0 then half_word else sub64 (max_tera * 1000000000000 % word) written

  -- `case TotalDataWritten` goes on with `case DevTemp`.
  unfoldable pub total_data_written_rtg : Option ℕ → ℕ → F
  total_data_written_rtg none raw = o.three_f
  total_data_written_rtg (some max_tera) raw =
      if get_remaining_total_data_written max_tera raw == half_word
      then o.three_f
      else rate_acc_deg_celsius raw

  -- `none`: the function ends without a `return`.
  unfoldable pub ata_smart_own_rtg : AtaIds → ℕ → ℕ → Option ℕ → Option F
  ata_smart_own_rtg k id raw max_tera =
      if is_case id k.error_counts
      then some (ok_or_warn raw)
      else if id == k.total_data_written
      then some (total_data_written_rtg max_tera raw)
      else if id == k.dev_temp
      then some (rate_acc_deg_celsius raw)
      else none

  unfoldable pub ata_smart_rtg : AtaIds → ℕ → ℕ → ℕ → ℕ → ℕ → ℕ → Option ℕ → Option F
  ata_smart_rtg k gtr max_val id curr thresh raw max_tera =
      if id == k.dev_temp
      then ata_smart_own_rtg k id raw max_tera
      else some (get_1_to_mns1_rng gtr max_val curr thresh)

  -- `GetSMARTattrValRtng` of one attribute; `nvme` tells the bus type
  unfoldable pub get_smart_attr_val_rtng :
      NvmeIds → AtaIds → Bool → ℕ → ℕ → ℕ → ℕ → ℕ → ℕ → ℕ → Option ℕ → Option F
  get_smart_attr_val_rtng n k nvme gtr max_val id curr thresh spare_thresh raw max_tera =
      if nvme
      then some (nvme_smart_rtg n id spare_thresh raw)
      else ata_smart_rtg k gtr max_val id curr thresh raw max_tera
