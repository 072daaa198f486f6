-- ===== src/Rating/Manufacturer.antt =====
-- The rating by the manufacturer's values, and that every attribute has a rating.
use smartmonitor.Common.{
  ℕ, ◌≤◌, ◌<◌, ◌≡◌, ◌≢◌, ◌∙◌, Bool, true, false, Option, none, ltb, ◌==◌, if◌then◌else◌, arith,
}
use smartmonitor.Common.Words.{half_word, sub64}
use smartmonitor.Attr.{get_nxt_gtr_max_nrmlzd_val}
use smartmonitor.Rating.{
  FloatOps, NvmeIds, AtaIds, scaled_quotient, get_1_to_mns1_rng, ata_smart_own_rtg, ata_smart_rtg,
  get_smart_attr_val_rtng,
}

-- The sign of a quotient is that of its `long int`, and stays so when it is scaled.
pub record SignLaws (F : Type 0) (o : FloatOps F) : Type 0 where
  pub one_positive : o.gt o.one_f o.zero_f ≡ true
  pub minus_one_not_positive : o.gt o.minus_one_f o.zero_f ≡ false
  pub quotient_sign :
      (d n : ℕ)
      → 1 ≤ n
      → o.gt (o.div (o.of_long d) (o.of_nat n)) o.zero_f
        ≡ (if d == 0 then false else ltb d half_word)
  pub scaled_sign :
      (x : F) (m n : ℕ)
      → o.gt x o.zero_f ≡ false
      → o.gt (o.div (o.mul x (o.of_nat m)) (o.of_nat n)) o.zero_f ≡ false

module _ (F : Type 0) (o : FloatOps F) (laws : SignLaws F o) where
  scaled_quotient-sign :
      (divident thresh : ℕ) (q : F)
      → o.gt (scaled_quotient F o divident thresh q) o.zero_f ≡ o.gt q o.zero_f
  unfolding scaled_quotient
  scaled_quotient-sign divident thresh q =
      ground
        (arith, laws.one_positive, laws.minus_one_not_positive, laws.scaled_sign q divident thresh)

  difference_sign :
      (curr thresh : ℕ)
      → curr < half_word
      → thresh < half_word
      → (if sub64 curr thresh == 0 then false else ltb (sub64 curr thresh) half_word)
        ≡ ltb thresh curr
  difference_sign curr thresh h k = ground arith

  -- Unless the maximum equals the threshold, the manufacturer's rating is positive exactly if the
  -- current value is above the threshold.
  pub mfr_rating_sign :
      (gtr max_val curr thresh : ℕ)
      → curr < half_word
      → thresh < half_word
      → sub64 (get_nxt_gtr_max_nrmlzd_val gtr max_val curr thresh) thresh ≢ 0
      → o.gt (get_1_to_mns1_rng F o gtr max_val curr thresh) o.zero_f ≡ ltb thresh curr
  unfolding get_1_to_mns1_rng
  mfr_rating_sign gtr max_val curr thresh h k n =
      let divident = sub64 (get_nxt_gtr_max_nrmlzd_val gtr max_val curr thresh) thresh in
      let q = o.div (o.of_long (sub64 curr thresh)) (o.of_nat divident) in
      let b : (divident == 0) ≡ false = ground arith in
      rw (get_1_to_mns1_rng, b)
        (scaled_quotient-sign divident thresh q
          ∙ (laws.quotient_sign (sub64 curr thresh) divident (omega arith)
              ∙ difference_sign curr thresh h k))

module _ (F : Type 0) (o : FloatOps F) where
  -- `GetSMARTattrValRtng` returns a rating for every attribute of every drive: the end of
  -- `ATA_SMART_own_Rtg` that has no `return` is never reached.
  pub rating_defined :
      (n : NvmeIds) (k : AtaIds) (nvme : Bool) (gtr max_val id curr thresh spare raw : ℕ)
      (max_tera : Option ℕ)
      → get_smart_attr_val_rtng F o n k nvme gtr max_val id curr thresh spare raw max_tera ≢ none
  unfolding get_smart_attr_val_rtng ata_smart_rtg ata_smart_own_rtg
  rating_defined n k nvme gtr max_val id curr thresh spare raw max_tera = ground arith
