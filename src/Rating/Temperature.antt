-- ===== src/Rating/Temperature.antt =====
-- The rating of temperatures falls as the temperature rises.
use smartmonitor.Common.{ℕ, ◌≤◌, ◌≡◌, ap, ◌∙◌, false, ltb, if◌then◌else◌, arith}
use smartmonitor.Rating.{
  FloatOps, min_crit_temp, min_warn_temp, max_warn_temp, abs_worst, get_into_rtg_rng,
  rate_acc_deg_celsius,
}

-- What rounded arithmetic keeps of the order, and its exact results. `F` has no "not a number".
pub record OrderLaws (F : Type 0) (o : FloatOps F) : Type 0 where
  pub refl_f : (x : F) → o.gt x x ≡ false
  pub trans_f : (x y z : F) → o.gt x y ≡ false → o.gt y z ≡ false → o.gt x z ≡ false
  pub of_nat_mono : (m n : ℕ) → m ≤ n → o.gt (o.of_nat m) (o.of_nat n) ≡ false
  pub sub_mono_left : (x y z : F) → o.gt x y ≡ false → o.gt (o.sub x z) (o.sub y z) ≡ false
  pub sub_mono_right : (x y z : F) → o.gt x y ≡ false → o.gt (o.sub z y) (o.sub z x) ≡ false
  pub div_mono :
      (x y : F) (n : ℕ)
      → 1 ≤ n
      → o.gt x y ≡ false
      → o.gt (o.div x (o.of_nat n)) (o.div y (o.of_nat n)) ≡ false
  pub mul_mono : (x y : F) → o.gt x y ≡ false → o.gt (o.mul x o.two_f) (o.mul y o.two_f) ≡ false
  pub sub_self : (x : F) → o.sub x x ≡ o.zero_f
  pub sub_zero : (x : F) → o.sub x (o.of_nat 0) ≡ x
  pub div_self : (n : ℕ) → 1 ≤ n → o.div (o.of_nat n) (o.of_nat n) ≡ o.one_f
  pub div_zero : (n : ℕ) → 1 ≤ n → o.div o.zero_f (o.of_nat n) ≡ o.zero_f
  pub span_one : o.sub (o.mul o.one_f o.two_f) (abs_worst F o) ≡ o.one_f
  pub span_zero : o.sub (o.mul o.zero_f o.two_f) (abs_worst F o) ≡ o.minus_one_f

-- The temperature whose distance to the critical one counts.
effective : ℕ → ℕ
effective t = if ltb min_crit_temp t then min_crit_temp else if ltb min_warn_temp t then t else 0

effective_mono : (s t : ℕ) → s ≤ t → effective s ≤ effective t
unfolding effective
effective_mono s t h = ground arith

module _ (F : Type 0) (o : FloatOps F) (laws : OrderLaws F o) where
  -- the ratio to the worst value, spanned into the range of ratings
  abbrev spanned : ℕ → ℕ → F
  spanned worst raw =
      o.sub (o.mul (o.div (o.sub (o.of_nat worst) (o.of_nat raw)) (o.of_nat worst)) o.two_f)
        (abs_worst F o)

  spanned-antitone :
      (worst s t : ℕ) → 1 ≤ worst → s ≤ t → o.gt (spanned worst t) (spanned worst s) ≡ false
  spanned-antitone worst s t h k = laws.sub_mono_left _ _ _ (
      laws.mul_mono _ _
        (laws.div_mono _ _ worst h (laws.sub_mono_right _ _ _ (laws.of_nat_mono s t k))))

  spanned_best : (worst : ℕ) → 1 ≤ worst → spanned worst 0 ≡ o.one_f
  spanned_best worst h =
      ap (λ x. o.sub (o.mul (o.div x (o.of_nat worst)) o.two_f) (abs_worst F o))
        (laws.sub_zero (o.of_nat worst))
      ∙ (ap (λ r. o.sub (o.mul r o.two_f) (abs_worst F o)) (laws.div_self worst h) ∙ laws.span_one)

  spanned_worst : (worst : ℕ) → 1 ≤ worst → spanned worst worst ≡ o.minus_one_f
  spanned_worst worst h =
      ap (λ x. o.sub (o.mul (o.div x (o.of_nat worst)) o.two_f) (abs_worst F o))
        (laws.sub_self (o.of_nat worst))
      ∙ (ap (λ r. o.sub (o.mul r o.two_f) (abs_worst F o)) (laws.div_zero worst h) ∙ laws.span_zero)

  rate_lem :
      (t : ℕ) → max_warn_temp ≤ t → rate_acc_deg_celsius F o t ≡ spanned min_crit_temp (effective t)
  unfolding rate_acc_deg_celsius get_into_rtg_rng effective
  rate_lem t h = ground (arith, spanned_best 69 (omega arith), spanned_worst 69 (omega arith))

  -- From 25 degrees Celsius on, a higher temperature is never rated better, as far as the arithmetic
  -- keeps the order.
  pub temperature_antitone :
      (s t : ℕ)
      → max_warn_temp ≤ s
      → s ≤ t
      → o.gt (rate_acc_deg_celsius F o t) (rate_acc_deg_celsius F o s) ≡ false
  temperature_antitone s t h k =
      rw (rate_lem s h, rate_lem t (omega arith))
        (spanned-antitone 69 (effective s) (effective t) (omega arith) (effective_mono s t k))
