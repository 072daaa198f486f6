-- ===== src/Examples/Rating.antt =====
-- The rating over two simple arithmetics: whole numbers from -1 on with quotients
-- rounded to 0 or 1, and signs.
use smartmonitor.Common.{
  ℕ, ◌+◌, ◌-◌, ◌*◌, ◌≡◌, refl, false, [], ◌∷◌, ltb, leb, ◌==◌, if◌then◌else◌, arith,
}
use smartmonitor.Common.Words.{half_word}
use smartmonitor.Attr.{get_nxt_gtr_max_nrmlzd_val}
use smartmonitor.Rating.{
  FloatOps, NvmeIds, AtaIds, abs_worst, get_1_to_mns1_rng, rate_acc_deg_celsius,
}
use smartmonitor.Rating.Temperature.{OrderLaws, temperature_antitone}
use smartmonitor.Rating.Manufacturer.{SignLaws, mfr_rating_sign}

-- `n` stands for the number n - 1.
abbrev rounded : FloatOps ℕ
rounded = record {
  zero_f = 1;
  one_f = 2;
  two_f = 3;
  minus_one_f = 0;
  three_f = 4;
  of_nat = λ n. n + 1;
  of_long = λ d. if ltb d half_word then d + 1 else 0;
  mul = λ x y. if x + y == 0 then 2 else (x - 1) * (y - 1) + 1;
  div = λ x y. if leb y x then 2 else 1;
  sub = λ x y. x + 1 - y;
  gt = λ x y. ltb y x;
  eq_f = λ x y. x == y;
}

rounded-OrderLaws : OrderLaws ℕ rounded
unfolding abs_worst
rounded-OrderLaws = record {
  refl_f = λ x. ground arith;
  trans_f = λ x y z h k. ground arith;
  of_nat_mono = λ m n h. ground arith;
  sub_mono_left = λ x y z h. ground arith;
  sub_mono_right = λ x y z h. ground arith;
  div_mono = λ x y n h k. ground arith;
  mul_mono = λ x y h. ground arith;
  sub_self = λ x. omega arith;
  sub_zero = λ x. omega arith;
  div_self = λ n h. ground arith;
  div_zero = λ n h. ground arith;
  span_one = refl;
  span_zero = refl;
}

temperature_antitone_example :
    ltb (rate_acc_deg_celsius ℕ rounded 40) (rate_acc_deg_celsius ℕ rounded 60) ≡ false
temperature_antitone_example =
    temperature_antitone ℕ rounded rounded-OrderLaws 40 60 (omega arith) (omega arith)

-- 0, 1 and 2 stand for the signs.
abbrev signs : FloatOps ℕ
signs = record {
  zero_f = 1;
  one_f = 2;
  two_f = 2;
  minus_one_f = 0;
  three_f = 2;
  of_nat = λ n. if n == 0 then 1 else 2;
  of_long = λ d. if d == 0 then 1 else if ltb d half_word then 2 else 0;
  mul = λ x y. x;
  div = λ x y. x;
  sub = λ x y. x + 1 - y;
  gt = λ x y. ltb y x;
  eq_f = λ x y. x == y;
}

signs-SignLaws : SignLaws ℕ signs
signs-SignLaws = record {
  one_positive = refl;
  minus_one_not_positive = refl;
  quotient_sign = λ d n h. ground arith;
  scaled_sign = λ x m n h. h;
}

mfr_rating_sign_example : ltb 1 (get_1_to_mns1_rng ℕ signs 200 100 40 10) ≡ ltb 10 40
unfolding get_nxt_gtr_max_nrmlzd_val
mfr_rating_sign_example =
    mfr_rating_sign ℕ signs signs-SignLaws 200 100 40 10 (omega arith) (omega arith) (omega arith)

abbrev nvme_ids : NvmeIds
nvme_ids = record {
  composite_temperature = 2;
  available_spare = 3;
  percentage_used = 5;
  media_errors = 11;
  error_info_log_entry_count = 12;
}

abbrev ata_ids : AtaIds
ata_ids = record { error_counts = 1 ∷ 5 ∷ []; total_data_written = 241; dev_temp = 194 }
