-- ===== src/Display/RealValue.antt =====
-- The real value by the unit that a model's definition names.
use smartmonitor.Common.{
  ℕ, ◌+◌, ◌-◌, ◌*◌, ◌≤◌, ◌<◌, ◌≡◌, ◌≢◌, refl, Bool, true, false, [], ◌∷◌, ◌++◌, arith, Bytes, codes,
  length, All, ap, sym, ◌∙◌,
}
use smartmonitor.Common.Words.{word, u64}
use smartmonitor.Common.Decimal.{
  decimal, value, IsDigit, value-decimal, decimal-All, decimal-ne-nil,
}
use smartmonitor.Display.{UnitScan, scan_unit, scan_units, scan_unit_char, get_real_value}

value_mono : (c : ℕ) (s : Bytes) → c ≤ value c s
unfolding value
value_mono c [] = omega arith
value_mono c (d ∷ s) = omega (arith, value_mono (c * 10 + (d - b'0')) s)

-- behind a number
abbrev number_scan : ℕ → ℕ → UnitScan
number_scan real c = record { error = false; curr_num = c; is_number = true; real = real }

scan_digit :
    (raw real c i d : ℕ)
    → IsDigit d
    → c * 10 + (d - b'0') < word
    → scan_unit raw (number_scan real c) i d ≡ number_scan real (c * 10 + (d - b'0'))
unfolding scan_unit
scan_digit raw real c i d h b = ground arith

scan_cons :
    (raw : ℕ) (s : UnitScan) (i ch : ℕ) (t : Bytes)
    → scan_units raw s i (ch ∷ t) ≡ scan_units raw (scan_unit raw s i ch) (i + 1) t
unfolding scan_units
scan_cons raw s i ch t = refl

scan_digits :
    (raw real c i j : ℕ) (s t : Bytes)
    → All IsDigit s
    → value c s < word
    → i + length s ≡ j
    → scan_units raw (number_scan real c) i (s ++ t)
      ≡ scan_units raw (number_scan real (value c s)) j t
unfolding value
scan_digits raw real c i j [] t h b e =
    let q : i ≡ j = omega arith in ap (λ k. scan_units raw (number_scan real c) k t) q
scan_digits raw real c i j (d ∷ s) t (h, hs) b e =
    let b' : value (c * 10 + (d - b'0')) s < word = b in
    scan_cons raw (number_scan real c) i d (s ++ t)
    ∙ (ap (λ x. scan_units raw x (i + 1) (s ++ t))
          (scan_digit raw real c i d h (omega (arith, value_mono (c * 10 + (d - b'0')) s)))
        ∙ scan_digits raw real (c * 10 + (d - b'0')) (i + 1) j s t hs b' (omega arith))

begin_lem :
    (raw d : ℕ) (t : Bytes)
    → IsDigit d
    → scan_units raw (record { error = false; curr_num = 0; is_number = false; real = 0 }) 0 (d ∷ t)
      ≡ scan_units raw (number_scan 0 0) 0 (d ∷ t)
unfolding scan_units
begin_lem raw d t h = ap (λ x. scan_units raw x 1 t) (unfold scan_unit in ground arith)

-- The first digit of a number starts it.
first_digit :
    (raw : ℕ) (s t : Bytes)
    → s ≢ []
    → All IsDigit s
    → value 0 s < word
    → (r : UnitScan) × (scan_units raw (number_scan 0 (value 0 s)) (length s) t ≡ r)
      × (get_real_value (s ++ t) raw ≡ (r.error, r.real))
unfolding get_real_value
first_digit raw [] t n h b = absurd (n refl)
first_digit raw (d ∷ s) t n h b = (
  scan_units raw (number_scan 0 (value 0 (d ∷ s))) (length (d ∷ s)) t,
  refl,
  ap (λ r. (r.error, r.real))
      ((begin_lem raw d (s ++ t) h.0)
        ∙ scan_digits raw 0 0 0 (length (d ∷ s)) (d ∷ s) t h b (omega arith)),
)

abbrev outcome : UnitScan → Bool × ℕ
outcome s = (s.error, s.real)

-- a unit behind a number
with_number :
    (raw n : ℕ) (t : Bytes)
    → n < word
    → (r : UnitScan) × (scan_units raw (number_scan 0 n) (length (decimal n)) t ≡ r)
      × (get_real_value (decimal n ++ t) raw ≡ (r.error, r.real))
with_number raw n t h =
    let b : value 0 (decimal n) < word = rw (value-decimal n) h in
    let (r, e, g) = first_digit raw (decimal n) t (decimal-ne-nil n) (decimal-All n) b in
    (
      r,
      ap (λ v. scan_units raw (number_scan 0 v) (length (decimal n)) t) (sym (value-decimal n)) ∙ e,
      g,
    )

with_unit :
    (raw n : ℕ) (t : Bytes) (error : Bool) (real : ℕ)
    → n < word
    → outcome (scan_units raw (number_scan 0 n) (length (decimal n)) t) ≡ (error, real)
    → get_real_value (decimal n ++ t) raw ≡ (error, real)
with_unit raw n t error real h e =
    let (r, q, g) = with_number raw n t h in g ∙ (ap outcome (sym q) ∙ e)

zero_add : (x : ℕ) → ◌≡◌ {A = Bool × ℕ} (false, 0 + x) (false, x)
zero_add x = let q : 0 + x ≡ x = omega arith in ap (λ y. (false, y)) q

-- A unit is a number behind which B, s or h stand for 1, 1000 and 3600000: the real value is the raw
-- value times the unit, reduced to 64 bits. Behind G, which stands for 1000000000, a B adds that
-- product a second time. A number alone gives 0.
pub real_value_lem :
    (raw n : ℕ)
    → n < word
    → (get_real_value (decimal n ++ codes "B") raw ≡ (false, raw * n))
      × (get_real_value (decimal n ++ codes "s") raw ≡ (false, raw * u64 (n * 1000)))
      × (get_real_value (decimal n ++ codes "h") raw ≡ (false, raw * u64 (n * 3600000)))
      × (get_real_value (decimal n ++ codes "GB") raw
          ≡ (false, raw * u64 (n * 1000000000) + raw * u64 (n * 1000000000)))
      × (get_real_value (decimal n ++ []) raw ≡ (false, 0))
unfolding scan_units scan_unit scan_unit_char
real_value_lem raw n h = (
  with_unit raw n (codes "B") false (raw * n) h (zero_add (raw * n)),
  with_unit raw n (codes "s") false (raw * u64 (n * 1000)) h (zero_add (raw * u64 (n * 1000))),
  with_unit raw n (codes "h") false (raw * u64 (n * 3600000)) h
      (zero_add (raw * u64 (n * 3600000))),
  with_unit raw n (codes "GB") false (raw * u64 (n * 1000000000) + raw * u64 (n * 1000000000)) h
      (ap (λ r. (r.0, r.1 + raw * u64 (n * 1000000000))) (zero_add (raw * u64 (n * 1000000000)))),
  with_unit raw n [] false 0 h refl,
)
