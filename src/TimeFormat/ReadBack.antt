-- ===== src/TimeFormat/ReadBack.antt =====
-- A reader of such texts finds the time again.
use smartmonitor.Common.{
  ℕ, zero, suc, ◌+◌, ◌-◌, ◌*◌, ◌/◌, ◌%◌, ◌<◌, ◌≡◌, refl, sym, ap, ◌∙◌, Bool, false, ◌&&◌, [], ◌∷◌,
  ◌++◌, append_assoc, append-nil, leb, ◌==◌, if◌then◌else◌, Bytes, codes, All, arith,
}
use smartmonitor.Common.Decimal.{decimal, IsDigit, value, value-decimal, decimal-All}
use smartmonitor.TimeFormat.{number_of_days, hours_part, minus_days, minus_hours, part, fmt_via_oss}

begins_with_i : Bytes → Bool
begins_with_i [] = false
begins_with_i (c ∷ s) = c == b'i'

-- How many milliseconds the unit stands for that begins with `c` and goes on with `s`; the further
-- letters of "min" count nothing.
unit_ms : ℕ → Bytes → ℕ
unfolding begins_with_i
unit_ms c s =
    if c == b'd'
    then 86400000
    else if c == b'h'
    then 3600000
    else if c == b's'
    then 1000
    else if c == b'm'
    then (if begins_with_i s then 60000 else 1)
    else 0

-- The time that a text spells, behind `total` and the digits of `n`.
unfoldable pub read : ℕ → ℕ → Bytes → ℕ
unfolding unit_ms
read total n [] = total
read total n (c ∷ s) =
    let digit = read total (n * 10 + (c - b'0')) s in
    let unit = read (total + n * unit_ms c s) 0 s in
    if leb b'0' c && leb c b'9' then digit else unit

read-digits :
    (total n : ℕ) (ds s : Bytes)
    → All IsDigit ds
    → read total n (ds ++ s) ≡ read total (value n ds) s
unfolding read value
read-digits total n [] s h = refl
read-digits total n (c ∷ ds) s (d, h) =
    ground (arith, read-digits total (n * 10 + (c - b'0')) ds s h)

read_nil : (total : ℕ) → read total 0 [] ≡ total
unfolding read
read_nil total = refl

read-decimal : (total k : ℕ) (s : Bytes) → read total 0 (decimal k ++ s) ≡ read total k s
read-decimal total k s =
    read-digits total 0 (decimal k) s (decimal-All k) ∙ ap (λ n. read total n s) (value-decimal k)

-- A part counts as many milliseconds as its unit says.
read-part :
    (total k u : ℕ) (unit s : Bytes)
    → ((n : ℕ) → read total n (unit ++ s) ≡ read (total + n * u) 0 s)
    → read total 0 (part k unit ++ s) ≡ read (total + k * u) 0 s
unfolding part
read-part total zero u unit s h = ap (λ t. read t 0 s) (omega arith)
read-part total (suc k) u unit s h =
    let b : (suc k == 0) ≡ false = ground arith in
    rw b (
      ap (read total 0) (append_assoc (decimal (suc k)) unit s)
      ∙ (read-decimal total (suc k) (unit ++ s) ∙ h (suc k)))

day_lem :
    (total n : ℕ) (s : Bytes) → read total n (codes "d" ++ s) ≡ read (total + n * 86400000) 0 s
unfolding read unit_ms
day_lem total n s = refl

hour_lem :
    (total n : ℕ) (s : Bytes) → read total n (codes "h" ++ s) ≡ read (total + n * 3600000) 0 s
unfolding read unit_ms
hour_lem total n s = refl

min_lem : (total n : ℕ) (s : Bytes) → read total n (codes "min" ++ s) ≡ read (total + n * 60000) 0 s
unfolding read unit_ms begins_with_i
min_lem total n s = ap (λ t. read t 0 s) (omega arith)

second_lem : (total n : ℕ) (s : Bytes) → read total n (codes "s" ++ s) ≡ read (total + n * 1000) 0 s
unfolding read unit_ms
second_lem total n s = refl

ms_lem : (total n : ℕ) (s : Bytes) → read total n (codes "ms" ++ s) ≡ read (total + n * 1) 0 s
unfolding read unit_ms begins_with_i
ms_lem total n s = ap (λ t. read t 0 s) (omega arith)

-- The parts add up.
sum_lem :
    (ms : ℕ)
    → number_of_days ms * 86400000
        + hours_part ms * 3600000
        + minus_hours ms / 60000 * 60000
        + ms / 1000 % 60 * 1000
        + ms % 1000
      ≡ ms
unfolding minus_hours minus_days
sum_lem ms = ground arith

-- A printed time above 0 is read back to the millisecond.
pub time_read_back : (ms : ℕ) → 0 < ms → read 0 0 (fmt_via_oss ms) ≡ ms
unfolding fmt_via_oss
time_read_back ms h =
    let nonzero : (ms == 0) ≡ false = ground arith in
    let d = number_of_days ms in
    let m = minus_hours ms / 60000 in
    let sec = ms / 1000 % 60 in
    let rest4 = part (ms % 1000) (codes "ms") in
    let rest3 = part sec (codes "s") ++ rest4 in
    let rest2 = part m (codes "min") ++ rest3 in
    let rest1 = part (hours_part ms) (codes "h") ++ rest2 in
    let t1 = 0 + d * 86400000 in
    let t2 = t1 + hours_part ms * 3600000 in
    let t3 = t2 + m * 60000 in
    let t4 = t3 + sec * 1000 in
    let sum : t4 + ms % 1000 * 1 ≡ ms = omega (arith, sum_lem ms) in
    rw nonzero (
      read-part 0 d 86400000 (codes "d") rest1 (λ n. day_lem 0 n rest1)
      ∙ (read-part t1 (hours_part ms) 3600000 (codes "h") rest2 (λ n. hour_lem t1 n rest2)
          ∙ (read-part t2 m 60000 (codes "min") rest3 (λ n. min_lem t2 n rest3)
              ∙ (read-part t3 sec 1000 (codes "s") rest4 (λ n. second_lem t3 n rest4)
                  ∙ (ap (read t4 0) (sym (append-nil rest4))
                      ∙ (read-part t4 (ms % 1000) 1 (codes "ms") [] (λ n. ms_lem t4 n [])
                          ∙ (read_nil (t4 + ms % 1000 * 1) ∙ sum)))))))
