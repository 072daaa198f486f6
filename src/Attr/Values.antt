-- ===== src/Attr/Values.antt =====
-- The helpers of the raw and the normalized values.
use smartmonitor.Common.{
  ℕ, zero, suc, ◌+◌, ◌-◌, ◌%◌, ◌≤◌, ◌<◌, ◌≡◌, refl, Bool, true, not, ◌&&◌, List, [], ◌∷◌, some,
  ◌==◌, if◌then◌else◌, length, get_elem?, drop, take, arith,
}
use smartmonitor.Common.Words.{word}
use smartmonitor.Attr.{any_set, high_bytes_set, get_nxt_gtr_max_nrmlzd_val}

-- The normalized maximum that the rating uses is at least the default one, and, for values up to the
-- greater default, not below the current value or the threshold.
pub nxt_gtr_covers :
    (gtr max_val curr thresh : ℕ)
    → curr ≤ gtr
    → thresh ≤ gtr
    → let m = get_nxt_gtr_max_nrmlzd_val gtr max_val curr thresh in
      (max_val ≤ m) × (curr ≤ m) × (thresh ≤ m)
unfolding get_nxt_gtr_max_nrmlzd_val
nxt_gtr_covers gtr max_val curr thresh a b = ground arith

unfoldable pub all_zero : List ℕ → Bool
all_zero [] = true
all_zero (b ∷ bs) = (b == 0) && all_zero bs

cases_lem :
    (x : ℕ) (b : Bool) → (if x == 0 then some (not b) else some true) ≡ some (not ((x == 0) && b))
cases_lem x b = ground arith

split_at :
    (arr : List ℕ) (idx : ℕ)
    → idx < length arr
    → (x : ℕ) × (get_elem? arr idx ≡ some x) × (drop idx arr ≡ x ∷ drop (suc idx) arr)
split_at [] idx h = absurd (omega arith)
split_at (x ∷ arr) zero h = (x, refl, refl)
split_at (x ∷ arr) (suc idx) h = split_at arr idx (omega arith)

any_set-drop :
    (arr : List ℕ) (rounds idx : ℕ)
    → idx + rounds ≤ length arr
    → any_set arr rounds idx ≡ some (not (all_zero (take rounds (drop idx arr))))
unfolding any_set all_zero
any_set-drop arr zero idx h = refl
any_set-drop arr (suc rounds) idx h =
    let (x, g, d) = split_at arr idx (omega arith) in
    let e : idx + 1 ≡ suc idx = omega arith in
    let i = any_set-drop arr rounds (suc idx) (omega arith) in
    rw (any_set, g, d, e, i) (cases_lem x (all_zero (take rounds (drop (suc idx) arr))))

-- For an array of at least as many bytes as a `long int`, `highBytesSet` tells exactly whether one of
-- the bytes in front of its last `size` bytes is not 0.
pub high_bytes_set_correct :
    (size num_bytes : ℕ) (arr : List ℕ)
    → size ≤ num_bytes
    → num_bytes ≤ length arr
    → num_bytes < word
    → high_bytes_set size arr num_bytes ≡ some (not (all_zero (take (num_bytes - size) arr)))
unfolding high_bytes_set
high_bytes_set_correct size num_bytes arr a b c =
    let e : (num_bytes + word - size) % word ≡ num_bytes - size = omega arith in
    rw e (any_set-drop arr (num_bytes - size) 0 (omega arith))
