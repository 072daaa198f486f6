-- ===== src/UnitGuess/Exact.antt =====
-- `guessUnit` over histories whose polls meet the increases of the counter exactly, and what the
-- first increase says when it jumps.
use mathlib.Core.Path.{subst}
use native.Mathlib.Nat.{mul-div_cancel_left, div-le_self, lt_of_le_of_lt}
use smartmonitor.Common.{ℕ, ◌+◌, ◌*◌, ◌-◌, ◌/◌, ◌≤◌, ◌<◌, ◌≡◌, ◌⊎◌, refl, List, [], ◌∷◌, arith}
use smartmonitor.Common.Words.{sub64, word, half_word}
use smartmonitor.UnitGuess.{
  GuessState, get_min_unit, get_unit_till_val_inc, get_unit, UnitSlot, on_min_unit, on_till_val_inc,
  lower_bound, upper_bound, midpoint, on_unit, dispatch, guess_slot, init_slot, run,
}
use smartmonitor.UnitGuess.Baseline.{rank, rank-run}

-- The raw value is the exact number of units at each poll, from the metric value `o` on.
abbrev pub Exactly : ℕ → ℕ → ℕ → ℕ → Type 0
Exactly u c raw other = (raw < word) × (raw * u ≡ other + c)

abbrev pub IsExact : ℕ → ℕ → ℕ → List (ℕ × ℕ) → Type 0
IsExact u c o [] = Unit
IsExact u c o ((raw, other) ∷ h) =
    (o ≤ other) × (other < half_word) × Exactly u c raw other × IsExact u c other h

exact_quotient :
    (u c p om raw other : ℕ)
    → Exactly u c p om
    → Exactly u c raw other
    → om ≤ other
    → other < half_word
    → p < raw
    → (sub64 other om / sub64 raw p ≡ u) × (u < half_word)
exact_quotient u c p om raw other (a, a') (b, b') le top lt =
    let r : ℕ = raw - p in
    let e : sub64 raw p ≡ r = omega arith in
    let f : raw ≡ p + r = omega arith in
    let g : (p + r) * u ≡ other + c = subst (λ x. x * u ≡ other + c) f b' in
    let d : sub64 other om ≡ r * u = omega arith in
    let q : r * u / r ≡ u = mul-div_cancel_left u {n = r} (omega arith) in
    (rw (d, e) q, lt_of_le_of_lt (subst (λ x. x ≤ r * u) q (div-le_self (r * u) r)) (omega arith))

record ExactSlot (u c o : ℕ) (s : UnitSlot) : Type 0 where
  pub based :
      ((s.state ≡ get_min_unit) × (s.other_metric ≡ word - 1))
      ⊎ ((s.other_metric ≤ o) × Exactly u c s.prev_raw s.other_metric)
  pub range : s.state ≡ get_unit → (s.lower ≡ u) × (s.unit ≡ u) × (s.upper ≡ u) × (u < half_word)

bounds_stay :
    (s : UnitSlot) (u : ℕ)
    → s.lower ≡ u
    → s.upper ≡ u
    → u < half_word
    → (lower_bound s u ≡ u) × (upper_bound s u ≡ u) × (midpoint u u ≡ u)
unfolding lower_bound upper_bound midpoint
bounds_stay s u h k l = ground arith

exact-dispatch :
    (g : GuessState) (u c o raw other : ℕ) (s : UnitSlot)
    → s.state ≡ g
    → ExactSlot u c o s
    → o ≤ other
    → other < half_word
    → Exactly u c raw other
    → ExactSlot u c other (dispatch g s raw other)
unfolding dispatch on_min_unit on_till_val_inc on_unit
exact-dispatch get_min_unit u c o raw other s e v le top r = ground arith
exact-dispatch get_unit_till_val_inc u c o raw other s e v le top r =
    ground (arith, exact_quotient u c s.prev_raw s.other_metric raw other)
exact-dispatch get_unit u c o raw other s e v le top r =
    ground (arith, exact_quotient u c s.prev_raw s.other_metric raw other, bounds_stay s u)

exact-run :
    (u c o : ℕ) (s : UnitSlot) (h : List (ℕ × ℕ))
    → ExactSlot u c o s
    → IsExact u c o h
    → (last : ℕ) × ExactSlot u c last (run s h)
unfolding run guess_slot
exact-run u c o s [] v m = (o, v)
exact-run u c o s ((raw, other) ∷ h) v (le, top, r, m) =
    exact-run u c other (dispatch s.state s raw other) h
      (exact-dispatch s.state u c o raw other s refl v le top r) m

init-ExactSlot : (u c : ℕ) → ExactSlot u c 0 init_slot
unfolding init_slot
init-ExactSlot u c = ground arith

-- A first reading and two increases reach the last state.
three_readings :
    (a b d oa ob od : ℕ)
    → oa < half_word
    → oa ≤ ob
    → ob ≤ od
    → a < b
    → b < d
    → (guess_slot (guess_slot (guess_slot init_slot a oa) b ob) d od).state ≡ get_unit
unfolding guess_slot dispatch on_min_unit on_till_val_inc init_slot
three_readings a b d oa ob od h le le' lt lt' = ground arith

rank_top : (g : GuessState) → 2 ≤ rank g → g ≡ get_unit
rank_top get_min_unit h = absurd (omega arith)
rank_top get_unit_till_val_inc h = absurd (omega arith)
rank_top get_unit h = refl

-- When every poll meets the counter at a whole number of units, then after a first reading and two
-- increases the detected unit is the true unit, with both bounds equal to it, and it stays so
-- however the history goes on.
pub unit_exact :
    (u c a b d oa ob od : ℕ) (h : List (ℕ × ℕ))
    → IsExact u c 0 ((a, oa) ∷ (b, ob) ∷ (d, od) ∷ h)
    → a < b
    → b < d
    → let s = run init_slot ((a, oa) ∷ (b, ob) ∷ (d, od) ∷ h) in
      (s.state ≡ get_unit) × (s.lower ≡ u) × (s.unit ≡ u) × (s.upper ≡ u)
unfolding run
unit_exact u c a b d oa ob od h m lt lt' =
    let t = guess_slot (guess_slot (guess_slot init_slot a oa) b ob) d od in
    let e : t.state ≡ get_unit =
      three_readings a b d oa ob od (omega arith) (omega arith) (omega arith) lt lt' in
    let top : (run t h).state ≡ get_unit =
      rank_top _ (subst (λ g. rank g ≤ rank (run t h).state) e (rank-run t h)) in
    let (last, v) =
      exact-run u c 0 init_slot ((a, oa) ∷ (b, ob) ∷ (d, od) ∷ h) (init-ExactSlot u c) m in
    let (x, y, z, w) = v.range top in (top, x, y, z)

-- A counter that jumps by `k` units at its first increase makes `k` units the shown lower bound,
-- whatever the true unit `u` is: with `k` above 1 the bound exceeds the true unit.
pub first_jump_overshoots :
    (u a o k : ℕ)
    → o + k * u < half_word
    → 1 ≤ k
    → let s = run init_slot ((a, o) ∷ (a + k, o + k * u) ∷ []) in
      (s.state ≡ get_unit_till_val_inc) × (s.lower ≡ k * u) × (s.unit ≡ k * u)
unfolding run guess_slot dispatch on_min_unit init_slot
first_jump_overshoots u a o k h l = ground arith
