-- ===== src/UnitGuess/Metered.antt =====
-- `guessUnit` over the histories of a counter that counts another metric (milliseconds, bytes) in
-- an unknown unit: how near the detected unit comes to the true one.
use mathlib.Core.Path.{subst, sym}
use native.Mathlib.Nat.{div-lt_iff_lt-mul, mul-le-mul_left, div-le_self, lt_of_le_of_lt}
use smartmonitor.Common.{ℕ, ◌+◌, ◌*◌, ◌-◌, ◌/◌, ◌≤◌, ◌<◌, ◌≡◌, ◌⊎◌, refl, List, [], ◌∷◌, arith}
use smartmonitor.Common.Words.{sub64, word, half_word}
use smartmonitor.UnitGuess.{
  GuessState, get_min_unit, get_unit_till_val_inc, get_unit, UnitSlot, on_min_unit, on_till_val_inc,
  lower_bound, upper_bound, midpoint, on_unit, dispatch, guess_slot, init_slot, run,
}

-- The raw value counts the metric, from a phase `c`, in units of `u`.
abbrev pub Reads : ℕ → ℕ → ℕ → ℕ → Type 0
Reads u c raw other = (raw < word) × (raw * u ≤ other + c) × (other + c < (raw + 1) * u)

-- A history of such readings from the metric value `o` on: the metric does not fall and stays
-- below 2 ^ 63.
abbrev pub IsMetered : ℕ → ℕ → ℕ → List (ℕ × ℕ) → Type 0
IsMetered u c o [] = Unit
IsMetered u c o ((raw, other) ∷ h) =
    (o ≤ other) × (other < half_word) × Reads u c raw other × IsMetered u c other h

quotient_lt : (d r u : ℕ) → 1 ≤ r → d < (r + 1) * u → d / r < 2 * u
quotient_lt d r u h k =
    (div-lt_iff_lt-mul {k = r} {x = d} {y = 2 * u} h).1
      (omega (arith, mul-le-mul_left {m = 1} {n = r} u h))

difference_lt :
    (u c p om r other : ℕ)
    → Reads u c p om
    → Reads u c (p + r) other
    → om ≤ other
    → other - om < (r + 1) * u
difference_lt u c p om r other a b le = omega arith

sub64-sub : (a b : ℕ) → b ≤ a → a < word → sub64 a b ≡ a - b
sub64-sub a b h k = omega arith

-- A unit that is calculated from two readings with an increase between them is below twice the
-- true unit, and a non-negative `long int`.
calculated_lt :
    (u c p om raw other : ℕ)
    → Reads u c p om
    → Reads u c raw other
    → om ≤ other
    → other < half_word
    → p < raw
    → (sub64 other om / sub64 raw p < 2 * u) × (sub64 other om / sub64 raw p < half_word)
calculated_lt u c p om raw other a b le top lt =
    let r : ℕ = raw - p in
    let e : p + r ≡ raw = omega arith in
    rw (sub64-sub other om le (omega arith), sub64-sub raw p (omega arith) (omega arith))
      (
        quotient_lt (other - om) r u (omega arith)
            (difference_lt u c p om r other a (subst (λ x. Reads u c x other) (sym e) b) le),
        lt_of_le_of_lt (div-le_self (other - om) r) (omega arith),
      )

midpoint_between :
    (lo hi : ℕ) → lo ≤ hi → hi < half_word → (lo ≤ midpoint lo hi) × (midpoint lo hi ≤ hi)
unfolding midpoint
midpoint_between lo hi h k = ground arith

-- One more calculated unit below a limit keeps the bounds in order and below that limit.
bounds_between :
    (s : UnitSlot) (calc top : ℕ)
    → s.lower ≤ s.upper
    → s.upper < half_word
    → calc < half_word
    → s.upper < top
    → calc < top
    → (lower_bound s calc ≤ upper_bound s calc)
      × (upper_bound s calc < half_word)
      × (upper_bound s calc < top)
unfolding lower_bound upper_bound
bounds_between s calc top h k l m n = ground arith

-- What holds of a slot between two calls, after the metric value `o`.
record MeteredSlot (u c o : ℕ) (s : UnitSlot) : Type 0 where
  pub based :
      ((s.state ≡ get_min_unit) × (s.other_metric ≡ word - 1))
      ⊎ ((s.other_metric ≤ o) × Reads u c s.prev_raw s.other_metric)
  pub range :
      s.state ≡ get_unit
      → (s.lower ≤ s.unit) × (s.unit ≤ s.upper) × (s.upper < 2 * u) × (s.upper < half_word)

metered-dispatch :
    (g : GuessState) (u c o raw other : ℕ) (s : UnitSlot)
    → s.state ≡ g
    → MeteredSlot u c o s
    → o ≤ other
    → other < half_word
    → Reads u c raw other
    → MeteredSlot u c other (dispatch g s raw other)
unfolding dispatch on_min_unit on_till_val_inc on_unit
metered-dispatch get_min_unit u c o raw other s e v le top r = ground arith
metered-dispatch get_unit_till_val_inc u c o raw other s e v le top r =
    ground (arith, calculated_lt u c s.prev_raw s.other_metric raw other)
metered-dispatch get_unit u c o raw other s e v le top r =
    let calc = sub64 other s.other_metric / sub64 raw s.prev_raw in
    ground (
      arith,
      calculated_lt u c s.prev_raw s.other_metric raw other,
      bounds_between s calc (2 * u),
      midpoint_between (lower_bound s calc) (upper_bound s calc),
    )

metered-run :
    (u c o : ℕ) (s : UnitSlot) (h : List (ℕ × ℕ))
    → MeteredSlot u c o s
    → IsMetered u c o h
    → (last : ℕ) × MeteredSlot u c last (run s h)
unfolding run guess_slot
metered-run u c o s [] v m = (o, v)
metered-run u c o s ((raw, other) ∷ h) v (le, top, r, m) =
    metered-run u c other (dispatch s.state s raw other) h
      (metered-dispatch s.state u c o raw other s refl v le top r) m

init-MeteredSlot : (u c : ℕ) → MeteredSlot u c 0 init_slot
unfolding init_slot
init-MeteredSlot u c = ground arith

-- For every history of a counter with unit `u`, a determined unit lies between its bounds, and the
-- upper bound stays below twice the true unit, however the polls fall between the increases.
pub unit_near_truth :
    (u c : ℕ) (h : List (ℕ × ℕ))
    → IsMetered u c 0 h
    → (run init_slot h).state ≡ get_unit
    → let s = run init_slot h in (s.lower ≤ s.unit) × (s.unit ≤ s.upper) × (s.upper < 2 * u)
unit_near_truth u c h m e =
    let (last, v) = metered-run u c 0 init_slot h (init-MeteredSlot u c) m in
    let (a, b, d, top) = v.range e in (a, b, d)
