-- ===== src/UnitGuess/Bounds.antt =====
-- The bounds that `guessUnit` keeps, for every history of 64 bit values.
use smartmonitor.Common.{ℕ, ◌/◌, ◌≡◌, refl, false, List, [], ◌∷◌, arith}
use smartmonitor.Common.Words.{slt, sub64}
use smartmonitor.UnitGuess.{
  GuessState, get_min_unit, get_unit_till_val_inc, get_unit, UnitSlot, on_min_unit, on_till_val_inc,
  lower_bound, upper_bound, on_unit, dispatch, guess_slot, init_slot, run,
}

abbrev BoundsOrdered : UnitSlot → Type 0
BoundsOrdered s = s.state ≡ get_unit → slt s.upper s.lower ≡ false

bounds-ordered_step :
    (s : UnitSlot) (calc : ℕ)
    → slt s.upper s.lower ≡ false
    → slt (upper_bound s calc) (lower_bound s calc) ≡ false
unfolding upper_bound lower_bound
bounds-ordered_step s calc h = ground arith

bounds-dispatch :
    (g : GuessState) (s : UnitSlot) (raw other : ℕ)
    → s.state ≡ g
    → BoundsOrdered s
    → BoundsOrdered (dispatch g s raw other)
unfolding dispatch on_min_unit on_till_val_inc on_unit
bounds-dispatch get_min_unit s raw other e h = ground arith
bounds-dispatch get_unit_till_val_inc s raw other e h = ground arith
bounds-dispatch get_unit s raw other e h =
    let calc = sub64 other s.other_metric / sub64 raw s.prev_raw in
    ground (arith, bounds-ordered_step s calc (h e))

bounds-run : (s : UnitSlot) (h : List (ℕ × ℕ)) → BoundsOrdered s → BoundsOrdered (run s h)
unfolding run guess_slot
bounds-run s [] b = b
bounds-run s ((raw, other) ∷ h) b =
    bounds-run (dispatch s.state s raw other) h (bounds-dispatch s.state s raw other refl b)

-- Whenever a unit range has been determined its upper bound is not below its lower bound, as
-- `long int`, for every history of calls from the initial values, wrapping differences included.
pub bounds_ordered :
    (h : List (ℕ × ℕ))
    → (run init_slot h).state ≡ get_unit
    → slt (run init_slot h).upper (run init_slot h).lower ≡ false
unfolding init_slot
bounds_ordered h = bounds-run init_slot h (λ e. cc)
