-- ===== src/Examples/UnitGuess.antt =====
-- The unit detection at concrete histories.
use smartmonitor.Common.{ℕ, ◌≤◌, ◌<◌, ◌*◌, ◌+◌, ◌≡◌, refl, false, List, [], ◌∷◌, arith}
use smartmonitor.Common.Words.{slt}
use smartmonitor.UnitGuess.{
  get_unit_till_val_inc, get_unit, UnitSlot, init_slot, on_min_unit, on_till_val_inc, lower_bound,
  upper_bound, midpoint, on_unit, dispatch, guess_slot, run,
}
use smartmonitor.UnitGuess.Bounds.{bounds_ordered}
use smartmonitor.UnitGuess.Metered.{unit_near_truth}
use smartmonitor.UnitGuess.Exact.{unit_exact, first_jump_overshoots}

-- An hour counter, read at 7, 8 and 9 hours of uptime in milliseconds.
abbrev hours : List (ℕ × ℕ)
hours = (7, 25200000) ∷ (8, 28800000) ∷ (9, 32400000) ∷ []

unit_exact_example :
    let s = run init_slot hours in
    (s.state ≡ get_unit) × (s.lower ≡ 3600000) × (s.unit ≡ 3600000) × (s.upper ≡ 3600000)
unit_exact_example =
    unit_exact 3600000 0 7 8 9 25200000 28800000 32400000 [] (ground arith) (omega arith)
      (omega arith)

-- The same counter, read every 50 minutes.
abbrev polls : List (ℕ × ℕ)
polls = (1, 3700000) ∷ (1, 6700000) ∷ (2, 9700000) ∷ (3, 12700000) ∷ (4, 15700000) ∷ []

unit_near_truth_example :
    let s = run init_slot polls in (s.lower ≤ s.unit) × (s.unit ≤ s.upper) × (s.upper < 2 * 3600000)
unfolding run guess_slot dispatch on_min_unit on_till_val_inc on_unit lower_bound upper_bound
    midpoint init_slot
unit_near_truth_example = unit_near_truth 3600000 0 polls (ground arith) refl

bounds_ordered_example : slt (run init_slot polls).upper (run init_slot polls).lower ≡ false
unfolding run guess_slot dispatch on_min_unit on_till_val_inc on_unit lower_bound upper_bound
    midpoint init_slot
bounds_ordered_example = bounds_ordered polls refl

-- The slots of two attributes.
abbrev two_slots : List UnitSlot
two_slots = init_slot ∷ init_slot ∷ []

abbrev started : UnitSlot
started = run init_slot ((1, 3700000) ∷ (2, 9700000) ∷ [])

first_jump_overshoots_example :
    let s = run init_slot ((5, 25200000) ∷ (8, 25200000 + 3 * 3600000) ∷ []) in
    (s.state ≡ get_unit_till_val_inc) × (s.lower ≡ 3 * 3600000) × (s.unit ≡ 3 * 3600000)
first_jump_overshoots_example =
    first_jump_overshoots 3600000 5 25200000 3 (omega arith) (omega arith)
