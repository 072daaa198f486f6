-- ===== src/UnitGuess/Baseline.antt =====
-- What `guessUnit` never undoes: the state only advances, and the baseline is set once.
use smartmonitor.Common.{
  ℕ, ◌≤◌, ◌≡◌, refl, ◌≢◌, List, [], ◌∷◌, some, arith, get_elem?, get_elem?-set_ne, ◌∙◌, inl, inr,
  Option-cases,
}
use smartmonitor.UnitGuess.{
  GuessState, get_min_unit, get_unit_till_val_inc, get_unit, UnitSlot, on_min_unit, on_till_val_inc,
  on_unit, dispatch, guess_slot, guess_unit, run,
}

abbrev pub rank : GuessState → ℕ
rank get_min_unit = 0
rank get_unit_till_val_inc = 1
rank get_unit = 2

rank-dispatch :
    (g : GuessState) (s : UnitSlot) (raw other : ℕ)
    → s.state ≡ g
    → rank g ≤ rank (dispatch g s raw other).state
unfolding dispatch on_min_unit on_till_val_inc on_unit
rank-dispatch get_min_unit s raw other e = ground arith
rank-dispatch get_unit_till_val_inc s raw other e = ground arith
rank-dispatch get_unit s raw other e = ground arith

rank-guess_slot :
    (s : UnitSlot) (raw other : ℕ) → rank s.state ≤ rank (guess_slot s raw other).state
unfolding guess_slot
rank-guess_slot s raw other = rank-dispatch s.state s raw other refl

-- Whatever the drive reports, the detection never falls back to an earlier state.
pub rank-run : (s : UnitSlot) (h : List (ℕ × ℕ)) → rank s.state ≤ rank (run s h).state
unfolding run
rank-run s [] = omega arith
rank-run s ((raw, other) ∷ h) =
    omega (arith, rank-guess_slot s raw other, rank-run (guess_slot s raw other) h)

frozen-dispatch :
    (g : GuessState) (s : UnitSlot) (raw other : ℕ)
    → g ≢ get_min_unit
    → s.state ≡ g
    → let t = dispatch g s raw other in
      (t.state ≢ get_min_unit) × (t.prev_raw ≡ s.prev_raw) × (t.other_metric ≡ s.other_metric)
unfolding dispatch on_till_val_inc on_unit
frozen-dispatch get_min_unit s raw other n e = absurd (n refl)
frozen-dispatch get_unit_till_val_inc s raw other n e = ground arith
frozen-dispatch get_unit s raw other n e = ground arith

-- Once the raw value has increased for the first time, no call ever changes the values that the
-- differences are taken from.
pub baseline-run :
    (s : UnitSlot) (h : List (ℕ × ℕ))
    → s.state ≢ get_min_unit
    → ((run s h).state ≢ get_min_unit)
      × ((run s h).prev_raw ≡ s.prev_raw)
      × ((run s h).other_metric ≡ s.other_metric)
unfolding run guess_slot
baseline-run s [] n = (n, refl, refl)
baseline-run s ((raw, other) ∷ h) n =
    let (n', p, q) = frozen-dispatch s.state s raw other n refl in
    let (m, p', q') = baseline-run (dispatch s.state s raw other) h n' in (m, p' ∙ p, q' ∙ q)

-- A call for one attribute leaves the slots of all others as they were, and keeps their number.
pub guess_unit_others :
    (slots after : List UnitSlot) (id j raw other : ℕ)
    → guess_unit slots id raw other ≡ some after
    → id ≢ j
    → get_elem? after j ≡ get_elem? slots j
unfolding guess_unit
guess_unit_others slots after id j raw other h n = elim (Option-cases (get_elem? slots id)) [
  | inl e ↦ ground arith
  | inr (s, e) ↦ ground (arith, get_elem?-set_ne slots id j (guess_slot s raw other) n)
]
