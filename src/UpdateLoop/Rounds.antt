-- ===== src/UpdateLoop/Rounds.antt =====
-- When the loop ends and what it has done, and how long a wait takes.
use smartmonitor.Common.{
  ℕ, zero, suc, ◌+◌, ◌*◌, ◌/◌, ◌%◌, ◌≤◌, ◌≡◌, ◌≢◌, ◌⊎◌, refl, Bool, true, false, List, [], ◌∷◌,
  ◌++◌, some, ◌==◌, if◌then◌else◌, replicate, arith,
}
use smartmonitor.UpdateLoop.{
  Event, got, before_wait, waited, after, update_loop, sleep_seconds, wait_for_timeout,
}

-- What so many full rounds do.
unfoldable pub full_rounds : ℕ → List Event
full_rounds zero = []
full_rounds (suc n) = got 0 ∷ before_wait ∷ waited ∷ full_rounds n

-- what the last round does
unfoldable pub last_round : ℕ → List Event
last_round res =
    if res == 0 then got 0 ∷ before_wait ∷ waited ∷ after 0 ∷ [] else got res ∷ after res ∷ []

-- The loop ends with the first round whose result is not 0 or behind whose wait the flag is cleared.
-- Each round before it got the values, called `BeforeWait` and waited; a failing last round does not
-- call `BeforeWait`; `AfterGetSMARTvaluesLoop` is called once, at the end, with the last result.
pub update_loop_lem :
    (n res : ℕ) (goes_on : Bool) (later : List (ℕ × Bool))
    → (res ≢ 0) ⊎ (goes_on ≡ false)
    → update_loop (replicate n (0, true) ++ (res, goes_on) ∷ later)
      ≡ some (full_rounds n ++ last_round res)
unfolding update_loop full_rounds last_round
update_loop_lem zero res goes_on later h = ground arith
update_loop_lem (suc n) res goes_on later h = rw (update_loop_lem n res goes_on later h) refl

sleep_lem :
    (n i k : ℕ) (flag : ℕ → Bool)
    → ((j : ℕ) → i + k ≤ j → flag j ≡ false)
    → (sleep_seconds n flag i ≤ n * 1000) × (sleep_seconds n flag i ≤ k * 1000)
unfolding sleep_seconds
sleep_lem zero i k flag h = (omega arith, omega arith)
sleep_lem (suc n) i zero flag h = ground (arith, h i (omega arith))
sleep_lem (suc n) i (suc k) flag h =
    ground (arith, sleep_lem n (i + 1) k flag (λ j q. h j (omega arith)))

sleep_all :
    (n i : ℕ) (flag : ℕ → Bool) → ((j : ℕ) → flag j ≡ true) → sleep_seconds n flag i ≡ n * 1000
unfolding sleep_seconds
sleep_all zero i flag h = omega arith
sleep_all (suc n) i flag h = ground (arith, h i, sleep_all n (i + 1) flag h)

-- A wait while the flag stays set takes just the milliseconds asked for.
pub wait_full :
    (seconds ms : ℕ) (flag : ℕ → Bool)
    → ((j : ℕ) → flag j ≡ true)
    → wait_for_timeout seconds ms flag ≡ ms
unfolding wait_for_timeout
wait_full seconds ms flag h = omega (arith, sleep_all (ms / 1000) 0 flag h)

-- A wait never takes longer than asked for, and once the flag is cleared before the k-th test it ends
-- after k seconds and the odd milliseconds at the latest.
pub wait_bounded :
    (seconds ms k : ℕ) (flag : ℕ → Bool)
    → ((j : ℕ) → k ≤ j → flag j ≡ false)
    → (wait_for_timeout seconds ms flag ≤ ms)
      × (wait_for_timeout seconds ms flag ≤ k * 1000 + ms % 1000)
unfolding wait_for_timeout
wait_bounded seconds ms k flag h =
    let (a, b) = sleep_lem (ms / 1000) 0 k flag (λ j q. h j (omega arith)) in
    (omega arith, omega arith)
