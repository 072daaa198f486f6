-- ===== src/UpdateLoop.antt =====
-- The thread that updates the values: `UpdateSMARTattrValsThreadFunc` and `WaitForTimeout` in
-- src/SMARTmonitorBase.cpp. What the called functions return and how the flag
-- `s_updateSMARTvalues` reads, round by round, is an input.
pub mod Rounds
pub mod Lines
pub mod Kept
use smartmonitor.Common.{
  ℕ, zero, suc, ◌+◌, ◌*◌, ◌/◌, ◌%◌, Bool, true, false, List, [], ◌∷◌, Option, none, some, ◌==◌,
  if◌then◌else◌, ◌>>=◌,
}

-- What the thread does: it gets the values with a result, calls `BeforeWait`, waits, and calls
-- `AfterGetSMARTvaluesLoop` with a result.
pub data Event : Type 0 where
  got : ℕ → Event
  before_wait : Event
  waited : Event
  after : ℕ → Event

-- The `do` loop and what follows it. A round is the result of the function that gets the values,
-- and the flag behind the wait. `none`: the rounds are used up and the loop still runs.
unfoldable pub update_loop : List (ℕ × Bool) → Option (List Event)
update_loop [] = none
update_loop ((res, goes_on) ∷ rounds) =
    let rest = update_loop rounds in
    if res == 0
    then (if goes_on
        then (rest >>= λ t. some (got 0 ∷ before_wait ∷ waited ∷ t))
        else some (got 0 ∷ before_wait ∷ waited ∷ after 0 ∷ []))
    else some (got res ∷ after res ∷ [])

-- The `while` loop of `WaitForTimeout` with so many seconds left: the milliseconds slept. `flag i`
-- is the flag as it is read the i-th time.
unfoldable pub sleep_seconds : ℕ → (ℕ → Bool) → ℕ → ℕ
sleep_seconds zero flag i = 0
sleep_seconds (suc n) flag i =
    let rest = sleep_seconds n flag (i + 1) in if flag i then 1000 + rest else 0

-- `WaitForTimeout`: the milliseconds slept. Its parameter for the seconds is overwritten.
unfoldable pub wait_for_timeout : ℕ → ℕ → (ℕ → Bool) → ℕ
unfolding sleep_seconds
wait_for_timeout seconds ms flag = sleep_seconds (ms / 1000) flag 0 + ms % 1000
