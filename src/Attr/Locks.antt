-- ===== src/Attr/Locks.antt =====
-- The critical section around a raw value.
use smartmonitor.Common.{ℕ, ◌<◌, ◌≤◌, ◌≡◌, ◌↔◌, none, some, arith}
use smartmonitor.Attr.{enter, leave, critical_section}

-- Setting or getting a raw value leaves the critical section as it was found exactly if the raw value
-- is longer than a `long int`; exactly for the shorter ones, a thread that does not hold it leaves it
-- without having entered it.
pub critical_section_balanced_iff :
    (size num_bytes held : ℕ)
    → ((critical_section size num_bytes held ≡ some held) ↔ (size < num_bytes))
      × ((critical_section size num_bytes 0 ≡ none) ↔ (num_bytes ≤ size))
unfolding critical_section enter leave
critical_section_balanced_iff size num_bytes held = ground arith
