-- ===== src/Common/Words.antt =====
-- 64 bit machine words as native numbers below 2 ^ 64. A `long int` (8 bytes) is its bit pattern.
use Prim.Native.Nat.{ℕ, ◌+◌, ◌-◌, ◌/◌, ◌%◌, ◌^◌}
use mathlib.Core.Bool.{Bool}
use smartmonitor.Common.Tests.{ltb, if◌then◌else◌}

abbrev pub word : ℕ
word = 2 ^ 64

abbrev pub half_word : ℕ
half_word = 2 ^ 63

abbrev pub u64 : ℕ → ℕ
u64 n = n % word

abbrev pub sub64 : ℕ → ℕ → ℕ
sub64 a b = (a + word - b) % word

-- `a < b` on two `long int`
abbrev pub slt : ℕ → ℕ → Bool
slt a b = ltb ((a + half_word) % word) ((b + half_word) % word)

-- `x / 2` on a `long int`, which rounds towards 0
abbrev pub sdiv2 : ℕ → ℕ
sdiv2 x = if ltb x half_word then x / 2 else (word - (word - x) / 2) % word
