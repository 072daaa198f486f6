-- ===== src/Attr.antt =====
-- A single S.M.A.R.T. attribute: src/attributes/SMARTattr.hpp, src/attributes/SMARTattrVal.cpp and
-- src/attributes/SMARTuniqueIDandValues.cpp. `size` is `s_sizeOfLongIntInBytes`: 8 or, on Windows
-- and 32 bit systems, 4.
pub mod Values
pub mod Locks
use Prim.Native.Nat.{bit_or, bit_xor}
use smartmonitor.Common.{
  ℕ, zero, suc, ◌+◌, ◌-◌, ◌*◌, ◌/◌, ◌%◌, ◌^◌, Bool, true, false, ◌&&◌, ◌||◌, List, [], ◌∷◌, Option,
  none, some, ltb, ◌==◌, if◌then◌else◌, ◌>>=◌, Bytes, get_elem?,
}
use smartmonitor.Common.Words.{word}

-- `m_rawValue` and `m_rawValueCheckSum`
pub record RawValue : Type 0 where
  pub parts : List ℕ
  pub check_sum : ℕ

-- The loop of `setRawVal`: the parts from number `i` on, and the check sum.
unfoldable pub store_parts : ℕ → ℕ → ℕ → ℕ → ℕ → List ℕ × ℕ
store_parts size raw zero i sum = ([], sum)
store_parts size raw (suc count) i sum =
    let part = raw / 2 ^ (size * i * 8) % 2 ^ (size * 8) in
    let (rest, total) = store_parts size raw count (i + 1) (bit_xor sum part) in
    (part ∷ rest, total)

-- `SMARTattr::setRawVal(rawSMARTattrValue)`
unfoldable pub set_raw_val : ℕ → ℕ → RawValue
unfolding store_parts
set_raw_val size raw =
    let (parts, sum) = store_parts size raw (8 / size) 0 0 in
    if ltb size 8
    then record { parts = parts; check_sum = sum }
    else record { parts = raw % 2 ^ 64 ∷ []; check_sum = raw % 2 ^ 64 }

-- `rawValPartIdx > -1` on an unsigned type of the width of a `long int`
unfoldable pub above_minus_one : ℕ → ℕ → Bool
above_minus_one size idx = ltb (2 ^ (size * 8) - 1) idx

-- The loop of `IsConsistent`, from part `idx` on: `rawValue` and the check sum. `none` is an access
-- beyond the parts. The fuel is the number of rounds; one more than the parts is enough.
unfoldable pub join_parts : ℕ → List ℕ → ℕ → ℕ → ℕ → ℕ → Option (ℕ × ℕ)
join_parts size parts zero idx value sum = none
join_parts size parts (suc fuel) idx value sum =
    let bits = size * idx * 8 in
    let before = (idx + 2 ^ (size * 8) - 1) % 2 ^ (size * 8) in
    let next = get_elem? parts idx >>= λ part.
    join_parts size parts fuel before (bit_or value part * 2 ^ bits % word) (bit_xor sum part) in
    if above_minus_one size idx then next else some (value, sum)

-- `SMARTattr::IsConsistent(rawValue)`: the raw value, and whether the check sums agree
unfoldable pub is_consistent : ℕ → RawValue → Option (ℕ × Bool)
unfolding join_parts
is_consistent size v =
    if ltb size 8
    then (join_parts size v.parts (8 / size + 1) (8 / size - 1) 0 0 >>= λ r.
        some (r.0, r.1 == v.check_sum))
    else (get_elem? v.parts 0 >>= λ raw. some (raw, raw == v.check_sum))

-- `highBytesSet`: the loop over the indices from `idx` on, `bound` being `numBytes` minus the size
-- of a `long int`. The fuel is the number of rounds.
unfoldable pub any_set : List ℕ → ℕ → ℕ → Option Bool
any_set arr zero idx = some false
any_set arr (suc rounds) idx =
    let rest = any_set arr rounds (idx + 1) in
    get_elem? arr idx >>= λ b. if b == 0 then rest else some true

-- an unsigned difference: it wraps if `num_bytes` is below the size
unfoldable pub high_bytes_set : ℕ → List ℕ → ℕ → Option Bool
high_bytes_set size arr num_bytes = any_set arr ((num_bytes + word - size) % word) 0

-- `getNxtGtrMaxNrmlzdVal`; `gtr` is ATA3Std_GtrDfltNrmlzdVal
unfoldable pub get_nxt_gtr_max_nrmlzd_val : ℕ → ℕ → ℕ → ℕ → ℕ
get_nxt_gtr_max_nrmlzd_val gtr max_val curr thresh =
    if ltb max_val gtr && (ltb max_val thresh || ltb max_val curr) then gtr else max_val

-- What a thread does with the critical section `s_critSect`, which it may enter repeatedly: how
-- often it holds it. `none` is leaving what is not entered.
unfoldable pub enter : ℕ → Option ℕ
enter held = some (held + 1)

unfoldable pub leave : ℕ → Option ℕ
leave zero = none
leave (suc held) = some held

-- The critical section in `setRawVal(SMARTattrRawVal, numSMARTattrRawValBytes, uptimeInSeconds)`
-- and in `getRawVal(rawVal)`, built without lock-free access: the entering stands under a
-- condition, the leaving does not.
unfoldable pub critical_section : ℕ → ℕ → ℕ → Option ℕ
critical_section size num_bytes held =
    (if ltb size num_bytes then enter held else some held) >>= λ h. leave h
