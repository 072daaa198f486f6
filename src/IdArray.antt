-- ===== src/IdArray.antt =====
-- The arrays of S.M.A.R.T. attribute IDs in src/attributes/SMARTuniqueID.hpp and .cpp and in
-- src/attributes/SMARTuniqueIDandValues.hpp. An array is a list of its capacity's length whose
-- entries count up to the first 0; `none` is an access beyond it. A `suppSMART_IDsType`, a set
-- ordered by ID, is the ascending list of its IDs.
pub mod Spec
pub mod Write
pub mod Intersect
pub mod Visit
pub mod Supported
pub mod Copy
use smartmonitor.Common.{
  ℕ, zero, suc, ◌+◌, ◌<◌, Bool, true, false, List, [], ◌∷◌, Option, none, some, ltb, leb, ◌==◌,
  if◌then◌else◌, ◌>>=◌, length, get_elem?, set,
}

-- `a[i] = v`
unfoldable pub write : List ℕ → ℕ → ℕ → Option (List ℕ)
write a i v = if ltb i (length a) then some (set a i v) else none

-- `setSupportedSMART_IDs`: the loop from the array index `idx` on, and the mark behind it
unfoldable pub set_supported_from : List ℕ → ℕ → List ℕ → List ℕ
set_supported_from [] idx a = if ltb idx (length a) then set a idx 0 else a
set_supported_from (x ∷ xs) idx a =
    if ltb idx (length a) then set_supported_from xs (idx + 1) (set a idx x) else a

unfoldable pub set_supported_smart_ids : List ℕ → List ℕ → List ℕ
unfolding set_supported_from
set_supported_smart_ids supported a = set_supported_from supported 0 a

-- Where the `do` loop of `SetSMART_IDsToRead` leaves for one supported ID. A cursor into
-- `SMART_IDsToRead` is the rest of that array.
pub data Found : Type 0 where
  last_entry : Found
  matched : List ℕ → Found
  passed : List ℕ → Found
  beyond : Found

unfoldable pub seek : ℕ → List ℕ → Found
seek s [] = beyond
seek s (x ∷ xs) =
    let on = seek s xs in
    if x == 0
    then last_entry
    else if x == s
    then matched xs
    else if ltb x s
    then elim xs [ [] ↦ passed [] | _ ∷ _ ↦ on ]
    else passed (x ∷ xs)

-- the loop over the supported IDs, and the mark behind the intersection
unfoldable pub intersect : List ℕ → List ℕ → ℕ → List ℕ → Option (List ℕ)
intersect [] [] obs a = some a
intersect [] (_ ∷ _) obs a = write a obs 0
intersect (s ∷ ss) cursor obs a = elim (seek s cursor) [
  | last_entry ↦ write a obs 0
  | matched r ↦ write a obs s >>= λ b. intersect ss r (obs + 1) b
  | passed r ↦ intersect ss r obs a
  | beyond ↦ none
]

-- the loop that takes all supported IDs over, with the mark if there is room for it
unfoldable pub take_all : List ℕ → ℕ → List ℕ → Option (List ℕ)
take_all [] idx a = if ltb idx (length a) then write a idx 0 else some a
take_all (x ∷ xs) idx a = write a idx x >>= λ b. take_all xs (idx + 1) b

-- `SetSMART_IDsToRead(suppSMARTattrNamesAndIDs, SMART_IDsToRead)`
unfoldable pub set_smart_ids_to_read : List ℕ → List ℕ → List ℕ → Option (List ℕ)
set_smart_ids_to_read supported to_read a = elim (get_elem? to_read 0) [
  | none ↦ none
  | some first ↦
      if first == 0
      then (if leb (length supported) (length a) then take_all supported 0 a else some a)
      else intersect supported to_read 0 a
]

-- `SMART_IDsToReadNotEnd(idx)`: the entry is read before the index is compared
unfoldable pub smart_ids_to_read_not_end : List ℕ → ℕ → Option Bool
smart_ids_to_read_not_end a idx = elim (get_elem? a idx) [
  | none ↦ none
  | some x ↦ some (if x == 0 then false else ltb idx (length a))
]

-- the loops `for(idx = 0; SMART_IDsToReadNotEnd(idx); idx++)`: the IDs that they visit. The fuel
-- is the number of rounds; one more than the capacity is enough.
unfoldable pub visit : ℕ → List ℕ → ℕ → Option (List ℕ)
visit zero a idx = none
visit (suc fuel) a idx =
    let rest = visit fuel a (idx + 1) in
    elim (smart_ids_to_read_not_end a idx) [
      | none ↦ none
      | some true ↦ elim (get_elem? a idx) [ none ↦ none | some x ↦ rest >>= λ xs. some (x ∷ xs) ]
      | some false ↦ some []
    ]

-- `copyArr(orig, cpy)` for `count` entries at most
unfoldable pub copy_arr : ℕ → List ℕ → List ℕ → Option (List ℕ)
copy_arr zero orig cpy = some cpy
copy_arr (suc count) (x ∷ orig) (_ ∷ cpy) =
    let rest = copy_arr count orig cpy in
    if x == 0 then some (x ∷ cpy) else rest >>= λ r. some (x ∷ r)
copy_arr (suc count) _ _ = none

-- `setSMART_IDsToReadFromSuccSMARTrawValUpd8`: `flags` are the read flags of the IDs from `id` on
unfoldable pub from_read_flags : List Bool → ℕ → ℕ → List ℕ → Option (List ℕ)
from_read_flags [] id idx a = write a idx 0
from_read_flags (true ∷ flags) id idx a =
    write a idx id >>= λ b. from_read_flags flags (id + 1) (idx + 1) b
from_read_flags (false ∷ flags) id idx a = from_read_flags flags (id + 1) idx a
