-- ===== src/IdArray/Copy.antt =====
-- The loops that fill an array of IDs other than by an intersection.
use smartmonitor.Common.{
  ℕ, zero, suc, ◌+◌, ◌<◌, ◌≡◌, ◌∙◌, refl, sym, ap, Bool, true, false, List, [], ◌∷◌, ◌++◌, some,
  none, arith, length, append_assoc, length-append,
}
use smartmonitor.IdArray.{take_all, set_smart_ids_to_read, visit, copy_arr, from_read_flags}
use smartmonitor.IdArray.Spec.{Ascends, ids, ids-append}
use smartmonitor.IdArray.Write.{write-append}
use smartmonitor.IdArray.Visit.{NonZero, visit-unmarked}

write_grow :
    (x : ℕ) (done ts : List ℕ)
    → (done ++ x ∷ ts ≡ (done ++ x ∷ []) ++ ts) × (length done + 1 ≡ length (done ++ x ∷ []))
write_grow x done ts = (sym (append_assoc done (x ∷ []) ts), sym (length-append done (x ∷ [])))

take_all_step :
    (x : ℕ) (xs done : List ℕ) (t : ℕ) (ts : List ℕ)
    → take_all (x ∷ xs) (length done) (done ++ t ∷ ts)
      ≡ take_all xs (length (done ++ x ∷ [])) ((done ++ x ∷ []) ++ ts)
unfolding take_all
take_all_step x xs done t ts =
    rw (write-append done t ts x) (cc ((write_grow x done ts).0, (write_grow x done ts).1))

take_all-room :
    (xs done tail : List ℕ)
    → length xs < length tail
    → (left : List ℕ) × (take_all xs (length done) (done ++ tail) ≡ some (done ++ (xs ++ 0 ∷ left)))
      × (length left + length xs + 1 ≡ length tail)
take_all-room [] done [] h = absurd (omega arith)
take_all-room [] done (t ∷ ts) h = (
  ts,
  unfold take_all in ground (arith, length-append done (t ∷ ts), write-append done t ts 0),
  omega arith,
)
take_all-room (x ∷ xs) done [] h = absurd (omega arith)
take_all-room (x ∷ xs) done (t ∷ ts) h =
    let (left, e, l) = take_all-room xs (done ++ x ∷ []) ts (omega arith) in
    (
      left,
      take_all_step x xs done t ts ∙ e ∙ ap some (append_assoc done (x ∷ []) (xs ++ 0 ∷ left)),
      omega arith,
    )

take_all-full :
    (xs done tail : List ℕ)
    → length xs ≡ length tail
    → take_all xs (length done) (done ++ tail) ≡ some (done ++ xs)
take_all-full [] done [] h = unfold take_all in ground (arith, length-append {A = ℕ} done [])
take_all-full [] done (t ∷ ts) h = absurd (omega arith)
take_all-full (x ∷ xs) done [] h = absurd (omega arith)
take_all-full (x ∷ xs) done (t ∷ ts) h =
    take_all_step x xs done t ts
    ∙ take_all-full xs (done ++ x ∷ []) ts (omega arith)
    ∙ ap some (append_assoc done (x ∷ []) xs)

NonZero-Ascends : (xs : List ℕ) (lo : ℕ) → Ascends lo xs → NonZero xs
NonZero-Ascends [] lo a = tt
NonZero-Ascends (x ∷ xs) lo (p, a) = (omega arith, NonZero-Ascends xs x a)

-- With an empty list of IDs to read, all supported IDs are stored, if a mark still fits behind them.
pub set_smart_ids_to_read_all :
    (supported junk a : List ℕ)
    → Ascends 0 supported
    → length supported < length a
    → (b : List ℕ) × (set_smart_ids_to_read supported (0 ∷ junk) a ≡ some b)
      × (ids b ≡ supported)
      × (length b ≡ length a)
unfolding set_smart_ids_to_read
set_smart_ids_to_read_all supported junk a up room =
    let (left, e, l) = take_all-room supported [] a room in
    (
      supported ++ 0 ∷ left,
      ground (arith, e),
      ids-append supported left 0 up,
      omega (arith, length-append supported (0 ∷ left)),
    )

-- As many supported IDs as the array has entries are all stored and leave no room for the mark:
-- the loops over the IDs to read then have no defined result, for any number of rounds.
pub full_array_overruns :
    (supported junk a : List ℕ) (fuel : ℕ)
    → Ascends 0 supported
    → length supported ≡ length a
    → (set_smart_ids_to_read supported (0 ∷ junk) a ≡ some supported)
      × (visit fuel supported 0 ≡ none)
unfolding set_smart_ids_to_read
full_array_overruns supported junk a fuel up size = (
  ground (arith, take_all-full supported [] a size),
  visit-unmarked supported fuel (NonZero-Ascends supported 0 up),
)

-- The IDs from `id` on whose flag is set.
pub flagged : ℕ → List Bool → List ℕ
flagged id [] = []
flagged id (true ∷ flags) = id ∷ flagged (id + 1) flags
flagged id (false ∷ flags) = flagged (id + 1) flags

from_read_flags_step :
    (flags : List Bool) (id : ℕ) (done : List ℕ) (t : ℕ) (ts : List ℕ)
    → from_read_flags (true ∷ flags) id (length done) (done ++ t ∷ ts)
      ≡ from_read_flags flags (id + 1) (length (done ++ id ∷ [])) ((done ++ id ∷ []) ++ ts)
unfolding from_read_flags
from_read_flags_step flags id done t ts =
    rw (write-append done t ts id) (cc ((write_grow id done ts).0, (write_grow id done ts).1))

from_read_flags-room :
    (flags : List Bool) (id : ℕ) (done tail : List ℕ)
    → length flags < length tail
    → (left : List ℕ) × (from_read_flags flags id (length done) (done ++ tail)
        ≡ some (done ++ (flagged id flags ++ 0 ∷ left)))
unfolding from_read_flags flagged
from_read_flags-room flags id done [] h = absurd (omega arith)
from_read_flags-room [] id done (t ∷ ts) h = (ts, write-append done t ts 0)
from_read_flags-room (true ∷ flags) id done (t ∷ ts) h =
    let (left, e) = from_read_flags-room flags (id + 1) (done ++ id ∷ []) ts (omega arith) in
    (
      left,
      from_read_flags_step flags id done t ts
          ∙ e
          ∙ ap some (append_assoc done (id ∷ []) (flagged (id + 1) flags ++ 0 ∷ left)),
    )
from_read_flags-room (false ∷ flags) id done (t ∷ ts) h =
    from_read_flags-room flags (id + 1) done (t ∷ ts) (omega arith)

flagged-Ascends : (flags : List Bool) (id lo : ℕ) → lo < id → Ascends lo (flagged id flags)
unfolding flagged
flagged-Ascends [] id lo h = tt
flagged-Ascends (true ∷ flags) id lo h = (h, flagged-Ascends flags (id + 1) id (omega arith))
flagged-Ascends (false ∷ flags) id lo h = flagged-Ascends flags (id + 1) lo (omega arith)

-- With fewer flags than the array has entries the call stays within the array and stores exactly
-- the IDs from 1 on whose value was read, in ascending order.
pub from_read_flags_exact :
    (flags : List Bool) (a : List ℕ)
    → length flags < length a
    → (b : List ℕ) × (from_read_flags flags 1 0 a ≡ some b) × (ids b ≡ flagged 1 flags)
from_read_flags_exact flags a room =
    let (left, e) = from_read_flags-room flags 1 [] a room in
    (
      flagged 1 flags ++ 0 ∷ left,
      e,
      ids-append (flagged 1 flags) left 0 (flagged-Ascends flags 1 0 (omega arith)),
    )

copy_arr-marked :
    (xs : List ℕ) (count : ℕ) (junk cpy : List ℕ)
    → NonZero xs
    → length xs < count
    → length xs < length cpy
    → (left : List ℕ) × (copy_arr count (xs ++ 0 ∷ junk) cpy ≡ some (xs ++ 0 ∷ left))
      × (length (xs ++ 0 ∷ left) ≡ length cpy)
unfolding copy_arr
copy_arr-marked xs zero junk cpy n h k = absurd (omega arith)
copy_arr-marked xs (suc count) junk [] n h k = absurd (omega arith)
copy_arr-marked [] (suc count) junk (y ∷ cpy) n h k = (cpy, ground arith, refl)
copy_arr-marked (x ∷ xs) (suc count) junk (y ∷ cpy) (n, ns) h k =
    let (left, e, l) = copy_arr-marked xs count junk cpy ns (omega arith) (omega arith) in
    (left, ground (arith, e), omega arith)

-- A copy of an array of ascending IDs with its mark holds the same IDs, when the count covers them
-- and the mark.
pub ids-copy_arr :
    (xs : List ℕ) (count : ℕ) (junk cpy : List ℕ)
    → Ascends 0 xs
    → length xs < count
    → length xs < length cpy
    → (b : List ℕ) × (copy_arr count (xs ++ 0 ∷ junk) cpy ≡ some b)
      × (ids b ≡ ids (xs ++ 0 ∷ junk))
      × (length b ≡ length cpy)
ids-copy_arr xs count junk cpy up h k =
    let (left, e, l) = copy_arr-marked xs count junk cpy (NonZero-Ascends xs 0 up) h k in
    (xs ++ 0 ∷ left, e, ids-append xs left 0 up ∙ sym (ids-append xs junk 0 up), l)
