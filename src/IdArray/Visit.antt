-- ===== src/IdArray/Visit.antt =====
-- The loop that reads an array of IDs: what it visits, and where it runs over.
use smartmonitor.Common.{
  ℕ, zero, suc, ◌+◌, ◌<◌, ◌≡◌, ◌≢◌, refl, List, [], ◌∷◌, ◌++◌, none, some, arith, length, All,
  append_assoc, length-append, ◌>>=◌,
}
use smartmonitor.IdArray.{smart_ids_to_read_not_end, visit}
use smartmonitor.IdArray.Write.{get_elem?-append, get_elem?-past}

-- Entries that are not the mark.
abbrev pub NonZero : List ℕ → Type 0
NonZero = All (λ x. x ≢ 0)

visit_step :
    (fuel x : ℕ) (done rest : List ℕ)
    → x ≢ 0
    → visit (suc fuel) (done ++ x ∷ rest) (length done)
      ≡ (visit fuel (done ++ x ∷ rest) (length done + 1) >>= λ xs. some (x ∷ xs))
unfolding visit smart_ids_to_read_not_end
visit_step fuel x done rest h =
    ground (arith, get_elem?-append done x rest, length-append done (x ∷ rest))

visit_mark :
    (fuel : ℕ) (done rest : List ℕ) → visit (suc fuel) (done ++ 0 ∷ rest) (length done) ≡ some []
unfolding visit smart_ids_to_read_not_end
visit_mark fuel done rest = ground (arith, get_elem?-append done 0 rest)

visit_grow :
    (fuel x : ℕ) (done rest : List ℕ)
    → visit fuel (done ++ x ∷ rest) (length done + 1)
      ≡ visit fuel ((done ++ x ∷ []) ++ rest) (length (done ++ x ∷ []))
visit_grow fuel x done rest = cc (append_assoc done (x ∷ []) rest, length-append done (x ∷ []))

visit-marked_from :
    (xs : List ℕ) (fuel : ℕ) (done junk : List ℕ)
    → NonZero xs
    → length xs < fuel
    → visit fuel (done ++ (xs ++ 0 ∷ junk)) (length done) ≡ some xs
visit-marked_from [] zero done junk h k = absurd (omega arith)
visit-marked_from [] (suc fuel) done junk h k = visit_mark fuel done junk
visit-marked_from (x ∷ xs) zero done junk h k = absurd (omega arith)
visit-marked_from (x ∷ xs) (suc fuel) done junk (n, h) k = rw (
  visit_step fuel x done (xs ++ 0 ∷ junk) n,
  visit_grow fuel x done (xs ++ 0 ∷ junk),
  visit-marked_from xs fuel (done ++ x ∷ []) junk h (omega arith),
)

visit-unmarked_from :
    (xs : List ℕ) (fuel : ℕ) (done : List ℕ)
    → NonZero xs
    → visit fuel (done ++ xs) (length done) ≡ none
visit-unmarked_from xs zero done h = unfold visit in refl
visit-unmarked_from [] (suc fuel) done h =
    unfold visit smart_ids_to_read_not_end in ground (arith, get_elem?-past done)
visit-unmarked_from (x ∷ xs) (suc fuel) done (n, h) = rw (
  visit_step fuel x done xs n,
  visit_grow fuel x done xs,
  visit-unmarked_from xs fuel (done ++ x ∷ []) h,
)

-- The loop visits the IDs before the mark, each once and in their order, when it is given more
-- rounds than there are such IDs.
pub visit-marked :
    (xs junk : List ℕ) (fuel : ℕ)
    → NonZero xs
    → length xs < fuel
    → visit fuel (xs ++ 0 ∷ junk) 0 ≡ some xs
visit-marked xs junk fuel h k = visit-marked_from xs fuel [] junk h k

-- Over an array with no mark the loop has no defined result, however many rounds it is given.
pub visit-unmarked : (a : List ℕ) (fuel : ℕ) → NonZero a → visit fuel a 0 ≡ none
visit-unmarked a fuel h = visit-unmarked_from a fuel [] h
