-- ===== src/IdArray/Write.antt =====
-- Reading and writing an array behind what is done.
use smartmonitor.Common.{
  ℕ, ◌≡◌, refl, ap, List, [], ◌∷◌, ◌++◌, some, none, arith, length, get_elem?, set, length-append,
}
use smartmonitor.IdArray.{write}

pub set-append :
    (done : List ℕ) (t : ℕ) (ts : List ℕ) (v : ℕ)
    → set (done ++ t ∷ ts) (length done) v ≡ done ++ v ∷ ts
set-append [] t ts v = refl
set-append (d ∷ done) t ts v = ap (λ r. d ∷ r) (set-append done t ts v)

-- Writing behind what is done.
pub write-append :
    (done : List ℕ) (t : ℕ) (ts : List ℕ) (v : ℕ)
    → write (done ++ t ∷ ts) (length done) v ≡ some (done ++ v ∷ ts)
unfolding write
write-append done t ts v = ground (arith, length-append done (t ∷ ts), set-append done t ts v)

pub get_elem?-append :
    (done : List ℕ) (x : ℕ) (xs : List ℕ) → get_elem? (done ++ x ∷ xs) (length done) ≡ some x
get_elem?-append [] x xs = refl
get_elem?-append (d ∷ done) x xs = get_elem?-append done x xs

pub get_elem?-past : (done : List ℕ) → get_elem? (done ++ []) (length done) ≡ none
get_elem?-past [] = refl
get_elem?-past (d ∷ done) = get_elem?-past done
