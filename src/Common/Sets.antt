-- ===== src/Common/Sets.antt =====
-- A `std::set` of numbers as the ascending list of its elements.
use Prim.Native.Nat.{ℕ, ◌<◌}
use mathlib.Core.Path.{◌≡◌, refl}
use mathlib.Core.Bool.{Bool, false, ◌||◌}
use mathlib.Core.List.{List, [], ◌∷◌, ◌++◌}
use native.Mathlib.Omega.{arith}
use smartmonitor.Common.Tests.{ltb, ◌==◌, if◌then◌else◌}
use smartmonitor.Common.Lists.{All}

abbrev pub IsAscending : List ℕ → Type 0
IsAscending [] = Unit
IsAscending (x ∷ xs) = All (λ y. x < y) xs × IsAscending xs

unfoldable pub insert : ℕ → List ℕ → List ℕ
insert n [] = n ∷ []
insert n (x ∷ xs) =
    let rest = insert n xs in if ltb n x then n ∷ x ∷ xs else if n == x then x ∷ xs else x ∷ rest

unfoldable pub erase : ℕ → List ℕ → List ℕ
erase n [] = []
erase n (x ∷ xs) = let rest = erase n xs in if n == x then xs else x ∷ rest

unfoldable pub has : List ℕ → ℕ → Bool
has [] n = false
has (x ∷ xs) n = (x == n) || has xs n

All-insert : (P : ℕ → Type 0) (n : ℕ) (xs : List ℕ) → P n → All P xs → All P (insert n xs)
unfolding insert
All-insert P n [] p a = (p, tt)
All-insert P n (x ∷ xs) p (q, a) = ground (arith, All-insert P n xs p a)

All-above : (lo hi : ℕ) (xs : List ℕ) → lo < hi → All (λ y. hi < y) xs → All (λ y. lo < y) xs
All-above lo hi [] h a = tt
All-above lo hi (x ∷ xs) h (p, a) = (omega arith, All-above lo hi xs h a)

pub insert-IsAscending : (n : ℕ) (xs : List ℕ) → IsAscending xs → IsAscending (insert n xs)
unfolding insert
insert-IsAscending n [] a = (tt, tt)
insert-IsAscending n (x ∷ xs) (p, a) =
    ground (arith, All-above n x xs, All-insert (λ y. x < y) n xs, insert-IsAscending n xs a)

pub has-insert : (n : ℕ) (xs : List ℕ) (x : ℕ) → has (insert n xs) x ≡ ((n == x) || has xs x)
unfolding insert has
has-insert n [] x = refl
has-insert n (y ∷ xs) x = ground (arith, has-insert n xs x)

pub erase_self : (n : ℕ) (xs : List ℕ) → erase n (n ∷ xs) ≡ xs
unfolding erase
erase_self n xs = ground arith

-- An element above all others goes to the end.
pub insert_last : (n : ℕ) (xs : List ℕ) → All (λ x. x < n) xs → insert n xs ≡ xs ++ (n ∷ [])
unfolding insert
insert_last n [] a = refl
insert_last n (x ∷ xs) (p, a) = ground (arith, insert_last n xs a)
