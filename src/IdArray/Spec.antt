-- ===== src/IdArray/Spec.antt =====
-- What an array of IDs is meant to hold.
use smartmonitor.Common.{
  ℕ, ◌<◌, ◌≤◌, ◌≡◌, refl, Bool, false, ◌||◌, List, [], ◌∷◌, ◌++◌, arith, ◌==◌, if◌then◌else◌, All,
}

-- strictly ascending, above `lo`
abbrev pub Ascends : ℕ → List ℕ → Type 0
Ascends lo [] = Unit
Ascends lo (x ∷ xs) = (lo < x) × Ascends x xs

-- the IDs of an array: those before its first 0
unfoldable pub ids : List ℕ → List ℕ
ids [] = []
ids (x ∷ xs) = if x == 0 then [] else x ∷ ids xs

unfoldable pub contains : List ℕ → ℕ → Bool
contains [] s = false
contains (x ∷ xs) s = (x == s) || contains xs s

-- the entries of the second list that the first one contains
unfoldable pub keep : List ℕ → List ℕ → List ℕ
keep xs [] = []
keep xs (s ∷ ss) = if contains xs s then s ∷ keep xs ss else keep xs ss

pub Ascends-All : (xs : List ℕ) (lo hi : ℕ) → lo ≤ hi → Ascends hi xs → All (λ x. lo < x) xs
Ascends-All [] lo hi h a = tt
Ascends-All (x ∷ xs) lo hi h (p, a) = (omega arith, Ascends-All xs lo x (omega arith) a)

-- Entries below `s` do not matter for `s`.
pub contains-append_below :
    (pre r : List ℕ) (s : ℕ) → All (λ x. x < s) pre → contains (pre ++ r) s ≡ contains r s
unfolding contains
contains-append_below [] r s h = refl
contains-append_below (x ∷ pre) r s h = ground (arith, contains-append_below pre r s h.1)

pub contains_above : (r : List ℕ) (s : ℕ) → All (λ x. s < x) r → contains r s ≡ false
unfolding contains
contains_above [] s h = refl
contains_above (x ∷ r) s h = ground (arith, contains_above r s h.1)

below_trans : (pre : List ℕ) (s t : ℕ) → s < t → All (λ x. x ≤ s) pre → All (λ x. x < t) pre
below_trans [] s t h a = tt
below_trans (x ∷ pre) s t h (p, a) = (omega arith, below_trans pre s t h a)

-- For IDs above `s`, entries up to `s` can be left off.
pub keep-append_below :
    (ss pre r : List ℕ) (s : ℕ)
    → All (λ x. x ≤ s) pre
    → All (λ t. s < t) ss
    → keep (pre ++ r) ss ≡ keep r ss
unfolding keep
keep-append_below [] pre r s h a = refl
keep-append_below (t ∷ ss) pre r s h (p, a) =
    rw (contains-append_below pre r t (below_trans pre s t p h), keep-append_below ss pre r s h a)

pub ids-append : (xs junk : List ℕ) (lo : ℕ) → Ascends lo xs → ids (xs ++ 0 ∷ junk) ≡ xs
unfolding ids
ids-append [] junk lo a = refl
ids-append (x ∷ xs) junk lo (p, a) = ground (arith, ids-append xs junk x a)
