-- ===== src/Common/Texts.antt =====
-- Texts as byte codes: comparison, and the search for a character.
use Prim.Native.Nat.{ℕ}
use mathlib.Core.Path.{◌≡◌, refl}
use mathlib.Core.Logic.{◌≢◌}
use mathlib.Core.Bool.{Bool, true, false, ◌&&◌, ◌||◌}
use mathlib.Core.List.{List, [], ◌∷◌, ◌++◌}
use mathlib.Core.Option.{Option, none, some}
use native.Mathlib.Omega.{arith}
use smartmonitor.Common.Tests.{◌==◌, if◌then◌else◌}
use smartmonitor.Common.Lists.{Bytes, All, ◌>>=◌}

-- `==` on two strings
unfoldable pub same : Bytes → Bytes → Bool
same [] [] = true
same [] (_ ∷ _) = false
same (_ ∷ _) [] = false
same (c ∷ s) (d ∷ t) = (c == d) && same s t

-- a text among others
unfoldable pub is_among : Bytes → List Bytes → Bool
is_among s [] = false
is_among s (t ∷ ts) = same s t || is_among s ts

-- `find(c)`, with what stands in front of the character and what behind it
unfoldable pub split_first : ℕ → Bytes → Option (Bytes × Bytes)
split_first c [] = none
split_first c (d ∷ s) =
    let rest = split_first c s in
    if d == c then some ([], s) else (rest >>= λ p. some (d ∷ p.0, p.1))

-- what stands behind the last `c`, if there is one: `rfind(c)` and `substr`
unfoldable pub behind_last : ℕ → Bytes → Option Bytes
behind_last c [] = none
behind_last c (d ∷ s) =
    let rest = behind_last c s in
    elim rest [ some t ↦ some t | none ↦ if d == c then some s else none ]

pub same_refl : (s : Bytes) → same s s ≡ true
unfolding same
same_refl [] = refl
same_refl (c ∷ s) = ground (arith, same_refl s)

pub same→eq : (s t : Bytes) → same s t ≡ true → s ≡ t
unfolding same
same→eq [] [] h = refl
same→eq [] (d ∷ t) h = cc
same→eq (c ∷ s) [] h = cc
same→eq (c ∷ s) (d ∷ t) h = ground (arith, same→eq s t)

pub split_first-append :
    (c : ℕ) (s t : Bytes) → All (λ d. d ≢ c) s → split_first c (s ++ c ∷ t) ≡ some (s, t)
unfolding split_first
split_first-append c [] t h = ground arith
split_first-append c (d ∷ s) t (n, h) = ground (arith, split_first-append c s t h)

pub split_first-none : (c : ℕ) (s : Bytes) → All (λ d. d ≢ c) s → split_first c s ≡ none
unfolding split_first
split_first-none c [] h = refl
split_first-none c (d ∷ s) (n, h) = ground (arith, split_first-none c s h)

pub behind_last-none : (c : ℕ) (s : Bytes) → All (λ d. d ≢ c) s → behind_last c s ≡ none
unfolding behind_last
behind_last-none c [] h = refl
behind_last-none c (d ∷ s) (n, h) = ground (arith, behind_last-none c s h)

pub behind_last-append :
    (c : ℕ) (s t : Bytes) → All (λ d. d ≢ c) t → behind_last c (s ++ c ∷ t) ≡ some t
unfolding behind_last
behind_last-append c [] t h = ground (arith, behind_last-none c t h)
behind_last-append c (d ∷ s) t h = ground (arith, behind_last-append c s t h)

-- A character that a text lacks, as a test.
unfoldable pub lacks : ℕ → Bytes → Bool
lacks c [] = true
lacks c (d ∷ s) = let rest = lacks c s in if d == c then false else rest

pub lacks→All : (c : ℕ) (s : Bytes) → lacks c s ≡ true → All (λ d. d ≢ c) s
unfolding lacks
lacks→All c [] h = tt
lacks→All c (d ∷ s) h = ground (arith, lacks→All c s)
