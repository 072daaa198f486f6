-- ===== src/Formatter/Prefixes.antt =====
-- A number with SI prefixes.
use smartmonitor.Common.{
  ℕ, zero, suc, ◌+◌, ◌*◌, ◌<◌, ◌≡◌, ◌≢◌, refl, List, [], ◌∷◌, ◌++◌, some, arith, ◌==◌, Bytes, true,
  false, Bool-cases, inl, inr, ==_iff,
}
use smartmonitor.Common.Decimal.{decimal}
use smartmonitor.Formatter.{FormatOps, with_prefixes, get_number_with_si_prefix}

-- What one round prints: a factor with its symbol, the last one without.
abbrev pub print_pieces : List (ℕ × ℕ) → ℕ → Bytes
print_pieces [] last = decimal last
print_pieces ((factor, symbol) ∷ pieces) last = decimal factor ++ symbol ∷ print_pieces pieces last

-- the number that the pieces stand for
abbrev pub total : (ℕ → ℕ) → List (ℕ × ℕ) → ℕ → ℕ
total weight [] last = last
total weight ((factor, symbol) ∷ pieces) last = factor * weight symbol + total weight pieces last

-- A round splits the remainder into a multiple of the weight of its symbol and a smaller remainder;
-- without a symbol it leaves the whole remainder as the factor.
pub record PrefixLaws (o : FormatOps) (weight : ℕ → ℕ) : Type 0 where
  pub split :
      (r f : ℕ)
      → (o.prefix_symbol r f).0 ≢ b' '
      → (r ≡ (o.prefix_symbol r f).1.1 * weight (o.prefix_symbol r f).0 + (o.prefix_symbol r f).1.0)
  pub smaller : (r f : ℕ) → (o.prefix_symbol r f).0 ≢ b' ' → (o.prefix_symbol r f).1.0 < r
  pub rest : (r f : ℕ) → (o.prefix_symbol r f).0 ≡ b' ' → (o.prefix_symbol r f).1.1 ≡ r

abbrev pub IsSplit : FormatOps → (ℕ → ℕ) → ℕ → ℕ → ℕ → Type 0
IsSplit o weight fuel r f =
    (pieces : List (ℕ × ℕ)) × (last : ℕ) × (with_prefixes o fuel r f
      ≡ some (print_pieces pieces last))
    × (total weight pieces last ≡ r)

module _ (o : FormatOps) (weight : ℕ → ℕ) (laws : PrefixLaws o weight) where
  abbrev symbol : ℕ → ℕ → ℕ
  symbol r f = (o.prefix_symbol r f).0

  abbrev rem : ℕ → ℕ → ℕ
  rem r f = (o.prefix_symbol r f).1.0

  abbrev fac : ℕ → ℕ → ℕ
  fac r f = (o.prefix_symbol r f).1.1

  not_space : (r f : ℕ) → (symbol r f == b' ') ≡ false → symbol r f ≢ b' '
  not_space r f h = ground arith

  last_round :
      (fuel r f : ℕ)
      → (symbol r f == b' ') ≡ true
      → with_prefixes o (suc fuel) r f ≡ some (decimal (fac r f))
  unfolding with_prefixes
  last_round fuel r f h = rw (h) refl

  more_rounds :
      (fuel r f : ℕ) (text : Bytes)
      → (symbol r f == b' ') ≡ false
      → with_prefixes o fuel (rem r f) (fac r f) ≡ some text
      → with_prefixes o (suc fuel) r f ≡ some (decimal (fac r f) ++ symbol r f ∷ text)
  unfolding with_prefixes
  more_rounds fuel r f text h e = ground arith

  add_piece :
      (fuel r f : ℕ)
      → (symbol r f == b' ') ≡ false
      → IsSplit o weight fuel (rem r f) (fac r f)
      → IsSplit o weight (suc fuel) r f
  add_piece fuel r f h (pieces, last, e, t) = (
    (fac r f, symbol r f) ∷ pieces,
    last,
    more_rounds fuel r f (print_pieces pieces last) h e,
    omega (arith, t, laws.split r f (not_space r f h)),
  )

  with_prefixes_lem : (fuel r f : ℕ) → r < fuel → IsSplit o weight fuel r f
  with_prefixes_lem zero r f h = absurd (omega arith)
  with_prefixes_lem (suc fuel) r f h = elim (Bool-cases (symbol r f == b' ')) [
    | inl e ↦ ([], fac r f, last_round fuel r f e, laws.rest r f ((==_iff (symbol r f) b' ').0 e))
    | inr e ↦ add_piece fuel r f e (
        with_prefixes_lem fuel (rem r f) (fac r f)
          (omega (arith, laws.smaller r f (not_space r f e))))
  ]

  -- The loop over the prefixes ends, and the factors that it prints, each times the weight of the
  -- prefix behind it, add up to the number.
  pub number_split :
      (n : ℕ)
      → (pieces : List (ℕ × ℕ)) × (last : ℕ) × (get_number_with_si_prefix o n
          ≡ some (print_pieces pieces last))
        × (total weight pieces last ≡ n)
  unfolding get_number_with_si_prefix
  number_split n = with_prefixes_lem (suc n) n n (omega arith)
