-- ===== src/CfgLoader/Numbers.antt =====
-- The numbers of the attributes to observe.
use smartmonitor.Common.{
  ℕ, ◌+◌, ◌<◌, ◌^◌, ◌≡◌, ◌≢◌, refl, List, [], ◌∷◌, ◌++◌, Option, some, arith, ltb, if◌then◌else◌,
  Bytes, length, set, All, append_assoc, append-nil, ap, sym, ◌∙◌, if_ind, true, false, Bool-cases,
  inl, inr,
}
use smartmonitor.Common.Sets.{insert}
use smartmonitor.Common.Decimal.{decimal, IsDigit, decimal-All}
use smartmonitor.IdArray.{set_supported_smart_ids, set_supported_from}
use smartmonitor.CfgLoader.{
  Observed, int_as_unsigned, observe_number, observe_chars, get_smart_attributes_to_observe,
}

-- each number with a comma behind it
abbrev pub number_list : List ℕ → Bytes
number_list [] = []
number_list (n ∷ ns) = decimal n ++ b',' ∷ number_list ns

abbrev pub insert_all : List ℕ → List ℕ → List ℕ
insert_all [] ids = ids
insert_all (n ∷ ns) ids = insert_all ns (insert n ids)

abbrev pub NoComma : Bytes → Type 0
NoComma = All (λ c. c ≢ b',')

-- what an `int` holds without a sign
abbrev pub IsInt : ℕ → Type 0
IsInt n = n < 2 ^ 31

int_as_unsigned_lem : (n : ℕ) → IsInt n → int_as_unsigned n ≡ n
unfolding int_as_unsigned
int_as_unsigned_lem n h = ground arith

module _ (convert : Bytes → Option ℕ) (law : (n : ℕ) → IsInt n → convert (decimal n) ≡ some n) where
  skip_char :
      (begun t : Bytes) (c : ℕ) (o : Observed)
      → c ≢ b','
      → observe_chars convert begun (c ∷ t) o ≡ observe_chars convert (begun ++ c ∷ []) t o
  unfolding observe_chars
  skip_char begun t c o h = ground arith

  begin_number :
      (begun s t : Bytes) (o : Observed)
      → NoComma s
      → observe_chars convert begun (s ++ t) o ≡ observe_chars convert (begun ++ s) t o
  unfolding observe_chars
  begin_number begun [] t o h = ap (λ b. observe_chars convert b t o) (sym (append-nil begun))
  begin_number begun (c ∷ s) t o (n, h) =
      skip_char begun (s ++ t) c o n
      ∙ (begin_number (begun ++ c ∷ []) s t o h
          ∙ ap (λ b. observe_chars convert b t o) (append_assoc begun (c ∷ []) s))

  pub digits-NoComma : (s : Bytes) → All IsDigit s → NoComma s
  digits-NoComma [] h = tt
  digits-NoComma (c ∷ s) (h, hs) = (λ e. omega arith, digits-NoComma s hs)

  -- the state behind a number, and behind all of them
  abbrev observe_id : ℕ → Observed → Observed
  observe_id n o =
      if ltb o.next (length o.array)
      then record { ids = insert n o.ids; array = set o.array o.next n; next = o.next + 1 }
      else record o { ids = insert n o.ids }

  abbrev observe_all : List ℕ → Observed → Observed
  observe_all [] o = o
  observe_all (n ∷ ns) o = observe_all ns (observe_id n o)

  end_number :
      (n : ℕ) (t : Bytes) (o : Observed)
      → IsInt n
      → observe_chars convert (decimal n) (b',' ∷ t) o ≡ observe_chars convert [] t (observe_id n o)
  unfolding observe_chars observe_number
  end_number n t o i = rw (observe_number, law n i, int_as_unsigned_lem n i) refl

  no_number :
      (begun rest : Bytes) (o : Observed) → NoComma rest → observe_chars convert begun rest o ≡ o
  unfolding observe_chars
  no_number begun [] o h = refl
  no_number begun (c ∷ rest) o (n, h) = ground (arith, no_number (begun ++ c ∷ []) rest o h)

  chars_lem :
      (ns : List ℕ) (rest : Bytes) (o : Observed)
      → All IsInt ns
      → NoComma rest
      → observe_chars convert [] (number_list ns ++ rest) o ≡ observe_all ns o
  chars_lem [] rest o i h = no_number [] rest o h
  chars_lem (n ∷ ns) rest o (i, is) h =
      ap (λ t. observe_chars convert [] t o) (append_assoc (decimal n) (b',' ∷ number_list ns) rest)
      ∙ (begin_number [] (decimal n) (b',' ∷ (number_list ns ++ rest)) o
            (digits-NoComma (decimal n) (decimal-All n))
          ∙ (end_number n (number_list ns ++ rest) o i ∙ chars_lem ns rest (observe_id n o) is h))

  ids_lem : (ns : List ℕ) (o : Observed) → (observe_all ns o).ids ≡ insert_all ns o.ids
  ids_lem [] o = refl
  ids_lem (n ∷ ns) o =
      ids_lem ns (observe_id n o)
      ∙ ap (insert_all ns) (
          if_ind (λ (x : Observed). x.ids ≡ insert n o.ids) (ltb o.next (length o.array))
            (λ e. refl) (λ e. refl))

  -- the mark behind the numbers
  abbrev marked : Observed → List ℕ
  marked o = if ltb o.next (length o.array) then set o.array o.next 0 else o.array

  observe_fits :
      (n : ℕ) (o : Observed)
      → ltb o.next (length o.array) ≡ true
      → observe_id n o
        ≡ record { ids = insert n o.ids; array = set o.array o.next n; next = o.next + 1 }
  observe_fits n o h = rw (h) refl

  observe_full :
      (n : ℕ) (o : Observed)
      → ltb o.next (length o.array) ≡ false
      → observe_id n o ≡ record o { ids = insert n o.ids }
  observe_full n o h = rw (h) refl

  supported_fits :
      (n : ℕ) (ns : List ℕ) (i : ℕ) (a : List ℕ)
      → ltb i (length a) ≡ true
      → set_supported_from (n ∷ ns) i a ≡ set_supported_from ns (i + 1) (set a i n)
  unfolding set_supported_from
  supported_fits n ns i a h = rw (h) refl

  supported_full :
      (n : ℕ) (ns : List ℕ) (i : ℕ) (a : List ℕ)
      → ltb i (length a) ≡ false
      → set_supported_from (n ∷ ns) i a ≡ a
  unfolding set_supported_from
  supported_full n ns i a h = rw (h) refl

  full_lem :
      (ns : List ℕ) (o : Observed)
      → ltb o.next (length o.array) ≡ false
      → marked (observe_all ns o) ≡ o.array
  full_lem [] o h = rw (h) refl
  full_lem (n ∷ ns) o h =
      ap (λ x. marked (observe_all ns x)) (observe_full n o h)
      ∙ full_lem ns (record o { ids = insert n o.ids }) h

  array_lem :
      (ns : List ℕ) (o : Observed)
      → marked (observe_all ns o) ≡ set_supported_from ns o.next o.array
  array_lem [] o = unfold set_supported_from in refl
  array_lem (n ∷ ns) o = elim (Bool-cases (ltb o.next (length o.array))) [
    | inl e ↦
        ap (λ x. marked (observe_all ns x)) (observe_fits n o e)
        ∙ (array_lem ns
              (record { ids = insert n o.ids; array = set o.array o.next n; next = o.next + 1 })
            ∙ sym (supported_fits n ns o.next o.array e))
    | inr e ↦
        ap (λ x. marked (observe_all ns x)) (observe_full n o e)
        ∙ (full_lem ns (record o { ids = insert n o.ids }) e
            ∙ sym (supported_full n ns o.next o.array e))
  ]

  -- A number below 2^31, the bound of an `int`, is converted from its decimal digits. Then the numbers
  -- below it that stand in front of a comma are observed, and the array holds as many of them as it
  -- has room for, with a 0 behind them if there is room for it. A number behind the last comma is left
  -- out.
  pub numbers_observed :
      (ns : List ℕ) (rest : Bytes) (ids array : List ℕ)
      → All IsInt ns
      → NoComma rest
      → get_smart_attributes_to_observe convert (number_list ns ++ rest) ids array
        ≡ (insert_all ns ids, set_supported_smart_ids ns array)
  unfolding get_smart_attributes_to_observe set_supported_smart_ids
  numbers_observed ns rest ids array i h =
      let o : Observed = record { ids = ids; array = array; next = 0 } in
      rw (chars_lem ns rest o i h, ids_lem ns o, array_lem ns o) refl
