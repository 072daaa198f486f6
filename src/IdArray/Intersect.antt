-- ===== src/IdArray/Intersect.antt =====
-- `SetSMART_IDsToRead` stores the intersection of the supported IDs and the IDs to read.
use mathlib.Core.Path.{subst, subst₃}
use native.Mathlib.Nat.{le_refl}
use smartmonitor.Common.{
  ℕ, ◌+◌, ◌<◌, ◌≤◌, ◌≡◌, ◌∙◌, refl, sym, ap, true, false, ◌⊎◌, inl, inr, List, [], ◌∷◌, ◌++◌,
  Option, some, arith, ltb, ◌==◌, length, All, append_assoc, append-nil, length-append, Bool-cases,
}
use smartmonitor.IdArray.{
  write, last_entry, matched, passed, seek, intersect, set_smart_ids_to_read,
}
use smartmonitor.IdArray.Write.{write-append}
use smartmonitor.IdArray.Spec.{
  Ascends, ids, contains, keep, Ascends-All, contains_above, keep-append_below, ids-append,
}

abbrev Seeks : ℕ → List ℕ → List ℕ → Type 0
Seeks s rest junk =
    (All (λ x. x ≤ s) rest × (contains rest s ≡ false) × (seek s (rest ++ 0 ∷ junk) ≡ last_entry))
    ⊎ ((pre : List ℕ) × (r : List ℕ) × (rest ≡ pre ++ r)
        × All (λ x. x ≤ s) pre
        × (length r < length rest)
        × (contains rest s ≡ true)
        × (seek s (rest ++ 0 ∷ junk) ≡ matched (r ++ 0 ∷ junk)))
    ⊎ ((pre : List ℕ) × (r : List ℕ) × (rest ≡ pre ++ r)
        × All (λ x. x ≤ s) pre
        × (length r ≤ length rest)
        × (contains rest s ≡ false)
        × (seek s (rest ++ 0 ∷ junk) ≡ passed (r ++ 0 ∷ junk)))

seek_step :
    (s x : ℕ) (rest junk : List ℕ)
    → 0 < x
    → x < s
    → seek s (x ∷ rest ++ 0 ∷ junk) ≡ seek s (rest ++ 0 ∷ junk)
unfolding seek
seek_step s x [] junk h k = ground arith
seek_step s x (y ∷ rest) junk h k = ground arith

contains_skip : (x s : ℕ) (rest : List ℕ) → x < s → contains (x ∷ rest) s ≡ contains rest s
unfolding contains
contains_skip x s rest h = ground arith

Seeks-skip :
    (s x : ℕ) (rest junk : List ℕ) → 0 < x → x < s → Seeks s rest junk → Seeks s (x ∷ rest) junk
Seeks-skip s x rest junk h k (inl (al, c, e)) =
    inl ((omega arith, al), contains_skip x s rest k ∙ c, seek_step s x rest junk h k ∙ e)
Seeks-skip s x rest junk h k (inr (inl (pre, r, q, al, l, c, e))) = inr (
    inl (
      x ∷ pre,
      r,
      ap (λ l. x ∷ l) q,
      (omega arith, al),
      omega arith,
      contains_skip x s rest k ∙ c,
      seek_step s x rest junk h k ∙ e,
    ))
Seeks-skip s x rest junk h k (inr (inr (pre, r, q, al, l, c, e))) = inr (
    inr (
      x ∷ pre,
      r,
      ap (λ l. x ∷ l) q,
      (omega arith, al),
      omega arith,
      contains_skip x s rest k ∙ c,
      seek_step s x rest junk h k ∙ e,
    ))

-- Where the inner loop leaves, over an ascending list of IDs with its mark.
seeks : (s : ℕ) (rest junk : List ℕ) (lo : ℕ) → Ascends lo rest → Seeks s rest junk
unfolding contains seek
seeks s [] junk lo a = inl (tt, refl, ground arith)
seeks s (x ∷ rest) junk lo (p, a) = elim (Bool-cases (x == s)) [
  | inl same ↦
      inr (inl (x ∷ [], rest, refl, (ground arith, tt), omega arith, ground arith, ground arith))
  | inr differ ↦ elim (Bool-cases (ltb x s)) [
    | inl below ↦ Seeks-skip s x rest junk (omega arith) (ground arith) (seeks s rest junk x a)
    | inr above ↦ inr (
        inr (
          [],
          x ∷ rest,
          refl,
          tt,
          omega arith,
          contains_above (x ∷ rest) s (ground arith, Ascends-All rest s x (ground arith) a),
          ground arith,
        ))
  ]
]

Ascends-append : (pre r : List ℕ) (lo : ℕ) → Ascends lo (pre ++ r) → (b : ℕ) × Ascends b r
Ascends-append [] r lo a = (lo, a)
Ascends-append (x ∷ pre) r lo (p, a) = Ascends-append pre r x a

-- The whole array: what was written, the intersection, the mark, and what stood behind it.
Holds : List ℕ → List ℕ → Option (List ℕ) → ℕ → Type 0
Holds done found result n =
    (left : List ℕ) × (result ≡ some (done ++ (found ++ 0 ∷ left)))
    × (length (done ++ (found ++ 0 ∷ left)) ≡ n)

mark_end :
    (done tail : List ℕ)
    → 0 < length tail
    → Holds done [] (write (done ++ tail) (length done) 0) (length (done ++ tail))
unfolding Holds
mark_end done [] h = absurd (omega arith)
mark_end done (t ∷ ts) h = (
  ts,
  write-append done t ts 0,
  omega (arith, length-append done (t ∷ ts), length-append done (0 ∷ ts)),
)

intersect-nil :
    (rest junk a : List ℕ) (obs : ℕ) → intersect [] (rest ++ 0 ∷ junk) obs a ≡ write a obs 0
unfolding intersect
intersect-nil [] junk a obs = refl
intersect-nil (x ∷ rest) junk a obs = refl

keep-nil : (ss : List ℕ) → keep [] ss ≡ []
unfolding keep contains
keep-nil [] = refl
keep-nil (s ∷ ss) = keep-nil ss

keep-below :
    (ss pre r rest : List ℕ) (s : ℕ)
    → rest ≡ pre ++ r
    → All (λ x. x ≤ s) pre
    → All (λ t. s < t) ss
    → keep rest ss ≡ keep r ss
keep-below ss pre r rest s q al above = rw q (keep-append_below ss pre r s al above)

Holds-cons :
    (s : ℕ) (done found : List ℕ) (result : Option (List ℕ)) (n : ℕ)
    → Holds (done ++ s ∷ []) found result n
    → Holds done (s ∷ found) result n
unfolding Holds
Holds-cons s done found result n (left, e, l) =
    let q = append_assoc done (s ∷ []) (found ++ 0 ∷ left) in
    (left, e ∙ ap some q, sym (ap length q) ∙ l)

keep_hit :
    (s : ℕ) (ss rest : List ℕ) → contains rest s ≡ true → keep rest (s ∷ ss) ≡ s ∷ keep rest ss
unfolding keep
keep_hit s ss rest c = rw c

keep_miss : (s : ℕ) (ss rest : List ℕ) → contains rest s ≡ false → keep rest (s ∷ ss) ≡ keep rest ss
unfolding keep
keep_miss s ss rest c = rw c

module _ (s : ℕ) (ss cursor : List ℕ) (obs : ℕ) (a : List ℕ) where
  intersect_last : seek s cursor ≡ last_entry → intersect (s ∷ ss) cursor obs a ≡ write a obs 0
  unfolding intersect
  intersect_last e = rw (e, intersect)

  intersect_matched :
      (r b : List ℕ)
      → seek s cursor ≡ matched r
      → write a obs s ≡ some b
      → intersect (s ∷ ss) cursor obs a ≡ intersect ss r (obs + 1) b
  unfolding intersect
  intersect_matched r b e w = rw (e, intersect) (rw w)

  intersect_passed :
      (r : List ℕ)
      → seek s cursor ≡ passed r
      → intersect (s ∷ ss) cursor obs a ≡ intersect ss r obs a
  unfolding intersect
  intersect_passed r e = rw (e, intersect)

intersect_lem :
    (ss rest junk done tail : List ℕ) (lo lo' : ℕ)
    → Ascends lo ss
    → Ascends lo' rest
    → length rest < length tail
    → Holds done
        (keep rest ss)
        (intersect ss (rest ++ 0 ∷ junk) (length done) (done ++ tail))
        (length (done ++ tail))
intersect_lem [] rest junk done tail lo lo' a b fits =
    unfold keep in rw intersect-nil (mark_end done tail (omega arith))
intersect_lem (s ∷ ss) rest junk done [] lo lo' (p, a) b fits = absurd (omega arith)
intersect_lem (s ∷ ss) rest junk done (t ∷ ts) lo lo' (p, a) b fits =
    elim (seeks s rest junk lo' b) [
      | inl (al, c, e) ↦
          let none_left =
            keep-below ss rest [] rest s (sym (append-nil rest)) al
              (Ascends-All ss s s (le_refl s) a) in
          rw (intersect_last s ss _ _ _ e, keep_miss s ss rest c, none_left, keep-nil ss)
            (mark_end done (t ∷ ts) (omega arith))
      | inr (inl (pre, r, q, al, l, c, e)) ↦
          let (lo'', b') = Ascends-append pre r lo' (subst (Ascends lo') q b) in
          let grown = append_assoc done (s ∷ []) ts in
          let at = length-append done (s ∷ []) in
          rw
            (
              intersect_matched s ss _ _ _ _ _ e (write-append done t ts s),
              keep_hit s ss rest c,
              keep-below ss pre r rest s q al (Ascends-All ss s s (le_refl s) a),
            )
            (Holds-cons s done (keep r ss) _ _ (
              subst₃
                (λ i w n. Holds (done ++ s ∷ []) (keep r ss) (intersect ss (r ++ 0 ∷ junk) i w) n)
                at grown
                (omega (
                  arith,
                  ap length grown,
                  length-append done (s ∷ ts),
                  length-append done (t ∷ ts),
                ))
                (intersect_lem ss r junk (done ++ s ∷ []) ts s lo'' a b' (omega arith))))
      | inr (inr (pre, r, q, al, l, c, e)) ↦
          let (lo'', b') = Ascends-append pre r lo' (subst (Ascends lo') q b) in
          rw
            (
              intersect_passed s ss _ _ _ _ e,
              keep_miss s ss rest c,
              keep-below ss pre r rest s q al (Ascends-All ss s s (le_refl s) a),
            )
            (intersect_lem ss r junk done (t ∷ ts) s lo'' a b' (omega arith))
    ]

Ascends-weaken : (xs : List ℕ) (lo hi : ℕ) → lo ≤ hi → Ascends hi xs → Ascends lo xs
Ascends-weaken [] lo hi h a = tt
Ascends-weaken (x ∷ xs) lo hi h (p, a) = (omega arith, a)

keep-Ascends : (xs ss : List ℕ) (lo : ℕ) → Ascends lo ss → Ascends lo (keep xs ss)
keep-Ascends xs [] lo a = unfold keep in tt
keep-Ascends xs (s ∷ ss) lo (p, a) = elim (Bool-cases (contains xs s)) [
  | inl c ↦ rw (keep_hit s ss xs c) (p, keep-Ascends xs ss s a)
  | inr c ↦
      rw (keep_miss s ss xs c)
        (Ascends-weaken (keep xs ss) lo s (omega arith) (keep-Ascends xs ss s a))
]

-- With a non-empty ascending list of IDs to read, marked at its end by a 0 within an array of the
-- same capacity, the call stays within the arrays, keeps the capacity, and leaves exactly the
-- supported IDs that are also to be read, in ascending order, for ascending supported IDs above 0.
pub set_smart_ids_to_read_intersects :
    (supported : List ℕ) (first : ℕ) (wanted junk a : List ℕ)
    → Ascends 0 supported
    → Ascends 0 (first ∷ wanted)
    → length (first ∷ wanted ++ 0 ∷ junk) ≡ length a
    → (b : List ℕ) × (set_smart_ids_to_read supported (first ∷ wanted ++ 0 ∷ junk) a ≡ some b)
      × (ids b ≡ keep (first ∷ wanted) supported)
      × Ascends 0 (ids b)
      × (length b ≡ length a)
unfolding set_smart_ids_to_read Holds
set_smart_ids_to_read_intersects supported first wanted junk a up up' size =
    let fits : length (first ∷ wanted) < length a =
      omega (arith, length-append wanted (0 ∷ junk)) in
    let (left, e, l) = intersect_lem supported (first ∷ wanted) junk [] a 0 0 up up' fits in
    let found = keep (first ∷ wanted) supported in
    let sorted : Ascends 0 found = keep-Ascends (first ∷ wanted) supported 0 up in
    let same : ids (found ++ 0 ∷ left) ≡ found = ids-append found left 0 sorted in
    (found ++ 0 ∷ left, ground (arith, e), same, subst (Ascends 0) (sym same) sorted, l)
