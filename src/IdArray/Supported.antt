-- ===== src/IdArray/Supported.antt =====
-- `setSupportedSMART_IDs` stores the supported IDs.
use smartmonitor.Common.{
  ℕ, ◌+◌, ◌≤◌, ◌≡◌, ◌⊎◌, inl, inr, refl, ap, ◌∙◌, sym, List, [], ◌∷◌, ◌++◌, append_assoc,
  append-nil, ltb, true, false, length, length-append, set, arith, lt→ltb, ge→ltb, true, false,
}
use smartmonitor.IdArray.{set_supported_from, set_supported_smart_ids}
use smartmonitor.IdArray.Spec.{Ascends, ids, ids-append}
use smartmonitor.IdArray.Write.{set-append}

-- what lies behind the IDs: nothing, or the mark
Marked : List ℕ → Type 0
Marked left = (left ≡ []) ⊎ ((l : List ℕ) × (left ≡ 0 ∷ l))

supported_lem :
    (xs done tail : List ℕ)
    → length xs ≤ length tail
    → (left : List ℕ) × (set_supported_from xs (length done) (done ++ tail) ≡ (done ++ xs) ++ left)
      × Marked left
unfolding set_supported_from Marked
supported_lem [] done [] h =
    let b : ltb (length done) (length (done ++ [])) ≡ false =
      ge→ltb (length done) (length (done ++ [])) (omega (arith, length-append done [])) in
    ([], rw (set_supported_from, b) (sym (append-nil (done ++ []))), inl refl)
supported_lem [] done (t ∷ tail) h =
    let b : ltb (length done) (length (done ++ t ∷ tail)) ≡ true =
      lt→ltb (length done) (length (done ++ t ∷ tail))
        (omega (arith, length-append done (t ∷ tail))) in
    (
      0 ∷ tail,
      rw (set_supported_from, b, append-nil done) (set-append done t tail 0),
      inr (tail, refl),
    )
supported_lem (x ∷ xs) done [] h = absurd (omega arith)
supported_lem (x ∷ xs) done (t ∷ tail) h =
    let b : ltb (length done) (length (done ++ t ∷ tail)) ≡ true =
      lt→ltb (length done) (length (done ++ t ∷ tail))
        (omega (arith, length-append done (t ∷ tail))) in
    let n : length done + 1 ≡ length (done ++ x ∷ []) =
      omega (arith, length-append done (x ∷ [])) in
    let s : set (done ++ t ∷ tail) (length done) x ≡ (done ++ x ∷ []) ++ tail =
      set-append done t tail x ∙ sym (append_assoc done (x ∷ []) tail) in
    let (left, e, m) = supported_lem xs (done ++ x ∷ []) tail (omega arith) in
    (
      left,
      rw (set_supported_from, b, n, s) (e ∙ ap (λ r. r ++ left) (append_assoc done (x ∷ []) xs)),
      m,
    )

ids_self : (xs : List ℕ) (lo : ℕ) → Ascends lo xs → ids xs ≡ xs
unfolding ids
ids_self [] lo a = refl
ids_self (x ∷ xs) lo (p, a) = ground (arith, ids_self xs x a)

-- Supported IDs that fit into the array are all stored, with the mark behind them if there is room.
pub ids-set_supported_smart_ids :
    (supported a : List ℕ)
    → Ascends 0 supported
    → length supported ≤ length a
    → ids (set_supported_smart_ids supported a) ≡ supported
unfolding set_supported_smart_ids Marked
ids-set_supported_smart_ids supported a up fits =
    let (left, e, m) = supported_lem supported [] a fits in
    elim m [
      | inl q ↦
          ap ids (e ∙ (ap (λ l. supported ++ l) q ∙ append-nil supported)) ∙ ids_self supported 0 up
      | inr (l, q) ↦ ap ids (e ∙ ap (λ l. supported ++ l) q) ∙ ids-append supported l 0 up
    ]
