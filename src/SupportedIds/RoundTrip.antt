-- ===== src/SupportedIds/RoundTrip.antt =====
-- The IDs that the service prints are those that the client stores.
use mathlib.Core.Path.{subst}
use smartmonitor.Common.{
  ℕ, zero, suc, ◌+◌, ◌<◌, ◌≤◌, ◌≡◌, ◌≢◌, refl, sym, ap, ◌∙◌, true, false, List, [], ◌∷◌, ◌++◌,
  append_assoc, append-nil, Option, some, ltb, ◌==◌, ◌>>=◌, Bytes, All, length, length-append, drop,
  arith, lt→ltb, ge→ltb, ◌^◌,
}
use smartmonitor.Common.Decimal.{decimal, IsDigit, decimal-All, decimal-ne-nil}
use smartmonitor.Common.Sets.{insert_last}
use smartmonitor.IdArray.Write.{write-append}
use smartmonitor.IdArray.Spec.{Ascends, ids, ids-append}
use smartmonitor.SupportedIds.{
  print_more, print_ids, check_smart_id_range, convert_string_to_int, take_id, mark_last, scan,
  get_supported_smart_attributes,
}

-- IDs that the client takes
abbrev pub IsId : ℕ → ℕ → Type 0
IsId max n = (n ≤ max) × (n < 2 ^ 31)

ids_all : (xs : List ℕ) (lo : ℕ) → Ascends lo xs → ids xs ≡ xs
unfolding ids
ids_all [] lo a = refl
ids_all (x ∷ xs) lo (p, a) = ground (arith, ids_all xs x a)

module _ (max count : ℕ) (to_number : Bytes → Option ℕ)
    (reads : (n : ℕ) → n < 2 ^ 31 → to_number (decimal n) ≡ some n) where
  convert-decimal : (n : ℕ) → IsId max n → convert_string_to_int max count to_number (decimal n) ≡ n
  unfolding convert_string_to_int check_smart_id_range
  convert-decimal n h = ground (arith, reads n h.1)

  -- the loop takes the digits up to the comma or the end
  scan-digits :
      (digits text piece : Bytes) (idx : ℕ) (a found : List ℕ)
      → All IsDigit digits
      → scan max count to_number (digits ++ text) piece idx a found
        ≡ scan max count to_number text (piece ++ digits) idx a found
  unfolding scan
  scan-digits [] text piece idx a found d =
      ap (λ p. scan max count to_number text p idx a found) (sym (append-nil piece))
  scan-digits (c ∷ digits) text piece idx a found (d, ds) =
      let i = scan-digits digits text (piece ++ (c ∷ [])) idx a found ds in
      let b : (c == b',') ≡ false = ground arith in
      rw (scan, b)
        (i
          ∙ ap (λ p. scan max count to_number text p idx a found)
              (append_assoc piece (c ∷ []) digits))

  take_id-append :
      (done junk : List ℕ) (x y : ℕ)
      → IsId max x
      → All (λ z. z < x) done
      → take_id max count to_number (decimal x) (length done) (done ++ (y ∷ junk)) done
        ≡ some ((done ++ (x ∷ [])) ++ junk, done ++ (x ∷ []))
  unfolding take_id
  take_id-append done junk x y h a =
      rw (convert-decimal x h, write-append done y junk x, insert_last x done a)
        (ap (λ l. some (l, done ++ (x ∷ []))) (sym (append_assoc done (x ∷ []) junk)))

  -- the end of the text behind a piece that is not empty
  scan-end :
      (piece : Bytes) (idx : ℕ) (a found : List ℕ)
      → piece ≢ []
      → scan max count to_number [] piece idx a found ≡ (
          take_id max count to_number piece idx a found >>= λ r.
          mark_last max count to_number (idx + 1) r)
  unfolding scan
  scan-end [] idx a found h = absurd (h refl)
  scan-end (p ∷ piece) idx a found h = refl

  length-snoc : (xs : List ℕ) (x : ℕ) → length (xs ++ (x ∷ [])) ≡ length xs + 1
  length-snoc xs x = length-append xs (x ∷ [])

  All-snoc :
      (done : List ℕ) (x y : ℕ)
      → x < y
      → All (λ z. z < x) done
      → All (λ z. z < y) (done ++ (x ∷ []))
  All-snoc [] x y h a = (h, tt)
  All-snoc (z ∷ done) x y h (p, a) = (omega arith, All-snoc done x y h a)

  scan-print :
      (xs done junk : List ℕ) (x : ℕ)
      → All (λ z. z < x) done
      → IsId max x
      → All (IsId max) xs
      → Ascends x xs
      → suc (length xs) ≤ length junk
      → scan max count to_number (decimal x ++ print_more xs) [] (length done) (done ++ junk) done
        ≡ mark_last max count to_number
            (length (done ++ (x ∷ xs)))
            ((done ++ (x ∷ xs)) ++ drop (suc (length xs)) junk, done ++ (x ∷ xs))
  unfolding print_more scan
  scan-print xs done [] x a h hs asc l = absurd (omega arith)
  scan-print [] done (y ∷ junk) x a h hs asc l =
      scan-digits (decimal x) [] [] (length done) (done ++ (y ∷ junk)) done (decimal-All x)
      ∙ (scan-end (decimal x) (length done) (done ++ (y ∷ junk)) done (decimal-ne-nil x)
          ∙ rw (take_id-append done junk x y h a, length-snoc done x) refl)
  scan-print (z ∷ xs) done (y ∷ junk) x a h (hz, hs) (lt, asc) l =
      scan-digits (decimal x) (print_more (z ∷ xs)) [] (length done) (done ++ (y ∷ junk)) done
        (decimal-All x)
      ∙ (rw (take_id-append done junk x y h a) (
          subst
            (λ n.
              scan max count to_number (decimal z ++ print_more xs) [] n
                ((done ++ (x ∷ [])) ++ junk) (done ++ (x ∷ []))
              ≡ mark_last max count to_number (length ((done ++ (x ∷ [])) ++ (z ∷ xs))) (
                ((done ++ (x ∷ [])) ++ (z ∷ xs)) ++ drop (suc (length xs)) junk,
                (done ++ (x ∷ [])) ++ (z ∷ xs),
              ))
            (length-snoc done x)
            (scan-print xs (done ++ (x ∷ [])) junk z (All-snoc done x z lt a) hz hs asc
              (omega arith))
          ∙ ap (λ r. mark_last max count to_number (length r) (r ++ drop (suc (length xs)) junk, r))
              (append_assoc done (x ∷ []) (z ∷ xs))))

  -- the mark behind the IDs: at the end of a full array none
  mark-ids :
      (xs rest found : List ℕ)
      → Ascends 0 xs
      → count ≡ length xs + length rest
      → (array : List ℕ) × (mark_last max count to_number (length xs) (xs ++ rest, found)
          ≡ some (array, found))
        × (ids array ≡ xs)
  unfolding mark_last
  mark-ids xs [] found asc e =
      let b : ltb (length xs) count ≡ false = ge→ltb (length xs) count (omega arith) in
      (xs, rw (b, append-nil xs) refl, ids_all xs 0 asc)
  mark-ids xs (y ∷ rest) found asc e =
      let b : ltb (length xs) count ≡ true = lt→ltb (length xs) count (omega arith) in
      (xs ++ (0 ∷ rest), rw (b, write-append xs y rest 0) refl, ids-append xs rest 0 asc)

  length-drop : (n : ℕ) (xs : List ℕ) → n ≤ length xs → n + length (drop n xs) ≡ length xs
  length-drop zero xs h = omega arith
  length-drop (suc n) [] h = absurd (omega arith)
  length-drop (suc n) (x ∷ xs) h = omega (arith, length-drop n xs (omega arith))

  -- The number of an `int` below 2^31 is converted from its decimal digits. Then, for IDs in ascending
  -- order that are in the range of the check and fit into the array, the client
  -- reads the text that the service prints as exactly these IDs, in its array and in its set.
  pub supported_ids_arrive :
      (xs a : List ℕ) (text : Bytes)
      → Ascends 0 xs
      → All (IsId max) xs
      → length xs ≤ length a
      → count ≡ length a
      → print_ids xs ≡ some text
      → (array : List ℕ) × (get_supported_smart_attributes max count to_number text a
          ≡ some (array, xs))
        × (ids array ≡ xs)
  unfolding get_supported_smart_attributes print_ids
  supported_ids_arrive [] a text asc h l c e = cc
  supported_ids_arrive (x ∷ xs) a text (p, asc) (h, hs) l c e =
      let t : decimal x ++ print_more xs ≡ text = cc in
      let s = scan-print xs [] a x tt h hs asc l in
      let d : suc (length xs) + length (drop (suc (length xs)) a) ≡ length a =
        length-drop (suc (length xs)) a l in
      let (array, m, i) =
        mark-ids (x ∷ xs) (drop (suc (length xs)) a) (x ∷ xs) (p, asc) (omega arith) in
      (array, subst (λ u. scan max count to_number u [] 0 a [] ≡ some (array, x ∷ xs)) t (s ∙ m), i)
