-- ===== src/SupportedIds.antt =====
-- The list of supported S.M.A.R.T. IDs as text: how `SendSupportedSMART_IDsToClient` in
-- src/service/SMARTmonitorService.cpp prints it, and how `GetSupportedSMARTattributesViaXML` in
-- src/tinyxml2/ProcessSMARTdata.cpp reads it. The XML library hands the text over unchanged;
-- `ConvertCharStringToTypename` of another repository is the parameter `to_number`.
pub mod RoundTrip
use smartmonitor.Common.{
  ℕ, ◌+◌, ◌%◌, ◌^◌, Bool, true, false, List, [], ◌∷◌, ◌++◌, Option, none, some, ltb, leb, ◌==◌,
  if◌then◌else◌, ◌>>=◌, Bytes,
}
use smartmonitor.Common.Decimal.{decimal}
use smartmonitor.Common.Sets.{insert}
use smartmonitor.IdArray.{write}

-- "," and an ID for every further ID
unfoldable pub print_more : List ℕ → Bytes
print_more [] = []
print_more (x ∷ xs) = b',' ∷ (decimal x ++ print_more xs)

-- The text of the element `supportedSMART_IDs`; nothing is sent for a carrier without IDs.
unfoldable pub print_ids : List ℕ → Option Bytes
print_ids [] = none
print_ids (x ∷ xs) = some (decimal x ++ print_more xs)

-- `CheckSMARTidRange` of an `int`, as its bit pattern
pub data IdRange : Type 0 where
  in_range too_high negative : IdRange

unfoldable pub check_smart_id_range : ℕ → ℕ → IdRange
check_smart_id_range max n =
    if leb (2 ^ 31) n then negative else if ltb max n then too_high else in_range

module _ (max : ℕ) (count : ℕ) (to_number : Bytes → Option ℕ) where
  -- `ConvertStringToInt`
  unfoldable pub convert_string_to_int : Bytes → ℕ
  convert_string_to_int s = elim (to_number s) [
    | none ↦ 0
    | some n ↦ elim (check_smart_id_range max (n % 2 ^ 32)) [
      | in_range ↦ n % 2 ^ 32
      | too_high ↦ 0
      | negative ↦ 0
    ]
  ]

  -- one ID: the array entry, and the element of `supportedSMARTattrIDs`
  unfoldable pub take_id : Bytes → ℕ → List ℕ → List ℕ → Option (List ℕ × List ℕ)
  take_id piece idx a found =
      let n = convert_string_to_int piece in write a idx n >>= λ b. some (b, insert n found)

  -- what follows the loop: the mark behind the last entry
  unfoldable pub mark_last : ℕ → List ℕ × List ℕ → Option (List ℕ × List ℕ)
  mark_last idx (a, found) =
      if ltb idx count then (write a idx 0 >>= λ b. some (b, found)) else some (a, found)

  -- the loop over the text; `piece` is what lies between the last comma and the current character
  unfoldable pub scan : Bytes → Bytes → ℕ → List ℕ → List ℕ → Option (List ℕ × List ℕ)
  scan [] [] idx a found = mark_last idx (a, found)
  scan [] (p ∷ piece) idx a found = take_id (p ∷ piece) idx a found >>= λ r. mark_last (idx + 1) r
  scan (c ∷ text) piece idx a found =
      let more = scan text (piece ++ (c ∷ [])) idx a found in
      if c == b','
      then (take_id piece idx a found >>= λ r. scan text [] (idx + 1) r.0 r.1)
      else more

  -- `supportedSMART_IDs` of the new carrier and the set for the container
  unfoldable pub get_supported_smart_attributes : Bytes → List ℕ → Option (List ℕ × List ℕ)
  get_supported_smart_attributes text a = scan text [] 0 a []
