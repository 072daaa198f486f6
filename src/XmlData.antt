-- ===== src/XmlData.antt =====
-- A whole message on the client's side: src/tinyxml2/ProcessSMARTdata.cpp. The XML library is the parameter
-- `parse`; of an element it gives the attributes, the children `SMART` in order, and the text of the
-- child `supportedSMART_IDs`. The bytes of a message end with a 0 in memory.
pub mod Slots
pub mod Arrival
use smartmonitor.Common.{
  ℕ, Bool, true, false, List, [], ◌∷◌, ◌++◌, Option, none, some, ◌>>=◌, ◌==◌, if◌then◌else◌, Bytes,
  codes, length,
}
use smartmonitor.DataCarrier.{
  Capacity, UniqueId, set_model_name, set_firmware_name, set_serial_number,
}
use smartmonitor.SupportedIds.{get_supported_smart_attributes}
use smartmonitor.Entry.{SmartElement, ClientSlot, handle_single_smart_entry}

-- The root element `data_carrier`.
pub record RootElement : Type 0 where
  pub model : Option Bytes
  pub firmware : Option Bytes
  pub serial_number : Option Bytes
  pub smart : List SmartElement
  pub supported_smart_ids : Option (Option Bytes)

-- `Parse`: an error code other than XML_SUCCESS, or a document with or without a root element.
pub data XmlResult : Type 0 where
  xml_error : ℕ → XmlResult
  parsed : Option RootElement → XmlResult

-- What `getXMLdoc` returns: an error code as a pointer, a null pointer, or the root element.
pub data XmlPointer : Type 0 where
  error_code : ℕ → XmlPointer
  null_pointer : XmlPointer
  root_element : RootElement → XmlPointer

-- the text in front of the first 0
unfoldable pub until_nul : Bytes → Bytes
until_nul [] = []
until_nul (c ∷ s) = let rest = until_nul s in if c == 0 then [] else c ∷ rest

-- the `GetSMARTuniqueID` with a result: whether all three attributes are there
unfoldable pub get_smart_unique_id : Capacity → RootElement → UniqueId → Bool × UniqueId
get_smart_unique_id cap e u = elim (e.model) [
  | none ↦ (false, u)
  | some model ↦ elim (e.firmware) [
    | none ↦ (false, u)
    | some firmware ↦ elim (e.serial_number) [
      | none ↦ (false, u)
      | some serial ↦ (
        true,
        set_serial_number cap serial (set_firmware_name cap firmware (set_model_name cap model u)),
      )
    ]
  ]
]

-- What `GetSupportedSMARTattributesViaXML` does: it shows the error, returns early, or adds the
-- carrier with its array and the set of its IDs to the containers.
pub data Supported : Type 0 where
  shows_error returns_early : Supported
  adds : UniqueId → List ℕ → List ℕ → Supported

module _ (max : ℕ) (to_int : Bytes → Option ℕ) (to_int64 : Bytes → Option ℕ)
    (atol : Bytes → ℕ) where
  -- the loop of `GetSMARTrawValues`; without an element nothing is done
  unfoldable pub get_smart_raw_values :
      List SmartElement → List ClientSlot → Option (List ClientSlot)
  get_smart_raw_values [] slots = some slots
  get_smart_raw_values (e ∷ es) slots =
      handle_single_smart_entry max to_int to_int64 atol e slots >>= λ later.
      get_smart_raw_values es later

module _ (parse : Bytes → ℕ → XmlResult) where
  -- `getXMLdoc` for so many bytes
  unfoldable pub get_xml_doc : Bytes → XmlPointer
  unfolding until_nul
  get_xml_doc bytes = elim (parse (until_nul bytes) (length bytes)) [
    | xml_error code ↦ error_code code
    | parsed none ↦ null_pointer
    | parsed (some e) ↦ root_element e
  ]

  module _ (max : ℕ) (to_int : Bytes → Option ℕ) (to_int64 : Bytes → Option ℕ)
      (atol : Bytes → ℕ) where
    -- `GetSMARTdataViaXML`: the identity, begun from `fresh`, and the slots. The comparison with
    -- XML_ERROR_COUNT tells an element from an error code and from the null pointer.
    unfoldable pub get_smart_data_via_xml :
        Capacity
        → UniqueId
        → Bytes
        → UniqueId × List ClientSlot
        → Option (UniqueId × List ClientSlot)
    get_smart_data_via_xml cap fresh bytes v = elim (get_xml_doc bytes) [
      | error_code code ↦ some v
      | null_pointer ↦ some v
      | root_element e ↦ get_smart_raw_values max to_int to_int64 atol e.smart v.1 >>= λ slots.
          some ((get_smart_unique_id cap e fresh).1, slots)
    ]

  -- `GetSupportedSMARTattributesViaXML`; `none`: beyond the array of IDs
  unfoldable pub get_supported_smart_attributes_via_xml :
      Capacity → UniqueId → ℕ → ℕ → (Bytes → Option ℕ) → List ℕ → Bytes → Option Supported
  get_supported_smart_attributes_via_xml cap fresh max count to_number a bytes =
      elim (parse (until_nul bytes) (length bytes)) [
        | xml_error code ↦ some shows_error
        | parsed none ↦ some returns_early
        | parsed (some e) ↦
            let (has_id, u) = get_smart_unique_id cap e fresh in
            elim (e.supported_smart_ids) [
              | none ↦ some returns_early
              | some none ↦ some returns_early
              | some (some text) ↦
                  let added : Option Supported =
                    get_supported_smart_attributes max count to_number text a
                    >>= λ (r : List ℕ × List ℕ). some (adds u r.0 r.1) in
                  if has_id then added else some returns_early
            ]
      ]
