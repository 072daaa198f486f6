-- ===== src/Service.antt =====
-- What the service sends: `SendSupportedSMART_IDsToClient` and `BeforeWait` of
-- src/service/SMARTmonitorService.cpp. `s_dataCarrierID2devicePath` is the parameter `device_path`,
-- `GetSupportedSMART_IDs` the parameter `supported_ids`, and the printing of a `float` of so many
-- milliseconds in seconds, fixed with 3 digits, the parameter `print_seconds`.
pub mod Messages
pub mod Program
pub mod Threads
pub mod Receiver
use smartmonitor.Common.{
  ℕ, zero, suc, ◌+◌, Bool, true, false, List, [], ◌∷◌, ◌++◌, Option, none, some, if◌then◌else◌,
  ◌>>=◌, Bytes, codes, length, get_elem?,
}
use smartmonitor.DataCarrier.{UniqueId}
use smartmonitor.IdArray.{visit}
use smartmonitor.SupportedIds.{print_ids}
use smartmonitor.Attr.{RawValue, is_consistent}
use smartmonitor.Entry.{SmartElement, print_smart_element}
use smartmonitor.Clients.{Written, send_bytes_to_1_client, send_bytes_to_all_clients}

-- `m_SMARTvalues[id]` with the unit and its bounds
pub record AttrState : Type 0 where
  pub successfully_read : Bool
  pub raw_value : RawValue
  pub retrieval_time : Option ℕ  -- GetRetrievalTime in ms
  pub unit : ℕ
  pub lower_unit_bound : ℕ
  pub upper_unit_bound : ℕ

-- An element of `GetSMARTuniqueIDandValues()`.
pub record Carrier : Type 0 where
  pub unique_id : UniqueId
  pub smart_ids_to_rd : List ℕ
  pub smart_values : List AttrState

-- the start tag of both messages
unfoldable pub begin_data_carrier : UniqueId → Bytes
begin_data_carrier u =
    codes "<data_carrier model=\""
    ++ (u.model_name
        ++ (codes "\" firmware=\""
            ++ (u.firmware_name
                ++ (codes "\" serial_number=\"" ++ (u.serial_number ++ codes "\">")))))

-- the element of a carrier with supported IDs
unfoldable pub supported_element : UniqueId → Bytes → Bytes
unfolding begin_data_carrier
supported_element u ids =
    begin_data_carrier u
    ++ (codes "<supportedSMART_IDs>" ++ (ids ++ codes "</supportedSMART_IDs></data_carrier>"))

-- an attribute that is only written under a condition
unfoldable pub optional_attribute : Bytes → Option Bytes → Bytes
optional_attribute name none = []
optional_attribute name (some value) = name ++ value

unfoldable pub smart_element_text : Bytes → SmartElement → Bytes
unfolding optional_attribute
smart_element_text time e =
    codes "<SMART ID=\""
    ++ (e.id
        ++ (codes "\" raw_value=\""
            ++ (e.raw_value
                ++ (codes "\" time_in_s=\""
                    ++ (time
                        ++ (optional_attribute (codes "\" unit=\"") e.unit
                            ++ (optional_attribute (codes "\" lower_unit_bound=\"")
                                  e.lower_unit_bound
                                ++ (optional_attribute (codes "\" upper_unit_bound=\"")
                                      e.upper_unit_bound
                                    ++ codes "\"/>"))))))))

module _ (print_seconds : ℕ → Bytes) (long_size : ℕ) where
  -- `fTimeInS`
  unfoldable pub time_text : Option ℕ → Bytes
  time_text none = print_seconds 0
  time_text (some ms) = print_seconds ms

  -- the text of one attribute; `none`: beyond the parts of the raw value
  unfoldable pub attribute_text : ℕ → AttrState → Option Bytes
  unfolding time_text smart_element_text
  attribute_text id s = is_consistent long_size s.raw_value >>= λ (r : ℕ × Bool).
      some
        (elim (print_smart_element s.successfully_read r.1 id r.0 s.unit s.lower_unit_bound
          s.upper_unit_bound) [
            | none ↦ []
            | some e ↦ smart_element_text (time_text s.retrieval_time) e
          ])

  -- the loop over the IDs to read
  unfoldable pub attribute_texts : List ℕ → List AttrState → Option Bytes
  attribute_texts [] values = some []
  attribute_texts (id ∷ ids) values = get_elem? values id >>= λ s.
      attribute_text id s >>= λ t. attribute_texts ids values >>= λ ts. some (t ++ ts)

  -- what `BeforeWait` adds to its stream for one carrier
  unfoldable pub values_element : Carrier → Option Bytes
  values_element c = visit (suc (length c.smart_ids_to_rd)) c.smart_ids_to_rd 0 >>= λ ids.
      attribute_texts ids c.smart_values >>= λ ts.
      some (begin_data_carrier c.unique_id ++ (ts ++ codes "</data_carrier>"))

module _ (device_path : UniqueId → Option Bytes) (supported_ids : Bytes → List ℕ) where
  -- the supported IDs of a carrier as text, if there are a path and an ID
  unfoldable pub ids_text : Carrier → Option Bytes
  ids_text c = device_path c.unique_id >>= λ device. print_ids (supported_ids device)

module _ (World : Type 0) (epipe : ℕ) (write : World → ℕ → Bytes → World × Written) where
  module _ (device_path : UniqueId → Option Bytes) (supported_ids : Bytes → List ℕ) where
    -- The loop of `SendSupportedSMART_IDsToClient`; `oss` is what its stream holds already. The result
    -- of the sending is not looked at.
    unfoldable pub send_supported_from : List Carrier → Bytes → ℕ → World → Option World
    send_supported_from [] oss fd w = some w
    send_supported_from (c ∷ cs) oss fd w = elim (ids_text device_path supported_ids c) [
      | none ↦ send_supported_from cs oss fd w
      | some ids ↦
          send_bytes_to_1_client World epipe write fd (oss ++ supported_element c.unique_id ids) w
          >>= λ (r : World × _).
              send_supported_from cs (oss ++ supported_element c.unique_id ids) fd r.0
    ]

    -- `SendSupportedSMART_IDsToClient`
    unfoldable pub send_supported_smart_ids_to_client : List Carrier → ℕ → World → Option World
    unfolding send_supported_from
    send_supported_smart_ids_to_client carriers fd w = send_supported_from carriers [] fd w

  module _ (print_seconds : ℕ → Bytes) (long_size : ℕ) where
    -- the loop of `BeforeWait` over the carriers, with the clients that are left
    unfoldable pub before_wait_from :
        List Carrier → Bytes → List ℕ → World → Option (World × List ℕ)
    before_wait_from [] oss clients w = some (w, clients)
    before_wait_from (c ∷ cs) oss clients w = values_element print_seconds long_size c >>= λ e.
        send_bytes_to_all_clients World epipe write (oss ++ e) clients w >>= λ (r : World × List ℕ).
        before_wait_from cs (oss ++ e) r.1 r.0

    -- `BeforeWait`
    unfoldable pub before_wait : List Carrier → List ℕ → World → Option (World × List ℕ)
    unfolding before_wait_from
    before_wait carriers clients w = before_wait_from carriers [] clients w
