-- ===== src/Service/Messages.antt =====
-- How many messages the service sends for the carriers, and what each of them holds.
use smartmonitor.Common.{
  ℕ, ◌≡◌, refl, ap, ◌∙◌, List, [], ◌∷◌, ◌++◌, Option, none, some, ◌>>=◌, bind_cong, bind_some,
  Bytes, append_assoc, Option-cases, inl, inr,
}
use smartmonitor.DataCarrier.{UniqueId}
use smartmonitor.Clients.{Written, send_bytes_to_1_client, send_bytes_to_all_clients}
use smartmonitor.Service.{
  Carrier, supported_element, values_element, ids_text, send_supported_from,
  send_supported_smart_ids_to_client, before_wait_from, before_wait,
}

unfoldable pub prepend_all : Bytes → List Bytes → List Bytes
prepend_all s [] = []
prepend_all s (t ∷ ts) = (s ++ t) ∷ prepend_all s ts

-- The first element, the first two together, the first three together and so on.
unfoldable pub beginnings : List Bytes → List Bytes
unfolding prepend_all
beginnings [] = []
beginnings (e ∷ es) = e ∷ prepend_all e (beginnings es)

prepend_all-append :
    (s t : Bytes) (ts : List Bytes) → prepend_all (s ++ t) ts ≡ prepend_all s (prepend_all t ts)
unfolding prepend_all
prepend_all-append s t [] = refl
prepend_all-append s t (x ∷ ts) = cc (append_assoc s t x, prepend_all-append s t ts)

prepend_all-nil : (ts : List Bytes) → prepend_all [] ts ≡ ts
unfolding prepend_all
prepend_all-nil [] = refl
prepend_all-nil (t ∷ ts) = ap (λ r. t ∷ r) (prepend_all-nil ts)

module _ (device_path : UniqueId → Option Bytes) (supported_ids : Bytes → List ℕ) where
  -- the elements of the carriers that have a path and supported IDs
  unfoldable pub supported_elements : List Carrier → List Bytes
  supported_elements [] = []
  supported_elements (c ∷ cs) =
      let rest = supported_elements cs in
      elim (ids_text device_path supported_ids c) [
        | none ↦ rest
        | some ids ↦ supported_element c.unique_id ids ∷ rest
      ]

module _ (print_seconds : ℕ → Bytes) (long_size : ℕ) where
  -- the elements of the carriers with their values
  unfoldable pub values_elements : List Carrier → Option (List Bytes)
  values_elements [] = some []
  values_elements (c ∷ cs) =
      values_element print_seconds long_size c >>= λ e. values_elements cs >>= λ es. some (e ∷ es)

module _ (World : Type 0) (epipe : ℕ) (write : World → ℕ → Bytes → World × Written) where
  -- one message after another to one client
  unfoldable pub send_each : List Bytes → ℕ → World → Option World
  send_each [] fd w = some w
  send_each (t ∷ ts) fd w =
      send_bytes_to_1_client World epipe write fd t w >>= λ (r : World × _). send_each ts fd r.0

  -- one message after another to all clients that are left
  unfoldable pub broadcast_each : List Bytes → List ℕ → World → Option (World × List ℕ)
  broadcast_each [] clients w = some (w, clients)
  broadcast_each (t ∷ ts) clients w =
      send_bytes_to_all_clients World epipe write t clients w >>= λ (r : World × List ℕ).
      broadcast_each ts r.1 r.0

  -- What is sent with a stream that holds `oss`.
  module _ (device_path : UniqueId → Option Bytes) (supported_ids : Bytes → List ℕ) where
    send_supported_from_lem :
        (cs : List Carrier) (oss : Bytes) (fd : ℕ) (w : World)
        → send_supported_from World epipe write device_path supported_ids cs oss fd w
          ≡ send_each
              (prepend_all oss (beginnings (supported_elements device_path supported_ids cs)))
              fd
              w
    unfolding send_supported_from send_each prepend_all beginnings supported_elements
    send_supported_from_lem [] oss fd w = refl
    send_supported_from_lem (c ∷ cs) oss fd w =
        elim (Option-cases (ids_text device_path supported_ids c)) [
          | inl q ↦
              rw (send_supported_from, supported_elements, q) (send_supported_from_lem cs oss fd w)
          | inr (ids, q) ↦
              let e : Bytes = supported_element c.unique_id ids in
              let bs : List Bytes = beginnings (supported_elements device_path supported_ids cs) in
              rw (send_supported_from, supported_elements, q)
                (bind_cong (send_bytes_to_1_client World epipe write fd (oss ++ e) w) _ _ (λ r.
                  send_supported_from_lem cs (oss ++ e) fd r.0
                  ∙ ap (λ ts. send_each ts fd r.0) (prepend_all-append oss e bs)))
        ]

    -- A client gets one message for each data carrier with a device path and supported IDs, in
    -- their order. Each holds the elements of the data carriers so far, not only that of its own.
    pub supported_messages_lem :
        (carriers : List Carrier) (fd : ℕ) (w : World)
        → send_supported_smart_ids_to_client World epipe write device_path supported_ids carriers fd
            w
          ≡ send_each (beginnings (supported_elements device_path supported_ids carriers)) fd w
    unfolding send_supported_smart_ids_to_client
    supported_messages_lem carriers fd w =
        send_supported_from_lem carriers [] fd w ∙ ap (λ ts. send_each ts fd w) (prepend_all-nil _)

  module _ (print_seconds : ℕ → Bytes) (long_size : ℕ) where
    before_wait_from_lem :
        (cs : List Carrier) (oss : Bytes) (es : List Bytes) (clients : List ℕ) (w : World)
        → values_elements print_seconds long_size cs ≡ some es
        → before_wait_from World epipe write print_seconds long_size cs oss clients w
          ≡ broadcast_each (prepend_all oss (beginnings es)) clients w
    unfolding before_wait_from broadcast_each prepend_all beginnings values_elements
    before_wait_from_lem [] oss [] clients w h = refl
    before_wait_from_lem [] oss (e ∷ es) clients w h = cc
    before_wait_from_lem (c ∷ cs) oss es clients w h =
        let (e, (p, h1)) =
          bind_some (values_element print_seconds long_size c)
            (λ x. values_elements print_seconds long_size cs >>= λ xs. some (x ∷ xs)) es h in
        let (rest, (q, h2)) =
          bind_some (values_elements print_seconds long_size cs) (λ xs. some (e ∷ xs)) es h1 in
        let r : es ≡ e ∷ rest = cc in
        rw (before_wait_from, p, r)
          (bind_cong (send_bytes_to_all_clients World epipe write (oss ++ e) clients w) _ _
            (λ (v : World × List ℕ).
              before_wait_from_lem cs (oss ++ e) rest v.1 v.0 q
              ∙ ap (λ ts. broadcast_each ts v.1 v.0) (prepend_all-append oss e (beginnings rest))))

    -- Each round of the update sends one message for each data carrier, in their order, to all clients
    -- that are left, if all values can be printed. Each holds the elements of the data carriers so far, not only
    -- that of its own.
    pub values_messages_lem :
        (carriers : List Carrier) (es : List Bytes) (clients : List ℕ) (w : World)
        → values_elements print_seconds long_size carriers ≡ some es
        → before_wait World epipe write print_seconds long_size carriers clients w
          ≡ broadcast_each (beginnings es) clients w
    unfolding before_wait
    values_messages_lem carriers es clients w h =
        before_wait_from_lem carriers [] es clients w h
        ∙ ap (λ ts. broadcast_each ts clients w) (prepend_all-nil _)
