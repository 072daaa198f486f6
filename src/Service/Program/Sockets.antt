-- ===== src/Service/Program/Sockets.antt =====
-- Which sockets `ClientConnThreadFunc` closes when its loop ends.
use smartmonitor.Common.{
  ℕ, ◌≡◌, refl, sym, ap, ◌∙◌, true, false, List, [], ◌∷◌, ◌++◌, Option, none, some, append_assoc,
  append-nil, bind_some, Bytes, Bool-cases, Option-cases, inl, inr,
}
use smartmonitor.DataCarrier.{UniqueId}
use smartmonitor.Wire.{byte_array_from_string}
use smartmonitor.Clients.{
  Written, send_result, SocketSendReturnCodes, send_bytes_to_1_client, close_all_client_sockets,
  add_client, remove_file_descs_of_broken_socket_conns,
}
use smartmonitor.Service.{
  Carrier, supported_element, ids_text, send_supported_from, send_supported_smart_ids_to_client,
}
use smartmonitor.Service.Program.{
  Accept, client, rejected, Round, accept_client, accept_loop, client_conn_thread_func,
}

-- A system that notes down the descriptors that are closed.
abbrev pub Closed : Type 0
Closed = List ℕ

abbrev pub note_close : Closed → ℕ → Closed
note_close closed fd = closed ++ (fd ∷ [])

module _ (epipe : ℕ) (write : Closed → ℕ → Bytes → Closed × Written) where
  close_all_lem :
      (fds : List ℕ) (closed : Closed)
      → close_all_client_sockets Closed epipe write note_close fds closed ≡ closed ++ fds
  unfolding close_all_client_sockets
  close_all_lem [] closed = sym (append-nil closed)
  close_all_lem (fd ∷ fds) closed =
      close_all_lem fds (closed ++ (fd ∷ [])) ∙ append_assoc closed (fd ∷ []) fds

  -- a write closes nothing
  module _
      (writes : (closed : Closed) (fd : ℕ) (frame : Bytes) → (write closed fd frame).0 ≡ closed)
      (device_path : UniqueId → Option Bytes) (supported_ids : Bytes → List ℕ)
      (carriers : List Carrier) where
    one_closed :
        (fd : ℕ) (text : Bytes) (closed : Closed) (r : Closed × SocketSendReturnCodes)
        → send_bytes_to_1_client Closed epipe write fd text closed ≡ some r
        → r.0 ≡ closed
    unfolding send_bytes_to_1_client
    one_closed fd text closed r h = elim (Option-cases (byte_array_from_string text)) [
      | inl q ↦ absurd (
          let z : ◌≡◌ {A = Option (Closed × SocketSendReturnCodes)} none (some r) =
            sym (rw (send_bytes_to_1_client, q) refl) ∙ h in
          cc)
      | inr (frame, q) ↦
          let z : ◌≡◌ {A = Option (Closed × SocketSendReturnCodes)}
              (some ((write closed fd frame).0, send_result epipe (write closed fd frame).1))
              (some r) =
            sym (rw (send_bytes_to_1_client, q) refl) ∙ h in
          let e : ((write closed fd frame).0, send_result epipe (write closed fd frame).1) ≡ r =
            cc in
          sym (ap (λ (p : Closed × SocketSendReturnCodes). p.0) e) ∙ writes closed fd frame
    ]

    send_supported_from_closed :
        (cs : List Carrier) (oss : Bytes) (fd : ℕ) (closed later : Closed)
        → send_supported_from Closed epipe write device_path supported_ids cs oss fd closed
          ≡ some later
        → later ≡ closed
    unfolding send_supported_from send_bytes_to_1_client
    send_supported_from_closed [] oss fd closed later h = cc
    send_supported_from_closed (c ∷ cs) oss fd closed later h =
        elim (Option-cases (ids_text device_path supported_ids c)) [
          | inl q ↦
              send_supported_from_closed cs oss fd closed later
                (sym (rw (send_supported_from, q) refl) ∙ h)
          | inr (ids, q) ↦
              let text : Bytes = oss ++ supported_element c.unique_id ids in
              let (r, (p, k)) =
                bind_some (send_bytes_to_1_client Closed epipe write fd text closed)
                  (λ (r : Closed × SocketSendReturnCodes).
                    send_supported_from Closed epipe write device_path supported_ids cs text fd r.0)
                  later (sym (rw (send_supported_from, q) refl) ∙ h) in
              send_supported_from_closed cs text fd r.0 later k ∙ one_closed fd text closed r p
        ]

    client_closed :
        (a : Accept) (clients : List ℕ) (closed : Closed) (p : Closed × List ℕ)
        → accept_client Closed epipe write note_close device_path supported_ids carriers a clients
            closed
          ≡ some p
        → p.0 ≡ closed
    unfolding accept_client send_supported_smart_ids_to_client
    client_closed (rejected errno) clients closed p h =
        let e : (closed, clients) ≡ p = cc in sym (ap (λ (q : Closed × List ℕ). q.0) e)
    client_closed (client fd) clients closed p h =
        let (v, (k, z)) =
          bind_some
            (send_supported_from Closed epipe write device_path supported_ids carriers [] fd closed)
            (λ v. some (v, add_client fd clients)) p h in
        let e : (v, add_client fd clients) ≡ p = cc in
        sym (ap (λ (q : Closed × List ℕ). q.0) e)
        ∙ send_supported_from_closed carriers [] fd closed v k

    loop_closed :
        (rounds : List Round) (clients left : List ℕ) (closed later : Closed)
        → accept_loop Closed epipe write note_close device_path supported_ids carriers rounds
            clients closed
          ≡ some (later, left)
        → later ≡ closed
    unfolding accept_loop accept_client send_supported_smart_ids_to_client
    loop_closed [] clients left closed later h = cc
    loop_closed (r ∷ rounds) clients left closed later h =
        let (p, (q, k)) =
          bind_some
            (accept_client Closed epipe write note_close device_path supported_ids carriers r.accept
              (remove_file_descs_of_broken_socket_conns r.broken clients) closed)
            (λ (p : Closed × List ℕ). elim (r.goes_on) [
              | true ↦
                  accept_loop Closed epipe write note_close device_path supported_ids carriers
                    rounds p.1 p.0
              | false ↦ some p
            ])
            (later, left) h in
        let same : p.0 ≡ closed = client_closed r.accept _ closed p q in
        elim (Bool-cases r.goes_on) [
          | inl b ↦ loop_closed rounds p.1 left p.0 later (sym (rw b refl) ∙ k) ∙ same
          | inr b ↦
              let e : some p ≡ some (later, left) = sym (rw b refl) ∙ k in
              let f : p ≡ (later, left) = cc in sym (ap (λ (q : Closed × List ℕ). q.0) f) ∙ same
        ]

    -- If writing closes no socket, then `ClientConnThreadFunc`, when its loop ends, closes exactly the
    -- clients that are still in the set, each once: those whose connection was found broken and who
    -- were removed from the set are not closed.
    pub remaining_closed :
        (rounds : List Round) (clients left : List ℕ) (later : Closed)
        → client_conn_thread_func Closed epipe write note_close device_path supported_ids carriers
            rounds clients []
          ≡ some (later, left)
        → later ≡ left
    unfolding client_conn_thread_func
    remaining_closed rounds clients left later h =
        let (p, (q, k)) =
          bind_some
            (accept_loop Closed epipe write note_close device_path supported_ids carriers rounds
              clients [])
            (λ (p : Closed × List ℕ).
              some (close_all_client_sockets Closed epipe write note_close p.1 p.0, p.1))
            (later, left) h in
        let l : p.0 ≡ [] = loop_closed rounds clients p.1 [] p.0 q in
        let c : close_all_client_sockets Closed epipe write note_close p.1 p.0 ≡ p.1 =
          close_all_lem p.1 p.0 ∙ ap (λ x. x ++ p.1) l in
        cc
