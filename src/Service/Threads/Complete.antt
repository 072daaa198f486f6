-- ===== src/Service/Threads/Complete.antt =====
-- That a client of the service misses nothing from the moment it connects.
use smartmonitor.Common.{
  ℕ, ◌≡◌, refl, sym, ap, subst, ◌∙◌, true, List, [], ◌∷◌, ◌++◌, Option, none, some, Option-cases,
  inl, inr, Bytes, arith,
}
use smartmonitor.Common.Sets.{has}
use smartmonitor.Wire.{byte_array_from_string}
use smartmonitor.Clients.{Written, SocketSendReturnCodes, send_result, send_bytes_to_1_client}
use smartmonitor.Clients.Delivery.{send_bytes_to_all_clients_drops_broken}
use smartmonitor.Service.Threads.{
  Log, record_write, greeting, ServiceState, Step, accepted, greeted, added, updated, Reach, start,
  next, attempts, written, all_in_full, joined, frames,
}
use smartmonitor.Service.Threads.Sound.{
  Complete, IsSound, accepted-IsSound, added-IsSound, greeted-IsSound, updated-IsSound,
}
use smartmonitor.Service.Threads.Log.{delivered, written-attempts}

-- sending to one client is one write of a frame
written_once :
    (epipe : ℕ) (outcome : ℕ → Written) (fd : ℕ) (text : Bytes) (log later : Log)
    (code : SocketSendReturnCodes)
    → send_bytes_to_1_client Log epipe (record_write outcome) fd text log ≡ some (later, code)
    → (frame : Bytes) × ((byte_array_from_string text ≡ some frame)
        × (log ++ ((fd, (frame, outcome fd)) ∷ []) ≡ later))
unfolding send_bytes_to_1_client record_write
written_once epipe outcome fd text log later code p =
    elim (Option-cases (byte_array_from_string text)) [
      | inl q ↦ absurd (
          let z : ◌≡◌ {A = Option (Log × SocketSendReturnCodes)} none (some (later, code)) =
            sym (rw (send_bytes_to_1_client, q) refl) ∙ p in
          cc)
      | inr (frame, q) ↦
          let r : SocketSendReturnCodes = send_result epipe (outcome fd) in
          let z : ◌≡◌ {A = Option (Log × SocketSendReturnCodes)}
              (some (log ++ ((fd, (frame, outcome fd)) ∷ []), r)) (some (later, code)) =
            sym (rw (send_bytes_to_1_client, q) refl) ∙ p in
          (frame, (q, cc))
    ]

module _ (epipe : ℕ) (hello hs : List Bytes) (hello_frames : frames hello ≡ some hs) where
  Step-IsSound : (s t : ServiceState) → IsSound hs s → Step epipe hello s t → IsSound hs t
  Step-IsSound s _ i (accepted fd e fresh) =
      accepted-IsSound epipe hello hs hello_frames s fd i fresh
  Step-IsSound s _ i (greeted fd text texts outcome log code e p) =
      let (frame, (b, l)) = written_once epipe outcome fd text s.log log code p in
      subst (λ x. IsSound hs (record s { log = x; accepting = greeting fd texts })) l
        (greeted-IsSound epipe hello hs hello_frames s fd text frame (outcome fd) texts i e b)
  Step-IsSound s _ i (added fd e) = added-IsSound epipe hello hs hello_frames s fd i e
  Step-IsSound s _ i (updated text frame outcome log left b p) =
      let d : some (log, left) ≡ some (delivered epipe outcome frame s.clients s.log) =
        sym p
        ∙ send_bytes_to_all_clients_drops_broken Log epipe (record_write outcome) text frame
            s.clients s.log i.ascending b in
      let e : delivered epipe outcome frame s.clients s.log ≡ (log, left) = cc in
      subst
        (λ (r : Log × List ℕ).
          IsSound hs
            (record s { log = r.0; clients = r.1; broadcasts = s.broadcasts ++ (frame ∷ []) }))
        e (updated-IsSound epipe hello hs hello_frames s frame outcome i)

  Reach-IsSound : (s : ServiceState) → Reach epipe hello s → IsSound hs s
  unfolding has attempts
  Reach-IsSound _ start = record {
    ascending = tt;
    known = λ d h. h;
    unseen = λ d h. refl;
    complete = λ d h. absurd (ground (arith, h));
    greets = tt;
  }
  Reach-IsSound t (next {s = s} r step) = Step-IsSound s t (Reach-IsSound s r) step

  -- the messages that were handed to `write`
  pub attempts-Complete :
      (s : ServiceState) (fd : ℕ)
      → Reach epipe hello s
      → has s.clients fd ≡ true
      → Complete hs s.broadcasts (attempts fd s.log)
  attempts-Complete s fd r h = (Reach-IsSound s r).complete fd h

  -- However the two threads of the service interleave and whichever writes to other clients fail: if no
  -- write to a connected client failed or wrote less than its message, the bytes on its socket are
  -- first all messages with supported IDs and then, in order and with none missing, the last ones of
  -- the messages that were sent to all clients, from one of them on.
  pub connected_misses_nothing :
      (s : ServiceState) (fd : ℕ)
      → Reach epipe hello s
      → has s.clients fd ≡ true
      → all_in_full fd s.log ≡ true
      → (earlier : List Bytes) × ((since : List Bytes) × ((earlier ++ since ≡ s.broadcasts)
            × (written fd s.log ≡ joined (hs ++ since))))
  connected_misses_nothing s fd r h f =
      let (earlier, (since, (p, q))) = attempts-Complete s fd r h in
      (earlier, (since, (p, written-attempts fd s.log f ∙ ap joined q)))
