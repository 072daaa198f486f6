-- ===== src/Service/Receiver.antt =====
-- A client of the service: what it reads of what the two threads of the service have written to it, by
-- `GetSupportedSMARTidsFromSrv` once and then by `GetSMARTattrValsFromSrv`
-- (src/client/InterProcComm/BSDskt/SMARTmonUI_BSDskt.cpp).
use smartmonitor.Common.{
  ℕ, ◌≡◌, refl, sym, ap, subst, ◌∙◌, true, List, [], ◌∷◌, ◌++◌, some, append_assoc, append-nil,
  length, map, bind_some, ◌>>=◌, Bytes, All, All-append,
}
use smartmonitor.Common.Sets.{has}
use smartmonitor.Wire.{
  byte_array_from_string, htons, successfull, code_2, get_supported_smart_ids_from_srv,
}
use smartmonitor.Wire.Frame.{
  Fits, Stream, sent, receive, messages_arrive, message_lem, byte_array-Fits,
}
use smartmonitor.Service.Messages.{beginnings, prepend_all}
use smartmonitor.Service.Threads.{ServiceState, Reach, written, all_in_full, joined, frames}
use smartmonitor.Service.Threads.Complete.{connected_misses_nothing}

joined-append : (xs ys : List Bytes) → joined (xs ++ ys) ≡ joined xs ++ joined ys
unfolding joined
joined-append [] ys = refl
joined-append (x ∷ xs) ys = cc (joined-append xs ys, append_assoc x (joined xs) (joined ys))

sent-frames : (texts fs : List Bytes) → frames texts ≡ some fs → sent texts ≡ some (joined fs)
unfolding frames sent joined
sent-frames [] fs h = let e : [] ≡ fs = cc in ap (λ x. some (joined x)) e
sent-frames (t ∷ ts) fs h =
    let (f, (p, h1)) =
      bind_some (byte_array_from_string t) (λ f. frames ts >>= λ x. some (f ∷ x)) fs h in
    let (rest, (q, h2)) = bind_some (frames ts) (λ x. some (f ∷ x)) fs h1 in
    let e : f ∷ rest ≡ fs = cc in rw (sent, p, sent-frames ts rest q) (ap (λ x. some (joined x)) e)

-- the texts of the last messages
frames-suffix :
    (texts earlier since : List Bytes)
    → frames texts ≡ some (earlier ++ since)
    → (before : List Bytes) × ((after : List Bytes) × ((before ++ after ≡ texts)
          × (frames after ≡ some since)))
unfolding frames
frames-suffix texts [] since h = ([], (texts, (refl, h)))
frames-suffix [] (e ∷ earlier) since h =
    absurd (let z : ◌≡◌ {A = List Bytes} [] (e ∷ (earlier ++ since)) = cc in cc)
frames-suffix (t ∷ ts) (e ∷ earlier) since h =
    let (f, (p, h1)) =
      bind_some (byte_array_from_string t) (λ f. frames ts >>= λ x. some (f ∷ x))
        (e ∷ (earlier ++ since)) h in
    let (rest, (q, h2)) = bind_some (frames ts) (λ x. some (f ∷ x)) (e ∷ (earlier ++ since)) h1 in
    let r : rest ≡ earlier ++ since = cc in
    let (before, (after, (j, k))) = frames-suffix ts earlier since (q ∙ ap some r) in
    (t ∷ before, (after, (ap (λ x. t ∷ x) j, k)))

frames-append :
    (xs ys fs gs : List Bytes)
    → frames xs ≡ some fs
    → frames ys ≡ some gs
    → frames (xs ++ ys) ≡ some (fs ++ gs)
unfolding frames
frames-append [] ys fs gs h k = let e : [] ≡ fs = cc in k ∙ ap (λ x. some (x ++ gs)) e
frames-append (x ∷ xs) ys fs gs h k =
    let (f, (p, h1)) =
      bind_some (byte_array_from_string x) (λ f. frames xs >>= λ r. some (f ∷ r)) fs h in
    let (rest, (q, h2)) = bind_some (frames xs) (λ r. some (f ∷ r)) fs h1 in
    let e : f ∷ rest ≡ fs = cc in
    rw (frames, p, frames-append xs ys rest gs q k) (ap (λ r. some (r ++ gs)) e)

All-suffix : (xs ys : List Bytes) → All Fits (xs ++ ys) → All Fits ys
All-suffix [] ys a = a
All-suffix (x ∷ xs) ys (p, a) = All-suffix xs ys a

frames-Fits :
    (t : Bytes) (ts fs : List Bytes)
    → Fits t
    → frames (t ∷ ts) ≡ some fs
    → (rest : List Bytes) × ((frames ts ≡ some rest)
        × (joined fs ≡ htons (length t) ++ (t ++ joined rest)))
unfolding frames joined
frames-Fits t ts fs p h =
    let (f, (q, h1)) =
      bind_some (byte_array_from_string t) (λ f. frames ts >>= λ x. some (f ∷ x)) fs h in
    let (rest, (k, h2)) = bind_some (frames ts) (λ x. some (f ∷ x)) fs h1 in
    let e : f ∷ rest ≡ fs = cc in
    let g : htons (length t) ++ t ≡ f = cc (byte_array-Fits t p) in
    (
      rest,
      (
        k,
        sym (ap joined e)
            ∙ (ap (λ x. x ++ joined rest) (sym g)
                ∙ append_assoc (htons (length t)) t (joined rest)),
      ),
    )

module _ (World : Type 0) (read : World → ℕ → World × Bytes) (pending : World → Bytes)
    (stream : Stream World read pending) where
  -- the first message and those behind it
  read_hello_and_values :
      (t : Bytes) (ts fs : List Bytes) (w : World)
      → All Fits (t ∷ ts)
      → frames (t ∷ ts) ≡ some fs
      → pending w ≡ joined fs
      → ((get_supported_smart_ids_from_srv World read w).1 ≡ successfull t)
        × ((receive World read (length ts) (get_supported_smart_ids_from_srv World read w).0).1
            ≡ map successfull ts)
  unfolding get_supported_smart_ids_from_srv
  read_hello_and_values t ts fs w (p, a) h e =
      let (rest, (k, j)) = frames-Fits t ts fs p h in
      let m = message_lem World read pending stream code_2 w t (joined rest) p (e ∙ j) in
      let v : World = (get_supported_smart_ids_from_srv World read w).0 in
      (
        m.0,
        (messages_arrive World read pending stream ts v (joined rest) [] a (sent-frames ts rest k)
            (m.1 ∙ sym (append-nil (joined rest)))).0,
      )

  -- A client is connected to a service with the elements `e ∷ es` of supported IDs, the service has
  -- built each message from a text of 1 to 65533 bytes, no write to this client failed or was short,
  -- and all written bytes are in the receive buffer of the client before it reads: so no read waits or
  -- is short. Then the client takes `e` alone as the supported IDs. As values it takes the further
  -- messages with supported IDs, if there are several elements, and only then the last ones of the
  -- messages with values, in order and with none missing.
  pub client_reads_lem :
      (epipe : ℕ) (e : Bytes) (es hs texts : List Bytes) (s : ServiceState) (fd : ℕ) (w : World)
      → All Fits (beginnings (e ∷ es))
      → frames (beginnings (e ∷ es)) ≡ some hs
      → All Fits texts
      → frames texts ≡ some s.broadcasts
      → Reach epipe (beginnings (e ∷ es)) s
      → has s.clients fd ≡ true
      → all_in_full fd s.log ≡ true
      → pending w ≡ written fd s.log
      → (earlier : List Bytes) × ((since : List Bytes) × ((earlier ++ since ≡ texts)
            × (((get_supported_smart_ids_from_srv World read w).1 ≡ successfull e)
                × ((receive World read
                      (length (prepend_all e (beginnings es) ++ since))
                      (get_supported_smart_ids_from_srv World read w).0).1
                    ≡ map successfull (prepend_all e (beginnings es) ++ since)))))
  unfolding beginnings
  client_reads_lem epipe e es hs texts s fd w a h b k r c g q =
      let (old, (frames_since, (p, got))) =
        connected_misses_nothing epipe (beginnings (e ∷ es)) hs h s fd r c g in
      let (earlier, (since, (j, l))) = frames-suffix texts old frames_since (k ∙ ap some (sym p)) in
      let later : List Bytes = prepend_all e (beginnings es) in
      let fits : All Fits since = All-suffix earlier since (subst (All Fits) (sym j) b) in
      let whole : frames ((e ∷ later) ++ since) ≡ some (hs ++ frames_since) =
        frames-append (e ∷ later) since hs frames_since h l in
      let i =
        read_hello_and_values e (later ++ since) (hs ++ frames_since) w
          (a.0, All-append Fits later since a.1 fits) whole (q ∙ got) in
      (earlier, (since, (j, i)))
