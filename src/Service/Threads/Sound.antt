-- ===== src/Service/Threads/Sound.antt =====
-- What holds of the service between any two steps of its threads, and that the steps keep it.
use smartmonitor.Common.{
  ℕ, ◌≡◌, ◌≢◌, refl, sym, ap, subst, ◌∙◌, Bool, true, false, not, ◌||◌, List, [], ◌∷◌, ◌++◌, some,
  append_assoc, append-nil, ◌==◌, ==_iff, ==_refl, Bool-cases, inl, inr, bind_some, ◌>>=◌,
  if◌then◌else◌, Bytes, arith,
}
use smartmonitor.Common.Sets.{IsAscending, has}
use smartmonitor.Wire.{byte_array_from_string}
use smartmonitor.Clients.{Written, add_client}
use smartmonitor.Clients.Delivery.{add_client_lem}
use smartmonitor.Service.Threads.{Log, Accepting, waiting, greeting, ServiceState, attempts, frames}
use smartmonitor.Service.Threads.Log.{
  attempts_last, delivered, attempts-deliver, delivered-IsAscending, has-delivered,
}

-- A client that is being greeted is no client yet; the messages that are not left were handed to
-- `write` for it.
abbrev pub Greets : List Bytes → List ℕ → List ℕ → Log → Accepting → Type 0
Greets hs opened clients log waiting = Unit
Greets hs opened clients log (greeting fd texts) =
    (has opened fd ≡ true)
    × ((has clients fd ≡ false)
        × ((rest : List Bytes) × ((frames texts ≡ some rest) × (attempts fd log ++ rest ≡ hs))))

-- What was handed to `write` for a client is the greeting and the last ones of the broadcasts, from some one on.
abbrev pub Complete : List Bytes → List Bytes → List Bytes → Type 0
Complete hs broadcasts got =
    (earlier : List Bytes) × ((since : List Bytes) × ((earlier ++ since ≡ broadcasts)
        × (got ≡ hs ++ since)))

pub record IsSound (hs : List Bytes) (s : ServiceState) : Type 0 where
  pub ascending : IsAscending s.clients
  pub known : (fd : ℕ) → has s.clients fd ≡ true → has s.opened fd ≡ true
  pub unseen : (fd : ℕ) → has s.opened fd ≡ false → attempts fd s.log ≡ []
  pub complete : (fd : ℕ) → has s.clients fd ≡ true → Complete hs s.broadcasts (attempts fd s.log)
  pub greets : Greets hs s.opened s.clients s.log s.accepting

false_from : (b c : Bool) → (b ≡ true → c ≡ true) → c ≡ false → b ≡ false
false_from false c f h = refl
false_from true c f h = cc (f refl)

differs : (b : Bool) → b ≢ not b
differs true = λ q. cc
differs false = λ q. cc

-- a write to one descriptor does not concern the others
attempts_other :
    (fd d : ℕ) (frame : Bytes) (r : Written) (log : Log) (xs : List ℕ) (b : Bool)
    → has xs fd ≡ b
    → has xs d ≡ not b
    → attempts fd (log ++ ((d, (frame, r)) ∷ [])) ≡ attempts fd log
attempts_other fd d frame r log xs b h k = elim (Bool-cases (d == fd)) [
  | inl q ↦ absurd (differs b (sym h ∙ (ap (has xs) (sym ((==_iff d fd).0 q)) ∙ k)))
  | inr q ↦
      attempts_last fd d frame r log
      ∙ ap (λ c. if c then attempts fd log ++ (frame ∷ []) else attempts fd log) q
]

-- a client behind `AddClient` is the new one or an old one
added_ind :
    (P : ℕ → Type 0) (fd d : ℕ) (b : Bool) → ((fd == d) || b) ≡ true → P fd → (b ≡ true → P d) → P d
added_ind P fd d b h p q = elim (Bool-cases (fd == d)) [
  | inl e ↦ subst P ((==_iff fd d).0 e) p
  | inr e ↦ q (ground (arith, e, h))
]

some_nil : (rest : List Bytes) → frames [] ≡ some rest → [] ≡ rest
unfolding frames
some_nil rest h = cc

frames_cons :
    (text : Bytes) (texts : List Bytes) (frame : Bytes) (rest : List Bytes)
    → byte_array_from_string text ≡ some frame
    → frames (text ∷ texts) ≡ some rest
    → (later : List Bytes) × ((frames texts ≡ some later) × ((frame ∷ []) ++ later ≡ rest))
unfolding frames
frames_cons text texts frame rest b h =
    let (f, (p, h1)) =
      bind_some (byte_array_from_string text) (λ f. frames texts >>= λ fs. some (f ∷ fs)) rest h in
    let (later, (q, h2)) = bind_some (frames texts) (λ fs. some (f ∷ fs)) rest h1 in
    (later, (q, cc))

attempts_own :
    (fd : ℕ) (frame : Bytes) (r : Written) (log : Log)
    → attempts fd (log ++ ((fd, (frame, r)) ∷ [])) ≡ attempts fd log ++ (frame ∷ [])
attempts_own fd frame r log = rw (attempts_last fd fd frame r log, ==_refl fd) refl

module _ (epipe : ℕ) (hello hs : List Bytes) (hello_frames : frames hello ≡ some hs) where
  pub accepted-IsSound :
      (s : ServiceState) (fd : ℕ)
      → IsSound hs s
      → has s.opened fd ≡ false
      → IsSound hs (record s { opened = fd ∷ s.opened; accepting = greeting fd hello })
  unfolding has
  accepted-IsSound s fd i fresh = record {
    ascending = i.ascending;
    known = λ d h. ground (arith, i.known d h);
    unseen = λ d h. i.unseen d (ground arith);
    complete = i.complete;
    greets = (
      ground arith,
      (
        false_from (has s.clients fd) (has s.opened fd) (i.known fd) fresh,
        (hs, (hello_frames, rw (i.unseen fd fresh) refl)),
      ),
    );
  }

  pub added-IsSound :
      (s : ServiceState) (fd : ℕ)
      → IsSound hs s
      → s.accepting ≡ greeting fd []
      → IsSound hs (record s { clients = add_client fd s.clients; accepting = waiting })
  added-IsSound s fd i e =
      let (o, (n, (rest, (f, r)))) = subst (Greets hs s.opened s.clients s.log) e i.greets in
      let all : attempts fd s.log ≡ hs =
        sym (append-nil (attempts fd s.log))
        ∙ (ap (λ x. attempts fd s.log ++ x) (some_nil rest f) ∙ r) in
      let a : (d : ℕ) → has (add_client fd s.clients) d ≡ ((fd == d) || has s.clients d) =
        λ d. (add_client_lem fd s.clients d i.ascending).1 in
      record {
        ascending = (add_client_lem fd s.clients fd i.ascending).0;
        known = λ d h.
            added_ind (λ x. has s.opened x ≡ true) fd d (has s.clients d) (sym (a d) ∙ h) o
              (i.known d);
        unseen = i.unseen;
        complete = λ d h.
            added_ind (λ x. Complete hs s.broadcasts (attempts x s.log)) fd d (has s.clients d)
              (sym (a d) ∙ h)
              (s.broadcasts, ([], (append-nil s.broadcasts, all ∙ sym (append-nil hs))))
              (i.complete d);
        greets = tt;
      }

  -- one more message of the greeting
  pub greeted-IsSound :
      (s : ServiceState) (fd : ℕ) (text frame : Bytes) (w : Written) (texts : List Bytes)
      → IsSound hs s
      → s.accepting ≡ greeting fd (text ∷ texts)
      → byte_array_from_string text ≡ some frame
      → IsSound hs
          (record s { log = s.log ++ ((fd, (frame, w)) ∷ []); accepting = greeting fd texts })
  greeted-IsSound s fd text frame w texts i e b =
      let (o, (n, (rest, (f, r)))) = subst (Greets hs s.opened s.clients s.log) e i.greets in
      let (later, (f2, split)) = frames_cons text texts frame rest b f in
      record {
        ascending = i.ascending;
        known = i.known;
        unseen = λ d h. attempts_other d fd frame w s.log s.opened false h o ∙ i.unseen d h;
        complete = λ d h.
            subst (Complete hs s.broadcasts)
              (sym (attempts_other d fd frame w s.log s.clients true h n)) (i.complete d h);
        greets = (
          o,
          (
            n,
            (
              later,
              (
                f2,
                ap (λ x. x ++ later) (attempts_own fd frame w s.log)
                    ∙ (append_assoc (attempts fd s.log) (frame ∷ []) later
                        ∙ (ap (λ x. attempts fd s.log ++ x) split ∙ r)),
              ),
            ),
          ),
        );
      }

  Greets-updated :
      (opened clients left : List ℕ) (log later : Log)
      → ((d : ℕ) → has left d ≡ true → has clients d ≡ true)
      → ((d : ℕ) → has clients d ≡ false → attempts d later ≡ attempts d log)
      → (a : Accepting) → Greets hs opened clients log a
      → Greets hs opened left later a
  Greets-updated opened clients left log later kept same waiting g = tt
  Greets-updated opened clients left log later kept same (greeting fd texts)
        (o, (n, (rest, (f, r)))) =
      (
        o,
        (
          false_from (has left fd) (has clients fd) (kept fd) n,
          (rest, (f, ap (λ x. x ++ rest) (same fd n) ∙ r)),
        ),
      )

  -- one message to all clients
  pub updated-IsSound :
      (s : ServiceState) (frame : Bytes) (outcome : ℕ → Written)
      → IsSound hs s
      → IsSound hs (record s {
        log = (delivered epipe outcome frame s.clients s.log).0;
        clients = (delivered epipe outcome frame s.clients s.log).1;
        broadcasts = s.broadcasts ++ (frame ∷ []);
      })
  updated-IsSound s frame outcome i =
      let left : List ℕ = (delivered epipe outcome frame s.clients s.log).1 in
      let kept : (d : ℕ) → has left d ≡ true → has s.clients d ≡ true =
        has-delivered epipe outcome frame s.clients s.log in
      let got : (d : ℕ)
          → attempts d (delivered epipe outcome frame s.clients s.log).0
            ≡ (if has s.clients d then attempts d s.log ++ (frame ∷ []) else attempts d s.log) =
        λ d. attempts-deliver epipe outcome frame s.clients s.log d i.ascending in
      let choose : ℕ → Bool → List Bytes =
        λ d b. if b then attempts d s.log ++ (frame ∷ []) else attempts d s.log in
      let unchanged : (d : ℕ)
          → has s.clients d ≡ false
          → attempts d (delivered epipe outcome frame s.clients s.log).0 ≡ attempts d s.log =
        λ d h. got d ∙ ap (choose d) h in
      record {
        ascending = delivered-IsAscending epipe outcome frame s.clients s.log i.ascending;
        known = λ d h. i.known d (kept d h);
        unseen = λ d h.
            unchanged d (false_from (has s.clients d) (has s.opened d) (i.known d) h)
            ∙ i.unseen d h;
        complete = λ d h.
            let c = kept d h in
            let (earlier, (since, (p, q))) = i.complete d c in
            (
              earlier,
              (
                since ++ (frame ∷ []),
                (
                  sym (append_assoc earlier since (frame ∷ [])) ∙ ap (λ x. x ++ (frame ∷ [])) p,
                  got d
                      ∙ (ap (choose d) c
                          ∙ (ap (λ x. x ++ (frame ∷ [])) q ∙ append_assoc hs since (frame ∷ []))),
                ),
              ),
            );
        greets =
            Greets-updated s.opened s.clients left s.log
              (delivered epipe outcome frame s.clients s.log).0 kept unchanged s.accepting i.greets;
      }
