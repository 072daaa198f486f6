-- ===== src/Service/Threads/Log.antt =====
-- What the writes of the service put on the socket of one client.
use smartmonitor.Common.{
  ℕ, zero, suc, ap, ◌<◌, ◌≡◌, refl, take, length, Bool-cases, inl, inr, ==_iff, true, false, List,
  [], ◌∷◌, ◌++◌, ◌==◌, if◌then◌else◌, Bytes, All, arith,
}
use smartmonitor.Common.Sets.{IsAscending, has}
use smartmonitor.Clients.{Written, wrote, failed}
use smartmonitor.Clients.Delivery.{deliver, survivor}
use smartmonitor.Service.Threads.{
  Log, record_write, attempts, written_bytes, is_in_full, written, all_in_full, joined,
}

take_whole : (n : ℕ) (xs : Bytes) → n ≡ length xs → take n xs ≡ xs
take_whole zero [] h = refl
take_whole zero (x ∷ xs) h = absurd (omega arith)
take_whole (suc n) [] h = absurd (omega arith)
take_whole (suc n) (x ∷ xs) h = ap (λ r. x ∷ r) (take_whole n xs (omega arith))

pub attempts_last :
    (fd d : ℕ) (frame : Bytes) (r : Written) (log : Log)
    → attempts fd (log ++ ((d, (frame, r)) ∷ []))
      ≡ (if d == fd then attempts fd log ++ (frame ∷ []) else attempts fd log)
unfolding attempts
attempts_last fd d frame r [] = ground arith
attempts_last fd d frame r ((e, (f, q)) ∷ log) = ground (arith, attempts_last fd d frame r log)

written_bytes_lem :
    (frame : Bytes) (r : Written) → is_in_full frame r ≡ true → written_bytes frame r ≡ frame
unfolding written_bytes is_in_full
written_bytes_lem frame (wrote n) h = take_whole n frame ((==_iff n (length frame)).0 h)
written_bytes_lem frame (failed e) h = absurd (let z : false ≡ true = h in cc)

-- Without a write that failed or was short, the bytes are those of the messages.
pub written-attempts :
    (fd : ℕ) (log : Log) → all_in_full fd log ≡ true → written fd log ≡ joined (attempts fd log)
unfolding written attempts all_in_full joined
written-attempts fd [] h = refl
written-attempts fd ((d, (frame, r)) ∷ log) h = elim (Bool-cases (d == fd)) [
  | inr e ↦ rw (e) (written-attempts fd log (ground (arith, e, h)))
  | inl e ↦
      let f : is_in_full frame r ≡ true = ground (arith, e, h) in
      let g : all_in_full fd log ≡ true = ground (arith, e, h) in
      rw (e, written_bytes_lem frame r f, written-attempts fd log g) refl
]

-- Descriptors above one do not contain it.
has_above : (fd : ℕ) (xs : List ℕ) → All (λ x. fd < x) xs → has xs fd ≡ false
unfolding has
has_above fd [] a = refl
has_above fd (x ∷ xs) (p, a) = ground (arith, has_above fd xs a)

-- What holds with and without the client holds of those that are left.
survivor_ind :
    (Q : List ℕ → Type 0) (r : Written) (fd : ℕ) (rest : List ℕ)
    → Q (fd ∷ rest)
    → Q rest
    → Q (survivor r fd rest)
unfolding survivor
survivor_ind Q (wrote n) fd rest p q = p
survivor_ind Q (failed n) fd rest p q = q

module _ (epipe : ℕ) (outcome : ℕ → Written) where
  abbrev pub delivered : Bytes → List ℕ → Log → Log × List ℕ
  delivered = deliver Log epipe (record_write outcome)

  -- A message to all clients reaches each client once, and no one else.
  pub attempts-deliver :
      (frame : Bytes) (fds : List ℕ) (log : Log) (fd : ℕ)
      → IsAscending fds
      → attempts fd (delivered frame fds log).0
        ≡ (if has fds fd then attempts fd log ++ (frame ∷ []) else attempts fd log)
  unfolding deliver record_write has
  attempts-deliver frame [] log fd a = refl
  attempts-deliver frame (d ∷ fds) log fd (p, a) = ground (
    arith,
    attempts-deliver frame fds (log ++ ((d, (frame, outcome d)) ∷ [])) fd a,
    attempts_last fd d frame (outcome d) log,
    has_above d fds p,
  )

  pub All-delivered :
      (P : ℕ → Type 0) (frame : Bytes) (fds : List ℕ) (log : Log)
      → All P fds
      → All P (delivered frame fds log).1
  unfolding deliver record_write
  All-delivered P frame [] log a = tt
  All-delivered P frame (d ∷ fds) log (p, a) =
      let i = All-delivered P frame fds (log ++ ((d, (frame, outcome d)) ∷ [])) a in
      survivor_ind (All P) (outcome d) d
        (delivered frame fds (log ++ ((d, (frame, outcome d)) ∷ []))).1 (p, i) i

  pub delivered-IsAscending :
      (frame : Bytes) (fds : List ℕ) (log : Log)
      → IsAscending fds
      → IsAscending (delivered frame fds log).1
  unfolding deliver record_write
  delivered-IsAscending frame [] log a = tt
  delivered-IsAscending frame (d ∷ fds) log (p, a) =
      let l : Log = log ++ ((d, (frame, outcome d)) ∷ []) in
      let i = delivered-IsAscending frame fds l a in
      survivor_ind IsAscending (outcome d) d (delivered frame fds l).1
        (All-delivered (λ y. d < y) frame fds l p, i) i

  -- No client is added by sending.
  pub has-delivered :
      (frame : Bytes) (fds : List ℕ) (log : Log) (fd : ℕ)
      → has (delivered frame fds log).1 fd ≡ true
      → has fds fd ≡ true
  unfolding deliver record_write has
  has-delivered frame [] log fd h = h
  has-delivered frame (d ∷ fds) log fd h =
      let l : Log = log ++ ((d, (frame, outcome d)) ∷ []) in
      let i = has-delivered frame fds l fd in
      survivor_ind (λ xs. has xs fd ≡ true → has (d ∷ fds) fd ≡ true) (outcome d) d
        (delivered frame fds l).1 (λ q. ground (arith, i)) (λ q. ground (arith, i q)) h
