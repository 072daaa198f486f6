-- ===== src/Wire/Frame.antt =====
-- What the client receives of what the service sends.
use mathlib.Core.Path.{subst}
use native.Mathlib.Nat.{lt_of_le_of_lt}
use smartmonitor.Common.{
  ℕ, zero, suc, ◌+◌, ◌/◌, ◌%◌, ◌-◌, ◌≤◌, ◌<◌, ◌≡◌, refl, sym, ap, ◌∙◌, false, List, [], ◌∷◌, ◌++◌,
  Option, some, ltb, Bytes, length, take, drop, All, take-length_append, drop-length_append,
  append_assoc, arith, ◌>>=◌, ge→ltb, lt→ltb, map, Option-cases, inl, inr,
}
use smartmonitor.Wire.{
  htons, ntohs, num_overall_bytes, byte_array_from_string, Reply, successfull,
  read_less_bytes_than_intended, read_num_following_bytes, read_data, read_message,
  get_smart_attr_vals_from_srv,
}

-- The texts for which a message can be built and counted in 16 bits.
abbrev pub Fits : Bytes → Type 0
Fits text = (1 ≤ length text) × (length text ≤ 65533)

length-take : {A : Type 0} (n : ℕ) (xs : List A) → n ≤ length xs → length (take n xs) ≡ n
length-take zero xs h = refl
length-take (suc n) [] h = absurd (omega arith)
length-take (suc n) (x ∷ xs) h = ap suc (length-take n xs (omega arith))

take_all_lem : {A : Type 0} (n : ℕ) (xs : List A) → n ≡ length xs → take n xs ≡ xs
take_all_lem zero [] h = refl
take_all_lem zero (x ∷ xs) h = absurd (omega arith)
take_all_lem (suc n) [] h = absurd (omega arith)
take_all_lem (suc n) (x ∷ xs) h = ap (λ r. x ∷ r) (take_all_lem n xs (omega arith))

ntohs-htons : (n : ℕ) (rest : Bytes) → n < 65536 → ntohs (htons n ++ rest) ≡ n
unfolding ntohs htons
ntohs-htons n rest h = omega arith

pub byte_array-Fits :
    (text : Bytes) → Fits text → byte_array_from_string text ≡ some (htons (length text) ++ text)
unfolding byte_array_from_string num_overall_bytes
byte_array-Fits text (lo, hi) =
    let n : (length text + 2) % 65536 ≡ length text + 2 = omega arith in
    let m : length text % 65536 ≡ length text = omega arith in
    let t : take (length text + 2 - 2) text ≡ text =
      take_all_lem (length text + 2 - 2) text (omega arith) in
    rw (n, m, t) (ground arith)

-- `pending` are the bytes in the receive buffer of the socket; nothing else arrives between the reads. A
-- read of `n` bytes gives those of them that are there, fewer if fewer are there, and leaves the rest.
pub record Stream (World : Type 0) (read : World → ℕ → World × Bytes) (pending : World → Bytes)
    : Type 0 where
  pub delivered : (w : World) (n : ℕ) → (read w n).1 ≡ take n (pending w)
  pub left : (w : World) (n : ℕ) → pending (read w n).0 ≡ drop n (pending w)

-- The bytes of several messages, one after another.
unfoldable pub sent : List Bytes → Option Bytes
sent [] = some []
sent (t ∷ ts) = byte_array_from_string t >>= λ f. sent ts >>= λ r. some (f ++ r)

htons-length : (n : ℕ) → length (htons n) ≡ 2
unfolding htons
htons-length n = refl

length-take_le : {A : Type 0} (n : ℕ) (xs : List A) → length (take n xs) ≤ length xs
length-take_le zero xs = omega arith
length-take_le (suc n) [] = omega arith
length-take_le (suc n) (x ∷ xs) = omega (arith, length-take_le n xs)

length-take_bound : {A : Type 0} (n : ℕ) (xs : List A) → length (take n xs) ≤ n
length-take_bound zero xs = omega arith
length-take_bound (suc n) [] = omega arith
length-take_bound (suc n) (x ∷ xs) = omega (arith, length-take_bound n xs)

module _ (World : Type 0) (read : World → ℕ → World × Bytes) where
  -- as many calls of `GetSMARTattrValsFromSrv`
  unfoldable pub receive : ℕ → World → World × List Reply
  receive zero w = (w, [])
  receive (suc n) w =
      let (v, r) = get_smart_attr_vals_from_srv World read w in
      let (x, rs) = receive n v in (x, r ∷ rs)

  module _ (pending : World → Bytes) (stream : Stream World read pending) where
    -- the first two bytes of a message
    header_lem :
        (w : World) (n : ℕ) (rest : Bytes)
        → n < 65536
        → pending w ≡ htons n ++ rest
        → ((read_num_following_bytes World read w).1 ≡ some n)
          × (pending (read_num_following_bytes World read w).0 ≡ rest)
    unfolding read_num_following_bytes htons ntohs
    header_lem w n rest h e =
        let d : (read w 2).1 ≡ (n / 256) ∷ (n % 256) ∷ [] = rw (stream.delivered w 2, e) refl in
        let l : pending (read w 2).0 ≡ rest = rw (stream.left w 2, e) refl in
        (rw d (ap some (omega arith)), l)

    data_lem :
        (short : Reply) (w : World) (text rest : Bytes)
        → pending w ≡ text ++ rest
        → ((read_data World read short w (length text)).1 ≡ successfull text)
          × (pending (read_data World read short w (length text)).0 ≡ rest)
    unfolding read_data
    data_lem short w text rest e =
        let d : (read w (length text)).1 ≡ text =
          stream.delivered w (length text)
          ∙ (ap (take (length text)) e ∙ take-length_append text rest) in
        let l : pending (read w (length text)).0 ≡ rest =
          stream.left w (length text)
          ∙ (ap (drop (length text)) e ∙ drop-length_append text rest) in
        (rw d (ground arith), l)

    pub message_lem :
        (short : Reply) (w : World) (text rest : Bytes)
        → Fits text
        → pending w ≡ htons (length text) ++ (text ++ rest)
        → ((read_message World read short w).1 ≡ successfull text)
          × (pending (read_message World read short w).0 ≡ rest)
    unfolding read_message
    message_lem short w text rest (lo, hi) e =
        let h = header_lem w (length text) (text ++ rest) (omega arith) e in
        let d = data_lem short (read_num_following_bytes World read w).0 text rest h.1 in
        let b : ltb (length text) 1 ≡ false = ge→ltb (length text) 1 lo in
        rw (read_message, h.0, b) d

    -- When texts of 1 to 65533 bytes are sent one after another, and all their bytes are in the receive
    -- buffer before the client reads, so that no read is short, as many calls of the client's
    -- `GetSMARTattrValsFromSrv` receive exactly these texts, in this order, and leave what follows.
    pub messages_arrive :
        (texts : List Bytes) (w : World) (stream_bytes rest : Bytes)
        → All Fits texts
        → sent texts ≡ some stream_bytes
        → pending w ≡ stream_bytes ++ rest
        → ((receive (length texts) w).1 ≡ map successfull texts)
          × (pending (receive (length texts) w).0 ≡ rest)
    unfolding receive sent get_smart_attr_vals_from_srv
    messages_arrive [] w b rest f s e = ground arith
    messages_arrive (t ∷ ts) w b rest (f, fs) s e = elim (Option-cases (sent ts)) [
      | inl q ↦ cc (byte_array-Fits t f)
      | inr (r, q) ↦
          let split : some ((htons (length t) ++ t) ++ r) ≡ some b =
            subst (λ o. (o >>= λ x. some ((htons (length t) ++ t) ++ x)) ≡ some b) q
              (subst (λ o. (o >>= λ x. sent ts >>= λ y. some (x ++ y)) ≡ some b)
                (byte_array-Fits t f) s) in
          let bytes : (htons (length t) ++ t) ++ r ≡ b = cc in
          let whole : pending w ≡ htons (length t) ++ (t ++ (r ++ rest)) =
            e ∙ (ap (λ x. x ++ rest) (sym bytes) ∙ simp append_assoc) in
          let m = message_lem read_less_bytes_than_intended w t (r ++ rest) f whole in
          let i =
            messages_arrive ts (get_smart_attr_vals_from_srv World read w).0 r rest fs q m.1 in
          (rw (m.0, i.0) refl, i.1)
    ]

    -- a header of which fewer than two bytes are there
    short_header_lem :
        (w : World) (m : ℕ) (frame : Bytes)
        → m < 2
        → pending w ≡ take m frame
        → (get_smart_attr_vals_from_srv World read w).1 ≡ read_less_bytes_than_intended
    unfolding get_smart_attr_vals_from_srv read_message read_num_following_bytes
    short_header_lem w m frame h e =
        let d : (read w 2).1 ≡ take 2 (take m frame) = rw (stream.delivered w 2, e) refl in
        let l : length (read w 2).1 < 2 = rw d (
          lt_of_le_of_lt (length-take_le 2 (take m frame))
            (lt_of_le_of_lt (length-take_bound m frame) h)) in
        rw (read_message, read_num_following_bytes, lt→ltb (length (read w 2).1) 2 l) refl

    short_data_lem :
        (w : World) (text : Bytes) (k : ℕ)
        → Fits text
        → k < length text
        → pending w ≡ htons (length text) ++ take k text
        → (get_smart_attr_vals_from_srv World read w).1 ≡ read_less_bytes_than_intended
    unfolding get_smart_attr_vals_from_srv read_data read_message
    short_data_lem w text k (lo, hi) lt e =
        let n : ℕ = length text in
        let h = header_lem w n (take k text) (omega arith) e in
        let v : World = (read_num_following_bytes World read w).0 in
        let b : ltb n 1 ≡ false = ge→ltb n 1 lo in
        let d : (read v n).1 ≡ take n (take k text) = stream.delivered v n ∙ ap (take n) h.1 in
        let l : length (read v n).1 < n = rw d (
          lt_of_le_of_lt (length-take_le n (take k text))
            (lt_of_le_of_lt (length-take_bound k text) lt)) in
        rw (read_message, h.0, b, lt→ltb (length (read v n).1) n l) refl

    -- Of a message of a text of 1 to 65533 bytes of which the socket delivers only a proper
    -- beginning, `GetSMARTattrValsFromSrv` processes nothing and reports the error.
    pub beginning_rejected :
        (text : Bytes) (m : ℕ) (w : World) (frame : Bytes)
        → Fits text
        → byte_array_from_string text ≡ some frame
        → m < length frame
        → pending w ≡ take m frame
        → (get_smart_attr_vals_from_srv World read w).1 ≡ read_less_bytes_than_intended
    unfolding htons
    beginning_rejected text zero w frame f b lt e = short_header_lem w 0 frame (omega arith) e
    beginning_rejected text (suc zero) w frame f b lt e = short_header_lem w 1 frame (omega arith) e
    beginning_rejected text (suc (suc k)) w frame f b lt e =
        let p : htons (length text) ++ text ≡ frame = cc (byte_array-Fits text f) in
        short_data_lem w text k f
          (subst (λ x. suc (suc k) < length x → k < length text) p (λ h. omega arith) lt)
          (e ∙ ap (take (suc (suc k))) (sym p))

-- A text of 65536 + k bytes (1 ≤ k ≤ 65533) is sent as its first k bytes, announced as k bytes.
pub long_text_cut :
    (text : Bytes) (k : ℕ)
    → 1 ≤ k
    → k ≤ 65533
    → length text ≡ 65536 + k
    → byte_array_from_string text ≡ byte_array_from_string (take k text)
unfolding byte_array_from_string num_overall_bytes
long_text_cut text k lo hi e =
    let l : length (take k text) ≡ k = length-take k text (omega arith) in
    let n : (length text + 2) % 65536 ≡ k + 2 = omega arith in
    let c : length text % 65536 ≡ k = omega arith in
    let m : k % 65536 ≡ k = omega arith in
    let p : (k + 2) % 65536 ≡ k + 2 = omega arith in
    let t : take (k + 2 - 2) text ≡ take k text = ap (λ x. take x text) (omega arith) in
    let tt' : take (k + 2 - 2) (take k text) ≡ take k text =
      take_all_lem (k + 2 - 2) (take k text) (omega arith) in
    rw (n, c, l, p, m, t, tt') refl
