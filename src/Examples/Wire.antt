-- ===== src/Examples/Wire.antt =====
-- Messages over a socket that holds the bytes still to be read, and over one whose writes fail for
-- the odd descriptors.
use smartmonitor.Common.{
  ℕ, zero, suc, ap, ◌%◌, ◌≡◌, refl, List, [], ◌∷◌, ◌++◌, some, map, arith, Bytes, codes, take, drop,
  length, ◌==◌, if◌then◌else◌, replicate,
}
use smartmonitor.Wire.{
  byte_array_from_string, num_overall_bytes, htons, successfull, read_less_bytes_than_intended,
  get_smart_attr_vals_from_srv,
}
use smartmonitor.Wire.Frame.{Stream, sent, receive, messages_arrive, beginning_rejected}
use smartmonitor.Clients.{Written, wrote, failed, send_bytes_to_all_clients}
use smartmonitor.Clients.Delivery.{deliver, send_bytes_to_all_clients_drops_broken}

abbrev read_list : Bytes → ℕ → Bytes × Bytes
read_list w n = (drop n w, take n w)

list-Stream : Stream Bytes read_list (λ w. w)
list-Stream = record { delivered = λ w n. refl; left = λ w n. refl }

abbrev two_texts : List Bytes
two_texts = codes "<a/>" ∷ codes "<b/>" ∷ []

abbrev two_frames : Bytes
two_frames = (0 ∷ 4 ∷ codes "<a/>") ++ (0 ∷ 4 ∷ codes "<b/>")

messages_arrive_example :
    ((receive Bytes read_list 2 (two_frames ++ (0 ∷ []))).1 ≡ map successfull two_texts)
    × ((receive Bytes read_list 2 (two_frames ++ (0 ∷ []))).0 ≡ 0 ∷ [])
unfolding sent byte_array_from_string num_overall_bytes htons
messages_arrive_example =
    messages_arrive Bytes read_list (λ w. w) list-Stream two_texts (two_frames ++ (0 ∷ []))
      two_frames (0 ∷ []) (ground arith) refl refl

beginning_rejected_example :
    (get_smart_attr_vals_from_srv Bytes read_list (0 ∷ 4 ∷ codes "<a")).1
    ≡ read_less_bytes_than_intended
unfolding byte_array_from_string num_overall_bytes htons
beginning_rejected_example =
    beginning_rejected Bytes read_list (λ w. w) list-Stream (codes "<a/>") 4 (0 ∷ 4 ∷ codes "<a")
      (0 ∷ 4 ∷ codes "<a/>") (ground arith) refl (omega arith) refl

length-replicate : (n : ℕ) (b : ℕ) → length (replicate n b) ≡ n
length-replicate zero b = refl
length-replicate (suc n) b = ap suc (length-replicate n b)

abbrev write_log : List (ℕ × Bytes) → ℕ → Bytes → List (ℕ × Bytes) × Written
write_log w fd text = ((fd, text) ∷ w, if fd % 2 == 0 then wrote (length text) else failed 32)

send_bytes_to_all_clients_drops_broken_example :
    send_bytes_to_all_clients (List (ℕ × Bytes)) 32 write_log (codes "<a/>") (4 ∷ 5 ∷ 8 ∷ []) []
    ≡ some (deliver (List (ℕ × Bytes)) 32 write_log (0 ∷ 4 ∷ codes "<a/>") (4 ∷ 5 ∷ 8 ∷ []) [])
unfolding byte_array_from_string num_overall_bytes htons
send_bytes_to_all_clients_drops_broken_example =
    send_bytes_to_all_clients_drops_broken (List (ℕ × Bytes)) 32 write_log (codes "<a/>")
      (0 ∷ 4 ∷ codes "<a/>") (4 ∷ 5 ∷ 8 ∷ []) [] (ground arith) refl
