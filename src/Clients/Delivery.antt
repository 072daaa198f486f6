-- ===== src/Clients/Delivery.antt =====
-- The clients that remain connected, against a description that drops a client at once.
use smartmonitor.Common.{
  ℕ, ◌<◌, ◌≡◌, refl, ap, ◌∙◌, ◌||◌, List, [], ◌∷◌, ◌++◌, append_assoc, append-nil, some, ◌==◌,
  if◌then◌else◌, Bytes, All, arith,
}
use smartmonitor.Common.Sets.{IsAscending, has, erase, insert-IsAscending, has-insert, erase_self}
use smartmonitor.Wire.{byte_array_from_string}
use smartmonitor.Clients.{
  Written, wrote, failed, add_client, remove_file_descs_of_broken_socket_conns, send_result,
  is_successful, send_bytes_to_1_client, send_loop, send_bytes_to_all_clients,
}

-- Adding a client keeps the descriptors ascending without a double, and adds this one only.
pub add_client_lem :
    (fd : ℕ) (xs : List ℕ) (x : ℕ)
    → IsAscending xs
    → IsAscending (add_client fd xs) × (has (add_client fd xs) x ≡ ((fd == x) || has xs x))
unfolding add_client
add_client_lem fd xs x a = (insert-IsAscending fd xs a, has-insert fd xs x)

remove-cons :
    (fds xs : List ℕ) (x : ℕ)
    → All (λ y. x < y) fds
    → remove_file_descs_of_broken_socket_conns fds (x ∷ xs)
      ≡ x ∷ remove_file_descs_of_broken_socket_conns fds xs
unfolding remove_file_descs_of_broken_socket_conns erase
remove-cons [] xs x a = refl
remove-cons (fd ∷ fds) xs x (p, a) = ground (arith, remove-cons fds (erase fd xs) x a)

unfoldable pub survivor : Written → ℕ → List ℕ → List ℕ
survivor (wrote n) fd rest = fd ∷ rest
survivor (failed errno) fd rest = rest

loser : Written → ℕ → List ℕ → List ℕ
loser (wrote n) fd rest = rest
loser (failed errno) fd rest = fd ∷ rest

loser-All :
    (P : ℕ → Type 0) (r : Written) (fd : ℕ) (rest : List ℕ)
    → P fd
    → All P rest
    → All P (loser r fd rest)
unfolding loser
loser-All P (wrote n) fd rest p a = a
loser-All P (failed errno) fd rest p a = (p, a)

-- One client settled, the others removed.
remove-loser :
    (r : Written) (fd : ℕ) (fds rest left : List ℕ)
    → All (λ y. fd < y) rest
    → remove_file_descs_of_broken_socket_conns rest fds ≡ left
    → remove_file_descs_of_broken_socket_conns (loser r fd rest) (fd ∷ fds) ≡ survivor r fd left
unfolding loser survivor remove_file_descs_of_broken_socket_conns erase
remove-loser (wrote n) fd fds rest left p e = remove-cons rest fds fd p ∙ ap (λ r. fd ∷ r) e
remove-loser (failed errno) fd fds rest left p e =
    ap (remove_file_descs_of_broken_socket_conns rest) (erase_self fd fds) ∙ e

broken-loser :
    (epipe : ℕ) (r : Written) (fd : ℕ) (broken rest : List ℕ)
    → (if is_successful (send_result epipe r) then broken else broken ++ (fd ∷ [])) ++ rest
      ≡ broken ++ loser r fd rest
unfolding loser is_successful send_result
broken-loser epipe (wrote n) fd broken rest = refl
broken-loser epipe (failed errno) fd broken rest =
    ground (arith, append_assoc broken (fd ∷ []) rest)

module _ (World : Type 0) (epipe : ℕ) (write : World → ℕ → Bytes → World × Written) where
  -- Every client gets the frame, in ascending order. One whose write fails is no client any more.
  unfoldable pub deliver : Bytes → List ℕ → World → World × List ℕ
  deliver frame [] w = (w, [])
  deliver frame (fd ∷ fds) w =
      let (v, r) = write w fd frame in
      let (x, rest) = deliver frame fds v in (x, survivor r fd rest)

  -- the world afterwards, and the clients whose write fails
  failures : Bytes → List ℕ → World → World × List ℕ
  failures frame [] w = (w, [])
  failures frame (fd ∷ fds) w =
      let (v, r) = write w fd frame in let (x, rest) = failures frame fds v in (x, loser r fd rest)

  failures-All :
      (P : ℕ → Type 0) (frame : Bytes) (fds : List ℕ) (w : World)
      → All P fds
      → All P (failures frame fds w).1
  unfolding failures
  failures-All P frame [] w a = tt
  failures-All P frame (fd ∷ fds) w (p, a) =
      let v = (write w fd frame).0 in
      loser-All P (write w fd frame).1 fd (failures frame fds v).1 p (failures-All P frame fds v a)

  failures-deliver :
      (frame : Bytes) (fds : List ℕ) (w : World)
      → IsAscending fds
      → ((failures frame fds w).0 ≡ (deliver frame fds w).0)
        × (remove_file_descs_of_broken_socket_conns (failures frame fds w).1 fds
            ≡ (deliver frame fds w).1)
  unfolding failures deliver remove_file_descs_of_broken_socket_conns
  failures-deliver frame [] w a = (refl, refl)
  failures-deliver frame (fd ∷ fds) w (p, a) =
      let v = (write w fd frame).0 in
      let i = failures-deliver frame fds v a in
      (
        i.0,
        remove-loser (write w fd frame).1 fd fds (failures frame fds v).1 (deliver frame fds v).1
            (failures-All (λ y. fd < y) frame fds v p) i.1,
      )

  send_loop-failures :
      (text frame : Bytes) (fds broken : List ℕ) (w : World)
      → byte_array_from_string text ≡ some frame
      → send_loop World epipe write fds broken text w
        ≡ some ((failures frame fds w).0, broken ++ (failures frame fds w).1)
  unfolding send_loop send_bytes_to_1_client failures
  send_loop-failures text frame [] broken w e = rw (append-nil broken) refl
  send_loop-failures text frame (fd ∷ fds) broken w e =
      let (v, r) = write w fd frame in
      let next : List ℕ =
        if is_successful (send_result epipe (write w fd frame).1)
        then broken
        else broken ++ (fd ∷ []) in
      rw (send_loop, send_bytes_to_1_client, e)
        (send_loop-failures text frame fds next (write w fd frame).0 e
          ∙ ap (λ b. some ((failures frame fds (write w fd frame).0).0, b))
              (broken-loser epipe (write w fd frame).1 fd broken
                (failures frame fds (write w fd frame).0).1))

  -- With the clients in ascending order, `SendBytesToAllClients` sends the message to each of them
  -- in this order, and its clients afterwards are exactly those whose write did not fail.
  pub send_bytes_to_all_clients_drops_broken :
      (text frame : Bytes) (clients : List ℕ) (w : World)
      → IsAscending clients
      → byte_array_from_string text ≡ some frame
      → send_bytes_to_all_clients World epipe write text clients w ≡ some (deliver frame clients w)
  unfolding send_bytes_to_all_clients
  send_bytes_to_all_clients_drops_broken text frame clients w a e =
      let (x, y) = failures-deliver frame clients w a in
      rw (send_bytes_to_all_clients, send_loop-failures text frame clients [] w e, x, y) refl
