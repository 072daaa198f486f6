-- ===== src/Clients.antt =====
-- src/service/SMARTmonitorService.cpp: the set of connected clients and the sending to them. The
-- `std::set<int>` is the ascending list of its file descriptors, `write` of the system a parameter.
pub mod Delivery
use smartmonitor.Common.{
  ℕ, Bool, true, false, not, List, [], ◌∷◌, ◌++◌, Option, none, some, ltb, ◌==◌, if◌then◌else◌,
  Bytes,
}
use smartmonitor.Common.Sets.{insert, erase}
use smartmonitor.Wire.{byte_array_from_string}

-- What `write` returns: a number of bytes, or -1 with `errno`.
pub data Written : Type 0 where
  wrote : ℕ → Written
  failed : ℕ → Written

-- `enum SocketSendReturnCodes`
pub data SocketSendReturnCodes : Type 0 where
  successfully_wrote_all_bytes reading_end_of_socket_closed wrote_less_bytes_than_intended :
      SocketSendReturnCodes

-- `m_clientSocketFileDescSet.insert`
unfoldable pub add_client : ℕ → List ℕ → List ℕ
add_client fd clients = insert fd clients

-- `RemoveFileDescsOfBrokenSocketConns`
unfoldable pub remove_file_descs_of_broken_socket_conns : List ℕ → List ℕ → List ℕ
remove_file_descs_of_broken_socket_conns [] clients = clients
remove_file_descs_of_broken_socket_conns (fd ∷ fds) clients =
    remove_file_descs_of_broken_socket_conns fds (erase fd clients)

-- the `switch` on `errno`
unfoldable pub send_result : ℕ → Written → SocketSendReturnCodes
send_result epipe (wrote n) = successfully_wrote_all_bytes
send_result epipe (failed errno) =
    if errno == epipe then reading_end_of_socket_closed else wrote_less_bytes_than_intended

unfoldable pub is_successful : SocketSendReturnCodes → Bool
is_successful successfully_wrote_all_bytes = true
is_successful reading_end_of_socket_closed = false
is_successful wrote_less_bytes_than_intended = false

module _ (World : Type 0) (epipe : ℕ) (write : World → ℕ → Bytes → World × Written) where
  -- `none`: the message cannot be built
  unfoldable pub send_bytes_to_1_client : ℕ → Bytes → World → Option (World × SocketSendReturnCodes)
  send_bytes_to_1_client fd text w = elim (byte_array_from_string text) [
    | none ↦ none
    | some frame ↦ let (v, r) = write w fd frame in some (v, send_result epipe r)
  ]

  -- the loop over the clients; `broken` are those of `fileDescsToDelete` so far
  unfoldable pub send_loop : List ℕ → List ℕ → Bytes → World → Option (World × List ℕ)
  send_loop [] broken text w = some (w, broken)
  send_loop (fd ∷ fds) broken text w = elim (send_bytes_to_1_client fd text w) [
    | none ↦ none
    | some (v, r) ↦ send_loop fds (if is_successful r then broken else broken ++ (fd ∷ [])) text v
  ]

  -- `SendBytesToAllClients`: the set of clients afterwards
  unfoldable pub send_bytes_to_all_clients : Bytes → List ℕ → World → Option (World × List ℕ)
  send_bytes_to_all_clients text clients w = elim (send_loop clients [] text w) [
    | none ↦ none
    | some (v, broken) ↦ some (v, remove_file_descs_of_broken_socket_conns broken clients)
  ]

  -- `CloseAllClientSockets`: the set is not changed.
  unfoldable pub close_all_client_sockets : (World → ℕ → World) → List ℕ → World → World
  close_all_client_sockets close [] w = w
  close_all_client_sockets close (fd ∷ fds) w = close_all_client_sockets close fds (close w fd)
