-- ===== src/Examples/Session.antt =====
-- A session with a server that delivers the bytes of a list, and connection attempts.
use smartmonitor.Common.{
  ◌+◌, false, ℕ, ◌+◌, ◌≡◌, true, false, List, [], ◌∷◌, arith, length, take, drop, if◌then◌else◌,
}
use smartmonitor.Session.{
  ThreadRun, cnnctd_to_srv, Client, ClientOps, get_smart_values_and_update_ui, update_thread,
}
use smartmonitor.Session.Ending.{closes, Begun, session_begins}
use smartmonitor.Connect.{SocketInput, ready, socket_connect_thread_func}
use smartmonitor.Connect.Outcome.{
  closes as connect_closes, shows_connected, made, closed_before, connection_outcome,
}

abbrev server : ClientOps (List ℕ) ℕ ℕ
server = record {
  read = λ w n. (drop n w, (take n w, 0));
  strerror = λ n. [];
  epipe = 32;
  socket_error = λ w. 0;
  errno = λ w. 0;
  fd = 3;
  no_supported = 0;
  no_values = 0;
  take_supported = λ text. length text;
  take_values = λ v text. v + length text;
  set_ids_to_read = λ v. v;
  ids_to_observe = λ v. v ∷ [];
}

-- two messages, of two bytes and of one
abbrev client : Client (List ℕ) ℕ ℕ
client = record {
  world = 0 ∷ 2 ∷ 7 ∷ 8 ∷ 0 ∷ 1 ∷ 9 ∷ [];
  connection_state = cnnctd_to_srv;
  supported = 0;
  values = 0;
  calls = [];
}

abbrev thread_run : ThreadRun (Client (List ℕ) ℕ ℕ)
thread_run =
    update_thread (List ℕ) ℕ ℕ server (length client.world + 1) (λ i. true) (λ i. true) 0 client

session_begins_example :
    Begun (List ℕ) ℕ ℕ server client (get_smart_values_and_update_ui (List ℕ) ℕ ℕ server client)
session_begins_example = session_begins (List ℕ) ℕ ℕ server client

abbrev refused : SocketInput
refused = record {
  connect_succeeds = false;
  in_progress = true;
  select_result = ready;
  is_connected = false;
  so_error = 111;
  getpeername_errno = 107;
  errno = 115;
  etimedout = 110;
}

connection_outcome_example :
    (shows_connected (socket_connect_thread_func refused) ≡ made refused)
    × (connect_closes (socket_connect_thread_func refused)
        ≡ (if made refused then 0 else if closed_before refused then 2 else 1))
connection_outcome_example =
    connection_outcome refused (λ e. omega arith) (λ e. omega arith) (λ e. omega arith)
