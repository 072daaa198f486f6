-- ===== src/Connect.antt =====
-- Connecting to a server: `ConnectToSocketNonBlocking`, `SocketConnectThreadFunc`,
-- `InterruptableBlckngCnnctToSrvThrdFn` and `ConnectToServer` in
-- src/client/InterProcComm/BSDskt/SMARTmonUI_BSDskt.cpp, built for Linux with threads. What the socket
-- functions return is an input.
pub mod Outcome
use smartmonitor.Common.{
  ℕ, Bool, true, false, ◌&&◌, List, [], ◌∷◌, ◌++◌, Option, none, some, ◌==◌, if◌then◌else◌,
}

-- What is seen of the thread: calls of the user interface and of the system, oldest first.
pub data ConnectCall : Type 0 where
  set_non_blocking set_blocking start_cnt_down close_socket show_connected : ConnectCall
  after_connect_to_server : Option ℕ → ConnectCall

-- The `select` call: it fails, times out or reports ready descriptors.
pub data SelectResult : Type 0 where
  select_failed timed_out ready : SelectResult

-- What the calls return. `connect_succeeds` is `connect` = 0, `in_progress`
-- `isNonBlckngCnnctRtrnCode()`.
pub record SocketInput : Type 0 where
  pub connect_succeeds : Bool
  pub in_progress : Bool
  pub select_result : SelectResult
  pub is_connected : Bool  -- NonBlckingIsCnnctd
  pub so_error : ℕ  -- getSocketError behind it
  pub getpeername_errno : ℕ
  pub errno : ℕ  -- behind the failing call
  pub etimedout : ℕ

-- The error number; `none` is the -1 that it begins with.
abbrev pub ErrNo : Type 0
ErrNo = Option ℕ

-- the branches behind `select`
unfoldable pub after_select : SocketInput → ErrNo × List ConnectCall
after_select s = elim (s.select_result) [
  | ready ↦
      if s.is_connected && (s.so_error == 0)
      then (some 0, set_blocking ∷ [])
      else (some (if s.so_error == 0 then s.getpeername_errno else s.errno), close_socket ∷ [])
  | timed_out ↦ (some s.etimedout, close_socket ∷ [])
  | select_failed ↦ (some s.errno, [])
]

-- `ConnectToSocketNonBlocking`: its parameter `errNo`, which alone is read afterwards, and the calls
unfoldable pub connect_to_socket_non_blocking : SocketInput → ErrNo × List ConnectCall
unfolding after_select
connect_to_socket_non_blocking s =
    let (err_no, calls) = after_select s in
    if s.connect_succeeds
    then (none, set_non_blocking ∷ [])
    else if s.in_progress
    then (err_no, set_non_blocking ∷ start_cnt_down ∷ calls)
    else (none, set_non_blocking ∷ [])

-- `errNo != 0`
unfoldable pub is_error : ErrNo → Bool
is_error none = true
is_error (some n) = if n == 0 then false else true

-- `SocketConnectThreadFunc`
unfoldable pub socket_connect_thread_func : SocketInput → List ConnectCall
unfolding connect_to_socket_non_blocking is_error
socket_connect_thread_func s =
    let (err_no, calls) = connect_to_socket_non_blocking s in
    calls
    ++ ((if is_error err_no then close_socket ∷ [] else show_connected ∷ [])
        ++ (after_connect_to_server err_no ∷ []))

-- `InterruptableBlckngCnnctToSrvThrdFn`: the error number is handed over whether or not the call
-- failed
unfoldable pub interruptable_blckng_cnnct_to_srv_thrd_fn : SocketInput → List ConnectCall
interruptable_blckng_cnnct_to_srv_thrd_fn s =
    start_cnt_down ∷ after_connect_to_server (some s.errno) ∷ []
