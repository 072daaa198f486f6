-- ===== src/Connect/Outcome.antt =====
-- When a connection counts as made, and how often its socket is closed.
use smartmonitor.Common.{
  ℕ, ◌+◌, ◌≡◌, ◌≢◌, Bool, true, false, not, ◌&&◌, ◌||◌, List, [], ◌∷◌, arith, ◌==◌, if◌then◌else◌,
}
use smartmonitor.Connect.{
  ConnectCall, set_non_blocking, set_blocking, start_cnt_down, close_socket, show_connected,
  after_connect_to_server, SelectResult, select_failed, timed_out, ready, SocketInput, after_select,
  connect_to_socket_non_blocking, is_error, socket_connect_thread_func,
}

unfoldable pub closes : List ConnectCall → ℕ
closes [] = 0
closes (close_socket ∷ calls) = closes calls + 1
closes (set_non_blocking ∷ calls) = closes calls
closes (set_blocking ∷ calls) = closes calls
closes (start_cnt_down ∷ calls) = closes calls
closes (show_connected ∷ calls) = closes calls
closes (after_connect_to_server e ∷ calls) = closes calls

unfoldable pub shows_connected : List ConnectCall → Bool
shows_connected [] = false
shows_connected (show_connected ∷ calls) = true
shows_connected (set_non_blocking ∷ calls) = shows_connected calls
shows_connected (set_blocking ∷ calls) = shows_connected calls
shows_connected (start_cnt_down ∷ calls) = shows_connected calls
shows_connected (close_socket ∷ calls) = shows_connected calls
shows_connected (after_connect_to_server e ∷ calls) = shows_connected calls

abbrev pub is_ready : SelectResult → Bool
is_ready select_failed = false
is_ready timed_out = false
is_ready ready = true

abbrev pub is_timed_out : SelectResult → Bool
is_timed_out select_failed = false
is_timed_out timed_out = true
is_timed_out ready = false

-- the connection is made while it is waited for
abbrev pub made : SocketInput → Bool
made s =
    not s.connect_succeeds
    && (s.in_progress && (is_ready s.select_result && (s.is_connected && (s.so_error == 0))))

-- the socket is closed by the function that connects
abbrev pub closed_before : SocketInput → Bool
closed_before s =
    not s.connect_succeeds
    && (s.in_progress
        && ((is_timed_out s.select_result)
            || (is_ready s.select_result && not (s.is_connected && (s.so_error == 0)))))

-- As long as failing calls leave an error number other than 0: a connection is reported exactly if it
-- is made while it is waited for, and then its socket stays open. Else the socket is closed, and
-- twice if the function that connects has closed it before. A call of `connect` that succeeds at
-- once is none of these: its socket is closed and no connection reported.
pub connection_outcome :
    (s : SocketInput)
    → s.errno ≢ 0
    → s.getpeername_errno ≢ 0
    → s.etimedout ≢ 0
    → (shows_connected (socket_connect_thread_func s) ≡ made s)
      × (closes (socket_connect_thread_func s)
          ≡ (if made s then 0 else if closed_before s then 2 else 1))
unfolding socket_connect_thread_func shows_connected closes connect_to_socket_non_blocking
    after_select is_error
connection_outcome s h k l = ground arith
