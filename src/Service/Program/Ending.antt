-- ===== src/Service/Program/Ending.antt =====
-- How the service ends: its two threads, the flag and the socket of the server.
use smartmonitor.Common.{ℕ, suc, ◌+◌, ◌≡◌, ◌≢◌, ◌⊎◌, inl, inr, refl, Bool, true, false}

-- The update thread: `UpdateSMARTattrValsThreadFunc`, to the end of `AfterGetSMARTvaluesLoop`. `raised`: it
-- has ended by the exception of the log file, in front of that function. `killed`: by `exit`.
pub data UpdateThread : Type 0 where
  not_started running ended raised killed : UpdateThread

-- The main thread in `ClientConnThreadFunc`: in `accept`, behind it, at the end, or gone by the `exit` in
-- `signal_handler`.
pub data MainThread : Type 0 where
  accepting behind_accept finished exited : MainThread

-- whether the main thread is still in `ClientConnThreadFunc`
unfoldable pub is_in_loop : MainThread → Bool
is_in_loop accepting = true
is_in_loop behind_accept = true
is_in_loop finished = false
is_in_loop exited = false

pub record EndState : Type 0 where
  pub updates : Bool  -- s_updateSMARTvalues
  pub socket_open : Bool  -- s_socketFileDesc
  pub update_thread : UpdateThread
  pub main_thread : MainThread

-- `EndUpdateSMARTvaluesThread`, as `End` calls it
unfoldable pub end_update_smart_values_thread : EndState → EndState
end_update_smart_values_thread t = record t { updates = false }

-- `shutdown` and `close` in `AfterGetSMARTvaluesLoop`, behind which the thread ends
unfoldable pub shutdown_and_close : EndState → EndState
shutdown_and_close t = record t { socket_open = false; update_thread = ended }

-- `exit` in `signal_handler`: the whole process ends
unfoldable pub exit_process : EndState → EndState
exit_process t = record t { socket_open = false; update_thread = killed; main_thread = exited }

pub data EndStep (t : EndState) : EndState → Type 0 where
  signalled :
      t.updates ≡ true
      → is_in_loop t.main_thread ≡ true
      → EndStep t (end_update_smart_values_thread t)
  -- SIGALRM or SIGCHLD
  exit_signalled : is_in_loop t.main_thread ≡ true → EndStep t (exit_process t)
  -- `LogFileAccessException` in the update thread
  log_failed : t.update_thread ≡ running → EndStep t (record t { update_thread = raised })
  -- the `do` loop of the update thread ends: a failed round, or the cleared flag
  update_failed : t.update_thread ≡ running → EndStep t (shutdown_and_close t)
  update_ended : t.update_thread ≡ running → t.updates ≡ false → EndStep t (shutdown_and_close t)
  connected :
      t.main_thread ≡ accepting
      → t.socket_open ≡ true
      → EndStep t (record t { main_thread = behind_accept })
  accept_failed :
      t.main_thread ≡ accepting
      → t.socket_open ≡ false
      → EndStep t (record t { main_thread = behind_accept })
  again :
      t.main_thread ≡ behind_accept
      → t.updates ≡ true
      → EndStep t (record t { main_thread = accepting })
  closes :
      t.main_thread ≡ behind_accept
      → t.updates ≡ false
      → EndStep t (record t { main_thread = finished })

-- so many steps
pub data EndSteps (s : EndState) : ℕ → EndState → Type 0 where
  none_yet : EndSteps s 0 s
  more : {n : ℕ} {t u : EndState} → EndSteps s n t → EndStep t u → EndSteps s (suc n) u

-- The state when `main` calls `ClientConnThreadFunc`.
abbrev pub begun : UpdateThread → EndState
begun thread = record {
  updates = true;
  socket_open = true;
  update_thread = thread;
  main_thread = accepting;
}

-- the steps that the threads have left once the flag is cleared
update_left : UpdateThread → ℕ
update_left not_started = 0
update_left running = 1
update_left ended = 0
update_left raised = 0
update_left killed = 0

main_left : MainThread → ℕ
main_left accepting = 2
main_left behind_accept = 1
main_left finished = 0
main_left exited = 0

left : EndState → ℕ
left t = update_left t.update_thread + main_left t.main_thread

-- the socket is open until the update thread has ended without an exception
is_open : UpdateThread → Bool
is_open not_started = true
is_open running = true
is_open ended = false
is_open raised = true
is_open killed = false

-- What every step keeps: the thread has been started, and the socket says whether it has ended. The
-- main thread is at its end only without the flag.
record IsCoupled (t : EndState) : Type 0 where
  started : t.update_thread ≢ not_started
  socket : t.socket_open ≡ is_open t.update_thread
  finished_lem : t.main_thread ≡ finished → t.updates ≡ false

-- The main thread waits in `accept`, and the update thread ended by an exception and left the socket
-- open: only a connection or a signal takes the service on.
abbrev pub IsStuck : EndState → Type 0
IsStuck t = (t.main_thread ≡ accepting) × (t.update_thread ≡ raised)

-- The main thread is at its end, the process has exited, or a thread can go on.
abbrev pub GoesOn : EndState → Type 0
GoesOn t =
    (t.main_thread ≡ finished)
    ⊎ ((t.main_thread ≡ exited) ⊎ (IsStuck t ⊎ ((u : EndState) × EndStep t u)))

-- A service whose update thread was never started waits in `accept` after the flag is cleared: only
-- a connection or an `exit` takes it on.
pub signal_without_thread :
    (u : EndState)
    → EndStep (record (begun not_started) { updates = false }) u
    → (u ≡ record (begun not_started) { updates = false; main_thread = behind_accept })
      ⊎ (u ≡ exit_process (record (begun not_started) { updates = false }))
signal_without_thread _ (signalled e g) = absurd (let z : false ≡ true = e in cc)
signal_without_thread _ (exit_signalled e) = inr refl
signal_without_thread _ (log_failed e) = absurd (let z : not_started ≡ running = e in cc)
signal_without_thread _ (update_failed e) = absurd (let z : not_started ≡ running = e in cc)
signal_without_thread _ (update_ended e g) = absurd (let z : not_started ≡ running = e in cc)
signal_without_thread _ (connected e g) = inl refl
signal_without_thread _ (accept_failed e g) = absurd (let z : true ≡ false = g in cc)
signal_without_thread _ (again e g) = absurd (let z : false ≡ true = g in cc)
signal_without_thread _ (closes e g) = absurd (let z : accepting ≡ behind_accept = e in cc)
