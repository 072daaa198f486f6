-- ===== src/Service/Program.antt =====
-- The program of the service: `BindAndListenToSocket`, `ClientConnThreadFunc`,
-- `AfterGetSMARTvaluesLoop` and `EndUpdateSMARTvaluesThread` in src/service/SMARTmonitorService.cpp,
-- `End`, `signal_handler` and `main` in src/service/service_main.cpp. What the system returns is an
-- input.
pub mod Sockets
pub mod Ending
use smartmonitor.Common.{
  ℕ, Bool, true, false, List, [], ◌∷◌, ◌++◌, Option, none, some, ◌>>=◌, ltb, ◌==◌, if◌then◌else◌,
  Bytes, codes,
}
use smartmonitor.DataCarrier.{UniqueId}
use smartmonitor.Clients.{
  Written, add_client, remove_file_descs_of_broken_socket_conns, close_all_client_sockets,
}
use smartmonitor.ConfigFiles.{InitSmartRetCode, success, rethrown}
use smartmonitor.AttrDefs.{start_async_update_thread}
use smartmonitor.Service.{Carrier, send_supported_smart_ids_to_client}

-- `enum BindAndListenRetCode`
pub data BindAndListenRetCode : Type 0 where
  listening_to_socket unset failed_to_bind_to_socket failed_to_listen_to_socket :
      BindAndListenRetCode

-- `BindAndListenToSocket`, with the messages that are shown. `bound` is `initSrv` = `boundToSocket`,
-- `listens` is `listen` = 0; `strerror` gives `none` for its null pointer.
unfoldable pub bind_and_listen_to_socket :
    (ℕ → Option Bytes) → Bool → ℕ → Bool → BindAndListenRetCode × List Bytes
bind_and_listen_to_socket strerror bound errno listens =
    let reason : Bytes =
      if errno == 0 then [] else elim (strerror errno) [ none ↦ [] | some text ↦ text ] in
    if bound then (if listens then listening_to_socket else failed_to_listen_to_socket, []) else (
      failed_to_bind_to_socket,
      (codes "Failed to bind server" ++ (reason ++ codes "->exiting")) ∷ [],
    )

-- What `accept` returns.
pub data Accept : Type 0 where
  client : ℕ → Accept
  rejected : ℕ → Accept

-- A round of the `do` loop: what `accept` returns, the clients whose connection the other thread has
-- found broken since the last one, and `s_updateSMARTvalues` at its end.
pub record Round : Type 0 where
  pub accept : Accept
  pub broken : List ℕ
  pub goes_on : Bool

module _ (World : Type 0) (epipe : ℕ) (write : World → ℕ → Bytes → World × Written)
    (close : World → ℕ → World) (device_path : UniqueId → Option Bytes)
    (supported_ids : Bytes → List ℕ) (carriers : List Carrier) where
  -- the body of the loop
  unfoldable pub accept_client : Accept → List ℕ → World → Option (World × List ℕ)
  accept_client (rejected errno) clients w = some (w, clients)
  accept_client (client fd) clients w =
      send_supported_smart_ids_to_client World epipe write device_path supported_ids carriers fd w
      >>= λ v. some (v, add_client fd clients)

  -- the loop; `none`: the rounds are used up and it still runs
  unfoldable pub accept_loop : List Round → List ℕ → World → Option (World × List ℕ)
  accept_loop [] clients w = none
  accept_loop (r ∷ rounds) clients w =
      accept_client r.accept (remove_file_descs_of_broken_socket_conns r.broken clients) w
      >>= λ (p : World × List ℕ). elim (r.goes_on) [
        | true ↦ accept_loop rounds p.1 p.0
        | false ↦ some p
      ]

  -- `ClientConnThreadFunc`
  unfoldable pub client_conn_thread_func : List Round → List ℕ → World → Option (World × List ℕ)
  client_conn_thread_func rounds clients w =
      accept_loop rounds clients w >>= λ (p : World × List ℕ).
      some (close_all_client_sockets World epipe write close p.1 p.0, p.1)

-- What the program does, oldest first.
pub data MainCall : Type 0 where
  output_usage : MainCall
  start_thread : Bool → MainCall
  client_conn : MainCall

-- What the calls of `main` return.
pub record MainInput : Type 0 where
  pub argument_count : ℕ
  pub command_line_result : ℕ
  pub initialize_logger : Bool
  pub initialize_smart : InitSmartRetCode
  pub bind_and_listen : BindAndListenRetCode
  pub ids_to_observe : List ℕ

unfoldable pub is_listening : BindAndListenRetCode → Bool
is_listening c = elim c [ listening_to_socket ↦ true | _ ↦ false ]

-- `main`: the exit code and the calls; `none`: an exception of `InitializeSMART` ends the program.
unfoldable pub main : MainInput → Option (ℕ × List MainCall)
main i =
    let usage : List MainCall = if ltb i.argument_count 2 then output_usage ∷ [] else [] in
    let runs : List MainCall =
      usage ++ (start_thread (start_async_update_thread i.ids_to_observe) ∷ client_conn ∷ []) in
    if i.command_line_result == 0
    then (if i.initialize_logger
        then elim (i.initialize_smart) [
          | success ↦ some (0, if is_listening i.bind_and_listen then runs else usage)
          | rethrown ↦ none
          | _ ↦ some (0, usage)
        ]
        else some (2, usage))
    else some (1, usage)

-- The signals that `signal_handler` tells apart.
pub data Signal : Type 0 where
  sigalrm sigpipe sigchld sigterm sigkill sigint other : Signal

-- What it does: `End` with the name, which signals the condition and clears the flag; `exit`; or
-- nothing but logging.
pub data Reaction : Type 0 where
  end_service : Bytes → Reaction
  exit_failure ignored : Reaction

unfoldable pub signal_handler : Signal → Reaction
signal_handler sigalrm = exit_failure
signal_handler sigpipe = ignored
signal_handler sigchld = exit_failure
signal_handler sigterm = end_service (codes "term")
signal_handler sigkill = end_service (codes "kill")
signal_handler sigint = end_service (codes "interrupt")
signal_handler other = ignored
