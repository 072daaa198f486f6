-- ===== src/Service/Threads.antt =====
-- The two threads of the service: `ClientConnThreadFunc` greets and adds the clients one after another
-- while the update thread calls `SendBytesToAllClients` (src/service/SMARTmonitorService.cpp). A step is
-- one write of the first thread or one whole call of the second, whose critical section also
-- excludes `AddClient`. Which clients connect, what is sent and which writes fail is left open.
pub mod Log
pub mod Sound
pub mod Complete
use smartmonitor.Common.{
  ℕ, ◌≡◌, Bool, true, false, ◌&&◌, take, length, List, [], ◌∷◌, ◌++◌, Option, none, some, ◌>>=◌,
  ◌==◌, if◌then◌else◌, Bytes,
}
use smartmonitor.Common.Sets.{has}
use smartmonitor.Wire.{byte_array_from_string}
use smartmonitor.Clients.{
  Written, wrote, failed, SocketSendReturnCodes, add_client, send_bytes_to_1_client,
  send_bytes_to_all_clients,
}

-- The calls of `write`, oldest first: the descriptor, the message and what the call returned.
abbrev pub Log : Type 0
Log = List (ℕ × (Bytes × Written))

-- A call that is noted down; `outcome` says what it returns for each descriptor.
unfoldable pub record_write : (ℕ → Written) → Log → ℕ → Bytes → Log × Written
record_write outcome log fd frame = (log ++ ((fd, (frame, outcome fd)) ∷ []), outcome fd)

-- Where the accepting thread stands: in `accept`, or with messages left to be sent to a new client.
pub data Accepting : Type 0 where
  waiting : Accepting
  greeting : ℕ → List Bytes → Accepting

pub record ServiceState : Type 0 where
  pub clients : List ℕ  -- m_clientSocketFileDescSet
  pub opened : List ℕ  -- the descriptors that `accept` has returned
  pub log : Log
  pub broadcasts : List Bytes  -- what was sent to all clients, oldest first
  pub accepting : Accepting

abbrev pub initial_state : ServiceState
initial_state = record { clients = []; opened = []; log = []; broadcasts = []; accepting = waiting }

-- `hello` are the messages of `SendSupportedSMART_IDsToClient`. The service closes no descriptor while
-- its loop runs, so `accept` returns a new one.
pub data Step (epipe : ℕ) (hello : List Bytes) (s : ServiceState) : ServiceState → Type 0 where
  accepted :
      (fd : ℕ)
      → s.accepting ≡ waiting
      → has s.opened fd ≡ false
      → Step epipe hello s (record s { opened = fd ∷ s.opened; accepting = greeting fd hello })
  greeted :
      (fd : ℕ) (text : Bytes) (texts : List Bytes) (outcome : ℕ → Written) (log : Log)
      (code : SocketSendReturnCodes)
      → s.accepting ≡ greeting fd (text ∷ texts)
      → send_bytes_to_1_client Log epipe (record_write outcome) fd text s.log ≡ some (log, code)
      → Step epipe hello s (record s { log = log; accepting = greeting fd texts })
  added :
      (fd : ℕ)
      → s.accepting ≡ greeting fd []
      → Step epipe hello s (record s { clients = add_client fd s.clients; accepting = waiting })
  updated :
      (text frame : Bytes) (outcome : ℕ → Written) (log : Log) (left : List ℕ)
      → byte_array_from_string text ≡ some frame
      → send_bytes_to_all_clients Log epipe (record_write outcome) text s.clients s.log
        ≡ some (log, left)
      → Step epipe hello s
          (record s { log = log; clients = left; broadcasts = s.broadcasts ++ (frame ∷ []) })

pub data Reach (epipe : ℕ) (hello : List Bytes) : ServiceState → Type 0 where
  start : Reach epipe hello initial_state
  next : {s t : ServiceState} → Reach epipe hello s → Step epipe hello s t → Reach epipe hello t

-- the messages that were handed to `write` for one client, written or not
unfoldable pub attempts : ℕ → Log → List Bytes
attempts fd [] = []
attempts fd ((d, (frame, r)) ∷ log) =
    let rest = attempts fd log in if d == fd then frame ∷ rest else rest

-- the bytes that a call of `write` puts on the socket
unfoldable pub written_bytes : Bytes → Written → Bytes
written_bytes frame (wrote n) = take n frame
written_bytes frame (failed errno) = []

unfoldable pub is_in_full : Bytes → Written → Bool
is_in_full frame (wrote n) = n == length frame
is_in_full frame (failed errno) = false

-- all bytes on the socket of one client, and whether no call failed or wrote less than its message
unfoldable pub written : ℕ → Log → Bytes
unfolding written_bytes
written fd [] = []
written fd ((d, (frame, r)) ∷ log) =
    let rest = written fd log in if d == fd then written_bytes frame r ++ rest else rest

unfoldable pub all_in_full : ℕ → Log → Bool
unfolding is_in_full
all_in_full fd [] = true
all_in_full fd ((d, (frame, r)) ∷ log) =
    let rest = all_in_full fd log in if d == fd then is_in_full frame r && rest else rest

-- messages as one stream of bytes
unfoldable pub joined : List Bytes → Bytes
joined [] = []
joined (f ∷ fs) = f ++ joined fs

-- several texts as messages
unfoldable pub frames : List Bytes → Option (List Bytes)
frames [] = some []
frames (t ∷ ts) = byte_array_from_string t >>= λ f. frames ts >>= λ fs. some (f ∷ fs)
