-- ===== src/Session.antt =====
-- A client while it is connected to a server: `ReadNumFollowingBytes`, `GetSMARTattrValsFromSrv`,
-- `GetSupportedSMARTidsFromSrv`, `GetSMARTvaluesAndUpdateUI`, `AfterGetSMARTvaluesLoop` and
-- `HandleTransmissionError` in src/client/InterProcComm/BSDskt/SMARTmonUI_BSDskt.cpp, with the thread
-- of src/SMARTmonitorBase.cpp. What the socket delivers and the errors of the operating system are
-- parameters, and so is what the XML data is turned into.
pub mod Thread
pub mod Ending
use smartmonitor.Common.{
  ℕ, zero, suc, ◌+◌, Bool, true, false, List, [], ◌∷◌, ◌++◌, Option, none, some, ltb, ◌==◌,
  if◌then◌else◌, Bytes, codes, length,
}
use smartmonitor.Common.Decimal.{decimal}
use smartmonitor.Wire.{ntohs}
use smartmonitor.AttrDefs.{start_async_update_thread}

-- `serverConnectionState`, as far as it is set here
pub data ConnectionState : Type 0 where
  cnnctd_to_srv uncnnctd_to_srv : ConnectionState

-- `CurrentAction`, as far as it is set here
pub data CurrentAction : Type 0 where
  read_num_bytes_for_supp_smart_ids read_supp_smart_ids_xml_data : CurrentAction
  read_num_bytes_for_smart_data read_smart_values_xml_data : CurrentAction
  has_read_smart_values_xml_data : CurrentAction

-- `TransmissionError`
pub data TransmissionError : Type 0 where
  num_bytes_to_receive smart_data smart_parameter_values : TransmissionError

-- What the client does: closing the socket, starting the thread and the calls of the user interface.
-- The count down `none` is the argument -1.
pub data ClientCall : Type 0 where
  set_current_action : CurrentAction → ClientCall
  change_connection_state : ConnectionState → ClientCall
  show_error : Bytes → ClientCall
  show_success : Bytes → ClientCall
  start_cnt_down : Option ℕ → ClientCall
  close_socket : ClientCall
  rebuild_user_interface : ClientCall
  update_values_ui : ClientCall
  before_wait : ClientCall
  start_thread : ClientCall

-- `World` is the state of the socket, `Supported` and `Values` are both containers. The calls are newest
-- first. The time of the last update is left out.
pub record Client (World Supported Values : Type 0) : Type 0 where
  pub world : World
  pub connection_state : ConnectionState  -- m_serverConnectionState
  pub supported : Supported  -- dataCarrierIDandSMARTidsContainer
  pub values : Values  -- SMARTuniqueIDsAndValues
  pub calls : List ClientCall

-- `readFromSocket2`: the bytes and the error number; `strerror`; `getSocketError`; `errno`; the
-- file descriptor; what the data of both messages is turned into; the IDs to observe
pub record ClientOps (World Supported Values : Type 0) : Type 0 where
  pub read : World → ℕ → World × (Bytes × ℕ)
  pub strerror : ℕ → Bytes
  pub epipe : ℕ
  pub socket_error : World → ℕ
  pub errno : World → ℕ
  pub fd : ℕ
  pub no_supported : Supported
  pub no_values : Values
  pub take_supported : Bytes → Supported
  pub take_values : Values → Bytes → Values
  pub set_ids_to_read : Values → Values
  pub ids_to_observe : Values → List ℕ

-- What becomes of the thread: its state behind the loop, or in front of the round that it does not get
-- out of, or more rounds than there is fuel for.
pub data ThreadRun (S : Type 0) : Type 0 where
  left_loop stays_in_round : S → ThreadRun S
  out_of_rounds : ThreadRun S

module _ (World Supported Values : Type 0) (o : ClientOps World Supported Values) where
  abbrev pub State : Type 0
  State = Client World Supported Values

  abbrev pub add_call : ClientCall → State → State
  add_call a c = record c { calls = a ∷ c.calls }

  unfoldable pub transmission_error_text : TransmissionError → Bytes
  transmission_error_text num_bytes_to_receive =
      codes "ERROR reading the number of following bytes from socket"
  transmission_error_text smart_parameter_values =
      codes "ERROR reading SMART parameter values from socket"
  transmission_error_text smart_data = codes "ERROR reading SMART data from socket"

  -- the message of `HandleTransmissionError`
  unfoldable pub transmission_message : TransmissionError → ℕ → ℕ → ℕ → World → Bytes
  transmission_message kind got wanted rd_errno w =
      let reason =
        if rd_errno == o.epipe
        then codes "The reading end of socket is closed."
        else o.strerror rd_errno in
      transmission_error_text kind
      ++ codes " (read "
      ++ decimal got
      ++ codes " B instead of "
      ++ decimal wanted
      ++ codes " B)"
      ++ ((if rd_errno == 0
            then codes ".OS error number:" ++ decimal rd_errno
            else codes " for socket file descriptor #"
              ++ decimal o.fd
              ++ codes ":\n"
              ++ codes "OS error #:"
              ++ decimal (o.errno w)
              ++ codes "("
              ++ reason
              ++ codes ")")
          ++ (if o.socket_error w == 0
              then []
              else codes " socket error:" ++ decimal (o.socket_error w)))

  -- `HandleTransmissionError`
  unfoldable pub handle_transmission_error : TransmissionError → ℕ → ℕ → ℕ → State → State
  handle_transmission_error kind got wanted rd_errno c = add_call (start_cnt_down none) (
      add_call (change_connection_state uncnnctd_to_srv)
        (record (add_call (show_error (transmission_message kind got wanted rd_errno c.world)) c) {
          connection_state = uncnnctd_to_srv;
        }))

  -- `ReadNumFollowingBytes`; `none` is -1
  unfoldable pub read_num_following_bytes : State → State × Option ℕ
  unfolding handle_transmission_error
  read_num_following_bytes c =
      let (w, (header, rd_errno)) = o.read c.world 2 in
      let d = record c { world = w } in
      if ltb (length header) 2
      then (handle_transmission_error num_bytes_to_receive (length header) 2 rd_errno d, none)
      else (d, some (ntohs header))

  -- `if(numBytesToRead < 1)` in both functions
  unfoldable pub if_count : (State → ℕ → State × ℕ) → State × Option ℕ → State × ℕ
  if_count next (c, none) = (c, 1)
  if_count next (c, some n) = if n == 0 then (c, 1) else next c n

  -- the rest of `GetSMARTattrValsFromSrv`, once the number of bytes is known
  unfoldable pub read_values : State → ℕ → State × ℕ
  unfolding handle_transmission_error
  read_values c n =
      let (w, (text, rd_errno)) = o.read c.world n in
      let d =
        add_call (set_current_action has_read_smart_values_xml_data)
          (record (add_call (set_current_action read_smart_values_xml_data) c) { world = w }) in
      if ltb (length text) n
      then (handle_transmission_error smart_parameter_values (length text) n rd_errno d, 1)
      else (record d { values = o.take_values d.values text }, 0)

  -- `GetSMARTattrValsFromSrv`: `successfull` is 0, `readLessBytesThanIntended` 1
  unfoldable pub get_smart_attr_vals_from_srv : State → State × ℕ
  unfolding read_num_following_bytes read_values if_count
  get_smart_attr_vals_from_srv c =
      if_count read_values
        (read_num_following_bytes (add_call (set_current_action read_num_bytes_for_smart_data) c))

  -- the rest of `GetSupportedSMARTidsFromSrv`
  unfoldable pub read_supported : State → ℕ → State × ℕ
  unfolding handle_transmission_error
  read_supported c n =
      let text = codes "# of bytes for supported SMART IDs: " ++ decimal n in
      let (w, (xml, rd_errno)) = o.read c.world n in
      let d =
        record (add_call (set_current_action read_supp_smart_ids_xml_data)
          (add_call (show_success text) c)) { world = w } in
      if ltb (length xml) n
      then (handle_transmission_error smart_data (length xml) n rd_errno d, 2)
      else (record d { supported = o.take_supported xml }, 0)

  unfoldable pub get_supported_smart_ids_from_srv : State → State × ℕ
  unfolding read_num_following_bytes read_supported if_count
  get_supported_smart_ids_from_srv c = if_count read_supported (
      read_num_following_bytes (
        add_call (set_current_action read_num_bytes_for_supp_smart_ids)
          (record c { supported = o.no_supported })))

  -- closing the socket, and a count down of 60 seconds to the next attempt
  unfoldable pub give_up : State → State
  give_up c = add_call (start_cnt_down (some 60)) (add_call close_socket c)

  -- what follows the first values in `GetSMARTvaluesAndUpdateUI`
  unfoldable pub show_and_start : State → State
  show_and_start c =
      let d =
        add_call update_values_ui
          (add_call rebuild_user_interface (record c { values = o.set_ids_to_read c.values })) in
      if start_async_update_thread (o.ids_to_observe d.values) then add_call start_thread d else d

  -- `GetSMARTvaluesAndUpdateUI` without the check of a debug build
  unfoldable pub get_smart_values_and_update_ui : State → State
  unfolding give_up show_and_start get_supported_smart_ids_from_srv get_smart_attr_vals_from_srv
  get_smart_values_and_update_ui c =
      let begin =
        add_call (change_connection_state cnnctd_to_srv)
          (record c { values = o.no_values; connection_state = cnnctd_to_srv }) in
      let (d, code) = get_supported_smart_ids_from_srv begin in
      let (e, result) = get_smart_attr_vals_from_srv d in
      if ltb 0 code then give_up d else if result == 0 then show_and_start e else give_up e

  -- `AfterGetSMARTvaluesLoop`
  unfoldable pub after_get_smart_values_loop : ℕ → State → State
  after_get_smart_values_loop result c =
      let d = add_call close_socket c in
      if result == 0 then d else add_call (start_cnt_down (some 60)) d

  -- The loop of `UpdateSMARTattrValsThreadFunc` with `GetSMARTattrValsFromSrv`. `returns i` says whether the
  -- reads of the i-th round return: a read waits as long as nothing arrives and the connection stands.
  -- `flag i` is `s_updateSMARTvalues` as it is read the i-th time. The fuel is the number of rounds.
  unfoldable pub update_thread : ℕ → (ℕ → Bool) → (ℕ → Bool) → ℕ → State → ThreadRun State
  unfolding get_smart_attr_vals_from_srv after_get_smart_values_loop
  update_thread zero returns flag i c = out_of_rounds
  update_thread (suc fuel) returns flag i c =
      let (d, result) = get_smart_attr_vals_from_srv c in
      let shown = add_call before_wait d in
      let rest = update_thread fuel returns flag (i + 1) shown in
      if returns i
      then (if result == 0
          then (if flag i then rest else left_loop (after_get_smart_values_loop 0 shown))
          else left_loop (after_get_smart_values_loop result d))
      else stays_in_round c
