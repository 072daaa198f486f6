-- ===== src/Examples/Service.antt =====
-- Runs of the service: two data carriers, one client that connects, and the end by a signal.
use smartmonitor.Common.{
  ℕ, ◌≡◌, refl, true, false, List, [], ◌∷◌, ◌++◌, Option, some, Bytes, codes, arith, length, map,
  drop, take,
}
use smartmonitor.Common.Sets.{has, insert, erase}
use smartmonitor.DataCarrier.{UniqueId}
use smartmonitor.Attr.{is_consistent}
use smartmonitor.IdArray.{visit, smart_ids_to_read_not_end}
use smartmonitor.Common.Decimal.{decimal}
use smartmonitor.Entry.{print_smart_element, print_unit, print_bound}
use smartmonitor.Wire.{
  byte_array_from_string, num_overall_bytes, htons, get_supported_smart_ids_from_srv, successfull,
}
use smartmonitor.Wire.Frame.{Stream, receive}
use smartmonitor.Clients.{
  Written, wrote, send_bytes_to_1_client, send_bytes_to_all_clients, send_loop, add_client,
  remove_file_descs_of_broken_socket_conns, is_successful, send_result, close_all_client_sockets,
}
use smartmonitor.Service.{
  AttrState, Carrier, values_element, attribute_texts, attribute_text, begin_data_carrier,
  send_supported_smart_ids_to_client, before_wait,
}
use smartmonitor.Service.Messages.{
  beginnings, prepend_all, supported_elements, values_elements, send_each, supported_messages_lem,
  broadcast_each, values_messages_lem,
}
use smartmonitor.Service.Threads.{
  Log, record_write, ServiceState, waiting, Reach, start, next, accepted, greeted, added, updated,
  written, is_in_full, all_in_full, joined, frames,
}
use smartmonitor.Service.Threads.Complete.{connected_misses_nothing}
use smartmonitor.Service.Receiver.{client_reads_lem}
use smartmonitor.Service.Program.{
  client, rejected, accept_loop, accept_client, client_conn_thread_func,
}
use smartmonitor.Service.Program.Sockets.{Closed, remaining_closed}
use smartmonitor.Service.Program.Ending.{EndState, ended, finished}

abbrev first_id : UniqueId
first_id = record { serial_number = codes "1"; firmware_name = codes "F"; model_name = codes "M" }

abbrev power_on_time : AttrState
power_on_time = record {
  successfully_read = true;
  raw_value = record { parts = 7 ∷ []; check_sum = 7 };
  retrieval_time = some 1500;
  unit = 0;
  lower_unit_bound = 0;
  upper_unit_bound = 0;
}

abbrev two_carriers : List Carrier
two_carriers =
    record {
      unique_id = first_id;
      smart_ids_to_rd = 1 ∷ 0 ∷ [];
      smart_values = power_on_time ∷ power_on_time ∷ [];
    }
    ∷ record {
      unique_id = record first_id { serial_number = codes "2" };
      smart_ids_to_rd = 0 ∷ [];
      smart_values = [];
    }
    ∷ []

abbrev path_of : UniqueId → Option Bytes
path_of u = some (codes "/dev/sda")

abbrev ids_of : Bytes → List ℕ
ids_of path = 5 ∷ 9 ∷ []

abbrev all_written : ℕ → Written
all_written fd = wrote 1

supported_messages_lem_example :
    send_supported_smart_ids_to_client Log 32
      (record_write all_written)
      path_of
      ids_of
      two_carriers
      5
      []
    ≡ send_each Log 32
        (record_write all_written)
        (beginnings (supported_elements path_of ids_of two_carriers))
        5
        []
supported_messages_lem_example =
    supported_messages_lem Log 32 (record_write all_written) path_of ids_of two_carriers 5 []

abbrev seconds : ℕ → Bytes
seconds ms = codes "1.500"

abbrev two_elements : List Bytes
two_elements =
    codes
      "<data_carrier model=\"M\" firmware=\"F\" serial_number=\"1\"><SMART ID=\"1\" raw_value=\"7\" time_in_s=\"1.500\"/></data_carrier>"
    ∷ codes "<data_carrier model=\"M\" firmware=\"F\" serial_number=\"2\"></data_carrier>"
    ∷ []

two_elements_lem : values_elements seconds 8 two_carriers ≡ some two_elements
unfolding values_elements values_element visit smart_ids_to_read_not_end attribute_texts
    attribute_text is_consistent begin_data_carrier print_smart_element decimal print_unit
    print_bound
two_elements_lem = refl

values_messages_lem_example :
    before_wait Log 32 (record_write all_written) seconds 8 two_carriers (5 ∷ 6 ∷ []) []
    ≡ broadcast_each Log 32 (record_write all_written) (beginnings two_elements) (5 ∷ 6 ∷ []) []
values_messages_lem_example =
    values_messages_lem Log 32 (record_write all_written) seconds 8 two_carriers two_elements
      (5 ∷ 6 ∷ []) [] two_elements_lem

-- Client 5 is greeted with two messages and receives one with values.
abbrev hello : List Bytes
hello = codes "<a/>" ∷ codes "<a/><b/>" ∷ []

abbrev hello_frames : List Bytes
hello_frames = (0 ∷ 4 ∷ codes "<a/>") ∷ (0 ∷ 8 ∷ codes "<a/><b/>") ∷ []

abbrev values_frame : Bytes
values_frame = 0 ∷ 4 ∷ codes "<v/>"

abbrev hello_log : Log
hello_log = (5, (0 ∷ 4 ∷ codes "<a/>", wrote 6)) ∷ (5, (0 ∷ 8 ∷ codes "<a/><b/>", wrote 10)) ∷ []

abbrev one_client : ServiceState
one_client = record {
  clients = 5 ∷ [];
  opened = 5 ∷ [];
  log = hello_log ++ ((5, (values_frame, wrote 6)) ∷ []);
  broadcasts = values_frame ∷ [];
  accepting = waiting;
}

Reach-one_client : Reach 32 hello one_client
unfolding has byte_array_from_string num_overall_bytes htons send_bytes_to_1_client
    send_bytes_to_all_clients send_loop add_client insert remove_file_descs_of_broken_socket_conns
    record_write is_successful send_result
Reach-one_client =
    next
      (next
        (next
          (next (next start (accepted 5 refl refl))
            (greeted 5 (codes "<a/>") (codes "<a/><b/>" ∷ []) (λ fd. wrote 6) _ _ refl refl))
          (greeted 5 (codes "<a/><b/>") [] (λ fd. wrote 10) _ _ refl refl))
        (added 5 refl))
      (updated (codes "<v/>") values_frame (λ fd. wrote 6) _ _ refl refl)

frames-hello : frames hello ≡ some hello_frames
unfolding frames byte_array_from_string num_overall_bytes htons
frames-hello = refl

connected_misses_nothing_example :
    (earlier : List Bytes) × ((since : List Bytes) × ((earlier ++ since ≡ values_frame ∷ [])
        × (written 5 one_client.log ≡ joined (hello_frames ++ since))))
unfolding has all_in_full is_in_full
connected_misses_nothing_example =
    connected_misses_nothing 32 hello hello_frames frames-hello one_client 5 Reach-one_client refl
      refl

abbrev read_list : Bytes → ℕ → Bytes × Bytes
read_list w n = (drop n w, take n w)

list-Stream : Stream Bytes read_list (λ w. w)
list-Stream = record { delivered = λ w n. refl; left = λ w n. refl }

client_reads_lem_example :
    (earlier : List Bytes) × ((since : List Bytes) × ((earlier ++ since ≡ codes "<v/>" ∷ [])
        × (((get_supported_smart_ids_from_srv Bytes read_list (written 5 one_client.log)).1
              ≡ successfull (codes "<a/>"))
            × ((receive Bytes read_list
                  (length (prepend_all (codes "<a/>") (beginnings (codes "<b/>" ∷ [])) ++ since))
                  (get_supported_smart_ids_from_srv Bytes read_list (written 5 one_client.log)).0).1
                ≡ map successfull
                    (prepend_all (codes "<a/>") (beginnings (codes "<b/>" ∷ [])) ++ since)))))
unfolding beginnings prepend_all frames byte_array_from_string num_overall_bytes htons has
    all_in_full is_in_full
client_reads_lem_example =
    client_reads_lem Bytes read_list (λ w. w) list-Stream 32 (codes "<a/>") (codes "<b/>" ∷ [])
      hello_frames (codes "<v/>" ∷ []) one_client 5 (written 5 one_client.log) (ground arith) refl
      (ground arith) refl Reach-one_client refl refl refl

abbrev shut_down : EndState
shut_down = record {
  updates = false;
  socket_open = false;
  update_thread = ended;
  main_thread = finished;
}

abbrev even_written : Closed → ℕ → Bytes → Closed × Written
even_written closed fd frame = (closed, wrote 1)

abbrev still_connected : List ℕ
still_connected = 6 ∷ []

abbrev sockets_closed : Closed
sockets_closed = 6 ∷ []

remaining_closed_example : sockets_closed ≡ still_connected
unfolding client_conn_thread_func accept_loop accept_client send_supported_smart_ids_to_client
    close_all_client_sockets remove_file_descs_of_broken_socket_conns erase add_client insert
remaining_closed_example =
    remaining_closed 32 even_written (λ closed fd frame. refl) path_of ids_of []
      (record { accept = client 5; broken = []; goes_on = true }
        ∷ record { accept = client 6; broken = []; goes_on = true }
        ∷ record { accept = rejected 22; broken = 5 ∷ []; goes_on = false }
        ∷ [])
      [] still_connected sockets_closed refl
