-- ===== src/Dhash/Tests.antt =====
-- The file client on small data.
use tangent.Base.{
  ℕ, ◌^◌, ◌<◌, ◌≡◌, ◌≢◌, ◌⊎◌, refl, true, false, Option, none, some, List, [], ◌∷◌, ◌++◌, length,
  length-take, leb, subst, arith,
}
use tangent.Crypt.{get_data_id, get_address_id}
use tangent.Id.{id_equals, memcmp, id_is_between, is_less}
use tangent.Server.Addr.{is_addr_unspecified}
use tangent.Send.{send_data}
use tangent.Process.Route.{route_onward, chord_id_is_local, next_route_node}
use tangent.Dispatcher.{RawHeader, Dispatcher, new_dispatcher, zero_handler, load}
use tangent.Dispatcher.Packet.{run_handler, dispatch_packet}
use tangent.Dispatcher.Table.{new_dispatcher-IsDispatcher}
use tangent.Dhash.Install.{take_data_packets, taken, dispatch_packet-take_data_packets}
use tangent.Dhash.Stream.{Udt, finished, blocking_recv_buf}
use tangent.Text.{c_string, buf_to_str}
use tangent.Dhash.{
  Dhash, Transfer, chord_sent, control_written, transfer_freed, receive_success, transfer_receive,
  query_reply_success, pack_dhash_header,
}
use tangent.Dhash.Handlers.{run_event, received, is_signed, verified, dhash_local_file_exists}
use tangent.Dhash.Data.{DataMsg, dhash_unpack_chord_data}
use tangent.Dhash.Messages.{
  on_message, is_query_reply_success, dhash_unpack_chord_data_lem, chord_table,
  new_chord_dispatcher_lem,
}
use tangent.Dhash.Rendezvous.{Member, IsOpen, IsServed, query-rendezvous}
use tangent.Dhash.Refusal.{query-refused, query-forwarded}
use tangent.Base.Bind.{◌>>=◌, if-some}
use mathlib.Core.Option.{some-injective}
use tangent.Dhash.Send.{dhash_send_push, send_all, send_towards, dhash_send_control_packet}
use tangent.Dhash.Transfers.{free_transfer}
use tangent.Dhash.Forward.{pass_unless_done}
use tangent.Dhash.Announce.{IsAnnounced, run_event-IsAnnounced}
use tangent.Dhash.Finish.{IsBlocking, HasEnded, transfer_connect-HasEnded}
use tangent.Dhash.Protocol.{transfer_connect}
use tangent.Dhash.Exchange.{IsExchanged, request, answer, transfer_send-receive}
use tangent.Finger.{succ_finger, first_such}
use tangent.Dhash.Samples.{
  toy_library, asking_server, asking_client, owning_client, lacking_client, Wire, wire_recv,
  wire_put, wire_udt, wire_udt-IsWhole,
}
use tangent.Samples.{read_header, read_length, add_up, toy_crypto, sample_server, peer}

-- The hash of the name `far` is not local to the sample server, and that of `near` is.
abbrev far : List ℕ
far = 100 ∷ 7 ∷ []

abbrev near : List ℕ
near = 230 ∷ 7 ∷ []

toy_library-IsOpen : IsOpen toy_library
toy_library-IsOpen = record { sock = λ v4. 3; opened = λ v4. refl; bound = λ s port. refl }

abbrev asking : Member toy_crypto toy_library
asking = record {
  client = asking_client;
  table = chord_table toy_crypto toy_library;
  index = 0;
  srv = asking_server;
  at = refl;
  made = new_chord_dispatcher_lem toy_crypto toy_library;
}

abbrev owning : Member toy_crypto toy_library
owning = record {
  client = owning_client;
  table = chord_table toy_crypto toy_library;
  index = 0;
  srv = sample_server;
  at = refl;
  made = new_chord_dispatcher_lem toy_crypto toy_library;
}

abbrev lacking : Member toy_crypto toy_library
lacking = record {
  client = lacking_client;
  table = chord_table toy_crypto toy_library;
  index = 0;
  srv = sample_server;
  at = refl;
  made = new_chord_dispatcher_lem toy_crypto toy_library;
}

-- The bytes of a packed query and of its answers, as the small codecs make them.
abbrev query_bytes : List ℕ → List ℕ
query_bytes name = 2 ∷ 0 ∷ 16 ∷ 4000 ∷ (asking_server.node.addr ++ name)

abbrev success_bytes : List ℕ → List ℕ
success_bytes name = 2 ∷ 1 ∷ name

abbrev failure_bytes : List ℕ → List ℕ
failure_bytes name = 2 ∷ 2 ∷ name

abbrev data_of : List ℕ → DataMsg
data_of bytes = record {
  id = get_data_id toy_crypto far;
  ttl = some 9;
  last = some false;
  data_bytes = bytes;
}

abbrev text : List ℕ → List ℕ
text name = c_string name

query-rendezvous_example :
    IsServed toy_crypto toy_library asking owning
      (c_string far)
      (success_bytes far)
      (dhash_unpack_chord_data toy_library 1 0 sample_server
        (data_of (query_bytes far))
        (peer 20)
        owning.table
        owning_client)
      (dhash_unpack_chord_data toy_library 1 0 asking_server
        (data_of (success_bytes far))
        sample_server.node
        asking.table
        asking_client)
unfolding pack_dhash_header dhash_local_file_exists c_string
query-rendezvous_example =
    query-rendezvous toy_crypto toy_library toy_library-IsOpen asking owning far (query_bytes far)
      (success_bytes far) (data_of (query_bytes far)) (data_of (success_bytes far)) (peer 20) 1 1
      (omega arith) refl (omega arith) (omega arith) refl refl refl refl refl

near_local : chord_id_is_local sample_server (get_data_id toy_crypto near) ≡ true
unfolding chord_id_is_local id_equals memcmp get_data_id id_is_between is_less
near_local = refl

far_away : chord_id_is_local sample_server (get_data_id toy_crypto far) ≡ false
unfolding chord_id_is_local id_equals memcmp get_data_id id_is_between is_less
far_away = refl

addressed : is_addr_unspecified sample_server.node.addr ≡ false
unfolding is_addr_unspecified
addressed = refl

query-refused_example :
    (dhash_unpack_chord_data toy_library 1 0 sample_server
        (data_of (query_bytes near))
        (peer 20)
        lacking.table
        lacking_client
      ≡ some (
        lacking.table,
        record lacking_client {
          effects =
              chord_sent 0 (
                send_data asking_server.node.addr 4000 false 10
                  (get_address_id toy_crypto asking_server.node.addr 4000)
                  (failure_bytes near))
              ∷ [];
        },
      ))
    × (dhash_unpack_chord_data toy_library 1 0 asking_server
          (data_of (failure_bytes near))
          sample_server.node
          asking.table
          asking_client
        ≡ some (asking.table, record asking_client { effects = control_written (2 ∷ near) ∷ [] }))
unfolding pack_dhash_header dhash_local_file_exists c_string
query-refused_example =
    query-refused toy_crypto toy_library asking lacking near (query_bytes near) (failure_bytes near)
      (2 ∷ near) (data_of (query_bytes near)) (data_of (failure_bytes near)) (peer 20) 1 1
      (omega arith) refl (omega arith) (omega arith) refl near_local refl refl refl refl refl

query-forwarded_example :
    dhash_unpack_chord_data toy_library 1 0 sample_server
      (data_of (query_bytes far))
      (peer 20)
      lacking.table
      lacking_client
    ≡ some (
      lacking.table,
      record lacking_client {
        effects =
            chord_sent 0 (
              send_data
                (next_route_node sample_server (get_data_id toy_crypto far) false).0.addr
                (next_route_node sample_server (get_data_id toy_crypto far) false).0.port
                (next_route_node sample_server (get_data_id toy_crypto far) false).1
                8
                (get_data_id toy_crypto far)
                (query_bytes far))
            ∷ [];
      },
    )
unfolding pack_dhash_header dhash_local_file_exists c_string
query-forwarded_example =
    query-forwarded toy_crypto toy_library asking lacking far (query_bytes far) 9 false (peer 20) 1
      (omega arith) refl (omega arith) (omega arith) refl far_away addressed (omega arith)
      (omega arith) refl

dhash_unpack_chord_data_lem_example :
    dhash_unpack_chord_data toy_library 1 0 asking_server
      (data_of (success_bytes far))
      (peer 20)
      asking.table
      asking_client
    ≡ (on_message toy_crypto toy_library 0 asking_server
          (query_reply_success far)
          (peer 20)
          asking_client
        >>= pass_unless_done 0 asking_server (data_of (success_bytes far)) (peer 20) asking.table)
dhash_unpack_chord_data_lem_example =
    dhash_unpack_chord_data_lem toy_crypto toy_library 1 0 asking_server
      (data_of (success_bytes far)) (peer 20) (query_reply_success far) 1 (some 1) asking.table
      asking_client (is_query_reply_success far) (omega arith) asking.made refl refl

-- A transfer that has received the file of the name `far`.
abbrev arrived : Transfer
arrived = record {
  type = transfer_receive;
  dir = b'a' ∷ [];
  file = some far;
  success_cb = some receive_success;
  fail_cb = none;
  success_ev = true;
  fail_ev = false;
  udt_sock = 3;
  local_port = 4001;
  remote_addr = (peer 10).addr;
  remote_port = 4001;
}

-- The client behind the announcement, with one packet for its one server.
abbrev announced_client : Dhash
announced_client = record asking_client {
  effects =
      control_written (1 ∷ far)
      ∷ chord_sent 0 (
          send_data (next_route_node asking_server (get_data_id toy_crypto far) false).0.addr
            (next_route_node asking_server (get_data_id toy_crypto far) false).0.port
            (next_route_node asking_server (get_data_id toy_crypto far) false).1 10
            (get_data_id toy_crypto far) (2 ∷ 3 ∷ 16 ∷ 4000 ∷ (asking_server.node.addr ++ far)))
      ∷ transfer_freed arrived
      ∷ [];
}

next_known :
    is_addr_unspecified (next_route_node asking_server (get_data_id toy_crypto far) false).0.addr
    ≡ false
unfolding next_route_node is_addr_unspecified route_onward succ_finger get_data_id id_is_between
    is_less id_equals memcmp first_such
next_known = refl

arrived-runs :
    run_event toy_crypto toy_library receive_success arrived asking_client ≡ some announced_client
unfolding run_event received is_signed verified dhash_send_push send_all send_towards buf_to_str
    pack_dhash_header dhash_send_control_packet free_transfer
arrived-runs = rw next_known refl

run_event-IsAnnounced_example :
    IsAnnounced toy_crypto toy_library arrived far asking_client announced_client
run_event-IsAnnounced_example =
    run_event-IsAnnounced toy_crypto toy_library arrived far asking_client announced_client refl
      arrived-runs

wire_recv-gives :
    (s : Wire) (n : ℕ) (r : List ℕ × Wire) → 0 < n → wire_recv s n ≡ some r → 0 < length r.0
wire_recv-gives s n r some_bytes e =
    let (enough, same) = if-some (leb n (length s.incoming)) _ r e in
    subst (λ x. 0 < length x.0) same (ground (arith, length-take n s.incoming))

wire_udt-IsBlocking : IsBlocking wire_udt
wire_udt-IsBlocking = record {
  gives = λ s n r some_bytes e. wire_recv-gives s n r some_bytes e;
  takes = λ s bytes r some_bytes e.
      subst (λ x. 0 < x.0) (some-injective (length bytes, wire_put s bytes) r e) some_bytes;
}

transfer_connect-HasEnded_example : HasEnded (
    transfer_connect wire_udt
      (2 ^ 15)
      (λ path. none)
      arrived
      (record { incoming = []; outgoing = [] }))
transfer_connect-HasEnded_example =
    transfer_connect-HasEnded wire_udt wire_udt-IsBlocking (2 ^ 15) (omega arith) (λ path. none)
      arrived (record { incoming = []; outgoing = [] })

abbrev read_far : List ℕ → Option (List ℕ)
read_far path = some (1 ∷ 2 ∷ 3 ∷ [])

transfer_send-receive_example :
    IsExchanged wire_udt wire_udt-IsWhole 1 read_far
      (b'h' ∷ [])
      (b'a' ∷ [])
      far
      (1 ∷ 2 ∷ 3 ∷ [])
      (record { incoming = request far; outgoing = [] })
      (record { incoming = answer (1 ∷ 2 ∷ 3 ∷ []); outgoing = [] })
unfolding c_string
transfer_send-receive_example =
    transfer_send-receive wire_udt wire_udt-IsWhole 0 read_far (b'h' ∷ []) (b'a' ∷ []) far
      (1 ∷ 2 ∷ 3 ∷ []) (record { incoming = request far; outgoing = [] })
      (record { incoming = answer (1 ∷ 2 ∷ 3 ∷ []); outgoing = [] }) (omega arith) (omega arith)
      refl (omega arith) refl refl refl refl refl refl refl

abbrev small_table : Dispatcher ℕ ℕ ℕ
small_table = new_dispatcher 3

abbrev data_header : RawHeader
data_header = record { version = none; type = 2; payload = 5 ∷ 6 ∷ [] }

dispatch_packet-take_data_packets_example :
    (e : Dispatcher ℕ ℕ ℕ) × (take_data_packets read_length add_up 9 small_table ≡ some e)
    × (((data_header.type ≡ 2)
          × (dispatch_packet read_header e (2 ∷ 5 ∷ 6 ∷ []) (peer 20) 40
              ≡ run_handler small_table
                  (taken read_length add_up 9 zero_handler)
                  data_header
                  (peer 20)
                  40))
        ⊎ ((data_header.type ≢ 2)
            × (dispatch_packet read_header e (2 ∷ 5 ∷ 6 ∷ []) (peer 20) 40
                ≡ dispatch_packet read_header small_table (2 ∷ 5 ∷ 6 ∷ []) (peer 20) 40)))
unfolding new_dispatcher load
dispatch_packet-take_data_packets_example =
    dispatch_packet-take_data_packets read_header read_length add_up 9 small_table zero_handler
      (2 ∷ 5 ∷ 6 ∷ []) data_header (peer 20) 40 (new_dispatcher-IsDispatcher ℕ ℕ ℕ 3) (omega arith)
      refl refl (omega arith) (omega arith)

-- Two chunks of a buffer: the second one lands on the first.
abbrev chunked : Udt (List (List ℕ))
chunked = record {
  recv = λ s n. elim s [ [] ↦ none | chunk ∷ chunks ↦ some (chunk, chunks) ];
  send = λ s bytes. none;
  recvfile = λ s n. none;
  sendfile = λ s bytes n. none;
  connect = λ s addr port. none;
  uninitialised = wire_udt.uninitialised;
  length-uninitialised = wire_udt.length-uninitialised;
}

chunks_overwritten :
    blocking_recv_buf chunked 4 4 0 (0 ∷ 0 ∷ 0 ∷ 0 ∷ []) ((1 ∷ 2 ∷ []) ∷ (3 ∷ 4 ∷ []) ∷ [])
    ≡ finished (3 ∷ 4 ∷ 0 ∷ 0 ∷ []) []
unfolding blocking_recv_buf
chunks_overwritten = refl
