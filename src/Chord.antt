-- ===== src/Chord.antt =====
-- src/chord.c: a server from `new_server` on, and what it does with a datagram. The generated unpackers
-- are the parameter `Codec`.
pub mod Handlers
pub mod Register
pub mod Receive
pub mod Reach
mod Tests
use Prim.Native.String.{String}
use tangent.Base.{
  ℕ, zero, suc, ◌+◌, ◌-◌, ◌*◌, ◌/◌, ◌%◌, ◌≡◌, Bool, true, false, Option, none, some, List, [], ◌∷◌,
  ◌++◌, zeros, if◌then◌else◌,
}
use tangent.Base.Int.{pos}
use tangent.Base.Bind.{◌>>=◌}
use tangent.Id.{ChordId, id_bytes}
use tangent.Server.{In6Addr, Node, ChordServer, nfingers, ticket_hash_len}
use tangent.Server.Addr.{to_v6addr}
use tangent.Crypt.{Crypto, htons, get_address_id}
use tangent.Send.{Command}
use tangent.Send.Messages.{
  Message, addr_discover, addr_discover_reply, data_msg, find_successor, find_successor_reply,
  stabilize, stabilize_reply, notify, ping, pong, packet_type, chord_addr_discover,
  chord_addr_discover_reply, chord_data, chord_fs, chord_fs_reply, chord_stab, chord_stab_reply,
  chord_notify, chord_ping, chord_pong,
}
use tangent.Process.{
  to_u16, Outcome, returned, fault, ErrorCode, chord_no_error, chord_protocol_error,
  chord_ttl_expired, chord_invalid_ticket, chord_addr_undiscovered, chord_self_originator,
  chord_finger_error,
}
use tangent.Process.Discover.{process_addr_discover, process_addr_discover_reply}
use tangent.Process.Route.{process_data, process_fs}
use tangent.Process.Peers.{
  process_fs_reply, process_stab, process_stab_reply, process_notify, process_ping, process_pong,
}
use tangent.Dispatcher.{
  RawHeader, UnpackFn, ProcessFn, Dispatcher, new_dispatcher, dispatcher_set_packet_body,
  dispatcher_set_error_handlers,
}
use tangent.Dispatcher.Packet.{HeaderUnpack, dispatch_packet}
use Handlers.{
  World, the_server, ServerPtr, call, on_addr_discover, on_addr_discover_reply, on_data, on_fs,
  on_fs_reply, on_stab, on_stab_reply, on_notify, on_ping, on_pong,
}

-- `header__unpack`, and for each packet type the unpacker of its message, which gives a message of
-- that type.
pub record Codec : Type 0 where
  pub header_unpack : HeaderUnpack
  pub message_unpack : ℕ → UnpackFn Message
  pub message_unpack-type :
      (type : ℕ) (payload : List ℕ) (msg : Message)
      → message_unpack type payload ≡ some msg
      → packet_type msg ≡ type

-- What `calloc` and `init_ticket_key` leave; `ticket_salt` is what `RAND_bytes` wrote.
unfoldable pub new_server : List ℕ → ChordServer
new_server ticket_salt = record {
  node = record { id = zeros id_bytes; addr = zeros 16; port = 0 };
  pred_bound = zeros id_bytes;
  flist = [];
  next_loc = 0;
  num_passive_fingers = pos 0;
  to_fix_finger = nfingers - 1;
  to_fix_backup = 0;
  to_ping = 0;
  well_known = [];
  ticket_salt = ticket_salt;
  ticket_hash_len = ticket_hash_len;
}

-- `process_error` of src/process.c only writes to the log.
abbrev pub process_error : RawHeader → List ServerPtr → Message → Node → ℕ → World → World
process_error header args msg from error w = w

abbrev pub ChordDispatcher : Type 0
ChordDispatcher = Dispatcher ServerPtr Message World

-- `dispatcher_set_packet(d, value, srv, …__unpack, …)`.
abbrev pub dispatcher_set_packet :
    Codec
    → ℕ
    → String
    → (World → Message → Node → Outcome)
    → ChordDispatcher
    → Option ChordDispatcher
dispatcher_set_packet codec value name handler d =
    dispatcher_set_packet_body d (pos value) name the_server (codec.message_unpack value)
      (call handler)

-- The dispatcher that `new_server` sets up.
unfoldable pub new_server_dispatcher : Crypto → Codec → Option ChordDispatcher
new_server_dispatcher cr codec =
    let d =
      dispatcher_set_error_handlers (new_dispatcher (chord_pong + 1)) none (some process_error) in
    dispatcher_set_packet codec chord_addr_discover "CHORD_ADDR_DISCOVER" (on_addr_discover cr) d
    >>= dispatcher_set_packet codec chord_addr_discover_reply "CHORD_ADDR_DISCOVER_REPLY"
        (on_addr_discover_reply cr)
    >>= dispatcher_set_packet codec chord_data "CHORD_DATA" (on_data cr)
    >>= dispatcher_set_packet codec chord_fs "CHORD_FS" (on_fs cr)
    >>= dispatcher_set_packet codec chord_fs_reply "CHORD_FS_REPLY" (on_fs_reply cr)
    >>= dispatcher_set_packet codec chord_stab "CHORD_STAB" (on_stab cr)
    >>= dispatcher_set_packet codec chord_stab_reply "CHORD_STAB_REPLY" (on_stab_reply cr)
    >>= dispatcher_set_packet codec chord_notify "CHORD_NOTIFY" (on_notify cr)
    >>= dispatcher_set_packet codec chord_ping "CHORD_PING" (on_ping cr)
    >>= dispatcher_set_packet codec chord_pong "CHORD_PONG" (on_pong cr)

-- The address that `recvfrom` writes: a `sockaddr_in6` or a `sockaddr_in`.
pub data SockAddr : Type 0 where
  from_v6 : In6Addr → ℕ → SockAddr
  from_v4 : ℕ → ℕ → SockAddr

-- `ntohs` swaps the two bytes, as `htons` does.
abbrev pub sender : Crypto → SockAddr → Node
sender cr (from_v6 sin6_addr sin6_port) =
    let port = htons sin6_port in
    record { id = get_address_id cr sin6_addr port; addr = sin6_addr; port = port }
sender cr (from_v4 s_addr sin_port) =
    let port = htons sin_port in
    record { id = get_address_id cr (to_v6addr s_addr) port; addr = to_v6addr s_addr; port = port }

-- What `recvfrom` returns: the bytes of the packet and its sender, or an error.
unfoldable pub handle_packet :
    Crypto → Codec → ChordDispatcher → World → Option (List ℕ × SockAddr) → Option World
handle_packet cr codec dispatcher w none = some w
handle_packet cr codec dispatcher w (some (buf, from_sa)) = do
  done ← dispatch_packet codec.header_unpack dispatcher buf (sender cr from_sa) w
  some done.2

-- The range (l, r] that the server is responsible for.
unfoldable pub chord_get_range : ChordServer → ChordId × ChordId
chord_get_range srv = (srv.pred_bound, srv.node.id)

-- A section `peer` of the configuration file: what `cfg_getstr` and `cfg_getint` read of it.
pub record Peer : Type 0 where
  pub address : String
  pub port : ℕ

-- The loop over the peers; `resolve` is `resolve_v6name` of src/hosts.c, `none` its failure, and
-- `junk` the identifier in the block that `emalloc` returns.
unfoldable pub add_peers :
    (String → Option In6Addr) → ChordId → ChordServer → List Peer → ChordServer
add_peers resolve junk srv [] = srv
add_peers resolve junk srv (peer ∷ peers) = elim (resolve peer.address) [
  | none ↦ add_peers resolve junk srv peers
  | some addr ↦
      let node : Node = record { id = junk; addr = addr; port = to_u16 peer.port } in
      add_peers resolve junk (record srv { well_known = node ∷ srv.well_known }) peers
]

-- A section `server` of the configuration file.
unfoldable pub initialize_server :
    (String → Option In6Addr) → ChordId → List ℕ → ℕ → List Peer → ChordServer
initialize_server resolve junk ticket_salt port peers =
    let srv = new_server ticket_salt in
    add_peers resolve junk (record srv { node = record srv.node { port = to_u16 port } }) peers
