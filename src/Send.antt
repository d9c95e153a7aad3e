-- ===== src/Send.antt =====
-- src/sendpkt.c and src/pack.c: what a server sends. `protobuf_c_message_pack` is generated and
-- library code, so a datagram is its `Header` with the message inside, before serialisation. The
-- messages are those of src/messages.proto; `none` is an optional field that was not set.
-- A handler asks for its sends by commands, which `perform` carries out in order, each at its own
-- reading of the two clocks, `time(NULL)` and `get_current_time()`.
pub mod Messages
use tangent.Base.{
  ℕ, ◌+◌, ◌%◌, ◌^◌, Bool, ◌||◌, Option, none, some, List, [], ◌∷◌, ◌++◌, if◌then◌else◌,
}
use tangent.Base.Bind.{◌>>=◌}
use tangent.Server.Addr.{v4_mapped}
use tangent.Id.{ChordId}
use tangent.Server.{In6Addr, Node, ChordServer}
use tangent.Crypt.{Crypto, char, short, long, addr_arg, pack_ticket}
use Messages.{
  Message, Header, Datagram, addr_discover, addr_discover_reply, data_msg, find_successor,
  find_successor_reply, stabilize, stabilize_reply, notify, ping, pong, chord_wire_version,
  chord_addr_discover, chord_fs, chord_ping, packet_type,
}

-- One constructor for each `send_*` function, with its arguments; the first two are the receiver's
-- address and port, and a time to live is the `uchar` that the function takes. `stab_started` is `event_del(discover_addr_event)` and `event_add(stab_event)`.
-- The assertion of `send_raw_v4` is in `send_packet`, behind `perform`.
pub data Command : Type 0 where
  send_addr_discover : In6Addr → ℕ → Command
  send_addr_discover_reply : In6Addr → ℕ → List ℕ → Command
  send_data : In6Addr → ℕ → Bool → ℕ → ChordId → List ℕ → Command
  send_fs : In6Addr → ℕ → ℕ → In6Addr → ℕ → Command
  send_fs_forward : In6Addr → ℕ → List ℕ → ℕ → In6Addr → ℕ → Command
  send_fs_reply : In6Addr → ℕ → List ℕ → In6Addr → ℕ → Command
  send_stab : In6Addr → ℕ → In6Addr → ℕ → Command
  send_stab_reply : In6Addr → ℕ → In6Addr → ℕ → Command
  send_notify : In6Addr → ℕ → Command
  send_ping : In6Addr → ℕ → Command
  send_pong : In6Addr → ℕ → List ℕ → ℕ → Command
  stab_started : Command

-- The header around a message.
unfoldable pub pack_header : Message → Header
pack_header msg = record {
  version = some chord_wire_version;
  type = packet_type msg;
  payload = msg;
}

abbrev pub pack_addr_discover : List ℕ → Header
pack_addr_discover ticket = pack_header (addr_discover (some ticket))

abbrev pub pack_addr_discover_reply : List ℕ → In6Addr → Header
pack_addr_discover_reply ticket addr = pack_header (addr_discover_reply (some ticket) addr)

-- A `uchar ttl` keeps eight bits.
abbrev pub pack_data : Bool → ℕ → ChordId → List ℕ → Header
pack_data last ttl id d = pack_header (data_msg id (some (ttl % 256)) (some last) d)

abbrev pub pack_fs : List ℕ → ℕ → In6Addr → ℕ → Header
pack_fs ticket ttl addr port =
    pack_header (find_successor (some ticket) (some (ttl % 256)) addr port)

abbrev pub pack_fs_reply : List ℕ → In6Addr → ℕ → Header
pack_fs_reply ticket addr port = pack_header (find_successor_reply (some ticket) addr port)

abbrev pub pack_stab : In6Addr → ℕ → Header
pack_stab addr port = pack_header (stabilize addr port)

abbrev pub pack_stab_reply : In6Addr → ℕ → Header
pack_stab_reply addr port = pack_header (stabilize_reply addr port)

abbrev pub pack_notify : Header
pack_notify = pack_header notify

abbrev pub pack_ping : List ℕ → ℕ → Header
pack_ping ticket time = pack_header (ping (some ticket) time)

abbrev pub pack_pong : List ℕ → ℕ → Header
pack_pong ticket time = pack_header (pong (some ticket) time)

abbrev to : In6Addr → ℕ → Header → Option Datagram
to addr port header = some (record { addr = addr; port = port; header = header })

-- The `send_*` functions. `epoch` and `usec` are the clocks when the command runs.
unfoldable pub perform : Crypto → ChordServer → ℕ → ℕ → Command → Option Datagram
perform cr srv epoch usec (send_addr_discover a p) = to a p (
    pack_addr_discover (
      pack_ticket cr srv.ticket_salt srv.ticket_hash_len epoch
        (char chord_addr_discover ∷ addr_arg a ∷ short p ∷ [])))
perform cr srv epoch usec (send_addr_discover_reply a p ticket) =
    to a p (pack_addr_discover_reply ticket a)
perform cr srv epoch usec (send_data a p last ttl id d) = to a p (pack_data last ttl id d)
perform cr srv epoch usec (send_fs a p ttl addr port) = to a p (
    pack_fs (pack_ticket cr srv.ticket_salt srv.ticket_hash_len epoch (char chord_fs ∷ [])) ttl addr
      port)
perform cr srv epoch usec (send_fs_forward a p ticket ttl addr port) =
    to a p (pack_fs ticket ttl addr port)
perform cr srv epoch usec (send_fs_reply a p ticket addr port) =
    to a p (pack_fs_reply ticket addr port)
perform cr srv epoch usec (send_stab a p addr port) = to a p (pack_stab addr port)
perform cr srv epoch usec (send_stab_reply a p addr port) = to a p (pack_stab_reply addr port)
perform cr srv epoch usec (send_notify a p) = to a p pack_notify
perform cr srv epoch usec (send_ping a p) = to a p (
    pack_ping
      (pack_ticket cr srv.ticket_salt srv.ticket_hash_len epoch
        (char chord_ping ∷ addr_arg a ∷ short p ∷ long usec ∷ []))
      usec)
perform cr srv epoch usec (send_pong a p ticket time) = to a p (pack_pong ticket time)
perform cr srv epoch usec stab_started = none

-- `send_packet` through the function that `server_initialize_socket` of src/chord.c chose. `none` is
-- the failed assertion of `send_raw_v4`.
unfoldable pub send_packet : Bool → Datagram → Option Datagram
send_packet is_v6 d = if is_v6 || v4_mapped d.addr then some d else none

-- What a command sends, if it sends anything.
unfoldable pub send_if : Bool → Option Datagram → Option (List Datagram)
send_if is_v6 none = some []
send_if is_v6 (some d) = send_packet is_v6 d >>= (λ sent. some (sent ∷ []))

-- The commands in order; `clock i` are the readings of the two clocks at the `i`-th.
unfoldable pub perform_all :
    Crypto → ChordServer → Bool → (ℕ → ℕ × ℕ) → ℕ → List Command → Option (List Datagram)
perform_all cr srv is_v6 clock i [] = some []
perform_all cr srv is_v6 clock i (c ∷ cs) = do
  sent ← send_if is_v6 (perform cr srv (clock i).0 (clock i).1 c)
  rest ← perform_all cr srv is_v6 clock (i + 1) cs
  some (sent ++ rest)
