-- ===== src/Send/Messages.antt =====
-- The messages of src/messages.proto and the packet types of include/chord/chord.h.
use tangent.Base.{ℕ, Bool, Option, List}
use tangent.Server.{In6Addr}

abbrev pub chord_wire_version : ℕ
chord_wire_version = 1

abbrev pub chord_addr_discover : ℕ
chord_addr_discover = 0

abbrev pub chord_addr_discover_reply : ℕ
chord_addr_discover_reply = 1

abbrev pub chord_data : ℕ
chord_data = 2

abbrev pub chord_fs : ℕ
chord_fs = 3

abbrev pub chord_fs_reply : ℕ
chord_fs_reply = 4

abbrev pub chord_stab : ℕ
chord_stab = 5

abbrev pub chord_stab_reply : ℕ
chord_stab_reply = 6

abbrev pub chord_notify : ℕ
chord_notify = 7

abbrev pub chord_ping : ℕ
chord_ping = 8

abbrev pub chord_pong : ℕ
chord_pong = 9

-- The fields stand in the order of their numbers.
pub data Message : Type 0 where
  addr_discover : Option (List ℕ) → Message
  addr_discover_reply : Option (List ℕ) → List ℕ → Message
  data_msg : List ℕ → Option ℕ → Option Bool → List ℕ → Message
  find_successor : Option (List ℕ) → Option ℕ → List ℕ → ℕ → Message
  find_successor_reply : Option (List ℕ) → List ℕ → ℕ → Message
  stabilize : List ℕ → ℕ → Message
  stabilize_reply : List ℕ → ℕ → Message
  notify : Message
  ping : Option (List ℕ) → ℕ → Message
  pong : Option (List ℕ) → ℕ → Message

abbrev pub packet_type : Message → ℕ
packet_type (addr_discover t) = chord_addr_discover
packet_type (addr_discover_reply t a) = chord_addr_discover_reply
packet_type (data_msg i t l d) = chord_data
packet_type (find_successor t l a p) = chord_fs
packet_type (find_successor_reply t a p) = chord_fs_reply
packet_type (stabilize a p) = chord_stab
packet_type (stabilize_reply a p) = chord_stab_reply
packet_type notify = chord_notify
packet_type (ping t u) = chord_ping
packet_type (pong t u) = chord_pong

pub record Header : Type 0 where
  pub version : Option ℕ
  pub type : ℕ
  pub payload : Message

-- What `send_packet` hands to the socket.
pub record Datagram : Type 0 where
  pub addr : In6Addr
  pub port : ℕ
  pub header : Header
