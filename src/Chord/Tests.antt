-- ===== src/Chord/Tests.antt =====
-- A server of src/chord.c set up with two peers, with a toy codec: a byte of type, then the payload.
use Prim.Native.String.{String}
use tangent.Base.{
  ℕ, ◌≡◌, ◌⊎◌, inl, inr, refl, sym, subst, Bool-cases, ==_iff, true, Option, none, some, List, [],
  ◌∷◌, ◌==◌, if◌then◌else◌, zeros, arith,
}
use tangent.Server.{In6Addr, ChordServer}
use tangent.Send.{Command}
use tangent.Send.Messages.{Message, notify, ping, packet_type}
use tangent.Process.Handle.{process}
use tangent.Process.Invariant.{IsServer}
use tangent.Dispatcher.{RawHeader}
use tangent.Stabilize.Round.{ask_to_join, stabilize}
use tangent.Chord.Handlers.{World}
use tangent.Chord.{
  Codec, ChordDispatcher, Peer, SockAddr, from_v6, sender, initialize_server, new_server_dispatcher,
  handle_packet, new_server, add_peers,
}
use tangent.Chord.Receive.{taken, handle_packet-process}
use tangent.Chord.Reach.{Reachable, started, stepped, stabilized, Reachable-IsServer}
use tangent.Samples.{peer_addr, sample_server, toy_crypto}

abbrev read_header : List ℕ → Option RawHeader
read_header [] = none
read_header (type ∷ payload) = some (record { version = none; type = type; payload = payload })

-- Only `notify` and `ping` unpack.
abbrev read_message : ℕ → List ℕ → Option Message
read_message type payload =
    if type == 7 then some notify else if type == 8 then some (ping (some payload) 4) else none

read_message-type :
    (type : ℕ) (payload : List ℕ) (msg : Message)
    → read_message type payload ≡ some msg
    → packet_type msg ≡ type
read_message-type type payload msg e = elim (Bool-cases (type == 7)) [
  | inl seven ↦
      let is : some notify ≡ some msg = rw seven at e in
      let same : notify ≡ msg = cc in
      subst (λ m. packet_type m ≡ type) same (sym ((==_iff _ _).0 seven))
  | inr other ↦ elim (Bool-cases (type == 8)) [
    | inl eight ↦
        let is : some (ping (some payload) 4) ≡ some msg = rw (other, eight) at e in
        let same : ping (some payload) 4 ≡ msg = cc in
        subst (λ m. packet_type m ≡ type) same (sym ((==_iff _ _).0 eight))
    | inr neither ↦ let is : none ≡ some msg = rw (other, neither) at e in cc
  ]
]

abbrev toy_codec : Codec
toy_codec = record {
  header_unpack = read_header;
  message_unpack = read_message;
  message_unpack-type = read_message-type;
}

abbrev fresh : World
fresh = record { srv = sample_server; sent = []; epoch = 1000; usec = 50; junk = true }

abbrev from_peer : SockAddr
from_peer = from_v6 (peer_addr 100) 40975

handle_packet-process_example :
    (d : ChordDispatcher) × (new_server_dispatcher toy_crypto toy_codec ≡ some d)
    × (((read_message 8 (1 ∷ []) ≡ none)
          × (handle_packet toy_crypto toy_codec d fresh (some (8 ∷ 1 ∷ [], from_peer))
              ≡ some fresh))
        ⊎ ((msg : Message) × (read_message 8 (1 ∷ []) ≡ some msg)
            × (packet_type msg ≡ 8)
            × (handle_packet toy_crypto toy_codec d fresh (some (8 ∷ 1 ∷ [], from_peer))
                ≡ taken fresh (
                    process toy_crypto 1000 50 true sample_server msg
                      (sender toy_crypto from_peer)))))
handle_packet-process_example =
    handle_packet-process toy_crypto toy_codec fresh (8 ∷ 1 ∷ []) from_peer
      (record { version = none; type = 8; payload = 1 ∷ [] }) refl (omega arith)

abbrev resolve_one : String → Option In6Addr
resolve_one name = some (peer_addr 90)

abbrev two_peers : List Peer
two_peers = record { address = "near"; port = 4000 } ∷ record { address = "far"; port = 70000 } ∷ []

abbrev new_node : ChordServer
new_node = initialize_server resolve_one (zeros 20) (7 ∷ 8 ∷ []) 4000 two_peers

new_node-Reachable : Reachable toy_crypto toy_codec new_node
new_node-Reachable = started resolve_one (zeros 20) (7 ∷ 8 ∷ []) 4000 two_peers

first_round : stabilize 0 3 new_node ≡ some (new_node, ask_to_join new_node new_node.well_known, 0)
unfolding stabilize initialize_server new_server add_peers
first_round = refl

-- The server behind its first round of `stabilize`.
abbrev next_node :
    (t : ChordServer) × (cmds : List Command) × (next : ℕ) × (stabilize 0 3 new_node
      ≡ some (t, cmds, next))
    × Reachable toy_crypto toy_codec t
next_node = (
  new_node,
  _,
  _,
  first_round,
  stepped new_node-Reachable (stabilized 0 3 _ _ (omega arith) first_round),
)

Reachable-IsServer_example : IsServer next_node.0
Reachable-IsServer_example = Reachable-IsServer toy_crypto toy_codec next_node.0 next_node.4
