-- ===== src/Chord/Reach.antt =====
-- A server of src/chord.c from its configuration on: every state that packets and timers lead it to.
use Prim.Native.String.{String}
use tangent.Base.{
  ℕ, ◌+◌, ◌^◌, ◌<◌, ◌≡◌, inl, inr, refl, subst, Option, some, List, [], ◌∷◌, All, All-zeros, arith,
  Option-cases,
}
use tangent.Id.{ChordId, id_bytes}
use tangent.Server.{In6Addr, ChordServer}
use tangent.Crypt.{Crypto}
use tangent.Send.{Command}
use tangent.Process.{to_u16}
use tangent.Process.Invariant.{IsServer}
use tangent.Finger.{pred_finger, last_such}
use tangent.Finger.Search.{passive_count}
use tangent.Stabilize.Receivers.{Peers}
use tangent.Stabilize.Round.{stabilize}
use tangent.Stabilize.Round.Keeps.{stabilize-IsServer}
use tangent.Chord.Handlers.{World}
use tangent.Chord.{
  Codec, ChordDispatcher, SockAddr, new_server, new_server_dispatcher, handle_packet, Peer,
  add_peers, initialize_server,
}
use tangent.Chord.Receive.{handle_packet-IsServer}

-- One event: a datagram or a failed read on the socket, or a run of the timer of `stabilize`, whose
-- static counter of rounds is below 2 ^ 31 - 1. `discover_addr`, the other timer, only sends.
pub data Step (cr : Crypto) (codec : Codec) : ChordServer → ChordServer → Type 0 where
  received :
      (d : ChordDispatcher) (w t : World) (recv : Option (List ℕ × SockAddr))
      → new_server_dispatcher cr codec ≡ some d
      → handle_packet cr codec d w recv ≡ some t
      → Step cr codec w.srv t.srv
  stabilized :
      {srv t : ChordServer} (idx rnd : ℕ) (cmds : List Command) (next : ℕ)
      → idx + 1 < 2 ^ 31
      → stabilize idx rnd srv ≡ some (t, cmds, next)
      → Step cr codec srv t

pub data Reachable (cr : Crypto) (codec : Codec) : ChordServer → Type 0 where
  started :
      (resolve : String → Option In6Addr) (junk : ChordId) (salt : List ℕ) (port : ℕ)
      (peers : List Peer)
      → Reachable cr codec (initialize_server resolve junk salt port peers)
  stepped :
      {srv t : ChordServer} → Reachable cr codec srv → Step cr codec srv t → Reachable cr codec t

new_server-IsServer :
    (salt : List ℕ) (port : ℕ)
    → let s = new_server salt in IsServer (record s { node = record s.node { port = port } })
unfolding new_server pred_finger passive_count last_such
new_server-IsServer salt port = record {
  table = record {
    self = record { size = refl; bytes = All-zeros id_bytes };
    list = record {
      ids = tt;
      sorted = tt;
      distinct = tt;
      fresh = tt;
      counted = refl;
      room = omega arith;
      pings = tt;
    };
    range = refl;
  };
  undiscovered = inr refl;
  turns = (omega arith, omega arith);
}

add_peers-IsServer :
    (resolve : String → Option In6Addr) (junk : ChordId) (peers : List Peer) (srv : ChordServer)
    → IsServer srv
    → IsServer (add_peers resolve junk srv peers)
unfolding add_peers pred_finger
add_peers-IsServer resolve junk [] srv v = v
add_peers-IsServer resolve junk (peer ∷ peers) srv v = elim (Option-cases (resolve peer.address)) [
  | inl e ↦ rw (e, add_peers) (add_peers-IsServer resolve junk peers srv v)
  | inr (addr, e) ↦
      rw (e, add_peers)
        (add_peers-IsServer resolve junk peers _ (record {
          table = record { self = v.table.self; list = v.table.list; range = v.table.range };
          undiscovered = v.undiscovered;
          turns = v.turns;
        }))
]

all_true {ℓ} : {A : Type ℓ} (xs : List A) → All (λ _. Unit {0}) xs
all_true [] = tt
all_true (x ∷ xs) = (tt, all_true xs)

all-Peers : (srv : ChordServer) → Peers (λ _. Unit {0}) srv
all-Peers srv = record { fingers = all_true srv.flist; well_known = all_true srv.well_known }

-- Every server that is set up from a configuration file, whatever names resolve, and that has since
-- gone through any sequence of datagrams, failed reads and rounds of `stabilize` that ended without a
-- fault, is in order: its finger list is sorted clockwise and without duplicates, its count of
-- passive fingers is right and within the limit, its range starts at its closest active predecessor,
-- the list is empty while its address is unknown, and its round-robin counters are in range.
pub Reachable-IsServer :
    (cr : Crypto) (codec : Codec) (srv : ChordServer) → Reachable cr codec srv → IsServer srv
unfolding initialize_server
Reachable-IsServer cr codec _ (started resolve junk salt port peers) =
    add_peers-IsServer resolve junk peers _ (new_server-IsServer salt (to_u16 port))
Reachable-IsServer cr codec _ (stepped r (received d w t recv made e)) =
    handle_packet-IsServer cr codec d w t recv made (Reachable-IsServer cr codec w.srv r) e
Reachable-IsServer cr codec t (stepped {srv} r (stabilized idx rnd cmds next small e)) =
    let (s, more, k, same, v, _) =
      stabilize-IsServer (λ _. Unit {0}) idx rnd srv (Reachable-IsServer cr codec srv r)
        (all-Peers srv) small in
    let one : s ≡ t = cc in subst IsServer one v
