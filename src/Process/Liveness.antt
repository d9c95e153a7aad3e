-- ===== src/Process/Liveness.antt =====
-- A ping is answered and its pong is accepted; a pong that was not asked for is not: `process_ping` and
-- `process_pong` of src/process.c with the tickets of src/crypt.c.
use tangent.Base.{
  ℕ, ◌+◌, ◌^◌, ◌≤◌, ◌<◌, ◌≡◌, ◌⊎◌, inl, inr, refl, ap, ◌∙◌, Bool, true, false, ◌&&◌, Option, none,
  some, List, [], ◌∷◌, take, Bool-cases, Option-cases, ◌++◌, subst,
}
use tangent.Id.{IsId, id_bytes}
use tangent.Server.{Node, Finger, ChordServer, active, ticket_timeout}
use tangent.Server.Addr.{is_addr_unspecified}
use tangent.Finger.{Inserted, is_active, modify}
use tangent.Finger.Search.{In, In-modify}
use tangent.Finger.Insert.{is_own, insert_finger-IsInserted}
use tangent.Crypt.{
  Crypto, TicketMsg, Arg, char, short, long, addr_arg, ticket_digest, pack_ticket, verify_ticket,
}
use tangent.Crypt.Ticket.{verify_ticket_iff, verify_ticket-pack_ticket}
use tangent.Send.{Command, send_ping, send_pong, perform, pack_header}
use tangent.Send.Messages.{Message, Datagram, ping, chord_ping}
use tangent.Process.{
  returned, fault, or_default, after_insert, ErrorCode, chord_no_error, chord_invalid_ticket,
  chord_addr_undiscovered,
}
use tangent.Process.Peers.{
  process_ping, pong_at, process_pong, may_precede, activate_and_follow, heard, elapsed,
}
use tangent.Process.Follow.{activated_active, activate_and_follow_lem}
use tangent.Process.Invariant.{SameTurns-InTurn, IsServer, touch-IsServer}

-- What the ticket of a ping to `peer` is bound to.
abbrev pub ping_args : Node → ℕ → List Arg
ping_args peer time = char chord_ping ∷ addr_arg peer.addr ∷ short peer.port ∷ long time ∷ []

-- A server in order that knows its address answers a ping from any node with a valid identifier
-- with a pong that carries the ticket and the time of the ping unchanged, behind at most one
-- ping of its own.
pub process_ping-send_pong :
    (srv : ChordServer) (junk : Bool) (ticket : List ℕ) (time : ℕ) (from : Node)
    → IsServer srv
    → is_addr_unspecified srv.node.addr ≡ false
    → IsId from.id
    → (srv' : ChordServer) × (before : List Command) × ((before ≡ [])
        ⊎ (before ≡ send_ping from.addr from.port ∷ []))
      × (process_ping junk srv (some ticket) time from
          ≡ returned chord_no_error srv'
              (before ++ (send_pong from.addr from.port ticket time ∷ [])))
unfolding process_ping
process_ping-send_pong srv junk ticket time from v known h =
    let (ins, e, r) = insert_finger-IsInserted srv from.id from.addr from.port v.table h in
    elim (Bool-cases (after_insert junk ins.fnew && may_precede ins.srv from)) [
      | inl new ↦
          (ins.srv, send_ping from.addr from.port ∷ [], inr refl, rw (known, e, new, process_ping))
      | inr old ↦ (ins.srv, [], inl refl, rw (known, e, old, process_ping))
    ]

-- If ticket hashes fit a digest, a pong is taken only with a ticket that this server stamped
-- for this peer and this time, and that has not timed out; else the server stays as it was and
-- sends nothing, or the handler faults because the ticket does not unpack.
pub process_pong-verified :
    (cr : Crypto) (epoch usec : ℕ) (srv : ChordServer) (ticket : Option (List ℕ)) (time : ℕ)
    (from : Node)
    → srv.ticket_hash_len ≤ id_bytes
    → ((code : ErrorCode) × (process_pong cr epoch usec srv ticket time from
          ≡ returned code srv []))
      ⊎ ((cr.ticket_unpack (or_default [] ticket) ≡ none)
          × (process_pong cr epoch usec srv ticket time from ≡ fault))
      ⊎ ((t : TicketMsg) × (cr.ticket_unpack (or_default [] ticket) ≡ some t)
          × (epoch ≤ t.time + ticket_timeout)
          × (t.hash
              ≡ take srv.ticket_hash_len
                  (ticket_digest cr srv.ticket_salt t.time (ping_args from time))))
unfolding process_pong
process_pong-verified cr epoch usec srv ticket time from small =
    let iff =
      verify_ticket_iff cr srv.ticket_salt srv.ticket_hash_len (ping_args from time) small epoch
        (or_default [] ticket) in
    elim (Bool-cases (is_addr_unspecified srv.node.addr)) [
      | inl new ↦ inl (chord_addr_undiscovered, rw (new, process_pong))
      | inr known ↦ elim (Option-cases checked) [
        | inl crash ↦ inr (inl (iff.1.0 crash, rw (known, crash, process_pong)))
        | inr (true, e) ↦ inr (inr (iff.0.0 e))
        | inr (false, e) ↦ inl (chord_invalid_ticket, rw (known, e, process_pong))
      ]
    ]
  where
    checked : Option Bool
    checked =
        verify_ticket cr srv.ticket_salt srv.ticket_hash_len epoch (or_default [] ticket)
          (ping_args from time)

abbrev stamped : Crypto → ChordServer → ℕ → ℕ → Node → List ℕ
stamped cr srv epoch time peer =
    pack_ticket cr srv.ticket_salt srv.ticket_hash_len epoch (ping_args peer time)

-- The ticket inside a ping is the one that was packed.
sent_ticket :
    (cr : Crypto) (epoch time : ℕ) (srv : ChordServer) (peer : Node) (ticket : List ℕ)
    (d : Datagram)
    → perform cr srv epoch time (send_ping peer.addr peer.port) ≡ some d
    → d.header.payload ≡ ping (some ticket) time
    → stamped cr srv epoch time peer ≡ ticket
unfolding perform pack_header
sent_ticket cr epoch time srv peer ticket d sent inside =
    let written : ping (some (stamped cr srv epoch time peer)) time ≡ d.header.payload =
      ap (λ o. payload_or o) sent in
    cc
  where
    payload_or : Option Datagram → Message
    payload_or none = ping none time
    payload_or (some x) = x.header.payload

-- What a server knows of a peer that it has just heard from.
pub record IsHeard (peer : Node) (srv : ChordServer) (f : Finger) : Type 0 where
  pub member : In f srv.flist
  pub same_id : f.node.id ≡ peer.id
  pub on : is_active f ≡ true
  pub answered : f.npings ≡ 0

activate_and_follow-IsHeard :
    (srv : ChordServer) (f : Finger) (peer : Node)
    → IsServer srv
    → In f srv.flist
    → f.node.id ≡ peer.id
    → f.npings ≡ 0
    → (srv' : ChordServer) × (g : Finger) × (activate_and_follow srv f
        ≡ returned chord_no_error srv' [])
      × IsHeard peer srv' g
activate_and_follow-IsHeard srv f peer v m e z = (
  _,
  record f { status = active },
  activate_and_follow_lem srv f v.table m,
  record {
    member = activated_active srv f v.table.list.distinct m;
    same_id = e;
    on = refl;
    answered = z;
  },
)

pong_at-some :
    (usec time : ℕ) (ins : Inserted) (f : Finger)
    → ins.finger ≡ some f
    → pong_at usec time ins
      ≡ activate_and_follow
          (record (ins.srv) { flist = modify f.loc (heard (elapsed usec time)) ins.srv.flist })
          (heard (elapsed usec time) f)
unfolding pong_at
pong_at-some usec time ins f e = rw (e, pong_at)

-- Take a server in order that knows its address and whose ticket hashes fit a digest, and a
-- ping that it sent at `epoch` (below 2 ^ 32) and `time` to another node with a valid
-- identifier. The pong with the ticket of that ping, before the ticket times out, is accepted
-- and leaves the peer as an active finger without unanswered pings.
pub process_pong-perform :
    (cr : Crypto) (epoch time later usec : ℕ) (srv : ChordServer) (peer : Node) (ticket : List ℕ)
    (d : Datagram)
    → IsServer srv
    → is_addr_unspecified srv.node.addr ≡ false
    → IsId peer.id
    → is_own srv peer.addr peer.port ≡ false
    → srv.ticket_hash_len ≤ id_bytes
    → epoch < 2 ^ 32
    → later ≤ epoch + ticket_timeout
    → perform cr srv epoch time (send_ping peer.addr peer.port) ≡ some d
    → d.header.payload ≡ ping (some ticket) time
    → (srv' : ChordServer) × (f : Finger) × (process_pong cr later usec srv (some ticket) time peer
        ≡ returned chord_no_error srv' [])
      × IsHeard peer srv' f
unfolding process_pong
process_pong-perform cr epoch time later usec srv peer ticket d v known h other small early fresh
      sent inside =
    let (ins, e, r) = insert_finger-IsInserted srv peer.id peer.addr peer.port v.table h in
    let packed =
      verify_ticket-pack_ticket cr srv.ticket_salt srv.ticket_hash_len (ping_args peer time) small
        epoch later early fresh in
    let checked : verify_ticket cr srv.ticket_salt srv.ticket_hash_len later ticket
          (ping_args peer time)
        ≡ some true =
      subst
        (λ t.
          verify_ticket cr srv.ticket_salt srv.ticket_hash_len later t (ping_args peer time)
          ≡ some true)
        (sent_ticket cr epoch time srv peer ticket d sent inside) packed in
    elim r.result [
      | inl (own, _, _, _) ↦ cc
      | inr (_, (f, b, found, _, m, i)) ↦
          let w : IsServer ins.srv = record {
            table = r.table;
            undiscovered = inl (ap (λ n. is_addr_unspecified n.addr) r.same_node ∙ known);
            turns = SameTurns-InTurn srv ins.srv r.same_turns v.turns;
          } in
          rw (known, checked, e, pong_at-some usec time ins f found, process_pong)
            (activate_and_follow-IsHeard _ (heard (elapsed usec time) f) peer
              (touch-IsServer (elapsed usec time) ins.srv f w)
              (In-modify f (heard (elapsed usec time)) ins.srv.flist w.table.list.distinct m) i
              refl)
    ]
