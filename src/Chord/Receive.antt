-- ===== src/Chord/Receive.antt =====
-- From the datagram to the handler: `handle_packet` of src/chord.c with the dispatcher of `new_server`.
use tangent.Base.{
  ℕ, ◌<◌, ◌≡◌, ◌⊎◌, inl, inr, refl, sym, ap, ◌∙◌, Bool, Option, none, some, List, ◌++◌, ◌==◌, ltb,
  arith, Bool-cases, Option-cases,
}
use tangent.Id.{IsId}
use tangent.Server.{Node}
use tangent.Crypt.{Crypto, get_address_id}
use tangent.Send.Messages.{Message, packet_type}
use tangent.Process.{Outcome, returned, fault}
use tangent.Process.Handle.{process}
use tangent.Process.Invariant.{IsServer, Keeps, kept, faulted}
use tangent.Process.Keeps.{process-Keeps, may_fault}
use tangent.Dispatcher.{RawHeader}
use tangent.Dispatcher.Packet.{max_packet_type, run_handler, dispatch_packet}
use tangent.Dispatcher.Dispatch.{dispatch_packet-loaded, dispatch_packet-none}
use tangent.Chord.Handlers.{World, error_number}
use tangent.Chord.{
  Codec, ChordDispatcher, SockAddr, from_v6, from_v4, sender, handle_packet, new_server_dispatcher,
}
use tangent.Chord.Register.{
  entry, handler_of, table, new_server_dispatcher-some, load-entry, handler_of-process,
}

-- What an outcome makes of the world.
abbrev pub taken : World → Outcome → Option World
taken w (returned code srv cmds) = some (record w { srv = srv; sent = w.sent ++ cmds })
taken w fault = none

abbrev state : Option (ℕ × Option ℕ × World) → Option World
state none = none
state (some (r, p, w)) = some w

-- The error handler changes nothing.
run-after :
    (cr : Crypto) (codec : Codec) (w : World) (header : RawHeader) (from : Node) (msg : Message)
    → codec.message_unpack header.type header.payload ≡ some msg
    → state (run_handler (table cr codec) (entry cr codec header.type) header from w)
      ≡ taken w (handler_of cr header.type w msg from)
unfolding run_handler
run-after cr codec w header from msg e = by_outcome (handler_of cr header.type w msg from) refl
  where
    by_outcome :
        (o : Outcome)
        → handler_of cr header.type w msg from ≡ o
        → state (run_handler (table cr codec) (entry cr codec header.type) header from w)
          ≡ taken w (handler_of cr header.type w msg from)
    by_outcome fault f = rw (e, f, run_handler) refl
    by_outcome (returned code srv cmds) f = elim (Bool-cases (error_number code == 0)) [
      | inl ok ↦ rw (e, f, ok, run_handler) refl
      | inr failed ↦ rw (e, f, failed, run_handler) refl
    ]

handle_packet-state :
    (cr : Crypto) (codec : Codec) (d : ChordDispatcher) (w : World) (buf : List ℕ)
    (from_sa : SockAddr)
    → handle_packet cr codec d w (some (buf, from_sa))
      ≡ state (dispatch_packet codec.header_unpack d buf (sender cr from_sa) w)
unfolding handle_packet
handle_packet-state cr codec d w buf from_sa =
    elim (Option-cases (dispatch_packet codec.header_unpack d buf (sender cr from_sa) w)) [
      | inl e ↦ rw e refl
      | inr ((r, p, t), e) ↦ rw e refl
    ]

-- Take the dispatcher that `new_server` sets up, which it does without a fault, and a datagram whose
-- header unpacks with one of the ten packet types. If the payload does not unpack as the message of
-- that type, the datagram changes nothing. Otherwise it has the effect of that handler of
-- src/process.c that is meant for the message, with the sender's identifier computed from its
-- address: the server and the commands that the handler returns, whatever its error code, or a fault.
pub handle_packet-process :
    (cr : Crypto) (codec : Codec) (w : World) (buf : List ℕ) (from_sa : SockAddr)
    (header : RawHeader)
    → codec.header_unpack buf ≡ some header
    → header.type < max_packet_type
    → (d : ChordDispatcher) × (new_server_dispatcher cr codec ≡ some d)
      × (((codec.message_unpack header.type header.payload ≡ none)
            × (handle_packet cr codec d w (some (buf, from_sa)) ≡ some w))
          ⊎ ((msg : Message) × (codec.message_unpack header.type header.payload ≡ some msg)
              × (packet_type msg ≡ header.type)
              × (handle_packet cr codec d w (some (buf, from_sa))
                  ≡ taken w (process cr w.epoch w.usec w.junk w.srv msg (sender cr from_sa)))))
unfolding run_handler
handle_packet-process cr codec w buf from_sa header e small = (
  table cr codec,
  new_server_dispatcher-some cr codec,
  elim (Option-cases (codec.message_unpack header.type header.payload)) [
    | inl bad ↦
        inl (bad, handle_packet-state cr codec _ w buf from_sa ∙ ap state (loaded ∙ unread bad))
    | inr (msg, good) ↦
        let t = codec.message_unpack-type header.type header.payload msg good in
        inr (
          msg,
          good,
          t,
          handle_packet-state cr codec _ w buf from_sa
              ∙ ap state loaded
              ∙ run-after cr codec w header (sender cr from_sa) msg good
              ∙ ap (taken w) (rw (sym t) (handler_of-process cr w msg (sender cr from_sa))),
        )
  ],
)
  where
    unread :
        codec.message_unpack header.type header.payload ≡ none
        → run_handler (table cr codec) (entry cr codec header.type) header (sender cr from_sa) w
          ≡ some (1, none, w)
    unread bad = rw (bad, run_handler) refl

    loaded :
        dispatch_packet codec.header_unpack (table cr codec) buf (sender cr from_sa) w
        ≡ run_handler (table cr codec) (entry cr codec header.type) header (sender cr from_sa) w
    loaded =
        dispatch_packet-loaded codec.header_unpack (table cr codec) buf header
          (entry cr codec header.type) (sender cr from_sa) w e small small
          (load-entry cr codec header.type small)

-- What a datagram leaves is a server in order, if the server was.
data IsTaken : Option World → Type 0 where
  no_world : IsTaken none
  a_world : {w : World} → IsServer w.srv → IsTaken (some w)

taken-IsTaken : (b : Bool) (w : World) (o : Outcome) → Keeps b o → IsTaken (taken w o)
taken-IsTaken b w (returned code srv cmds) (kept v) = a_world v
taken-IsTaken b w fault (faulted e) = no_world

sender-IsId : (cr : Crypto) (from_sa : SockAddr) → IsId (sender cr from_sa).id
unfolding get_address_id
sender-IsId cr (from_v6 a p) = cr.sha1-IsId _
sender-IsId cr (from_v4 a p) = cr.sha1-IsId _

handle_packet-IsTaken :
    (cr : Crypto) (codec : Codec) (d : ChordDispatcher) (w : World)
    (recv : Option (List ℕ × SockAddr))
    → new_server_dispatcher cr codec ≡ some d
    → IsServer w.srv
    → IsTaken (handle_packet cr codec d w recv)
unfolding handle_packet
handle_packet-IsTaken cr codec d w none made v = a_world v
handle_packet-IsTaken cr codec d w (some (buf, from_sa)) made v =
    elim (Option-cases (codec.header_unpack buf)) [
      | inl bad ↦ faults (dispatch_packet-none codec.header_unpack d buf from w (inl bad))
      | inr (header, good) ↦ elim (Bool-cases (ltb header.type max_packet_type)) [
        | inr big ↦ faults (
            dispatch_packet-none codec.header_unpack d buf from w
              (inr (header, good, ground arith)))
        | inl small ↦
            let (e, made_e, r) =
              handle_packet-process cr codec w buf from_sa header good (ground arith) in
            let same : e ≡ d = cc in
            elim r [
              | inl (_, ignored) ↦ rw (sym same, ignored) (a_world v)
              | inr (msg, _, _, run) ↦
                  rw (sym same, run)
                    (taken-IsTaken (may_fault msg) w _ (
                      process-Keeps cr w.epoch w.usec w.junk w.srv msg from v
                        (sender-IsId cr from_sa)))
            ]
      ]
    ]
  where
    from : Node
    from = sender cr from_sa

    faults :
        dispatch_packet codec.header_unpack d buf from w ≡ none
        → IsTaken (handle_packet cr codec d w (some (buf, from_sa)))
    faults e = rw (handle_packet-state cr codec d w buf from_sa, e) no_world

-- Whatever arrives at a server in order, be it a datagram or a failed read, if the handling of it
-- comes to its end without a fault, with the dispatcher of `new_server`, the server is in order.
pub handle_packet-IsServer :
    (cr : Crypto) (codec : Codec) (d : ChordDispatcher) (w t : World)
    (recv : Option (List ℕ × SockAddr))
    → new_server_dispatcher cr codec ≡ some d
    → IsServer w.srv
    → handle_packet cr codec d w recv ≡ some t
    → IsServer t.srv
handle_packet-IsServer cr codec d w t recv made v e =
    ordered (rw e at (handle_packet-IsTaken cr codec d w recv made v))
  where
    ordered : IsTaken (some t) → IsServer t.srv
    ordered (a_world v) = v
