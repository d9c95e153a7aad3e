-- ===== src/Process/Keeps.antt =====
-- Every handler of src/process.c keeps the invariant of the server.
use tangent.Base.{
  ℕ, ◌≡◌, inl, inr, refl, Bool, true, false, not, Option, none, some, List, [], ◌∷◌, ◌==◌,
}
use tangent.Id.{ChordId, IsId, id_bytes}
use tangent.Server.{Node, Finger, ChordServer, In6Addr}
use tangent.Server.Addr.{is_addr_unspecified}
use tangent.Finger.{Inserted, last_such, succ_finger, pred_finger, deref, chord_update_range}
use tangent.Finger.Search.{In-modify}
use tangent.Finger.Invariant.{IsFingerList}
use tangent.Finger.Insert.{IsInserted, is_own}
use tangent.Crypt.{Crypto, char, short, long, addr_arg, verify_ticket, get_address_id}
use tangent.Send.Messages.{
  chord_fs, chord_ping, chord_addr_discover, Message, addr_discover, addr_discover_reply, data_msg,
  find_successor, find_successor_reply, stabilize, stabilize_reply, notify, ping, pong,
}
use tangent.Send.{send_stab_reply}
use tangent.Process.{returned, ◌>>=◌, or_default, decrement, to_u16, chord_no_error}
use tangent.Process.Peers.{
  heard, elapsed, fs_reply_at, stab_reply_at, process_fs_reply, process_stab, process_stab_reply,
  process_notify, process_ping, pong_at, process_pong,
}
use tangent.Process.Discover.{process_addr_discover, process_addr_discover_reply, learn_address}
use tangent.Process.Route.{
  chord_id_is_local, data_at, process_data, fs_at, process_fs, find_successor_of, successor_answer,
  is_succ_of,
}
use tangent.Process.Handle.{process}
use tangent.Process.Invariant.{
  IsServer, Keeps, kept, activate_and_follow-Keeps, insert-Keeps, copy-Keeps, bind-Keeps, if-Keeps,
  touch-IsServer,
}

module _ (cr : Crypto) (epoch usec : ℕ) (junk : Bool) (srv : ChordServer) (v : IsServer srv) where
  address-IsId : (addr : In6Addr) (port : ℕ) → IsId (get_address_id cr addr port)
  unfolding get_address_id
  address-IsId addr port = cr.sha1-IsId _

  fs_reply_at-Keeps :
      (t addr : List ℕ) (p : ℕ)
      → is_addr_unspecified srv.node.addr ≡ false
      → Keeps true (fs_reply_at cr epoch junk srv t addr p)
  unfolding fs_reply_at
  fs_reply_at-Keeps t addr p known =
      bind-Keeps (verify_ticket cr srv.ticket_salt srv.ticket_hash_len epoch t (char chord_fs ∷ []))
        _
        λ valid.
          if-Keeps (not valid) _ _ (λ _. kept v)
            λ _.
              if-Keeps (is_own srv addr p) _ _ (λ _. kept v)
                λ _. insert-Keeps srv _ addr _ _ v known (address-IsId addr _) (λ ins w r. kept w)

  fs_reply-Keeps :
      (t : Option (List ℕ)) (a : List ℕ) (p : ℕ) (from : Node)
      → Keeps true (process_fs_reply cr epoch junk srv t a p from)
  unfolding process_fs_reply
  fs_reply-Keeps t a p from =
      if-Keeps _ _ _ (λ _. kept v)
        λ known. copy-Keeps 16 a _ (λ addr. fs_reply_at-Keeps _ addr p known)

  stab-Keeps : (a : List ℕ) (p : ℕ) (from : Node) → Keeps true (process_stab cr srv a p from)
  unfolding process_stab
  stab-Keeps a p from =
      if-Keeps _ _ _ (λ _. kept v)
        λ known. copy-Keeps _ _ _ λ addr.
          insert-Keeps srv _ addr _ _ v known (address-IsId addr _) (λ ins w r.
            elim (pred_finger srv)
              as (λ o. Keeps true (elim o [
                | none ↦ returned chord_no_error ins.srv []
                | some old ↦ deref old.loc ins.srv.flist >>= (λ pred.
                    returned chord_no_error ins.srv
                      (send_stab_reply addr (to_u16 p) pred.node.addr pred.node.port ∷ []))
              ])) [
                | none ↦ kept w
                | some old ↦ bind-Keeps (deref old.loc ins.srv.flist) _ (λ pred. kept w)
              ])

  stab_reply_at-Keeps :
      (addr : List ℕ) (p : ℕ)
      → is_addr_unspecified srv.node.addr ≡ false
      → Keeps true (stab_reply_at cr junk srv addr p)
  unfolding stab_reply_at
  stab_reply_at-Keeps addr p known =
      if-Keeps (is_own srv addr p) _ _ (λ _. kept v)
        λ _.
          insert-Keeps srv _ addr _ _ v known (address-IsId addr _)
            (λ ins w r. bind-Keeps (succ_finger ins.srv) _ (λ succ. kept w))

  stab_reply-Keeps :
      (a : List ℕ) (p : ℕ) (from : Node) → Keeps true (process_stab_reply cr junk srv a p from)
  unfolding process_stab_reply
  stab_reply-Keeps a p from =
      if-Keeps _ _ _ (λ _. kept v)
        λ known. copy-Keeps 16 a _ (λ addr. stab_reply_at-Keeps addr p known)

  notify-Keeps : (from : Node) → IsId from.id → Keeps false (process_notify junk srv from)
  unfolding process_notify
  notify-Keeps from h =
      if-Keeps _ _ _ (λ _. kept v) λ known. insert-Keeps srv _ _ _ _ v known h (λ ins w r. kept w)

  ping-Keeps :
      (t : Option (List ℕ)) (time : ℕ) (from : Node)
      → IsId from.id
      → Keeps false (process_ping junk srv t time from)
  unfolding process_ping
  ping-Keeps t time from h =
      if-Keeps _ _ _ (λ _. kept v) λ known. insert-Keeps srv _ _ _ _ v known h (λ ins w r. kept w)

  pong-Keeps :
      (t : Option (List ℕ)) (time : ℕ) (from : Node)
      → IsId from.id
      → Keeps true (process_pong cr epoch usec srv t time from)
  unfolding process_pong pong_at
  pong-Keeps t time from h =
      if-Keeps _ _ _ (λ _. kept v)
        λ known. bind-Keeps checked _ λ valid.
          if-Keeps (not valid) _ _ (λ _. kept v)
            λ _. insert-Keeps srv _ _ _ _ v known h (λ ins w r. touched ins w r)
    where
      checked : Option Bool
      checked =
          verify_ticket cr srv.ticket_salt srv.ticket_hash_len epoch (or_default [] t)
            (char chord_ping ∷ addr_arg from.addr ∷ short from.port ∷ long time ∷ [])

      touch : Finger → Finger
      touch = heard (elapsed usec time)

      touched :
          (ins : Inserted)
          → IsServer ins.srv
          → IsInserted srv from.id (is_own srv from.addr from.port) ins
          → Keeps true (pong_at usec time ins)
      touched ins w r = elim (r.result) [
        | inl (_, e, _, _) ↦ rw e (kept w)
        | inr (_, (f, b, e, _, m, i)) ↦ rw e (
            activate_and_follow-Keeps _ (touch f) (touch-IsServer (elapsed usec time) ins.srv f w)
              (In-modify f touch ins.srv.flist w.table.list.distinct m))
      ]

  discover_reply-Keeps :
      (t : Option (List ℕ)) (a : List ℕ) (from : Node)
      → Keeps true (process_addr_discover_reply cr epoch srv t a from)
  unfolding process_addr_discover_reply learn_address chord_update_range get_address_id pred_finger
      last_such
  discover_reply-Keeps t a from =
      bind-Keeps
        (verify_ticket cr srv.ticket_salt srv.ticket_hash_len epoch (or_default [] t)
          (char chord_addr_discover ∷ addr_arg from.addr ∷ short from.port ∷ []))
        _
        λ valid.
          if-Keeps (not valid) _ _ (λ _. kept v)
            λ _.
              if-Keeps (is_addr_unspecified srv.node.addr) _ _
                (λ new. copy-Keeps 16 a _ (λ addr. kept (learn_address-IsServer addr new)))
                (λ _. kept v)
    where
      l : IsFingerList srv.node.id srv.next_loc srv.num_passive_fingers srv.flist
      l = v.table.list

      learn_address-IsServer :
          (addr : List ℕ)
          → is_addr_unspecified srv.node.addr ≡ true
          → IsServer (learn_address cr srv addr)
      learn_address-IsServer addr new = elim v.undiscovered [
        | inl known ↦ cc
        | inr none_yet ↦ record {
          table = record {
            self = cr.sha1-IsId _;
            list = record {
              ids = l.ids;
              sorted = rw none_yet tt;
              distinct = l.distinct;
              fresh = l.fresh;
              counted = l.counted;
              room = l.room;
              pings = l.pings;
            };
            range = rw none_yet refl;
          };
          undiscovered = inr none_yet;
          turns = v.turns;
        }
      ]

  data_at-Keeps :
      (x : ChordId) (ttl : ℕ) (last : Bool) (d : List ℕ) → Keeps true (data_at srv x ttl last d)
  unfolding data_at
  data_at-Keeps x ttl last d =
      if-Keeps (is_addr_unspecified srv.node.addr) _ _ (λ _. kept v)
        λ _.
          if-Keeps (ttl == 0) _ _ (λ _. kept v)
            λ _. if-Keeps (chord_id_is_local srv x) _ _ (λ _. kept v) (λ _. kept v)

  data-Keeps :
      (id : List ℕ) (ttl : Option ℕ) (last : Option Bool) (d : List ℕ) (from : Node)
      → Keeps true (process_data srv id ttl last d from)
  unfolding process_data
  data-Keeps id ttl last d from =
      copy-Keeps id_bytes id _
        (λ x. data_at-Keeps x (decrement (or_default 32 ttl)) (or_default false last) d)

  find_successor_of-Keeps :
      (id : ChordId) (t : List ℕ) (ttl : ℕ) (a : List ℕ) (p : ℕ)
      → Keeps true (find_successor_of srv id t ttl a p)
  find_successor_of-Keeps id t ttl a p =
      elim (succ_finger srv) as (λ o. Keeps true (successor_answer srv id t ttl a p o)) [
        | none ↦ kept v
        | some succ ↦ if-Keeps (is_succ_of srv id succ) _ _ (λ _. kept v) (λ _. kept v)
      ]

  fs_at-Keeps : (t : List ℕ) (ttl : ℕ) (a : List ℕ) (p : ℕ) → Keeps true (fs_at cr srv t ttl a p)
  unfolding fs_at
  fs_at-Keeps t ttl a p =
      if-Keeps (ttl == 0) _ _ (λ _. kept v)
        λ _. if-Keeps (is_own srv a p) _ _ (λ _. kept v) λ _. find_successor_of-Keeps _ t ttl a p

  fs-Keeps :
      (t : Option (List ℕ)) (ttl : Option ℕ) (a : List ℕ) (p : ℕ) (from : Node)
      → Keeps true (process_fs cr srv t ttl a p from)
  unfolding process_fs
  fs-Keeps t ttl a p from =
      if-Keeps (is_addr_unspecified srv.node.addr) _ _ (λ _. kept v)
        λ _.
          copy-Keeps 16 a _
            (λ addr. fs_at-Keeps (or_default [] t) (decrement (or_default 0 ttl)) addr (to_u16 p))

-- The handlers that copy a field of the packet, read a peer that they looked up, or check a ticket
-- may fault.
abbrev pub may_fault : Message → Bool
may_fault (addr_discover t) = false
may_fault notify = false
may_fault (ping t time) = false
may_fault _ = true

-- On a server in order, every handler, for any packet from a node with an identifier of the right
-- length, either returns a server in order or faults; `addr_discover`, `notify` and `ping` never
-- fault. The sends that a handler asks for come after it.
pub process-Keeps :
    (cr : Crypto) (epoch usec : ℕ) (junk : Bool) (srv : ChordServer) (msg : Message) (from : Node)
    → IsServer srv
    → IsId from.id
    → Keeps (may_fault msg) (process cr epoch usec junk srv msg from)
unfolding process process_addr_discover
process-Keeps cr epoch usec junk srv (addr_discover t) from v h = kept v
process-Keeps cr epoch usec junk srv (addr_discover_reply t a) from v h =
    discover_reply-Keeps cr epoch usec junk srv v t a from
process-Keeps cr epoch usec junk srv (data_msg id ttl last d) from v h =
    data-Keeps cr epoch usec junk srv v id ttl last d from
process-Keeps cr epoch usec junk srv (find_successor t ttl a p) from v h =
    fs-Keeps cr epoch usec junk srv v t ttl a p from
process-Keeps cr epoch usec junk srv (find_successor_reply t a p) from v h =
    fs_reply-Keeps cr epoch usec junk srv v t a p from
process-Keeps cr epoch usec junk srv (stabilize a p) from v h =
    stab-Keeps cr epoch usec junk srv v a p from
process-Keeps cr epoch usec junk srv (stabilize_reply a p) from v h =
    stab_reply-Keeps cr epoch usec junk srv v a p from
process-Keeps cr epoch usec junk srv notify from v h = notify-Keeps cr epoch usec junk srv v from h
process-Keeps cr epoch usec junk srv (ping t time) from v h =
    ping-Keeps cr epoch usec junk srv v t time from h
process-Keeps cr epoch usec junk srv (pong t time) from v h =
    pong-Keeps cr epoch usec junk srv v t time from h
