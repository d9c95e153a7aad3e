-- ===== src/Process/Peers.antt =====
-- The handlers of src/process.c that put peers into the finger list. `junk` is what the local `fnew`
-- holds before `insert_finger`.
use tangent.Base.{
  ℕ, ◌+◌, ◌-◌, ◌%◌, ◌^◌, Bool, true, not, ◌&&◌, Option, none, some, List, [], ◌∷◌, ltb, ◌==◌,
  if◌then◌else◌,
}
use tangent.Base.Int.{ℤ, pos, negsuc}
use tangent.Id.{id_is_between}
use tangent.Server.{Node, Finger, ChordServer, In6Addr}
use tangent.Server.Addr.{is_addr_unspecified, v6_addr_equals}
use tangent.Finger.{
  Inserted, insert_finger, succ_finger, pred_finger, activate_finger, modify, deref, same_finger,
  chord_update_range,
}
use tangent.Finger.Rtt.{update_rtt}
use tangent.Crypt.{Crypto, char, short, long, addr_arg, verify_ticket, get_address_id}
use tangent.Send.{Command, send_ping, send_pong, send_notify, send_stab_reply}
use tangent.Send.Messages.{chord_fs, chord_ping}
use tangent.Process.{
  Outcome, returned, fault, ◌>>=◌, or_default, copy, to_u16, after_insert, chord_no_error,
  chord_invalid_ticket, chord_addr_undiscovered, chord_finger_error,
}

-- `if (fnew) send_ping(...)`.
abbrev pub ping_if : Bool → In6Addr → ℕ → List Command
ping_if fnew addr port = if fnew then send_ping addr port ∷ [] else []

-- `process_fs_reply` from the test of the ticket on.
unfoldable pub fs_reply_at : Crypto → ℕ → Bool → ChordServer → List ℕ → In6Addr → ℕ → Outcome
fs_reply_at cr epoch junk srv ticket addr msg_port =
    verify_ticket cr srv.ticket_salt srv.ticket_hash_len epoch ticket (char chord_fs ∷ [])
    >>= (λ valid.
        if not valid
        then returned chord_invalid_ticket srv []
        else if v6_addr_equals srv.node.addr addr && srv.node.port == msg_port
        then returned chord_no_error srv []
        else insert_finger srv (get_address_id cr addr (to_u16 msg_port)) addr (to_u16 msg_port)
          >>= (λ ins.
              returned chord_no_error ins.srv
                (ping_if (after_insert junk ins.fnew) addr (to_u16 msg_port))))

unfoldable pub process_fs_reply :
    Crypto → ℕ → Bool → ChordServer → Option (List ℕ) → List ℕ → ℕ → Node → Outcome
process_fs_reply cr epoch junk srv ticket msg_addr msg_port from =
    if is_addr_unspecified srv.node.addr
    then returned chord_addr_undiscovered srv []
    else copy 16 msg_addr
      >>= (λ addr. fs_reply_at cr epoch junk srv (or_default [] ticket) addr msg_port)

-- `pred` is found before the insertion and read after it.
unfoldable pub process_stab : Crypto → ChordServer → List ℕ → ℕ → Node → Outcome
process_stab cr srv msg_addr msg_port from =
    if is_addr_unspecified srv.node.addr then returned chord_addr_undiscovered srv [] else do
      addr ← copy 16 msg_addr
      ins ← insert_finger srv (get_address_id cr addr (to_u16 msg_port)) addr (to_u16 msg_port)
      elim (pred_finger srv) [
        | none ↦ returned chord_no_error ins.srv []
        | some old_pred ↦ do
          pred ← deref old_pred.loc ins.srv.flist
          returned chord_no_error ins.srv
              (send_stab_reply addr (to_u16 msg_port) pred.node.addr pred.node.port ∷ [])
      ]

-- `process_stab_reply` from the test of the own address on. `succ` is NULL where no finger is active,
-- and `&succ->node.addr` is then read.
unfoldable pub stab_reply_at : Crypto → Bool → ChordServer → In6Addr → ℕ → Outcome
stab_reply_at cr junk srv addr msg_port =
    if v6_addr_equals srv.node.addr addr && srv.node.port == msg_port
    then returned chord_no_error srv []
    else do
      ins ← insert_finger srv (get_address_id cr addr (to_u16 msg_port)) addr (to_u16 msg_port)
      succ ← succ_finger ins.srv
      returned chord_no_error ins.srv (
          send_notify succ.node.addr succ.node.port
          ∷ ping_if (after_insert junk ins.fnew) addr (to_u16 msg_port))

unfoldable pub process_stab_reply : Crypto → Bool → ChordServer → List ℕ → ℕ → Node → Outcome
process_stab_reply cr junk srv msg_addr msg_port from =
    if is_addr_unspecified srv.node.addr
    then returned chord_addr_undiscovered srv []
    else copy 16 msg_addr >>= (λ addr. stab_reply_at cr junk srv addr msg_port)

unfoldable pub process_notify : Bool → ChordServer → Node → Outcome
process_notify junk srv from =
    if is_addr_unspecified srv.node.addr then returned chord_addr_undiscovered srv [] else do
      ins ← insert_finger srv from.id from.addr from.port
      returned chord_no_error ins.srv (ping_if (after_insert junk ins.fnew) from.addr from.port)

-- A new finger is pinged if it may become the predecessor.
abbrev pub may_precede : ChordServer → Node → Bool
may_precede srv from = elim (pred_finger srv) [
  | none ↦ true
  | some pred ↦ id_is_between from.id pred.node.id srv.node.id
]

unfoldable pub process_ping : Bool → ChordServer → Option (List ℕ) → ℕ → Node → Outcome
process_ping junk srv ticket time from =
    if is_addr_unspecified srv.node.addr then returned chord_addr_undiscovered srv [] else do
      ins ← insert_finger srv from.id from.addr from.port
      let pong_back = send_pong from.addr from.port (or_default [] ticket) time
      returned chord_no_error ins.srv (
          if after_insert junk ins.fnew && may_precede ins.srv from
          then send_ping from.addr from.port ∷ pong_back ∷ []
          else pong_back ∷ [])

-- `(long)(get_current_time() - msg->time)` on 64 bits.
unfoldable pub elapsed : ℕ → ℕ → ℤ
elapsed usec time =
    let new_rtt = (usec + 2 ^ 64 - time) % 2 ^ 64 in
    if ltb new_rtt (2 ^ 63) then pos new_rtt else negsuc (2 ^ 64 - new_rtt - 1)

-- `f->npings = 0` and the new round trip estimate.
abbrev pub heard : ℤ → Finger → Finger
heard new_rtt f =
    let (avg, dev) = update_rtt f.rtt_avg f.rtt_dev new_rtt in
    record f { npings = 0; rtt_avg = avg; rtt_dev = dev }

-- `activate_finger` with the predecessor before and after: the assertion, and the range.
unfoldable pub activate_and_follow : ChordServer → Finger → Outcome
activate_and_follow srv f =
    let pred = pred_finger srv in
    let activated = activate_finger srv f in
    elim (pred_finger activated) [
      | none ↦ if same_finger pred none then returned chord_no_error activated [] else fault
      | some newpred ↦
          if same_finger pred (some newpred)
          then returned chord_no_error activated []
          else returned chord_no_error
              (chord_update_range activated newpred.node.id activated.node.id) []
    ]

-- `process_pong` behind the call of `insert_finger`.
unfoldable pub pong_at : ℕ → ℕ → Inserted → Outcome
pong_at usec time ins = elim ins.finger [
  | none ↦ returned chord_finger_error ins.srv []
  | some f ↦
      let touch = heard (elapsed usec time) in
      activate_and_follow (record (ins.srv) { flist = modify f.loc touch ins.srv.flist }) (touch f)
]

unfoldable pub process_pong : Crypto → ℕ → ℕ → ChordServer → Option (List ℕ) → ℕ → Node → Outcome
process_pong cr epoch usec srv ticket time from =
    if is_addr_unspecified srv.node.addr
    then returned chord_addr_undiscovered srv []
    else verify_ticket cr srv.ticket_salt srv.ticket_hash_len epoch (or_default [] ticket)
        (char chord_ping ∷ addr_arg from.addr ∷ short from.port ∷ long time ∷ [])
      >>= (λ valid.
          if not valid
          then returned chord_invalid_ticket srv []
          else insert_finger srv from.id from.addr from.port >>= (λ ins. pong_at usec time ins))
