-- ===== src/Stabilize/Round/Keeps.antt =====
-- `stabilize` of src/stabilize.c on the table of a server, and to whom its commands go.
use tangent.Base.{
  ℕ, ◌+◌, ◌%◌, ◌^◌, ◌<◌, ◌≡◌, inl, inr, refl, ap, ◌∙◌, All, All-append, false, Option, none, some,
  List, [], ◌∷◌, ◌++◌, leb, ◌==◌, arith, Bool-cases, Option-cases,
}
use tangent.Server.{Node, Finger, ChordServer, nfingers, nsuccessors}
use tangent.Server.Addr.{is_addr_unspecified}
use tangent.Finger.{is_active, succ_finger, pred_finger}
use tangent.Finger.Search.{All-In, first_such-some, last_such-some}
use tangent.Finger.Invariant.{pred_finger-none}
use tangent.Send.{Command, send_ping}
use tangent.Process.Invariant.{IsServer, SameTurns-InTurn}
use tangent.Stabilize.Receivers.{
  IsTo, ping_to, stab_to, Peers, Peers-In, ping-Peers, IsQuery-IsTo, IsLookup-IsTo,
  ask_to_join-IsTo,
}
use tangent.Stabilize.{ping, fix_succs_preds}
use tangent.Stabilize.Pings.{ping-IsTable, ping-same}
use tangent.Stabilize.Queries.{fix_succs_preds-IsQuery, fix_fingers-IsLookup}
use tangent.Stabilize.Clean.Kept.{clean_finger_list-spares_backups}
use tangent.Stabilize.Clean.Removal.{Removes-IsRest}
use tangent.Stabilize.Round.{
  period_ping_pred, chord_clean_period, ping_pred, count_round, clean_now, stabilize_successor,
  stabilize_listed, stabilize,
}

-- The result of a round is a server in order, and its commands go to nodes with `P`.
data IsRound (P : Node → Type 0) : Option (ChordServer × List Command × ℕ) → Type 0 where
  round :
      {t : ChordServer} {cmds : List Command} {next : ℕ}
      → IsServer t
      → All (IsTo P) cmds
      → IsRound P (some (t, cmds, next))

round_result :
    {P : Node → Type 0} (r : Option (ChordServer × List Command × ℕ))
    → IsRound P r
    → (t : ChordServer) × (cmds : List Command) × (next : ℕ) × (r ≡ some (t, cmds, next))
      × IsServer t
      × All (IsTo P) cmds
round_result none w = elim w [ ]
round_result (some (t, cmds, next)) (round w a) = (t, cmds, next, refl, w, a)

-- A server with fingers has learnt its address.
has_address :
    (srv : ChordServer) (f : Finger) (fs : List Finger)
    → IsServer srv
    → srv.flist ≡ f ∷ fs
    → is_addr_unspecified srv.node.addr ≡ false
has_address srv f fs v e = elim v.undiscovered [ inl known ↦ known | inr none_yet ↦ cc ]

-- After its round of pings a server is in order, and knows its address as before.
pinged-IsServer :
    (srv : ChordServer)
    → IsServer srv
    → is_addr_unspecified srv.node.addr ≡ false
    → IsServer (ping srv).0
pinged-IsServer srv v known =
    let (node, turns) = ping-same srv v.table in
    record {
      table = ping-IsTable srv v.table;
      undiscovered = inl (ap (λ n. is_addr_unspecified n.addr) node ∙ known);
      turns = SameTurns-InTurn srv (ping srv).0 turns v.turns;
    }

-- With a successor there is a predecessor, so the assertion holds.
ping_pred-some :
    (P : Node → Type 0) (idx : ℕ) (srv : ChordServer) (succ : Finger)
    → Peers P srv
    → succ_finger srv ≡ some succ
    → (cmds : List Command) × (ping_pred idx srv ≡ some cmds) × All (IsTo P) cmds
unfolding ping_pred succ_finger pred_finger
ping_pred-some P idx srv succ p e = elim (Bool-cases (idx % period_ping_pred == 0)) [
  | inr later ↦ ([], rw later, tt)
  | inl now ↦ elim (Option-cases (pred_finger srv)) [
    | inr (pred, found) ↦ (
      send_ping pred.node.addr pred.node.port ∷ [],
      rw (now, found, ping_pred),
      (
        ping_to pred.node (Peers-In P srv pred p (last_such-some is_active srv.flist pred found).0),
        tt,
      ),
    )
    | inl gone ↦
        let (m, up) = first_such-some is_active srv.flist succ e in
        let down = All-In (λ f. is_active f ≡ false) succ srv.flist (pred_finger-none srv gone) m in
        cc
  ]
]

clean_now-IsServer :
    (idx : ℕ) (srv : ChordServer)
    → IsServer srv
    → is_addr_unspecified srv.node.addr ≡ false
    → (t : ChordServer) × (clean_now idx srv ≡ some t) × IsServer t
unfolding clean_now
clean_now-IsServer idx srv v known = elim (Bool-cases (idx % chord_clean_period == 0)) [
  | inr later ↦ (srv, rw later, v)
  | inl now ↦
      let (t, e, a) = clean_finger_list-spares_backups srv v.table in
      let r = Removes-IsRest _ srv t v.table a in
      (
        t,
        rw (now, e),
        record {
          table = r.table;
          undiscovered = inl (ap (λ n. is_addr_unspecified n.addr) r.same_node ∙ known);
          turns = SameTurns-InTurn srv t r.same_turns v.turns;
        },
      )
]

-- A server in order with other counters in range is in order.
with_turns :
    (srv : ChordServer) (k b : ℕ)
    → IsServer srv
    → k < nfingers
    → b < nsuccessors
    → IsServer (record srv { to_fix_finger = k; to_fix_backup = b })
unfolding pred_finger
with_turns srv k b v hk hb = record {
  table = record { self = v.table.self; list = v.table.list; range = v.table.range };
  undiscovered = v.undiscovered;
  turns = (hk, hb);
}

stabilize_successor-IsRound :
    (P : Node → Type 0) (idx rnd : ℕ) (srv : ChordServer) (pings : List Command) (succ : Finger)
    → IsServer srv
    → Peers P srv
    → All (IsTo P) pings
    → is_addr_unspecified srv.node.addr ≡ false
    → idx + 1 < 2 ^ 31
    → succ_finger srv ≡ some succ
    → IsRound P (stabilize_successor idx rnd srv pings succ)
unfolding stabilize_successor count_round succ_finger
stabilize_successor-IsRound P idx rnd srv pings succ v p pinged known small e =
    let (pred, e_pred, to_pred) = ping_pred-some P idx srv succ p e in
    let ((b, hb, e_backup), queries) = fix_succs_preds-IsQuery srv v.turns.1 in
    let s = record srv { to_fix_backup = b } in
    let (k, cmds, hk, e_fix, lookups) = fix_fingers-IsLookup s rnd succ e v.turns.0 in
    let same_peers : Peers P s = record { fingers = p.fingers; well_known = p.well_known } in
    let succ_known = Peers-In P srv succ p (first_such-some is_active srv.flist succ e).0 in
    let asked =
      All-append (IsTo P) (pred ++ (fix_succs_preds srv).1) cmds
        (All-append (IsTo P) pred (fix_succs_preds srv).1 to_pred
          (IsQuery-IsTo P srv (fix_succs_preds srv).1 p queries))
        (IsLookup-IsTo P s cmds same_peers lookups) in
    let sent =
      All-append (IsTo P) pings _ pinged
        (stab_to succ.node srv.node.addr srv.node.port succ_known, asked) in
    let counted : leb (2 ^ 31) (idx + 1) ≡ false = ground arith in
    let (t, e_clean, w) =
      clean_now-IsServer idx (record srv { to_fix_finger = k; to_fix_backup = b })
        (with_turns srv k b v hk hb) known in
    rw (e_pred, e_backup, e_fix, counted, e_clean, stabilize_successor) (round w sent)

-- At every server in order, and until its counter of rounds reaches 2 ^ 31 - 1, the steps of a round
-- of `stabilize` on the table come to their end and leave a server in order: the assertion that there
-- is a predecessor holds. If `P` holds of all fingers and well-known nodes, it holds of all receivers.
pub stabilize-IsServer :
    (P : Node → Type 0) (idx rnd : ℕ) (srv : ChordServer)
    → IsServer srv
    → Peers P srv
    → idx + 1 < 2 ^ 31
    → (t : ChordServer) × (cmds : List Command) × (next : ℕ) × (stabilize idx rnd srv
        ≡ some (t, cmds, next))
      × IsServer t
      × All (IsTo P) cmds
unfolding stabilize stabilize_listed
stabilize-IsServer P idx rnd srv v p small =
    round_result (stabilize idx rnd srv) (by_list srv.flist refl)
  where
    by_list : (fs : List Finger) → srv.flist ≡ fs → IsRound P (stabilize idx rnd srv)
    by_list [] e = rw (e, stabilize) (round v (ask_to_join-IsTo P srv srv.well_known p.well_known))
    by_list (f ∷ fs) e =
        let known = has_address srv f fs v e in
        let w = pinged-IsServer srv v known in
        let (kept, sent) = ping-Peers P srv v.table p in
        let told = ap (λ n. is_addr_unspecified n.addr) (ping-same srv v.table).0 ∙ known in
        elim (Option-cases (succ_finger (ping srv).0)) [
          | inl none_active ↦ rw (e, none_active, stabilize, stabilize_listed) (round w sent)
          | inr (succ, found) ↦
              rw (e, found, stabilize, stabilize_listed)
                (stabilize_successor-IsRound P idx rnd (ping srv).0 (ping srv).1 succ w kept sent
                  told small found)
        ]
