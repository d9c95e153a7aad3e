-- ===== src/Stabilize/Queries.antt =====
-- The queries of `fix_succs_preds` and `fix_fingers` in src/stabilize.c: to whom they go, and that the
-- round-robin counters stay in range.
use tangent.Base.{
  ℕ, zero, suc, ◌+◌, ◌-◌, ◌%◌, ◌<◌, ◌≡◌, ◌⊎◌, inl, inr, refl, subst, false, not, ◌&&◌, Option, none,
  some, List, [], ◌∷◌, ◌++◌, All, All-append, length, ltb, ◌==◌, if◌then◌else◌, arith, Bool-cases,
}
use tangent.Server.{Node, Finger, ChordServer, nfingers, nsuccessors, npredecessors, def_ttl}
use tangent.Id.{ChordId, chord_id_successor}
use tangent.Finger.{is_active, succ_finger, closest_preceding_finger}
use tangent.Finger.Search.{In, All-self, first_such-some, last_such-some}
use tangent.Send.{Command, send_fs}
use tangent.Stabilize.{
  backwards, from_active, forward, ask, fix_preds, has_next, next_backup, fix_succs_preds,
  ask_well_known, ask_finger, is_restart, or_settle, fix_fingers,
}

-- A query for the server's own address, to a finger of its list.
pub data IsQuery (srv : ChordServer) : Command → Type 0 where
  query : (f : Finger) → In f srv.flist → IsQuery srv (ask srv f)

pub All-backwards {κ} : (P : Finger → Type κ) (fs : List Finger) → All P fs → All P (backwards fs)
unfolding backwards
All-backwards P [] h = tt
All-backwards P (f ∷ fs) h = All-append P (backwards fs) (f ∷ []) (All-backwards P fs h.1) (h.0, tt)

All-from_active {κ} : (P : Finger → Type κ) (fs : List Finger) → All P fs → All P (from_active fs)
unfolding from_active
All-from_active P [] h = tt
All-from_active P (f ∷ fs) h = elim (Bool-cases (is_active f)) [
  | inl e ↦ rw e h
  | inr e ↦ rw e (All-from_active P fs h.1)
]

All-forward {κ} : (P : Finger → Type κ) (k : ℕ) (fs : List Finger) → All P fs → All P (forward k fs)
unfolding forward
All-forward P zero fs h = h
All-forward P (suc k) [] h = tt
All-forward P (suc k) (f ∷ []) h = h
All-forward P (suc k) (f ∷ g ∷ fs) h = All-forward P k (g ∷ fs) h.1

fix_preds-IsQuery :
    (srv : ChordServer) (succ : Finger) (k : ℕ) (fs : List Finger)
    → All (λ f. In f srv.flist) fs
    → All (IsQuery srv) (fix_preds srv succ k fs)
unfolding fix_preds
fix_preds-IsQuery srv succ k [] h = tt
fix_preds-IsQuery srv succ k (f ∷ []) h = tt
fix_preds-IsQuery srv succ k (f ∷ g ∷ fs) h =
    let later = fix_preds-IsQuery srv succ (k + 1) (g ∷ fs) h.1 in
    elim (Bool-cases (not (ltb k npredecessors))) [
      | inl e ↦ rw e tt
      | inr e ↦ elim (Bool-cases (not (has_next f.loc srv.flist))) [
        | inl e2 ↦ rw (e, e2) later
        | inr e2 ↦ elim (Bool-cases (f.loc == succ.loc)) [
          | inl e3 ↦ rw (e, e2, e3) tt
          | inr e3 ↦ elim (Bool-cases (k == srv.to_fix_backup)) [
            | inl e4 ↦ rw (e, e2, e3, e4) (query f h.0, tt)
            | inr e4 ↦ rw (e, e2, e3, e4) later
          ]
        ]
      ]
    ]

-- From a counter below the number of backup successors, a round of `fix_succs_preds` keeps it
-- there, changes nothing else, and sends queries for the server's own address to fingers of its
-- list only.
pub fix_succs_preds-IsQuery :
    (srv : ChordServer)
    → srv.to_fix_backup < nsuccessors
    → ((k : ℕ) × (k < nsuccessors) × ((fix_succs_preds srv).0 ≡ record srv { to_fix_backup = k }))
      × All (IsQuery srv) (fix_succs_preds srv).1
unfolding fix_succs_preds
fix_succs_preds-IsQuery srv small =
    by_chain (forward srv.to_fix_backup (from_active srv.flist)) refl
  where
    by_chain :
        (l : List Finger)
        → forward srv.to_fix_backup (from_active srv.flist) ≡ l
        → ((k : ℕ) × (k < nsuccessors)
            × ((fix_succs_preds srv).0 ≡ record srv { to_fix_backup = k }))
          × All (IsQuery srv) (fix_succs_preds srv).1
    by_chain [] e = rw (e, fix_succs_preds) ((srv.to_fix_backup, small, refl), tt)
    by_chain (f ∷ rest) e = elim (Bool-cases (length rest == 0)) [
      | inl last ↦ rw (e, fix_succs_preds, last) ((0, omega arith, refl), tt)
      | inr more ↦
          let chain = subst (All (λ g. In g srv.flist)) e (
            All-forward _ srv.to_fix_backup (from_active srv.flist)
              (All-from_active _ srv.flist (All-self srv.flist))) in
          rw (e, fix_succs_preds, more)
            (
              (next_backup srv.to_fix_backup, ground arith, refl),
              (
                query f chain.0,
                fix_preds-IsQuery srv f 0 _ (
                    All-from_active _ (backwards srv.flist)
                      (All-backwards _ srv.flist (All-self srv.flist))),
              ),
            )
    ]

abbrev pub InNodes : Node → List Node → Type 0
InNodes n [] = ⊥
InNodes n (m ∷ ms) = (n ≡ m) ⊎ InNodes n ms

-- A query for the server's own address, to a finger of its list or to a well-known node.
pub data IsLookup (srv : ChordServer) : Command → Type 0 where
  to_finger : (f : Finger) → In f srv.flist → IsLookup srv (ask srv f)
  to_well_known :
      (n : Node)
      → InNodes n srv.well_known
      → IsLookup srv (send_fs n.addr n.port def_ttl srv.node.addr srv.node.port)

ask_well_known-IsLookup :
    (srv : ChordServer) (nodes : List Node) (i idx : ℕ)
    → ((n : Node) → InNodes n nodes → InNodes n srv.well_known)
    → All (IsLookup srv) (ask_well_known srv nodes i idx)
unfolding ask_well_known
ask_well_known-IsLookup srv [] i idx sub = tt
ask_well_known-IsLookup srv (m ∷ ms) i idx sub =
    let rest = ask_well_known-IsLookup srv ms (i + 1) idx (λ n k. sub n (inr k)) in
    elim (Bool-cases (i + 1 == idx)) [
      | inl e ↦ rw e (to_well_known m (sub m (inl refl)), rest)
      | inr e ↦ rw e rest
    ]

ask_finger-IsLookup :
    (srv : ChordServer) (k : ℕ) (f : Finger)
    → In f srv.flist
    → All (IsLookup srv) (ask_finger (record srv { to_fix_finger = k }) f.node)
ask_finger-IsLookup srv k f m =
    elim (Bool-cases (k == nfingers - 1 && not (length srv.flist == 0))) [
      | inl e ↦ rw e (to_finger f m, (to_finger f m, tt))
      | inr e ↦ rw e (to_finger f m, tt)
    ]

or_settle-In :
    (fs : List Finger) (o : Option Finger) (succ : Finger)
    → ((c : Finger) → o ≡ some c → In c fs)
    → In succ fs
    → In (or_settle o succ) fs
or_settle-In fs none succ found m = m
or_settle-In fs (some c) succ found m = found c refl

-- A server with an active finger and its counter in range finishes a round of `fix_fingers`:
-- the counter stays below the number of fingers, nothing else changes, and every query is for
-- the server's own address and goes to a finger of its list or to a well-known node. The source's
-- comment says that a random id between us and our successor is asked for; the code draws that id
-- and does not send it, so that the comment is wrong of the query that is sent.
pub fix_fingers-IsLookup :
    (srv : ChordServer) (rnd : ℕ) (succ : Finger)
    → succ_finger srv ≡ some succ
    → srv.to_fix_finger < nfingers
    → (k : ℕ) × (cmds : List Command) × (k < nfingers)
      × (fix_fingers srv rnd ≡ some (record srv { to_fix_finger = k }, cmds))
      × All (IsLookup srv) cmds
unfolding fix_fingers succ_finger closest_preceding_finger
fix_fingers-IsLookup srv rnd succ e small = (
  to_fix,
  asked ++ ask_finger (record srv { to_fix_finger = to_fix }) target.node,
  in_range,
  rw (e, fix_fingers),
  All-append (IsLookup srv) asked _ known (ask_finger-IsLookup srv to_fix target member),
)
  where
    to_id : ChordId
    to_id = chord_id_successor srv.node.id (nfingers - 1)

    to_fix : ℕ
    to_fix = if is_restart srv succ then nfingers - 1 else srv.to_fix_finger - 1

    in_range : to_fix < nfingers
    in_range = ground arith

    asked : List Command
    asked =
        if is_restart srv succ && ltb 0 (length srv.well_known)
        then ask_well_known srv srv.well_known 0 (rnd % length srv.well_known)
        else []

    known : All (IsLookup srv) asked
    known = elim (Bool-cases (is_restart srv succ && ltb 0 (length srv.well_known))) [
      | inl t ↦ rw t (ask_well_known-IsLookup srv srv.well_known 0 _ (λ n k. k))
      | inr t ↦ rw t tt
    ]

    target : Finger
    target = or_settle (closest_preceding_finger srv to_id false) succ

    member : In target srv.flist
    member =
        or_settle-In srv.flist (closest_preceding_finger srv to_id false) succ
          (λ c t. (last_such-some _ srv.flist c t).0) (first_such-some is_active srv.flist succ e).0
