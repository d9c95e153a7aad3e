-- ===== src/Stabilize.antt =====
-- src/stabilize.c: `ping`, `fix_fingers` and `fix_succs_preds`, and src/join.c; the children Clean and
-- Round have `clean_finger_list` and `stabilize`. A function returns the
-- server and the commands that it gave. Identifiers that are drawn at random and never sent are left
-- out, and so is logging; the texts of addresses that `ping` writes are in Round/Sends.
pub mod Pings
pub mod Queries
pub mod Silent
pub mod Receivers
pub mod Clean
pub mod Round
mod Tests
use tangent.Base.{
  ℕ, zero, suc, ◌+◌, ◌-◌, ◌%◌, Bool, true, false, not, ◌&&◌, ◌||◌, Option, none, some, List, [],
  ◌∷◌, ◌++◌, map, length, leb, ltb, ◌==◌, if◌then◌else◌,
}
use tangent.Id.{ChordId, id_is_between, chord_id_successor}
use tangent.Server.{
  Node, Finger, ChordServer, nfingers, nsuccessors, npredecessors, ping_thresh, def_ttl,
}
use tangent.Server.Addr.{is_addr_unspecified}
use tangent.Finger.{is_active, succ_finger, closest_preceding_finger, modify, remove_finger}
use tangent.Send.{Command, send_fs, send_ping, send_addr_discover}

-- `f->npings++`.
abbrev pub count_ping : Finger → Finger
count_ping g = record g { npings = g.npings + 1 }

-- One turn of the loop of `ping`, at the `i`-th finger: the server, the commands, and whether `f` is
-- the finger whose turn it is.
unfoldable pub ping_one : ChordServer → Finger → ℕ → ChordServer × List Command × Bool
ping_one srv f i =
    if leb ping_thresh f.npings
    then (remove_finger srv f, [], false)
    else if not (f.npings == 0) || srv.to_ping == i
    then (
      record srv { flist = modify f.loc count_ping srv.flist },
      send_ping f.node.addr f.node.port ∷ [],
      srv.to_ping == i,
    )
    else (srv, [], false)

-- The loop over the cells of the list, which removes none but the one it is at. The last result is
-- the address in `f_pinged`.
unfoldable pub ping_from :
    ChordServer → List Finger → ℕ → Option ℕ → ChordServer × List Command × Option ℕ
ping_from srv [] i f_pinged = (srv, [], f_pinged)
ping_from srv (f ∷ fs) i f_pinged =
    let (s, cmds, hit) = ping_one srv f i in
    let (t, later, pinged) = ping_from s fs (i + 1) (if hit then some f.loc else f_pinged) in
    (t, cmds ++ later, pinged)

-- `f->next` for the cell at `loc`, tested for NULL.
unfoldable pub has_next : ℕ → List Finger → Bool
has_next loc [] = false
has_next loc (f ∷ []) = false
has_next loc (f ∷ g ∷ fs) = let rest = has_next loc (g ∷ fs) in if f.loc == loc then true else rest

-- The finger whose turn comes next.
abbrev next_turn : ChordServer → Option ℕ → ℕ
next_turn srv none = 0
next_turn srv (some loc) = if has_next loc srv.flist then srv.to_ping + 1 else 0

unfoldable pub ping : ChordServer → ChordServer × List Command
ping srv =
    let (t, cmds, f_pinged) = ping_from srv srv.flist 0 none in
    (record t { to_ping = next_turn t f_pinged }, cmds)

-- The loop over the well-known nodes: `i` is counted up before it is compared.
unfoldable pub ask_well_known : ChordServer → List Node → ℕ → ℕ → List Command
ask_well_known srv [] i rnd_node_idx = []
ask_well_known srv (node ∷ nodes) i rnd_node_idx =
    let rest = ask_well_known srv nodes (i + 1) rnd_node_idx in
    if i + 1 == rnd_node_idx
    then send_fs node.addr node.port def_ttl srv.node.addr srv.node.port ∷ rest
    else rest

-- Whether the proper fingers that are nearer than the successor have been reached.
abbrev pub is_restart : ChordServer → Finger → Bool
is_restart srv succ =
    id_is_between (chord_id_successor srv.node.id srv.to_fix_finger) srv.node.id succ.node.id
    || srv.to_fix_finger == 0

-- The queries sent to one finger: one more, for a better predecessor, on each restart.
abbrev pub ask_finger : ChordServer → Node → List Command
ask_finger srv node =
    let query = send_fs node.addr node.port def_ttl srv.node.addr srv.node.port in
    if srv.to_fix_finger == nfingers - 1 && not (length srv.flist == 0)
    then query ∷ query ∷ []
    else query ∷ []

-- `if (f == NULL) f = succ`.
abbrev pub or_settle : Option Finger → Finger → Finger
or_settle none succ = succ
or_settle (some c) succ = c

-- `rnd` is what `random()` returns for the well-known node. `none` is a read through a NULL `succ`.
unfoldable pub fix_fingers : ChordServer → ℕ → Option (ChordServer × List Command)
fix_fingers srv rnd = elim (succ_finger srv) [
  | none ↦ none
  | some succ ↦
      let restart = is_restart srv succ in
      let to_fix = if restart then nfingers - 1 else srv.to_fix_finger - 1 in
      let t = record srv { to_fix_finger = to_fix } in
      let known = length srv.well_known in
      let asked =
        if restart && ltb 0 known then ask_well_known srv srv.well_known 0 (rnd % known) else [] in
      let to_id = chord_id_successor srv.node.id (nfingers - 1) in
      let f = or_settle (closest_preceding_finger srv to_id false) succ in
      some (t, asked ++ ask_finger t f.node)
]

-- The cells in the order of the `prev` links.
unfoldable pub backwards : List Finger → List Finger
backwards [] = []
backwards (f ∷ fs) = backwards fs ++ (f ∷ [])

-- The cells from the first active one on, in the order of a chain.
unfoldable pub from_active : List Finger → List Finger
from_active [] = []
from_active (f ∷ fs) = if is_active f then f ∷ fs else from_active fs

-- Goes on `k` cells, while there is a next one.
unfoldable pub forward : ℕ → List Finger → List Finger
forward zero fs = fs
forward (suc k) [] = []
forward (suc k) (f ∷ []) = f ∷ []
forward (suc k) (f ∷ g ∷ fs) = forward k (g ∷ fs)

-- The query for the server's own address, to a finger.
abbrev pub ask : ChordServer → Finger → Command
ask srv f = send_fs f.node.addr f.node.port def_ttl srv.node.addr srv.node.port

-- The loop over the predecessors, along the `prev` links from the closest one; `succ` is the successor
-- that has been asked.
unfoldable pub fix_preds : ChordServer → Finger → ℕ → List Finger → List Command
fix_preds srv succ k [] = []
fix_preds srv succ k (f ∷ []) = []
fix_preds srv succ k (f ∷ g ∷ fs) =
    let later = fix_preds srv succ (k + 1) (g ∷ fs) in
    if not (ltb k npredecessors)
    then []
    else if not (has_next f.loc srv.flist)
    then later
    else if f.loc == succ.loc
    then []
    else if k == srv.to_fix_backup
    then ask srv f ∷ []
    else later

abbrev pub next_backup : ℕ → ℕ
next_backup k = if leb nsuccessors (k + 1) then 0 else k + 1

unfoldable pub fix_succs_preds : ChordServer → ChordServer × List Command
fix_succs_preds srv = elim (forward srv.to_fix_backup (from_active srv.flist)) [
  | [] ↦ (srv, [])
  | f ∷ rest ↦ if length rest == 0 then (record srv { to_fix_backup = 0 }, []) else (
    record srv { to_fix_backup = next_backup srv.to_fix_backup },
    ask srv f ∷ fix_preds srv f 0 (from_active (backwards srv.flist)),
  )
]

-- `discover_addr` of src/join.c.
unfoldable pub discover_addr : ChordServer → List Command
discover_addr srv =
    if not (is_addr_unspecified srv.node.addr)
    then []
    else map (λ node. send_addr_discover node.addr node.port) srv.well_known
