-- ===== src/Stabilize/Round.antt =====
-- `stabilize` of src/stabilize.c. Its static `idx` is an argument and a result.
pub mod Keeps
pub mod Sends
use tangent.Base.{
  ℕ, ◌+◌, ◌%◌, ◌^◌, Bool, Option, none, some, List, [], ◌∷◌, ◌++◌, leb, ◌==◌, if◌then◌else◌,
}
use tangent.Base.Bind.{◌>>=◌}
use tangent.Server.{Node, Finger, ChordServer, def_ttl}
use tangent.Finger.{succ_finger, pred_finger}
use tangent.Send.{Command, send_fs, send_ping, send_stab}
use tangent.Stabilize.{ping, fix_succs_preds, fix_fingers}
use tangent.Stabilize.Clean.{clean_finger_list}

abbrev pub period_ping_pred : ℕ
period_ping_pred = 5

abbrev pub chord_clean_period : ℕ
chord_clean_period = 60

-- While there is no finger: the loop over the well-known nodes.
unfoldable pub ask_to_join : ChordServer → List Node → List Command
ask_to_join srv [] = []
ask_to_join srv (node ∷ nodes) =
    send_fs node.addr node.port def_ttl srv.node.addr srv.node.port
    ∷ send_ping node.addr node.port
    ∷ ask_to_join srv nodes

-- `none` is the failed assertion that there is a predecessor.
unfoldable pub ping_pred : ℕ → ChordServer → Option (List Command)
ping_pred idx srv =
    if idx % period_ping_pred == 0
    then (elim (pred_finger srv) [
      | none ↦ none
      | some pred ↦ some (send_ping pred.node.addr pred.node.port ∷ [])
    ])
    else some []

-- `idx++`; `none` is the overflow of an `int`.
unfoldable pub count_round : ℕ → Option ℕ
count_round idx = if leb (2 ^ 31) (idx + 1) then none else some (idx + 1)

unfoldable pub clean_now : ℕ → ChordServer → Option ChordServer
clean_now idx srv = if idx % chord_clean_period == 0 then clean_finger_list srv else some srv

-- From the message to the successor on.
unfoldable pub stabilize_successor :
    ℕ → ℕ → ChordServer → List Command → Finger → Option (ChordServer × List Command × ℕ)
stabilize_successor idx rnd srv pings succ = do
  pred ← ping_pred idx srv
  fixed ← fix_fingers (fix_succs_preds srv).0 rnd
  next ← count_round idx
  cleaned ← clean_now idx fixed.0
  some (
    cleaned,
    pings
        ++ (send_stab succ.node.addr succ.node.port srv.node.addr srv.node.port ∷ pred
            ++ (fix_succs_preds srv).1
            ++ fixed.1),
    next,
  )

unfoldable pub stabilize_listed : ℕ → ℕ → ChordServer → Option (ChordServer × List Command × ℕ)
stabilize_listed idx rnd srv =
    let (pinged, pings) = ping srv in
    elim (succ_finger pinged) [
      | none ↦ some (pinged, pings, idx)
      | some succ ↦ stabilize_successor idx rnd pinged pings succ
    ]

-- `rnd` is what `random()` returns in `fix_fingers`.
unfoldable pub stabilize : ℕ → ℕ → ChordServer → Option (ChordServer × List Command × ℕ)
stabilize idx rnd srv = elim srv.flist [
  | [] ↦ some (srv, ask_to_join srv srv.well_known, idx)
  | f ∷ fs ↦ stabilize_listed idx rnd srv
]
