-- ===== src/Text/Nodes.antt =====
-- The functions of src/util.c that print identifiers, nodes, fingers and servers.
use Prim.Native.String.{String}
use tangent.Base.{
  ℕ, ◌+◌, ◌%◌, ◌^◌, Option, none, some, List, [], ◌∷◌, ◌++◌, map, take, drop, if◌then◌else◌,
}
use tangent.Base.Int.{pos}
use tangent.Id.{ChordId}
use tangent.Server.{In6Addr, Node, Finger, Status, passive, active, ChordServer}
use tangent.Server.Addr.{v4_mapped}
use tangent.Text.Pieces.{lit, dec, hex2, str, Out}

-- Without CHORD_PRINT_LONG_IDS.
unfoldable pub print_chord_id : Option ChordId → Out
print_chord_id none = lit "<null>" ∷ []
print_chord_id (some id) = map hex2 (take 4 id)

unfoldable pub print_two_chord_ids : List ℕ → ChordId → List ℕ → ChordId → List ℕ → Out
print_two_chord_ids prefix id1 middle id2 suffix =
    (str prefix ∷ print_chord_id (some id1))
    ++ (str middle ∷ print_chord_id (some id2))
    ++ (str suffix ∷ [])

-- The time of the clock in microseconds, cut to 32 bits, without CHORD_PRINT_LONG_TIME.
unfoldable pub print_current_time : ℕ → String → String → Out
print_current_time wall_time prefix suffix =
    lit prefix ∷ dec (pos (wall_time % 2 ^ 32)) ∷ lit suffix ∷ []

-- `inet_ntop` for the two families is a parameter.
pub record Inet : Type 0 where
  pub ntop4 : List ℕ → List ℕ
  pub ntop6 : List ℕ → List ℕ

module _ (inet : Inet) where
  unfoldable pub v6addr_to_str : In6Addr → List ℕ
  v6addr_to_str addr = if v4_mapped addr then inet.ntop4 (drop 12 addr) else inet.ntop6 addr

  unfoldable pub print_node : Node → Out
  print_node node =
      (lit "[" ∷ print_chord_id (some node.id))
      ++ (lit ", " ∷ str (v6addr_to_str node.addr) ∷ lit ", " ∷ dec (pos node.port) ∷ lit "]" ∷ [])

  abbrev status_name : Status → String
  status_name active = "ACTIVE"
  status_name passive = "PASSIVE"

  unfoldable pub print_finger : Finger → List ℕ → List ℕ → Out
  print_finger f prefix suffix =
      (str prefix ∷ lit "Finger:" ∷ print_node f.node)
      ++ (lit " (status = "
          ∷ lit (status_name f.status)
          ∷ lit ", npings = "
          ∷ dec (pos f.npings)
          ∷ lit ", rtt = "
          ∷ dec f.rtt_avg
          ∷ lit "/"
          ∷ dec f.rtt_dev
          ∷ lit ") "
          ∷ str suffix
          ∷ [])

  -- The loop, at the number `i`.
  unfoldable pub print_fingers : ℕ → List Finger → Out
  print_fingers i [] = []
  print_fingers i (f ∷ fs) =
      (lit "\t[" ∷ dec (pos i) ∷ lit "] " ∷ print_finger f [] []) ++ print_fingers (i + 1) fs

  abbrev pub print_finger_list : List Finger → Out
  print_finger_list fingers = print_fingers 0 fingers

  unfoldable pub print_server : ChordServer → Out
  print_server s =
      print_node s.node
      ++ (lit "\n(" ∷ dec s.num_passive_fingers ∷ lit " passive)\n" ∷ lit "Finger list:\n" ∷ [])
      ++ print_finger_list s.flist

  -- An address that may be NULL, behind an arrow.
  abbrev print_peer : String → String → Option In6Addr → ℕ → Out
  print_peer nobody arrow none port = lit nobody ∷ []
  print_peer nobody arrow (some addr) port =
      lit arrow ∷ str (v6addr_to_str addr) ∷ lit ", " ∷ dec (pos port) ∷ lit ">" ∷ []

  unfoldable pub print_process : ChordServer → Option ChordId → Option In6Addr → ℕ → ℕ → Out
  print_process srv id addr port wall_time =
      (lit "(" ∷ (elim id [ none ↦ lit "null" ∷ [] | some x ↦ print_chord_id (some x) ]))
      ++ (lit ") " ∷ print_node srv.node)
      ++ print_peer " <----- <,>" " <----- <" addr port
      ++ print_current_time wall_time " Time:" ""

  unfoldable pub print_send : ChordServer → Option ChordId → Option In6Addr → ℕ → ℕ → Out
  print_send srv id addr port wall_time =
      (lit "(" ∷ print_chord_id id)
      ++ (lit ") " ∷ print_node srv.node)
      ++ print_peer " -----> <,>" " -----> <" addr port
      ++ print_current_time wall_time " Time:" ""

unfoldable pub print_fun : ChordServer → List ℕ → Option ChordId → ℕ → Out
print_fun srv fun_name id wall_time =
    (str fun_name ∷ lit ": " ∷ print_chord_id (some srv.node.id))
    ++ (lit " > " ∷ print_chord_id id)
    ++ print_current_time wall_time " @ " ""
