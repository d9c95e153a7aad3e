-- ===== src/Process/Route.antt =====
-- `next_route_node`, `process_data` and `process_fs` of src/process.c, and `chord_id_is_local` of
-- src/chord.c: packets that are answered here or sent on towards an identifier.
use tangent.Base.{
  ℕ, Bool, true, false, ◌&&◌, ◌||◌, Option, none, some, List, [], ◌∷◌, ◌==◌, if◌then◌else◌,
}
use tangent.Id.{ChordId, id_bytes, id_equals, id_is_between}
use tangent.Server.{Node, Finger, ChordServer, In6Addr}
use tangent.Server.Addr.{is_addr_unspecified, v6_addr_equals}
use tangent.Finger.{succ_finger, pred_finger, closest_preceding_node}
use tangent.Crypt.{Crypto, get_address_id}
use tangent.Send.{send_data, send_fs_reply, send_fs_forward}
use tangent.Process.{
  Outcome, returned, ◌>>=◌, or_default, copy, to_u16, to_uchar, decrement, chord_no_error,
  chord_ttl_expired, chord_addr_undiscovered,
}

unfoldable pub chord_id_is_local : ChordServer → ChordId → Bool
chord_id_is_local srv x = id_equals x srv.node.id || id_is_between x srv.pred_bound srv.node.id

-- `x` lies in (self, succ].
abbrev pub is_succ_of : ChordServer → ChordId → Finger → Bool
is_succ_of srv id sf = id_is_between id srv.node.id sf.node.id || id_equals id sf.node.id

-- The part behind the test of `last`.
unfoldable pub route_onward : ChordServer → ChordId → Node × Bool
route_onward srv id = elim (succ_finger srv) [
  | none ↦ (closest_preceding_node srv id false, false)
  | some sf ↦
      if is_succ_of srv id sf then (sf.node, true) else (closest_preceding_node srv id false, false)
]

-- The node, and what is stored through `next_is_last`.
unfoldable pub next_route_node : ChordServer → ChordId → Bool → Node × Bool
next_route_node srv id last =
    if last
    then (elim (pred_finger srv) [ some pf ↦ (pf.node, true) | none ↦ route_onward srv id ])
    else route_onward srv id

-- Behind the guards: delivered here, or sent on with the decremented `ttl`, which `send_data` takes
-- as a `uchar`.
abbrev pub deliver : ChordServer → ChordId → ℕ → Bool → List ℕ → Outcome
deliver srv id ttl last data_bytes =
    if chord_id_is_local srv id
    then returned chord_no_error srv []
    else let (np, next_is_last) = next_route_node srv id last in
      returned chord_no_error srv
        (send_data np.addr np.port next_is_last (to_uchar ttl) id data_bytes ∷ [])

-- `process_data` behind the copy of the identifier.
unfoldable pub data_at : ChordServer → ChordId → ℕ → Bool → List ℕ → Outcome
data_at srv id ttl last data_bytes =
    if is_addr_unspecified srv.node.addr
    then returned chord_addr_undiscovered srv []
    else if ttl == 0
    then returned chord_ttl_expired srv []
    else deliver srv id ttl last data_bytes

unfoldable pub process_data :
    ChordServer → List ℕ → Option ℕ → Option Bool → List ℕ → Node → Outcome
process_data srv msg_id msg_ttl msg_last data_bytes from = copy id_bytes msg_id >>= (λ id.
    data_at srv id (decrement (or_default 32 msg_ttl)) (or_default false msg_last) data_bytes)

-- Behind the guards: answered with the successor, or with this node if it has none, or sent on with the
-- `ttl` as a `uchar`.
abbrev pub successor_answer :
    ChordServer → ChordId → List ℕ → ℕ → List ℕ → ℕ → Option Finger → Outcome
successor_answer srv reply_id ticket ttl reply_addr reply_port none =
    returned chord_no_error srv
      (send_fs_reply reply_addr reply_port ticket srv.node.addr srv.node.port ∷ [])
successor_answer srv reply_id ticket ttl reply_addr reply_port (some succ) =
    if is_succ_of srv reply_id succ
    then returned chord_no_error srv
        (send_fs_reply reply_addr reply_port ticket succ.node.addr succ.node.port ∷ [])
    else let np = closest_preceding_node srv reply_id false in
      returned chord_no_error srv
        (send_fs_forward np.addr np.port ticket (to_uchar ttl) reply_addr reply_port ∷ [])

abbrev pub find_successor_of : ChordServer → ChordId → List ℕ → ℕ → List ℕ → ℕ → Outcome
find_successor_of srv reply_id ticket ttl reply_addr reply_port =
    successor_answer srv reply_id ticket ttl reply_addr reply_port (succ_finger srv)

-- `process_fs` behind the copy of the address.
unfoldable pub fs_at : Crypto → ChordServer → List ℕ → ℕ → In6Addr → ℕ → Outcome
fs_at cr srv ticket ttl reply_addr reply_port =
    if ttl == 0
    then returned chord_ttl_expired srv []
    else if v6_addr_equals srv.node.addr reply_addr && srv.node.port == reply_port
    then returned chord_no_error srv []
    else find_successor_of srv (get_address_id cr reply_addr reply_port) ticket ttl reply_addr
        reply_port

unfoldable pub process_fs :
    Crypto → ChordServer → Option (List ℕ) → Option ℕ → List ℕ → ℕ → Node → Outcome
process_fs cr srv ticket msg_ttl msg_addr msg_port from =
    if is_addr_unspecified srv.node.addr
    then returned chord_addr_undiscovered srv []
    else copy 16 msg_addr >>= (λ addr.
      fs_at cr srv (or_default [] ticket) (decrement (or_default 0 msg_ttl)) addr (to_u16 msg_port))
