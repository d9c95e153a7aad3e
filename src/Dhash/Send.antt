-- ===== src/Dhash/Send.antt =====
-- file_client/send.cpp: what the file client sends.
use tangent.Base.{ℕ, ◌+◌, false, Option, some, List, [], ◌∷◌, if◌then◌else◌}
use tangent.Base.Bind.{◌>>=◌}
use tangent.Id.{ChordId}
use tangent.Server.{In6Addr, ChordServer}
use tangent.Server.Addr.{is_addr_unspecified}
use tangent.Crypt.{Crypto, get_data_id, get_address_id}
use tangent.Send.{send_data}
use tangent.Process.Route.{next_route_node}
use tangent.Text.{buf_to_str}
use tangent.Dhash.{
  Library, Dhash, chord_sent, control_written, effect, dhash_pack_control_request_reply,
  dhash_pack_query, dhash_pack_query_reply_success, dhash_pack_query_reply_failure, dhash_pack_push,
  dhash_pack_push_reply, dhash_client_reply_success, dhash_client_reply_failure,
}

-- One round of the loops: the datagram of server `i` goes to the next node on the way to `id`.
unfoldable pub send_towards : ℕ → ChordServer → ChordId → List ℕ → Dhash → Dhash
send_towards i srv id buf w =
    let (next, next_is_last) = next_route_node srv id false in
    if is_addr_unspecified next.addr
    then w
    else effect (chord_sent i (send_data next.addr next.port next_is_last 10 id buf)) w

-- The loop over the servers, with `pack` for what is sent, from server `i` on.
unfoldable pub send_all :
    (In6Addr → ℕ → Option (List ℕ)) → ChordId → ℕ → List ChordServer → Dhash → Option Dhash
send_all pack id i [] w = some w
send_all pack id i (srv ∷ srvs) w = do
  buf ← pack srv.node.addr srv.node.port
  send_all pack id (i + 1) srvs (send_towards i srv id buf w)

-- `send_chord_pkt_directly`; the identifier is that of the receiver's address.
module _ (cr : Crypto) (lib : Library) where
  unfoldable pub dhash_send_push : List ℕ → Dhash → Option Dhash
  dhash_send_push name w = do
    text ← buf_to_str name
    send_all (λ addr port. dhash_pack_push lib addr port name) (get_data_id cr name) 0 w.servers w

  unfoldable pub dhash_send_query : List ℕ → Dhash → Option Dhash
  dhash_send_query name w = do
    text ← buf_to_str name
    send_all (λ addr port. dhash_pack_query lib addr port name) (get_data_id cr name) 0 w.servers w

  -- Straight to the node, past the routing. The identifier is that of the receiver's address.
  unfoldable pub send_chord_pkt_directly : ℕ → In6Addr → ℕ → List ℕ → Dhash → Dhash
  send_chord_pkt_directly i addr port data_bytes w =
      effect (chord_sent i (send_data addr port false 10 (get_address_id cr addr port) data_bytes))
        w

  abbrev pub dhash_send_query_reply_success : ℕ → In6Addr → ℕ → List ℕ → Dhash → Option Dhash
  dhash_send_query_reply_success i addr port name w = do
    buf ← dhash_pack_query_reply_success lib name
    some (send_chord_pkt_directly i addr port buf w)

  abbrev pub dhash_send_query_reply_failure : ℕ → In6Addr → ℕ → List ℕ → Dhash → Option Dhash
  dhash_send_query_reply_failure i addr port name w = do
    buf ← dhash_pack_query_reply_failure lib name
    some (send_chord_pkt_directly i addr port buf w)

  abbrev pub dhash_send_push_reply : ℕ → In6Addr → ℕ → List ℕ → Dhash → Option Dhash
  dhash_send_push_reply i addr port name w = do
    buf ← dhash_pack_push_reply lib name
    some (send_chord_pkt_directly i addr port buf w)

-- A failing `write` only prints.
module _ (lib : Library) where
  unfoldable pub dhash_send_control_packet : ℕ → List ℕ → Dhash → Option Dhash
  dhash_send_control_packet code name w = do
    buf ← dhash_pack_control_request_reply lib code name
    some (effect (control_written buf) w)

  abbrev pub dhash_send_control_query_success : List ℕ → Dhash → Option Dhash
  dhash_send_control_query_success name w =
      dhash_send_control_packet dhash_client_reply_success name w

  abbrev pub dhash_send_control_query_failure : List ℕ → Dhash → Option Dhash
  dhash_send_control_query_failure name w =
      dhash_send_control_packet dhash_client_reply_failure name w
