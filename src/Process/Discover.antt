-- ===== src/Process/Discover.antt =====
-- `process_addr_discover` and `process_addr_discover_reply` of src/process.c.
use tangent.Base.{ℕ, not, Option, List, [], ◌∷◌, if◌then◌else◌}
use tangent.Server.{Node, ChordServer}
use tangent.Server.Addr.{is_addr_unspecified}
use tangent.Finger.{chord_update_range}
use tangent.Crypt.{Crypto, char, short, addr_arg, verify_ticket, get_address_id}
use tangent.Send.{send_addr_discover_reply, stab_started}
use tangent.Send.Messages.{chord_addr_discover}
use tangent.Process.{
  Outcome, returned, ◌>>=◌, or_default, copy, chord_no_error, chord_invalid_ticket,
}

unfoldable pub process_addr_discover : ChordServer → Option (List ℕ) → Node → Outcome
process_addr_discover srv ticket from =
    returned chord_no_error srv
      (send_addr_discover_reply from.addr from.port (or_default [] ticket) ∷ [])

-- `v6_addr_set`, `get_address_id` and `chord_update_range` on the server's own node.
unfoldable pub learn_address : Crypto → ChordServer → List ℕ → ChordServer
learn_address cr srv addr =
    let id = get_address_id cr addr srv.node.port in
    chord_update_range (record srv { node = record srv.node { id = id; addr = addr } }) id id

unfoldable pub process_addr_discover_reply :
    Crypto → ℕ → ChordServer → Option (List ℕ) → List ℕ → Node → Outcome
process_addr_discover_reply cr epoch srv ticket msg_addr from =
    verify_ticket cr srv.ticket_salt srv.ticket_hash_len epoch (or_default [] ticket)
      (char chord_addr_discover ∷ addr_arg from.addr ∷ short from.port ∷ [])
    >>= (λ valid.
        if not valid
        then returned chord_invalid_ticket srv []
        else if is_addr_unspecified srv.node.addr
        then copy 16 msg_addr
          >>= (λ addr. returned chord_no_error (learn_address cr srv addr) (stab_started ∷ []))
        else returned chord_no_error srv [])
