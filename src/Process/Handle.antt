-- ===== src/Process/Handle.antt =====
-- The handlers of src/process.c by the type of the message, as `new_server` of src/chord.c sets them.
use tangent.Base.{ℕ, Bool}
use tangent.Server.{Node, ChordServer}
use tangent.Crypt.{Crypto}
use tangent.Send.Messages.{
  Message, addr_discover, addr_discover_reply, data_msg, find_successor, find_successor_reply,
  stabilize, stabilize_reply, notify, ping, pong,
}
use tangent.Process.{Outcome}
use tangent.Process.Discover.{process_addr_discover, process_addr_discover_reply}
use tangent.Process.Route.{process_data, process_fs}
use tangent.Process.Peers.{
  process_fs_reply, process_stab, process_stab_reply, process_notify, process_ping, process_pong,
}

-- `epoch` is `time(NULL)`, `usec` is `get_current_time()` and `junk` the uninitialised `fnew`.
unfoldable pub process : Crypto → ℕ → ℕ → Bool → ChordServer → Message → Node → Outcome
process cr epoch usec junk srv (addr_discover t) from = process_addr_discover srv t from
process cr epoch usec junk srv (addr_discover_reply t a) from =
    process_addr_discover_reply cr epoch srv t a from
process cr epoch usec junk srv (data_msg id ttl last d) from = process_data srv id ttl last d from
process cr epoch usec junk srv (find_successor t ttl a p) from = process_fs cr srv t ttl a p from
process cr epoch usec junk srv (find_successor_reply t a p) from =
    process_fs_reply cr epoch junk srv t a p from
process cr epoch usec junk srv (stabilize a p) from = process_stab cr srv a p from
process cr epoch usec junk srv (stabilize_reply a p) from = process_stab_reply cr junk srv a p from
process cr epoch usec junk srv notify from = process_notify junk srv from
process cr epoch usec junk srv (ping t time) from = process_ping junk srv t time from
process cr epoch usec junk srv (pong t time) from = process_pong cr epoch usec srv t time from
