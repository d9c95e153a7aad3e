-- ===== src/Chord/Handlers.antt =====
-- The handlers of src/process.c as the dispatcher of src/dispatcher.c calls them.
use tangent.Base.{ℕ, Bool, Option, none, some, List, [], ◌∷◌, ◌++◌}
use tangent.Server.{Node, ChordServer}
use tangent.Crypt.{Crypto}
use tangent.Send.{Command}
use tangent.Send.Messages.{
  Message, addr_discover, addr_discover_reply, data_msg, find_successor, find_successor_reply,
  stabilize, stabilize_reply, notify, ping, pong,
}
use tangent.Process.{
  Outcome, returned, fault, ErrorCode, chord_no_error, chord_protocol_error, chord_ttl_expired,
  chord_invalid_ticket, chord_addr_undiscovered, chord_self_originator, chord_finger_error,
}
use tangent.Process.Discover.{process_addr_discover, process_addr_discover_reply}
use tangent.Process.Route.{process_data, process_fs}
use tangent.Process.Peers.{
  process_fs_reply, process_stab, process_stab_reply, process_notify, process_ping, process_pong,
}
use tangent.Dispatcher.{ProcessFn}

-- What a handler works on: the server, the commands given so far, `time(NULL)`, `get_current_time()`
-- and the uninitialised `fnew`.
pub record World : Type 0 where
  pub srv : ChordServer
  pub sent : List Command
  pub epoch : ℕ
  pub usec : ℕ
  pub junk : Bool

-- The pointer to the server among the arguments of a handler.
pub data ServerPtr : Type 0 where
  the_server : ServerPtr

-- The codes as the numbers of the enumeration in include/chord/chord.h.
abbrev pub error_number : ErrorCode → ℕ
error_number chord_no_error = 0
error_number chord_protocol_error = 1
error_number chord_ttl_expired = 2
error_number chord_invalid_ticket = 3
error_number chord_addr_undiscovered = 4
error_number chord_self_originator = 5
error_number chord_finger_error = 6

-- What a handler leaves behind.
abbrev pub after : World → Outcome → Option (ℕ × World)
after w (returned code srv cmds) =
    some (error_number code, record w { srv = srv; sent = w.sent ++ cmds })
after w fault = none

-- A handler called through its `process_fn`: the server is the first argument, and without arguments
-- memory outside the block is read.
abbrev pub call : (World → Message → Node → Outcome) → ProcessFn ServerPtr Message World
call handler header [] msg from w = none
call handler header (the_server ∷ more) msg from w = after w (handler w msg from)

-- The handlers. A message of another type than the one that they expect is read as what it is not.
module _ (cr : Crypto) where
  abbrev pub on_addr_discover : World → Message → Node → Outcome
  on_addr_discover w (addr_discover t) from = process_addr_discover w.srv t from
  on_addr_discover w _ from = fault

  abbrev pub on_addr_discover_reply : World → Message → Node → Outcome
  on_addr_discover_reply w (addr_discover_reply t a) from =
      process_addr_discover_reply cr w.epoch w.srv t a from
  on_addr_discover_reply w _ from = fault

  abbrev pub on_data : World → Message → Node → Outcome
  on_data w (data_msg id ttl last d) from = process_data w.srv id ttl last d from
  on_data w _ from = fault

  abbrev pub on_fs : World → Message → Node → Outcome
  on_fs w (find_successor t ttl a p) from = process_fs cr w.srv t ttl a p from
  on_fs w _ from = fault

  abbrev pub on_fs_reply : World → Message → Node → Outcome
  on_fs_reply w (find_successor_reply t a p) from =
      process_fs_reply cr w.epoch w.junk w.srv t a p from
  on_fs_reply w _ from = fault

  abbrev pub on_stab : World → Message → Node → Outcome
  on_stab w (stabilize a p) from = process_stab cr w.srv a p from
  on_stab w _ from = fault

  abbrev pub on_stab_reply : World → Message → Node → Outcome
  on_stab_reply w (stabilize_reply a p) from = process_stab_reply cr w.junk w.srv a p from
  on_stab_reply w _ from = fault

  abbrev pub on_notify : World → Message → Node → Outcome
  on_notify w notify from = process_notify w.junk w.srv from
  on_notify w _ from = fault

  abbrev pub on_ping : World → Message → Node → Outcome
  on_ping w (ping t time) from = process_ping w.junk w.srv t time from
  on_ping w _ from = fault

  abbrev pub on_pong : World → Message → Node → Outcome
  on_pong w (pong t time) from = process_pong cr w.epoch w.usec w.srv t time from
  on_pong w _ from = fault
