-- ===== src/Chord/Register.antt =====
-- The handlers that `new_server` of src/chord.c registers, one for each packet type.
use Prim.Native.String.{String}
use tangent.Base.{ℕ, zero, suc, ◌<◌, ◌≡◌, refl, none, some, List, [], ◌∷◌, get_or, arith}
use tangent.Server.{Node}
use tangent.Crypt.{Crypto}
use tangent.Send.Messages.{
  Message, addr_discover, addr_discover_reply, data_msg, find_successor, find_successor_reply,
  stabilize, stabilize_reply, notify, ping, pong, packet_type,
}
use tangent.Process.{Outcome}
use tangent.Process.Handle.{process}
use tangent.Dispatcher.{
  PacketHandler, in_table, load, store, get_handler, init_handler, new_dispatcher,
  dispatcher_set_packet_body, dispatcher_set_error_handlers,
}
use tangent.Dispatcher.Table.{IsDispatcher}
use tangent.Chord.Handlers.{
  World, the_server, ServerPtr, call, on_addr_discover, on_addr_discover_reply, on_data, on_fs,
  on_fs_reply, on_stab, on_stab_reply, on_notify, on_ping, on_pong,
}
use tangent.Chord.{Codec, ChordDispatcher, process_error, new_server_dispatcher}

abbrev handlers : Crypto → List (World → Message → Node → Outcome)
handlers cr =
    on_addr_discover cr
    ∷ on_addr_discover_reply cr
    ∷ on_data cr
    ∷ on_fs cr
    ∷ on_fs_reply cr
    ∷ on_stab cr
    ∷ on_stab_reply cr
    ∷ on_notify cr
    ∷ on_ping cr
    ∷ on_pong cr
    ∷ []

abbrev names : List String
names =
    "CHORD_ADDR_DISCOVER" ∷ "CHORD_ADDR_DISCOVER_REPLY" ∷ "CHORD_DATA" ∷ "CHORD_FS"
    ∷ "CHORD_FS_REPLY" ∷ "CHORD_STAB" ∷ "CHORD_STAB_REPLY" ∷ "CHORD_NOTIFY" ∷ "CHORD_PING"
    ∷ "CHORD_PONG" ∷ []

abbrev pub handler_of : Crypto → ℕ → World → Message → Node → Outcome
handler_of cr v = get_or (handlers cr) v (on_pong cr)

abbrev pub name_of : ℕ → String
name_of v = get_or names v "CHORD_PONG"

abbrev pub entry : Crypto → Codec → ℕ → PacketHandler ServerPtr Message World
entry cr codec v =
    init_handler (name_of v) the_server (codec.message_unpack v) (call (handler_of cr v))

abbrev entries : Crypto → Codec → List (PacketHandler ServerPtr Message World)
entries cr codec =
    entry cr codec 0
    ∷ entry cr codec 1
    ∷ entry cr codec 2
    ∷ entry cr codec 3
    ∷ entry cr codec 4
    ∷ entry cr codec 5
    ∷ entry cr codec 6
    ∷ entry cr codec 7
    ∷ entry cr codec 8
    ∷ entry cr codec 9
    ∷ []

abbrev pub table : Crypto → Codec → ChordDispatcher
table cr codec = record {
  handlers = entries cr codec;
  odd = [];
  size = 10;
  unpack_error = none;
  process_error = some process_error;
}

pub new_server_dispatcher-some :
    (cr : Crypto) (codec : Codec) → new_server_dispatcher cr codec ≡ some (table cr codec)
unfolding new_server_dispatcher new_dispatcher dispatcher_set_packet_body get_handler store
    dispatcher_set_error_handlers
new_server_dispatcher-some cr codec = refl

pub table-IsDispatcher : (cr : Crypto) (codec : Codec) → IsDispatcher (table cr codec)
table-IsDispatcher cr codec = record { full = refl; no_odd = refl }

pub load-entry :
    (cr : Crypto) (codec : Codec) (v : ℕ)
    → v < 10
    → load (table cr codec) (in_table v) ≡ some (entry cr codec v)
unfolding load
load-entry cr codec zero h = refl
load-entry cr codec (suc zero) h = refl
load-entry cr codec (suc (suc zero)) h = refl
load-entry cr codec (suc (suc (suc zero))) h = refl
load-entry cr codec (suc (suc (suc (suc zero)))) h = refl
load-entry cr codec (suc (suc (suc (suc (suc zero))))) h = refl
load-entry cr codec (suc (suc (suc (suc (suc (suc zero)))))) h = refl
load-entry cr codec (suc (suc (suc (suc (suc (suc (suc zero))))))) h = refl
load-entry cr codec (suc (suc (suc (suc (suc (suc (suc (suc zero)))))))) h = refl
load-entry cr codec (suc (suc (suc (suc (suc (suc (suc (suc (suc zero))))))))) h = refl
load-entry cr codec (suc (suc (suc (suc (suc (suc (suc (suc (suc (suc v)))))))))) h =
    absurd (omega arith)

-- A message comes to the handler that `process` gives it to.
pub handler_of-process :
    (cr : Crypto) (w : World) (msg : Message) (from : Node)
    → handler_of cr (packet_type msg) w msg from ≡ process cr w.epoch w.usec w.junk w.srv msg from
unfolding process
handler_of-process cr w (addr_discover t) from = refl
handler_of-process cr w (addr_discover_reply t a) from = refl
handler_of-process cr w (data_msg i t l d) from = refl
handler_of-process cr w (find_successor t l a p) from = refl
handler_of-process cr w (find_successor_reply t a p) from = refl
handler_of-process cr w (stabilize a p) from = refl
handler_of-process cr w (stabilize_reply a p) from = refl
handler_of-process cr w notify from = refl
handler_of-process cr w (ping t u) from = refl
handler_of-process cr w (pong t u) from = refl
