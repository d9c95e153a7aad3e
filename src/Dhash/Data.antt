-- ===== src/Dhash/Data.antt =====
-- The dispatchers of a file client (`new_dhash` in file_client/dhash.cpp) and the data packets that
-- reach it (`dhash_unpack_chord_data` in file_client/pack.cpp).
use tangent.Base.{
  ℕ, suc, Bool, Option, none, some, List, ◌∷◌, ◌++◌, map, get_elem?, ◌==◌, ◌||◌, not, if◌then◌else◌,
}
use tangent.Base.Int.{pos}
use tangent.Base.Bind.{◌>>=◌}
use tangent.Server.{Node, ChordServer}
use tangent.Crypt.{Crypto}
use tangent.Process.{Outcome, returned, fault}
use tangent.Process.Route.{process_data}
use tangent.Dispatcher.{
  Dispatcher, ProcessFn, new_dispatcher, dispatcher_set_packet_body, dispatcher_push_arg,
  dispatcher_pop_arg,
}
use tangent.Dispatcher.Packet.{dispatcher_get_type, dispatch_packet}
use tangent.Dhash.{
  DhashMessage, client_request, query, query_reply_success, query_reply_failure, push, push_reply,
  a_client_request, a_query, a_query_reply_success, a_query_reply_failure, a_push, a_push_reply,
  dhash_client_request, dhash_query, dhash_query_reply_success, dhash_query_reply_failure,
  dhash_push, dhash_push_reply, Library, Dhash, chord_sent,
}
use tangent.Dhash.Handlers.{
  dhash_process_query, dhash_process_query_reply_success, dhash_process_query_reply_failure,
  dhash_process_push, dhash_process_push_reply, dhash_process_client_request,
}

-- The pointers among the arguments: the `DHash`, and the server of an index.
pub data DhashArg : Type 0 where
  the_dhash : DhashArg
  a_server : ℕ → DhashArg

abbrev pub Handler : Type 0
Handler = ProcessFn DhashArg DhashMessage Dhash

abbrev pub Table : Type 0
Table = Dispatcher DhashArg DhashMessage Dhash

-- What a handler of data does with the index and the server of its `ChordDataPacketArgs`.
abbrev pub OnData : Type 0
OnData = ℕ → ChordServer → DhashMessage → Node → Dhash → Option (ℕ × Dhash)

-- A handler called through its `process_fn`, its arguments read as `ChordDataPacketArgs`.
unfoldable pub with_server : OnData → Handler
with_server f header (the_dhash ∷ a_server i ∷ more) msg from w =
    get_elem? w.servers i >>= (λ srv. f i srv msg from w)
with_server f header _ msg from w = none

-- A message of another type than the one that a handler expects is read as what it is not.
module _ (cr : Crypto) (lib : Library) where
  abbrev pub on_query : OnData
  on_query i srv (query addr port name) from w =
      dhash_process_query cr lib i srv addr port name from w
  on_query i srv _ from w = none

  abbrev pub on_query_reply_success : OnData
  on_query_reply_success i srv (query_reply_success name) from w =
      dhash_process_query_reply_success cr lib i srv name from w
  on_query_reply_success i srv _ from w = none

  abbrev pub on_query_reply_failure : OnData
  on_query_reply_failure i srv (query_reply_failure name) from w =
      dhash_process_query_reply_failure cr lib i srv name from w
  on_query_reply_failure i srv _ from w = none

  abbrev pub on_push : OnData
  on_push i srv (push addr port name) from w = dhash_process_push cr lib i srv addr port name from w
  on_push i srv _ from w = none

  abbrev pub on_push_reply : OnData
  on_push_reply i srv (push_reply name) from w = dhash_process_push_reply cr lib i srv name from w
  on_push_reply i srv _ from w = none

  abbrev on_client_request : Handler
  on_client_request header (the_dhash ∷ more) (client_request name) from w =
      dhash_process_client_request cr lib name w
  on_client_request header _ _ from w = none

  -- The two tables that `new_dhash` fills.
  unfoldable pub new_control_dispatcher : Option Table
  new_control_dispatcher =
      dispatcher_set_packet_body (new_dispatcher (suc dhash_client_request))
        (pos dhash_client_request) "DHASH_CLIENT_REQUEST" the_dhash
        (lib.message__unpack a_client_request) on_client_request

  unfoldable pub new_chord_dispatcher : Option Table
  new_chord_dispatcher = do
    a ←
        dispatcher_set_packet_body (new_dispatcher (suc dhash_push_reply)) (pos dhash_query)
          "DHASH_QUERY" the_dhash (lib.message__unpack a_query) (with_server on_query)
    b ←
        dispatcher_set_packet_body a (pos dhash_query_reply_success) "DHASH_QUERY_REPLY_SUCCESS"
          the_dhash (lib.message__unpack a_query_reply_success) (with_server on_query_reply_success)
    c ←
        dispatcher_set_packet_body b (pos dhash_query_reply_failure) "DHASH_QUERY_REPLY_FAILURE"
          the_dhash (lib.message__unpack a_query_reply_failure) (with_server on_query_reply_failure)
    d ←
        dispatcher_set_packet_body c (pos dhash_push) "DHASH_PUSH" the_dhash
          (lib.message__unpack a_push) (with_server on_push)
    dispatcher_set_packet_body d (pos dhash_push_reply) "DHASH_PUSH_REPLY" the_dhash
        (lib.message__unpack a_push_reply) (with_server on_push_reply)

-- The packet handed to the Chord layer, on the server of index `i`; its code is not looked at.
abbrev pub chord_layer : ℕ → Outcome → Dhash → Option Dhash
chord_layer i (returned code srv cmds) w =
    some (record w { effects = w.effects ++ map (chord_sent i) cmds })
chord_layer i fault w = none

-- What `process_ret` holds: `junk`, the uninitialised local, where nothing was stored.
abbrev pub stored_ret : ℕ → Option ℕ → ℕ
stored_ret junk none = junk
stored_ret junk (some ret) = ret

-- A `Data` message as `process_data` takes it: the identifier, the optional fields, and the bytes.
pub record DataMsg : Type 0 where
  pub id : List ℕ
  pub ttl : Option ℕ
  pub last : Option Bool
  pub data_bytes : List ℕ

-- Sent on through the Chord layer unless the packet was dealt with.
unfoldable pub pass_on : ℕ → ChordServer → DataMsg → Node → ℕ × Option ℕ × Dhash → ℕ → Option Dhash
pass_on i srv msg from (ret, process_ret, w) junk =
    if ret == 0 || not (stored_ret junk process_ret == 0)
    then chord_layer i (process_data srv msg.id msg.ttl msg.last msg.data_bytes from) w
    else some w

-- `dhash_unpack_chord_data` for the server of index `i`, with the dispatcher as part of the state. It
-- returns 0.
unfoldable pub dhash_unpack_chord_data :
    Library → ℕ → ℕ → ChordServer → DataMsg → Node → Table → Dhash → Option (Table × Dhash)
dhash_unpack_chord_data lib junk i srv msg from d w = do
  type ← dispatcher_get_type lib.header__unpack msg.data_bytes
  pushed ← dispatcher_push_arg d type (a_server i)
  ran ← dispatch_packet lib.header__unpack pushed.1 msg.data_bytes from w
  popped ← dispatcher_pop_arg pushed.1 type
  after ← pass_on i srv msg from ran junk
  some (popped.1, after)
