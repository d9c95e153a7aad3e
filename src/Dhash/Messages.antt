-- ===== src/Dhash/Messages.antt =====
-- The five data packets of the file client, through the table of `new_dhash` in file_client/dhash.cpp.
use tangent.Base.{
  ℕ, ◌<◌, ◌≡◌, refl, sym, subst, ◌∙◌, get_elem?, Option, none, some, List, [], ◌∷◌, arith,
}
use Prim.Native.String.{String}
use mathlib.Core.Option.{some-injective}
use tangent.Crypt.{Crypto}
use tangent.Base.Bind.{◌>>=◌}
use tangent.Server.{Node, ChordServer}
use tangent.Dispatcher.{
  PacketHandler, in_table, load, store, get_handler, new_dispatcher, dispatcher_set_packet_body,
  init_handler,
}
use tangent.Dhash.{
  Library, DhashMessage, Dhash, Kind, kind, FitsWire, query, query_reply_success,
  query_reply_failure, push, push_reply, a_query, a_query_reply_success, a_query_reply_failure,
  a_push, a_push_reply, dhash_query, dhash_query_reply_success, dhash_query_reply_failure,
  dhash_push, dhash_push_reply,
}
use tangent.Dhash.Handlers.{
  dhash_process_query, dhash_process_query_reply_success, dhash_process_query_reply_failure,
  dhash_process_push, dhash_process_push_reply,
}
use tangent.Dhash.Forward.{Handles, pass_unless_done, dhash_unpack_chord_data-Handles}
use tangent.Dhash.Data.{
  DhashArg, the_dhash, OnData, with_server, on_query, on_query_reply_success,
  on_query_reply_failure, on_push, on_push_reply, new_chord_dispatcher, Table, DataMsg,
  dhash_unpack_chord_data,
}

-- The table of `new_dhash`, written out.
module _ (cr : Crypto) (lib : Library) where
  abbrev entry : String → Kind → OnData → PacketHandler DhashArg DhashMessage Dhash
  entry name k f = init_handler name the_dhash (lib.message__unpack k) (with_server f)

  abbrev pub chord_table : Table
  chord_table = record (new_dispatcher 5) {
    handlers =
        entry "DHASH_QUERY" a_query (on_query cr lib)
        ∷ entry "DHASH_QUERY_REPLY_SUCCESS" a_query_reply_success (on_query_reply_success cr lib)
        ∷ entry "DHASH_QUERY_REPLY_FAILURE" a_query_reply_failure (on_query_reply_failure cr lib)
        ∷ entry "DHASH_PUSH" a_push (on_push cr lib)
        ∷ entry "DHASH_PUSH_REPLY" a_push_reply (on_push_reply cr lib)
        ∷ [];
  }

  pub new_chord_dispatcher_lem : new_chord_dispatcher cr lib ≡ some chord_table
  unfolding new_chord_dispatcher dispatcher_set_packet_body get_handler new_dispatcher store
  new_chord_dispatcher_lem = refl

  -- The handler of each message that has a type in the table.
  abbrev pub on_message : OnData
  on_message i srv (query addr port name) from w =
      dhash_process_query cr lib i srv addr port name from w
  on_message i srv (query_reply_success name) from w =
      dhash_process_query_reply_success cr lib i srv name from w
  on_message i srv (query_reply_failure name) from w =
      dhash_process_query_reply_failure cr lib i srv name from w
  on_message i srv (push addr port name) from w =
      dhash_process_push cr lib i srv addr port name from w
  on_message i srv (push_reply name) from w = dhash_process_push_reply cr lib i srv name from w
  on_message i srv _ from w = none

-- The type under which a message is packed for other file clients.
pub data IsData : DhashMessage → ℕ → Type 0 where
  is_query : (addr : List ℕ) (port : ℕ) (name : List ℕ) → IsData (query addr port name) dhash_query
  is_query_reply_success :
      (name : List ℕ) → IsData (query_reply_success name) dhash_query_reply_success
  is_query_reply_failure :
      (name : List ℕ) → IsData (query_reply_failure name) dhash_query_reply_failure
  is_push : (addr : List ℕ) (port : ℕ) (name : List ℕ) → IsData (push addr port name) dhash_push
  is_push_reply : (name : List ℕ) → IsData (push_reply name) dhash_push_reply

chord_table-Handles :
    (cr : Crypto) (lib : Library) (type : ℕ) (name : String) (k : Kind) (f : OnData)
    → type < 5
    → load (chord_table cr lib) (in_table type) ≡ some (entry cr lib name k f)
    → Handles
        (chord_table cr lib)
        type
        (entry cr lib name k f)
        (lib.message__unpack k)
        (with_server f)
unfolding new_dispatcher
chord_table-Handles cr lib type name k f small found = record {
  ordered = record { full = refl; no_odd = refl };
  silent = refl;
  small = small;
  known = omega arith;
  found = found;
  unpacks = refl;
  processes = refl;
}

module _ (cr : Crypto) (lib : Library) (junk i : ℕ) (srv : ChordServer) (msg : DataMsg)
    (from : Node) where
  unpack-entry :
      (m : DhashMessage) (type : ℕ) (version : Option ℕ) (w : Dhash) (name : String) (f : OnData)
      → FitsWire m
      → type < 5
      → load (chord_table cr lib) (in_table type) ≡ some (entry cr lib name (kind m) f)
      → get_elem? w.servers i ≡ some srv
      → lib.header__unpack msg.data_bytes
        ≡ some (record { version = version; type = type; payload = lib.message__pack m })
      → dhash_unpack_chord_data lib junk i srv msg from (chord_table cr lib) w
        ≡ (f i srv m from w >>= pass_unless_done i srv msg from (chord_table cr lib))
  unfolding with_server
  unpack-entry m type version w name f fits small found at e =
      dhash_unpack_chord_data-Handles lib junk i srv msg from (chord_table cr lib) w _ _ _ _ m e
        (chord_table-Handles cr lib type name (kind m) f small found)
        (lib.unpack-pack_message m fits)
      ∙ rw at refl

  unpack-table :
      (m : DhashMessage) (type : ℕ) (version : Option ℕ) (w : Dhash)
      → IsData m type
      → FitsWire m
      → get_elem? w.servers i ≡ some srv
      → lib.header__unpack msg.data_bytes
        ≡ some (record { version = version; type = type; payload = lib.message__pack m })
      → dhash_unpack_chord_data lib junk i srv msg from (chord_table cr lib) w ≡ (
          on_message cr lib i srv m from w >>= pass_unless_done i srv msg from (chord_table cr lib))
  unfolding load
  unpack-table m type version w (is_query a p n) fits at e =
      unpack-entry m type version w _ _ fits (omega arith) refl at e
  unpack-table m type version w (is_query_reply_success n) fits at e =
      unpack-entry m type version w _ _ fits (omega arith) refl at e
  unpack-table m type version w (is_query_reply_failure n) fits at e =
      unpack-entry m type version w _ _ fits (omega arith) refl at e
  unpack-table m type version w (is_push a p n) fits at e =
      unpack-entry m type version w _ _ fits (omega arith) refl at e
  unpack-table m type version w (is_push_reply n) fits at e =
      unpack-entry m type version w _ _ fits (omega arith) refl at e

  -- A data packet for server `i` whose bytes are a header with one of the five types around a packed
  -- message of that type, at the table that new_dhash makes, runs the handler of that message with
  -- that server, and leaves the table as it was. A code of 0 ends there, and any other code hands the
  -- packet to `process_data`; what `process_ret` held before plays no part.
  pub dhash_unpack_chord_data_lem :
      (m : DhashMessage) (type : ℕ) (version : Option ℕ) (t : Table) (w : Dhash)
      → IsData m type
      → FitsWire m
      → new_chord_dispatcher cr lib ≡ some t
      → get_elem? w.servers i ≡ some srv
      → lib.header__unpack msg.data_bytes
        ≡ some (record { version = version; type = type; payload = lib.message__pack m })
      → dhash_unpack_chord_data lib junk i srv msg from t w
        ≡ (on_message cr lib i srv m from w >>= pass_unless_done i srv msg from t)
  dhash_unpack_chord_data_lem m type version t w is fits made at e =
      let same : chord_table cr lib ≡ t =
        some-injective _ _ (sym (new_chord_dispatcher_lem cr lib) ∙ made) in
      subst
        (λ x.
          dhash_unpack_chord_data lib junk i srv msg from x w
          ≡ (on_message cr lib i srv m from w >>= pass_unless_done i srv msg from x))
        same (unpack-table m type version w is fits at e)
