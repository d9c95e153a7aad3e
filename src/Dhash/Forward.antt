-- ===== src/Dhash/Forward.antt =====
-- `dhash_unpack_chord_data` of file_client/pack.cpp: the handler that runs, and what goes on to the
-- Chord layer.
use tangent.Base.{
  ℕ, ◌<◌, ◌≡◌, refl, Option, none, some, List, [], ◌∷◌, ◌++◌, ◌==◌, arith, Bool-cases, Option-cases,
  inl, inr, if◌then◌else◌,
}
use tangent.Base.Bind.{◌>>=◌}
use tangent.Server.{Node, ChordServer}
use tangent.Process.Route.{process_data}
use tangent.Dispatcher.{RawHeader, PacketHandler, in_table, load}
use tangent.Dispatcher.Packet.{run_handler, dispatcher_get_type, max_packet_type}
use tangent.Dispatcher.Table.{IsDispatcher}
use tangent.Dispatcher.Args.{dispatcher_push_arg-IsStored}
use tangent.Dispatcher.Dispatch.{small_int, dispatch_packet-loaded}
use tangent.Dhash.{Library, DhashMessage, Dhash}
use tangent.Dhash.Data.{
  DhashArg, a_server, Handler, Table, DataMsg, chord_layer, pass_on, dhash_unpack_chord_data,
}

-- What follows a handler that returned a code: the packet goes to the Chord layer unless the code is 0.
unfoldable pub pass_unless_done :
    ℕ → ChordServer → DataMsg → Node → Table → ℕ × Dhash → Option (Table × Dhash)
pass_unless_done i srv msg from t (ret, w) =
    if ret == 0
    then some (t, w)
    else chord_layer i (process_data srv msg.id msg.ttl msg.last msg.data_bytes from) w
      >>= (λ sent. some (t, sent))

-- What a table in order holds for a type: the arguments and the functions.
pub record Handles (t : Table) (type : ℕ) (h : PacketHandler DhashArg DhashMessage Dhash)
    (unpack : List ℕ → Option DhashMessage) (process : Handler) : Type 0 where
  pub ordered : IsDispatcher t
  pub silent : t.process_error ≡ none
  pub small : type < t.size
  pub known : type < max_packet_type
  pub found : load t (in_table type) ≡ some h
  pub unpacks : h.unpack ≡ some unpack
  pub processes : h.process ≡ some process

module _ (lib : Library) (junk i : ℕ) (srv : ChordServer) (msg : DataMsg) (from : Node) where
  pub dhash_unpack_chord_data-Handles :
      (t : Table) (w : Dhash) (header : RawHeader) (h : PacketHandler DhashArg DhashMessage Dhash)
      (unpack : List ℕ → Option DhashMessage) (process : Handler) (m : DhashMessage)
      → lib.header__unpack msg.data_bytes ≡ some header
      → Handles t header.type h unpack process
      → unpack header.payload ≡ some m
      → dhash_unpack_chord_data lib junk i srv msg from t w ≡ (
          process header (h.process_args ++ (a_server i ∷ [])) m from w
          >>= pass_unless_done i srv msg from t)
  unfolding dhash_unpack_chord_data dispatcher_get_type run_handler pass_unless_done pass_on
  dhash_unpack_chord_data-Handles t w header h unpack process m e k u =
      let (pushed, was_pushed, popped, stored) =
        dispatcher_push_arg-IsStored t header.type (a_server i) h k.ordered k.small k.found in
      let here : header.type < pushed.size = omega (arith, stored.same_size, k.small) in
      let loaded =
        dispatch_packet-loaded lib.header__unpack pushed msg.data_bytes header _ from w e k.known
          here stored.stored in
      elim (Option-cases (process header (h.process_args ++ (a_server i ∷ [])) m from w)) [
        | inl fault ↦
            rw
              (
                e,
                small_int header.type k.known,
                was_pushed,
                loaded,
                k.unpacks,
                u,
                k.processes,
                fault,
                run_handler,
              )
              refl
        | inr (r, er) ↦ elim (Bool-cases (r.0 == 0)) [
          | inl zero_ret ↦
              rw
                (
                  e,
                  small_int header.type k.known,
                  was_pushed,
                  loaded,
                  k.unpacks,
                  u,
                  k.processes,
                  er,
                  run_handler,
                  popped,
                  zero_ret,
                  pass_on,
                  pass_unless_done,
                )
                refl
          | inr other_ret ↦
              rw
                (
                  e,
                  small_int header.type k.known,
                  was_pushed,
                  loaded,
                  k.unpacks,
                  u,
                  k.processes,
                  er,
                  run_handler,
                  popped,
                  other_ret,
                  stored.same_process_error,
                  k.silent,
                  pass_on,
                  pass_unless_done,
                )
                refl
        ]
      ]
