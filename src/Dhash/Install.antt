-- ===== src/Dhash/Install.antt =====
-- How `dhash_start` of file_client/dhash.cpp takes the data packets of a server over from
-- `process_data`: the handler of one type is exchanged, and an argument is added.
use tangent.Base.{ℕ, ◌<◌, ◌≡◌, ◌≢◌, ◌⊎◌, refl, ◌∙◌, Option, some, List, [], ◌∷◌, ◌++◌, arith}
use tangent.Base.Int.{pos}
use tangent.Base.Bind.{◌>>=◌}
use tangent.Server.{Node}
use tangent.Send.Messages.{chord_data}
use tangent.Dispatcher.{
  RawHeader, PacketHandler, Dispatcher, UnpackFn, ProcessFn, in_table, load, store,
  dispatcher_set_packet_handlers, dispatcher_push_arg,
}
use tangent.Dispatcher.Packet.{HeaderUnpack, max_packet_type, run_handler, dispatch_packet}
use tangent.Dispatcher.Table.{IsDispatcher, IsStored, store-IsStored, get_handler-in_table}
use tangent.Dispatcher.Args.{dispatcher_push_arg-IsStored}
use tangent.Dispatcher.Dispatch.{dispatch_packet-IsStored}

module _ {A M S : Type 0} where
  -- The step of the loop over the servers that works on the server's dispatcher; `arg` is the `DHash`.
  unfoldable pub take_data_packets :
      UnpackFn M → ProcessFn A M S → A → Dispatcher A M S → Option (Dispatcher A M S)
  take_data_packets unpack process arg d = do
    exchanged ← dispatcher_set_packet_handlers d (pos chord_data) unpack process
    pushed ← dispatcher_push_arg exchanged.1 (pos chord_data) arg
    some pushed.1

  IsStored-trans :
      (d e f : Dispatcher A M S) (v : ℕ) (h g : PacketHandler A M S)
      → IsStored d v h e
      → IsStored e v g f
      → IsStored d v g f
  IsStored-trans d e f v h g a b = record {
    ordered = b.ordered;
    same_size = b.same_size ∙ a.same_size;
    stored = b.stored;
    others = λ k ne. b.others k ne ∙ a.others k ne;
    same_unpack_error = b.same_unpack_error ∙ a.same_unpack_error;
    same_process_error = b.same_process_error ∙ a.same_process_error;
  }

  -- What the handler of data packets is afterwards.
  abbrev pub taken : UnpackFn M → ProcessFn A M S → A → PacketHandler A M S → PacketHandler A M S
  taken unpack process arg h = record h {
    process_args = h.process_args ++ (arg ∷ []);
    unpack = some unpack;
    process = some process;
  }

  take_data_packets-IsStored :
      (unpack : UnpackFn M) (process : ProcessFn A M S) (arg : A) (d : Dispatcher A M S)
      (h : PacketHandler A M S)
      → IsDispatcher d
      → chord_data < d.size
      → load d (in_table chord_data) ≡ some h
      → (e : Dispatcher A M S) × (take_data_packets unpack process arg d ≡ some e)
        × IsStored d chord_data (taken unpack process arg h) e
  unfolding take_data_packets dispatcher_set_packet_handlers
  take_data_packets-IsStored unpack process arg d h w small found =
      let g : PacketHandler A M S = record h { unpack = some unpack; process = some process } in
      let exchanged = store-IsStored d chord_data g w small in
      let here : chord_data < (store d (in_table chord_data) g).size =
        omega (arith, exchanged.same_size) in
      let (e, pushed, popped, stored) =
        dispatcher_push_arg-IsStored (store d (in_table chord_data) g) chord_data arg g
          exchanged.ordered here exchanged.stored in
      (
        e,
        rw (get_handler-in_table d chord_data small, found, pushed) refl,
        IsStored-trans d _ e chord_data g _ exchanged stored,
      )

module _ {A M S : Type 0} (header_unpack : HeaderUnpack) where
  -- In a dispatcher in order that has a handler for data packets, taking them over succeeds. From then
  -- on a data packet runs the new functions, with the new argument behind those there were; for a packet
  -- of any other type of PACKET_NAMES below the size the dispatcher behaves as before.
  pub dispatch_packet-take_data_packets :
      (unpack : UnpackFn M) (process : ProcessFn A M S) (arg : A) (d : Dispatcher A M S)
      (h : PacketHandler A M S) (buf : List ℕ) (header : RawHeader) (from : Node) (s : S)
      → IsDispatcher d
      → chord_data < d.size
      → load d (in_table chord_data) ≡ some h
      → header_unpack buf ≡ some header
      → header.type < max_packet_type
      → header.type < d.size
      → (e : Dispatcher A M S) × (take_data_packets unpack process arg d ≡ some e)
        × (((header.type ≡ chord_data)
              × (dispatch_packet header_unpack e buf from s
                  ≡ run_handler d (taken unpack process arg h) header from s))
            ⊎ ((header.type ≢ chord_data)
                × (dispatch_packet header_unpack e buf from s
                    ≡ dispatch_packet header_unpack d buf from s)))
  dispatch_packet-take_data_packets unpack process arg d h buf header from s w small found e k
        below =
      let (t, made, r) = take_data_packets-IsStored unpack process arg d h w small found in
      (
        t,
        made,
        dispatch_packet-IsStored header_unpack d t chord_data _ buf header from s w r e k below,
      )
