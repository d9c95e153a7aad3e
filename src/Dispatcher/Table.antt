-- ===== src/Dispatcher/Table.antt =====
-- The table of handlers of src/dispatcher.c: what is registered where.
use Prim.Native.String.{String}
use tangent.Base.{
  ℕ, zero, suc, ◌≤◌, ◌<◌, ◌≡◌, ◌≢◌, refl, ap, ◌∙◌, true, false, none, some, [], length, length-set,
  get_elem?-set, get_elem?-set_other, get_elem?-some, ltb, arith,
}
use tangent.Base.Int.{pos}
use tangent.Dispatcher.{
  PacketHandler, Dispatcher, UnpackFn, ProcessFn, in_table, zero_handlers, new_dispatcher,
  get_handler, find_odd, load, store, init_handler, fill_odd, create_odd, dispatcher_create_handler,
  dispatcher_set_packet_body, dispatcher_set_packet_handlers, dispatcher_push_arg,
  dispatcher_pop_arg, dispatcher_get_packet_name,
}

module _ {A M S : Type 0} where
  -- The table has as many slots as the size says, and the odd list is empty.
  pub record IsDispatcher (d : Dispatcher A M S) : Type 0 where
    pub full : length d.handlers ≡ d.size
    pub no_odd : d.odd ≡ []

  -- Below the size the slot is the one of that number.
  pub get_handler-in_table :
      (d : Dispatcher A M S) (v : ℕ) → v < d.size → get_handler d (pos v) ≡ some (some (in_table v))
  unfolding get_handler
  get_handler-in_table d v h = let e : ltb v d.size ≡ true = ground arith in rw e

  -- From the size on there is no slot.
  pub get_handler-none :
      (d : Dispatcher A M S) (v : ℕ)
      → IsDispatcher d
      → d.size ≤ v
      → get_handler d (pos v) ≡ some none
  unfolding get_handler find_odd
  get_handler-none d v w h =
      let e : ltb v d.size ≡ false = ground arith in rw (e, w.no_odd, find_odd)

  pub load-in_table :
      (d : Dispatcher A M S) (v : ℕ)
      → IsDispatcher d
      → v < d.size
      → (h : PacketHandler A M S) × (load d (in_table v) ≡ some h)
  unfolding load
  load-in_table d v w h = get_elem?-some d.handlers v (omega (arith, w.full))

  -- A store into the table keeps it in order, and is read back there and nowhere else.
  pub record IsStored (d : Dispatcher A M S) (v : ℕ) (h : PacketHandler A M S)
      (e : Dispatcher A M S) : Type 0 where
    pub ordered : IsDispatcher e
    pub same_size : e.size ≡ d.size
    pub stored : load e (in_table v) ≡ some h
    pub others : (w : ℕ) → v ≢ w → load e (in_table w) ≡ load d (in_table w)
    pub same_unpack_error : e.unpack_error ≡ d.unpack_error
    pub same_process_error : e.process_error ≡ d.process_error

  pub store-IsStored :
      (d : Dispatcher A M S) (v : ℕ) (h : PacketHandler A M S)
      → IsDispatcher d
      → v < d.size
      → IsStored d v h (store d (in_table v) h)
  unfolding store load
  store-IsStored d v h w small = record {
    ordered = record { full = length-set d.handlers v h ∙ w.full; no_odd = w.no_odd };
    same_size = refl;
    stored = get_elem?-set d.handlers v h (omega (arith, w.full));
    others = λ k ne. get_elem?-set_other d.handlers v k h ne;
    same_unpack_error = refl;
    same_process_error = refl;
  }

  -- Registering a type below the size fills its slot.
  pub dispatcher_set_packet_body-IsStored :
      (d : Dispatcher A M S) (v : ℕ) (name : String) (arg : A) (unpack : UnpackFn M)
      (process : ProcessFn A M S)
      → IsDispatcher d
      → v < d.size
      → (e : Dispatcher A M S) × (dispatcher_set_packet_body d (pos v) name arg unpack process
          ≡ some e)
        × IsStored d v (init_handler name arg unpack process) e
  unfolding dispatcher_set_packet_body
  dispatcher_set_packet_body-IsStored d v name arg unpack process w small = (
    store d (in_table v) (init_handler name arg unpack process),
    rw (get_handler-in_table d v small),
    store-IsStored d v _ w small,
  )

  -- Registering a type from the size on faults: the first cell of the odd list is written past the
  -- end of its block.
  dispatcher_set_packet_body-none :
      (d : Dispatcher A M S) (v : ℕ) (name : String) (arg : A) (unpack : UnpackFn M)
      (process : ProcessFn A M S)
      → IsDispatcher d
      → d.size ≤ v
      → dispatcher_set_packet_body d (pos v) name arg unpack process ≡ none
  unfolding dispatcher_set_packet_body dispatcher_create_handler create_odd fill_odd
  dispatcher_set_packet_body-none d v name arg unpack process w h =
      let e : ltb v d.size ≡ false = ground arith in
      rw (get_handler-none d v w h, e, w.no_odd, dispatcher_create_handler, create_odd, fill_odd)

  -- For a type from the size on, in a dispatcher in order: changing its handlers and pushing an
  -- argument return 0, popping one and asking for its name return NULL, all without any change; and
  -- registering it faults, since a cell of the odd list does not fit into its block.
  pub unknown_type :
      (d : Dispatcher A M S) (value : ℕ) (name : String) (arg : A) (unpack : UnpackFn M)
      (process : ProcessFn A M S)
      → IsDispatcher d
      → d.size ≤ value
      → (dispatcher_set_packet_handlers d (pos value) unpack process ≡ some (0, d))
        × (dispatcher_push_arg d (pos value) arg ≡ some (0, d))
        × (dispatcher_pop_arg d (pos value) ≡ some (none, d))
        × (dispatcher_get_packet_name d (pos value) ≡ some none)
        × (dispatcher_set_packet_body d (pos value) name arg unpack process ≡ none)
  unfolding dispatcher_set_packet_handlers dispatcher_push_arg dispatcher_pop_arg
      dispatcher_get_packet_name
  unknown_type d value name arg unpack process w h =
      let e = get_handler-none d value w h in
      (
        rw e refl,
        rw e refl,
        rw e refl,
        rw e refl,
        dispatcher_set_packet_body-none d value name arg unpack process w h,
      )

length-zero_handlers :
    (A M S : Type 0) (n : ℕ) → length (zero_handlers {A = A} {M = M} {S = S} n) ≡ n
length-zero_handlers A M S zero = refl
length-zero_handlers A M S (suc n) = ap suc (length-zero_handlers A M S n)

pub new_dispatcher-IsDispatcher :
    (A M S : Type 0) (n : ℕ) → IsDispatcher (new_dispatcher {A = A} {M = M} {S = S} n)
unfolding new_dispatcher
new_dispatcher-IsDispatcher A M S n = record { full = length-zero_handlers A M S n; no_odd = refl }
