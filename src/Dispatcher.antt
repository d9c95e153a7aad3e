-- ===== src/Dispatcher.antt =====
-- src/dispatcher.c and include/chord/dispatcher.h: the table of packet handlers. `A` is the type of the
-- pointers in `process_args`, `M` that of the messages, and `S` the state that the handlers work on.
-- The length of `process_args` is `nargs`. `none` is a NULL function or name in a field, and a fault as
-- the result of an operation: memory outside a block, an uninitialised pointer, or NULL.
pub mod Packet
pub mod Table
pub mod Dispatch
pub mod Args
mod Tests
use Prim.Native.String.{String}
use tangent.Base.{
  ℕ, zero, suc, ◌+◌, ◌-◌, ◌%◌, ◌^◌, Bool, true, false, Option, none, some, List, [], ◌∷◌, ◌++◌,
  length, get_elem?, set, leb, ltb, ◌==◌, if◌then◌else◌,
}
use tangent.Base.Int.{ℤ, pos, negsuc, ltb_ℤ}
use tangent.Base.Bind.{◌>>=◌}
use tangent.Server.{Node}

-- A `Header` as `header__unpack` gives it, with the bytes of its payload.
pub record RawHeader : Type 0 where
  pub version : Option ℕ
  pub type : ℕ
  pub payload : List ℕ

abbrev pub UnpackFn : Type 0 → Type 0
UnpackFn M = List ℕ → Option M

-- The result is the returned code with the state behind the call, or a fault.
abbrev pub ProcessFn : Type 0 → Type 0 → Type 0 → Type 0
ProcessFn A M S = RawHeader → List A → M → Node → S → Option (ℕ × S)

abbrev pub UnpackErrorFn : Type 0 → Type 0 → Type 0
UnpackErrorFn A S = List A → ℕ → List ℕ → Node → S → S

abbrev pub ProcessErrorFn : Type 0 → Type 0 → Type 0 → Type 0
ProcessErrorFn A M S = RawHeader → List A → M → Node → ℕ → S → S

pub record PacketHandler (A M S : Type 0) : Type 0 where
  pub name : Option String
  pub process_args : List A
  pub unpack : Option (UnpackFn M)
  pub process : Option (ProcessFn A M S)

-- The cells in the order of their `next` links.
pub record OddPacketHandler (A M S : Type 0) : Type 0 where
  pub value : ℤ
  pub handler : PacketHandler A M S

pub record Dispatcher (A M S : Type 0) : Type 0 where
  pub handlers : List (PacketHandler A M S)
  pub odd : List (OddPacketHandler A M S)
  pub size : ℕ
  pub unpack_error : Option (UnpackErrorFn A S)
  pub process_error : Option (ProcessErrorFn A M S)

-- The bytes of the two structures, with eight for a pointer.
abbrev sizeof_packet_handler : ℕ
sizeof_packet_handler = 40

abbrev sizeof_odd_packet_handler : ℕ
sizeof_odd_packet_handler = 56

-- A pointer into the table, or to a cell of the odd list.
pub data Slot : Type 0 where
  in_table : ℕ → Slot
  in_odd : ℕ → Slot

-- The last argument and those before it; without one, `process_args[-1]` is read.
unfoldable pub take_last : {A : Type 0} → List A → Option (A × List A)
take_last [] = none
take_last (a ∷ []) = some (a, [])
take_last (a ∷ b ∷ bs) = take_last (b ∷ bs) >>= (λ r. some (r.0, a ∷ r.1))

-- The first result is the pointer that is returned.
module _ {A M S : Type 0} where
  -- What `calloc` leaves.
  abbrev pub zero_handler : PacketHandler A M S
  zero_handler = record { name = none; process_args = []; unpack = none; process = none }

  abbrev pub zero_handlers : ℕ → List (PacketHandler A M S)
  zero_handlers zero = []
  zero_handlers (suc n) = zero_handler ∷ zero_handlers n

  unfoldable pub new_dispatcher : ℕ → Dispatcher A M S
  new_dispatcher size = record {
    handlers = zero_handlers size;
    odd = [];
    size = size;
    unpack_error = none;
    process_error = none;
  }

  -- The loop over the odd list, behind `i` cells.
  unfoldable pub find_odd : ℤ → List (OddPacketHandler A M S) → ℕ → Option Slot
  find_odd value [] i = none
  find_odd value (o ∷ os) i =
      let rest = find_odd value os (i + 1) in
      if ltb_ℤ o.value value then rest else if ltb_ℤ value o.value then none else some (in_odd i)

  -- A negative value is below the size, and its slot lies before the table.
  unfoldable pub get_handler : Dispatcher A M S → ℤ → Option (Option Slot)
  get_handler d (negsuc n) = none
  get_handler d (pos value) =
      if ltb value d.size then some (some (in_table value)) else some (find_odd (pos value) d.odd 0)

  unfoldable pub load : Dispatcher A M S → Slot → Option (PacketHandler A M S)
  load d (in_table i) = get_elem? d.handlers i
  load d (in_odd i) = elim (get_elem? d.odd i) [ none ↦ none | some o ↦ some o.handler ]

  unfoldable pub store : Dispatcher A M S → Slot → PacketHandler A M S → Dispatcher A M S
  store d (in_table i) h = record d { handlers = set d.handlers i h }
  store d (in_odd i) h = elim (get_elem? d.odd i) [
    | none ↦ d
    | some o ↦ record d { odd = set d.odd i (record o { handler = h }) }
  ]

  unfoldable pub dispatcher_get_packet_name : Dispatcher A M S → ℤ → Option (Option String)
  dispatcher_get_packet_name d value = do
    slot ← get_handler d value
    elim slot [ none ↦ some none | some p ↦ load d p >>= (λ h. some h.name) ]

  unfoldable pub dispatcher_set_error_handlers :
      Dispatcher A M S
      → Option (UnpackErrorFn A S)
      → Option (ProcessErrorFn A M S)
      → Dispatcher A M S
  dispatcher_set_error_handlers d u_err p_err = record d {
    unpack_error = u_err;
    process_error = p_err;
  }

  abbrev pub init_handler : String → A → UnpackFn M → ProcessFn A M S → PacketHandler A M S
  init_handler name arg unpack process = record {
    name = some name;
    process_args = arg ∷ [];
    unpack = some unpack;
    process = some process;
  }

  -- Fills in a cell of the odd list that lies in a block of `size` bytes.
  unfoldable pub fill_odd : ℕ → ℤ → PacketHandler A M S → Option (OddPacketHandler A M S)
  fill_odd size value h =
      if leb sizeof_odd_packet_handler size
      then some (record { value = value; handler = h })
      else none

  -- The first cell is allocated in the size of the handler; with a list in place, the loop reads the
  -- local `odd` before it is set.
  unfoldable pub create_odd : Dispatcher A M S → ℤ → PacketHandler A M S → Option (Dispatcher A M S)
  create_odd d value h = elim d.odd [
    | [] ↦ fill_odd sizeof_packet_handler value h >>= (λ o. some (record d { odd = o ∷ [] }))
    | o ∷ os ↦ none
  ]

  unfoldable pub dispatcher_create_handler :
      Dispatcher A M S → ℤ → String → A → UnpackFn M → ProcessFn A M S → Option (Dispatcher A M S)
  dispatcher_create_handler d (negsuc n) name arg unpack process = none
  dispatcher_create_handler d (pos value) name arg unpack process =
      if ltb value d.size
      then some (store d (in_table value) (init_handler name arg unpack process))
      else create_odd d (pos value) (init_handler name arg unpack process)

  unfoldable pub dispatcher_set_packet_body :
      Dispatcher A M S → ℤ → String → A → UnpackFn M → ProcessFn A M S → Option (Dispatcher A M S)
  dispatcher_set_packet_body d value name arg unpack process = do
    slot ← get_handler d value
    elim slot [
      | none ↦ dispatcher_create_handler d value name arg unpack process
      | some p ↦ some (store d p (init_handler name arg unpack process))
    ]

  unfoldable pub dispatcher_set_packet_handlers :
      Dispatcher A M S → ℤ → UnpackFn M → ProcessFn A M S → Option (ℕ × Dispatcher A M S)
  dispatcher_set_packet_handlers d value unpack process = do
    slot ← get_handler d value
    elim slot [
      | none ↦ some (0, d)
      | some p ↦ do
        h ← load d p
        some (1, store d p (record h { unpack = some unpack; process = some process }))
    ]

  unfoldable pub dispatcher_push_arg : Dispatcher A M S → ℤ → A → Option (ℕ × Dispatcher A M S)
  dispatcher_push_arg d value arg = do
    slot ← get_handler d value
    elim slot [
      | none ↦ some (0, d)
      | some p ↦ do
        h ← load d p
        some (1, store d p (record h { process_args = h.process_args ++ (arg ∷ []) }))
    ]

  unfoldable pub dispatcher_pop_arg : Dispatcher A M S → ℤ → Option (Option A × Dispatcher A M S)
  dispatcher_pop_arg d value = do
    slot ← get_handler d value
    elim slot [
      | none ↦ some (none, d)
      | some p ↦ do
        h ← load d p
        last ← take_last h.process_args
        some (some last.0, store d p (record h { process_args = last.1 }))
    ]
