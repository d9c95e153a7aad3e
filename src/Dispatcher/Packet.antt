-- ===== src/Dispatcher/Packet.antt =====
-- `dispatch_packet` of src/dispatcher.c, with the codec of headers as a parameter.
use tangent.Base.{ℕ, ◌-◌, ◌^◌, Option, none, some, List, ltb, ◌==◌, if◌then◌else◌}
use tangent.Base.Int.{ℤ, pos, negsuc}
use tangent.Base.Bind.{◌>>=◌}
use tangent.Server.{Node}
use tangent.Dispatcher.{RawHeader, PacketHandler, Dispatcher, get_handler, load}

-- The entries of PACKET_NAMES.
abbrev pub max_packet_type : ℕ
max_packet_type = 10

-- A `uint32_t` as an `int`.
unfoldable pub to_int : ℕ → ℤ
to_int n = if ltb n (2 ^ 31) then pos n else negsuc (2 ^ 32 - 1 - n)

-- The codec of headers.
abbrev pub HeaderUnpack : Type 0
HeaderUnpack = List ℕ → Option RawHeader

unfoldable pub dispatcher_get_type : HeaderUnpack → List ℕ → Option ℤ
dispatcher_get_type header_unpack buf = header_unpack buf >>= (λ header. some (to_int header.type))

-- The entry of PACKET_NAMES that `LogTrace` prints.
unfoldable pub packet_name_index : ℕ → Option ℕ
packet_name_index type = if ltb type max_packet_type then some type else none

module _ {A M S : Type 0} where
  abbrev pub on_unpack_error : Dispatcher A M S → PacketHandler A M S → RawHeader → Node → S → S
  on_unpack_error d h header from s = elim d.unpack_error [
    | none ↦ s
    | some f ↦ f h.process_args header.type header.payload from s
  ]

  abbrev pub on_process_error :
      Dispatcher A M S → PacketHandler A M S → RawHeader → M → Node → ℕ → S → S
  on_process_error d h header msg from ret s =
      if ret == 0
      then s
      else (elim d.process_error [ none ↦ s | some f ↦ f header h.process_args msg from ret s ])

  -- From the unpacking of the message on. The results are what `dispatch_packet` returns, what it
  -- writes to `process_ret`, if anything, and the state.
  unfoldable pub run_handler :
      Dispatcher A M S → PacketHandler A M S → RawHeader → Node → S → Option (ℕ × Option ℕ × S)
  run_handler d h header from s = do
    unpack ← h.unpack
    elim (unpack header.payload) [
      | none ↦ some (1, none, on_unpack_error d h header from s)
      | some msg ↦ do
        process ← h.process
        done ← process header h.process_args msg from s
        some (1, some done.0, on_process_error d h header msg from done.0 done.1)
    ]

  unfoldable pub dispatch_packet :
      HeaderUnpack → Dispatcher A M S → List ℕ → Node → S → Option (ℕ × Option ℕ × S)
  dispatch_packet header_unpack d buf from s = do
    header ← header_unpack buf
    name ← packet_name_index header.type
    slot ← get_handler d (to_int header.type)
    elim slot [
      | none ↦ some (0, none, s)
      | some p ↦ load d p >>= (λ h. run_handler d h header from s)
    ]
