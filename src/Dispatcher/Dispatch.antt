-- ===== src/Dispatcher/Dispatch.antt =====
-- `dispatch_packet` of src/dispatcher.c runs the handler that was registered for the packet's type.
use Prim.Native.String.{String}
use tangent.Base.{
  ℕ, ◌^◌, ◌≤◌, ◌<◌, ◌≡◌, ◌≢◌, ◌⊎◌, inl, inr, refl, sym, ◌∙◌, true, false, none, some, List, ltb,
  ◌==◌, ==_iff, arith, Bool-cases, Option-cases,
}
use tangent.Base.Int.{pos}
use tangent.Server.{Node}
use tangent.Dispatcher.{
  RawHeader, PacketHandler, Dispatcher, UnpackFn, ProcessFn, in_table, load, init_handler,
  dispatcher_set_packet_body,
}
use tangent.Dispatcher.Packet.{
  HeaderUnpack, to_int, packet_name_index, max_packet_type, run_handler, dispatch_packet,
}
use tangent.Dispatcher.Table.{
  IsDispatcher, IsStored, get_handler-in_table, get_handler-none, load-in_table,
  dispatcher_set_packet_body-IsStored,
}

pub small_int : (n : ℕ) → n < max_packet_type → to_int n ≡ pos n
unfolding to_int
small_int n h = let e : ltb n (2 ^ 31) ≡ true = ground arith in rw e

named : (n : ℕ) → n < max_packet_type → packet_name_index n ≡ some n
unfolding packet_name_index
named n h = let e : ltb n max_packet_type ≡ true = ground arith in rw e

ℕ-cases : (m n : ℕ) → (m ≡ n) ⊎ (m ≢ n)
ℕ-cases m n = elim (Bool-cases (m == n)) [
  | inl e ↦ inl ((==_iff m n).0 e)
  | inr e ↦ inr (λ k. ground arith)
]

-- The table plays no part once the handler is found.
run_handler-same :
    {A M S : Type 0} (d e : Dispatcher A M S) (h : PacketHandler A M S) (header : RawHeader)
    (from : Node) (s : S)
    → e.unpack_error ≡ d.unpack_error
    → e.process_error ≡ d.process_error
    → run_handler e h header from s ≡ run_handler d h header from s
unfolding run_handler
run_handler-same d e h header from s u p = elim (Option-cases h.unpack) [
  | inl null ↦ rw (null, run_handler) refl
  | inr (unpack, eu) ↦ elim (Option-cases (unpack header.payload)) [
    | inl bad ↦ rw (eu, bad, u, run_handler) refl
    | inr (msg, em) ↦ elim (Option-cases h.process) [
      | inl null ↦ rw (eu, em, null, run_handler) refl
      | inr (process, ep) ↦ elim (Option-cases (process header h.process_args msg from s)) [
        | inl fault ↦ rw (eu, em, ep, fault, run_handler) refl
        | inr (r, er) ↦ rw (eu, em, ep, er, p, run_handler) refl
      ]
    ]
  ]
]

module _ {A M S : Type 0} (header_unpack : HeaderUnpack) where
  pub dispatch_packet-loaded :
      (d : Dispatcher A M S) (buf : List ℕ) (header : RawHeader) (h : PacketHandler A M S)
      (from : Node) (s : S)
      → header_unpack buf ≡ some header
      → header.type < max_packet_type
      → header.type < d.size
      → load d (in_table header.type) ≡ some h
      → dispatch_packet header_unpack d buf from s ≡ run_handler d h header from s
  unfolding dispatch_packet
  dispatch_packet-loaded d buf header h from s e k small found = rw (
    e,
    named header.type k,
    small_int header.type k,
    get_handler-in_table d header.type small,
    found,
  )

  -- A packet of a known type at or above the size of a dispatcher in order is dropped: the result is
  -- 0, nothing is written to `process_ret`, and the state stays as it was.
  pub dispatch_packet-dropped :
      (d : Dispatcher A M S) (buf : List ℕ) (header : RawHeader) (from : Node) (s : S)
      → IsDispatcher d
      → header_unpack buf ≡ some header
      → header.type < max_packet_type
      → d.size ≤ header.type
      → dispatch_packet header_unpack d buf from s ≡ some (0, none, s)
  unfolding dispatch_packet
  dispatch_packet-dropped d buf header from s w e k big =
      rw (e, named header.type k, small_int header.type k, get_handler-none d header.type w big)

  -- A packet whose header does not unpack, or whose type is not in PACKET_NAMES, faults.
  pub dispatch_packet-none :
      (d : Dispatcher A M S) (buf : List ℕ) (from : Node) (s : S)
      → ((header_unpack buf ≡ none)
          ⊎ ((header : RawHeader) × (header_unpack buf ≡ some header)
              × (max_packet_type ≤ header.type)))
      → dispatch_packet header_unpack d buf from s ≡ none
  unfolding dispatch_packet packet_name_index
  dispatch_packet-none d buf from s (inl e) = rw e
  dispatch_packet-none d buf from s (inr (header, e, big)) =
      let off : ltb header.type max_packet_type ≡ false = ground arith in
      rw (e, off, packet_name_index)

  -- A table with another handler for one type runs that handler for its packets, and does with those of
  -- the other types what it did.
  pub dispatch_packet-IsStored :
      (d t : Dispatcher A M S) (value : ℕ) (h : PacketHandler A M S) (buf : List ℕ)
      (header : RawHeader) (from : Node) (s : S)
      → IsDispatcher d
      → IsStored d value h t
      → header_unpack buf ≡ some header
      → header.type < max_packet_type
      → header.type < d.size
      → ((header.type ≡ value)
          × (dispatch_packet header_unpack t buf from s ≡ run_handler d h header from s))
        ⊎ ((header.type ≢ value)
            × (dispatch_packet header_unpack t buf from s
                ≡ dispatch_packet header_unpack d buf from s))
  dispatch_packet-IsStored d t value h buf header from s w r e k below =
      let here : header.type < t.size = omega (arith, r.same_size) in
      elim (ℕ-cases header.type value) [
        | inl at ↦ inl (
          at,
          dispatch_packet-loaded t buf header h from s e k here (rw at r.stored)
              ∙ run_handler-same d t h header from s r.same_unpack_error r.same_process_error,
        )
        | inr off ↦
            let (g, found) = load-in_table d header.type w below in
            inr (
              off,
              dispatch_packet-loaded t buf header g from s e k here
                    (r.others header.type (λ i. off (sym i)) ∙ found)
                  ∙ run_handler-same d t g header from s r.same_unpack_error r.same_process_error
                  ∙ sym (dispatch_packet-loaded d buf header g from s e k below found),
            )
      ]

  -- Registering handlers in a dispatcher in order for a type below its size succeeds. From then on, a
  -- packet of that type, which is one of PACKET_NAMES, runs them with the one argument given; for a
  -- packet of any other such type below the size the dispatcher behaves as before.
  pub dispatch_packet-set_packet_body :
      (d : Dispatcher A M S) (value : ℕ) (name : String) (arg : A) (unpack : UnpackFn M)
      (process : ProcessFn A M S) (buf : List ℕ) (header : RawHeader) (from : Node) (s : S)
      → IsDispatcher d
      → value < d.size
      → header_unpack buf ≡ some header
      → header.type < max_packet_type
      → header.type < d.size
      → (e : Dispatcher A M S) × (dispatcher_set_packet_body d (pos value) name arg unpack process
          ≡ some e)
        × (((header.type ≡ value)
              × (dispatch_packet header_unpack e buf from s
                  ≡ run_handler d (init_handler name arg unpack process) header from s))
            ⊎ ((header.type ≢ value)
                × (dispatch_packet header_unpack e buf from s
                    ≡ dispatch_packet header_unpack d buf from s)))
  dispatch_packet-set_packet_body d value name arg unpack process buf header from s w small e k
        below =
      let (t, made, r) =
        dispatcher_set_packet_body-IsStored d value name arg unpack process w small in
      (t, made, dispatch_packet-IsStored d t value _ buf header from s w r e k below)
