-- ===== src/Process.antt =====
-- src/process.c: the handlers of the ten packets. A handler returns its error code, the server and
-- the commands that it gave, or faults.
pub mod Discover
pub mod Route
pub mod Peers
pub mod Handle
pub mod Follow
pub mod Invariant
pub mod Keeps
pub mod Routing
pub mod Liveness
mod Tests
use tangent.Base.{
  ℕ, ◌+◌, ◌-◌, ◌%◌, ◌^◌, Bool, true, false, Option, none, some, List, [], ◌∷◌, take, length, leb,
  if◌then◌else◌,
}
use tangent.Server.{In6Addr, ChordServer}
use tangent.Send.{Command}

-- The error codes of include/chord/chord.h.
pub data ErrorCode : Type 0 where
  chord_no_error chord_protocol_error chord_ttl_expired chord_invalid_ticket : ErrorCode
  chord_addr_undiscovered chord_self_originator chord_finger_error : ErrorCode

-- `fault` is a failed assertion, a NULL dereference or a read past the end of a field.
pub data Outcome : Type 0 where
  returned : ErrorCode → ChordServer → List Command → Outcome
  fault : Outcome

-- A step that may fault, and what follows it.
infixl 5 ◌>>=◌
abbrev pub ◌>>=◌ {ℓ} : {A : Type ℓ} → Option A → (A → Outcome) → Outcome
none >>= k = fault
some a >>= k = k a

-- The value of an optional field that the message leaves out.
abbrev pub or_default {ℓ} : {A : Type ℓ} → A → Option A → A
or_default d none = d
or_default d (some a) = a

-- `memcpy` of `n` bytes out of a field.
unfoldable pub copy : ℕ → List ℕ → Option (List ℕ)
copy n bytes = if leb n (length bytes) then some (take n bytes) else none

-- A `ushort` or `in_port_t` keeps 16 bits of a `uint32_t`.
abbrev pub to_u16 : ℕ → ℕ
to_u16 port = port % 2 ^ 16

-- A `uchar` keeps 8 bits.
abbrev pub to_uchar : ℕ → ℕ
to_uchar n = n % 256

-- `--msg->ttl` on a `uint32_t`.
abbrev pub decrement : ℕ → ℕ
decrement ttl = (ttl + 2 ^ 32 - 1) % 2 ^ 32

-- What `fnew` holds after `insert_finger`: `junk`, the uninitialised local, if nothing was stored.
abbrev pub after_insert : Bool → Option Bool → Bool
after_insert junk none = junk
after_insert junk (some b) = b
