-- ===== src/Server.antt =====
-- include/chord/chord.h, include/chord/finger.h and include/chord/chord_opts.h: the state of a
-- server, and the constants. `ChordServer` keeps the fields that the routing code reads: sockets,
-- events, the dispatcher and the unused `key_array` are left out.
-- `head_flist .. tail_flist` is the list of the fingers in the order of their `next` links. A `Finger *`
-- is the address `loc` of its cell, so two pointers are equal when their addresses are.
pub mod Addr
mod Tests
use tangent.Base.{ℕ, List}
use tangent.Base.Int.{ℤ}
use tangent.Id.{ChordId, id_bits}

abbrev pub ticket_timeout : ℕ
ticket_timeout = 1000000

abbrev pub ticket_hash_len : ℕ
ticket_hash_len = 4

abbrev pub nfingers : ℕ
nfingers = id_bits

abbrev pub nsuccessors : ℕ
nsuccessors = 8

abbrev pub npredecessors : ℕ
npredecessors = 3

abbrev pub max_passive_fingers : ℕ
max_passive_fingers = 20

abbrev pub ping_thresh : ℕ
ping_thresh = 5

abbrev pub def_ttl : ℕ
def_ttl = 32

-- An `in6_addr`: 16 bytes.
abbrev pub In6Addr : Type 0
In6Addr = List ℕ

pub record Node : Type 0 where
  pub id : ChordId
  pub addr : In6Addr
  pub port : ℕ

-- F_PASSIVE and F_ACTIVE.
pub data Status : Type 0 where
  passive active : Status

pub record Finger : Type 0 where
  pub loc : ℕ
  pub node : Node
  pub status : Status
  pub npings : ℕ
  pub rtt_avg : ℤ
  pub rtt_dev : ℤ

-- `next_loc` is the address that the next allocation returns.
pub record ChordServer : Type 0 where
  pub node : Node
  pub pred_bound : ChordId
  pub flist : List Finger
  pub next_loc : ℕ
  pub num_passive_fingers : ℤ
  pub to_fix_finger : ℕ
  pub to_fix_backup : ℕ
  pub to_ping : ℕ
  pub well_known : List Node
  pub ticket_salt : List ℕ
  pub ticket_hash_len : ℕ
