-- ===== src/Samples.antt =====
-- Test data for the modules of tests: nodes, a server with three fingers, and a small stand-in for
-- SHA-1 and the codec of tickets.
use tangent.Base.{
  zeros, All-zeros, ℕ, zero, suc, ◌+◌, ◌%◌, ◌<◌, ◌≡◌, refl, ap, Option, none, some, List, [], ◌∷◌,
  length, All, arith, inl,
}
use tangent.Base.Int.{pos}
use tangent.Id.{ChordId, IsId}
use tangent.Server.{Node, Finger, Status, active, passive, ChordServer, In6Addr}
use tangent.Finger.Invariant.{IsTable}
use tangent.Server.Addr.{is_addr_unspecified}
use tangent.Id.Value.{value}
use tangent.Id.Between.{rank}
use tangent.Finger.{pred_finger, last_such}
use tangent.Finger.Search.{passive_count}
use tangent.Crypt.{Crypto, TicketMsg}
use tangent.Process.Invariant.{IsServer}
use tangent.Dispatcher.{RawHeader}

-- The identifier that starts with the byte `b`, and the address that ends with it.
abbrev pub byte_id : ℕ → ChordId
byte_id b = b ∷ zeros 19

pub byte_id-IsId : (b : ℕ) → b < 256 → IsId (byte_id b)
byte_id-IsId b h = record { size = refl; bytes = (h, All-zeros 19) }

abbrev pub peer_addr : ℕ → In6Addr
peer_addr b = 253 ∷ 0 ∷ 0 ∷ 0 ∷ 0 ∷ 0 ∷ 0 ∷ 0 ∷ 0 ∷ 0 ∷ 0 ∷ 0 ∷ 0 ∷ 0 ∷ 0 ∷ b ∷ []

abbrev pub peer : ℕ → Node
peer b = record { id = byte_id b; addr = peer_addr b; port = 4000 }

abbrev pub peer_finger : ℕ → ℕ → Status → ℕ → Finger
peer_finger loc b status npings = record {
  loc = loc;
  node = peer b;
  status = status;
  npings = npings;
  rtt_avg = pos 0;
  rtt_dev = pos 0;
}

abbrev pub near_finger : Finger
near_finger = peer_finger 0 20 active 0

abbrev pub silent_finger : Finger
silent_finger = peer_finger 1 200 passive 5

abbrev pub last_finger : Finger
last_finger = peer_finger 2 220 active 1

-- The node 10 with a successor, a passive finger that has missed five pings, and a predecessor.
abbrev pub sample_server : ChordServer
sample_server = record {
  node = peer 10;
  pred_bound = byte_id 220;
  flist = near_finger ∷ silent_finger ∷ last_finger ∷ [];
  next_loc = 3;
  num_passive_fingers = pos 1;
  to_fix_finger = 159;
  to_fix_backup = 0;
  to_ping = 0;
  well_known = peer 90 ∷ [];
  ticket_salt = 7 ∷ 8 ∷ [];
  ticket_hash_len = 4;
}

pub sample_server-IsTable : IsTable sample_server
unfolding passive_count rank value pred_finger last_such
sample_server-IsTable = record {
  self = byte_id-IsId 10 (omega arith);
  list = record {
    ids = (
      byte_id-IsId 20 (omega arith),
      (byte_id-IsId 200 (omega arith), (byte_id-IsId 220 (omega arith), tt)),
    );
    sorted = ((omega arith, (omega arith, tt)), ((omega arith, tt), (tt, tt)));
    distinct =
        (((λ e. omega arith), ((λ e. omega arith), tt)), (((λ e. omega arith), tt), (tt, tt)));
    fresh = (omega arith, (omega arith, (omega arith, tt)));
    counted = refl;
    room = omega arith;
    pings = (omega arith, (omega arith, (omega arith, tt)));
  };
  range = refl;
}

pub sample_server-IsServer : IsServer sample_server
unfolding is_addr_unspecified
sample_server-IsServer = record {
  table = sample_server-IsTable;
  undiscovered = inl refl;
  turns = (omega arith, omega arith);
}

-- The first `n` bytes of a message, filled up with zeros.
abbrev pub fit : ℕ → List ℕ → List ℕ
fit zero m = []
fit (suc n) [] = 0 ∷ fit n []
fit (suc n) (b ∷ m) = (b % 256) ∷ fit n m

pub length-fit : (n : ℕ) (m : List ℕ) → length (fit n m) ≡ n
length-fit zero m = refl
length-fit (suc n) [] = ap suc (length-fit n [])
length-fit (suc n) (b ∷ m) = ap suc (length-fit n m)

pub All-fit : (n : ℕ) (m : List ℕ) → All (λ b. b < 256) (fit n m)
All-fit zero m = tt
All-fit (suc n) [] = (omega arith, All-fit n [])
All-fit (suc n) (b ∷ m) = (omega arith, All-fit n m)

abbrev pub unpack_ticket : List ℕ → Option TicketMsg
unpack_ticket [] = none
unpack_ticket (time ∷ hash) = some (record { time = time; hash = hash })

-- A digest that keeps the first twenty bytes, and tickets as the time before the hash.
abbrev pub toy_crypto : Crypto
toy_crypto = record {
  sha1 = fit 20;
  ticket_pack = λ t. t.time ∷ t.hash;
  ticket_unpack = unpack_ticket;
  sha1-IsId = λ m. record { size = length-fit 20 m; bytes = All-fit 20 m };
  unpack-pack = λ t h. refl;
}

-- Packets of one byte of type and the payload, and handlers that add up what they get.
abbrev pub read_header : List ℕ → Option RawHeader
read_header [] = none
read_header (type ∷ payload) = some (record { version = none; type = type; payload = payload })

abbrev pub read_length : List ℕ → Option ℕ
read_length [] = none
read_length (b ∷ bs) = some (length (b ∷ bs))

abbrev pub add_up : RawHeader → List ℕ → ℕ → Node → ℕ → Option (ℕ × ℕ)
add_up header args msg from s = some (0, s + msg)
