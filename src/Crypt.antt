-- ===== src/Crypt.antt =====
-- src/crypt.c: tickets and identifiers from hashes. SHA-1 (OpenSSL) and the generated codec of the
-- `Ticket` message are parameters, with what the code relies on. The host's words are little-endian
-- and its `ulong` has eight bytes; logging is left out.
pub mod Encoding
pub mod Ticket
mod Tests
use tangent.Base.{
  ℕ, zero, suc, ◌+◌, ◌*◌, ◌/◌, ◌%◌, ◌^◌, ◌<◌, ◌≤◌, ◌≡◌, Bool, true, false, not, Option, none, some,
  List, [], ◌∷◌, ◌++◌, length, take, ltb, ◌==◌, if◌then◌else◌,
}
use tangent.Id.{ChordId, IsId, bytes_equal}
use tangent.Server.{In6Addr, Node, ticket_timeout}

-- The `Ticket` message of src/messages.proto.
pub record TicketMsg : Type 0 where
  pub time : ℕ
  pub hash : List ℕ

-- What the code takes from libraries: a digest of 20 bytes, and a codec that reads back what it wrote
-- for a time of 32 bits.
pub record Crypto : Type 0 where
  pub sha1 : List ℕ → List ℕ
  pub ticket_pack : TicketMsg → List ℕ
  pub ticket_unpack : List ℕ → Option TicketMsg
  pub sha1-IsId : (m : List ℕ) → IsId (sha1 m)
  pub unpack-pack : (t : TicketMsg) → t.time < 2 ^ 32 → ticket_unpack (ticket_pack t) ≡ some t

-- One letter of a format with its argument.
pub data Arg : Type 0 where
  char short long : ℕ → Arg
  id_arg : ChordId → Arg
  addr_arg : In6Addr → Arg

-- The `k` bytes of an unsigned number, in memory order.
unfoldable pub le_bytes : ℕ → ℕ → List ℕ
le_bytes zero n = []
le_bytes (suc k) n = (n % 256) ∷ le_bytes k (n / 256)

unfoldable pub hash_arg : Arg → List ℕ
hash_arg (char c) = (c % 256) ∷ []
hash_arg (short s) = le_bytes 2 s
hash_arg (long l) = le_bytes 8 l
hash_arg (id_arg id) = id
hash_arg (addr_arg v6addr) = v6addr

-- The bytes that reach the digest, for a format and its arguments.
unfoldable pub vpack_hash : List Arg → List ℕ
vpack_hash [] = []
vpack_hash (a ∷ args) = hash_arg a ++ vpack_hash args

-- `htons` on a little-endian host.
unfoldable pub htons : ℕ → ℕ
htons port = (port % 256) * 256 + port / 256 % 256

module _ (cr : Crypto) where
  open cr use {sha1, ticket_pack, ticket_unpack}

  unfoldable pub ticket_digest : List ℕ → ℕ → List Arg → List ℕ
  ticket_digest salt time args = sha1 (salt ++ vpack_hash (long time ∷ []) ++ vpack_hash args)

  -- `now` is what `time(NULL)` returns; it is cut to 32 bits.
  unfoldable pub pack_ticket : List ℕ → ℕ → ℕ → List Arg → List ℕ
  pack_ticket salt hash_len now args =
      let epoch_time = now % 2 ^ 32 in
      ticket_pack
        (record { time = epoch_time; hash = take hash_len (ticket_digest salt epoch_time args) })

  -- The checks on an unpacked ticket.
  abbrev check_ticket : List ℕ → ℕ → ℕ → List Arg → TicketMsg → Bool
  check_ticket salt hash_len now args ticket =
      if not (length ticket.hash == hash_len)
      then false
      else if ltb (ticket.time + ticket_timeout) now
      then false
      else bytes_equal (take hash_len (ticket_digest salt ticket.time args))
          (take hash_len ticket.hash)

  -- `none` is the read through NULL in `ticket__free_unpacked`, behind `fail`, where nothing was
  -- unpacked.
  unfoldable pub verify_ticket : List ℕ → ℕ → ℕ → List ℕ → List Arg → Option Bool
  verify_ticket salt hash_len now ticket_buf args = elim (ticket_unpack ticket_buf) [
    | none ↦ none
    | some ticket ↦ some (check_ticket salt hash_len now args ticket)
  ]

  unfoldable pub get_data_id : List ℕ → ChordId
  get_data_id buf = sha1 buf

  unfoldable pub get_address_id : In6Addr → ℕ → ChordId
  get_address_id addr port = sha1 (vpack_hash (addr_arg addr ∷ short (htons port) ∷ []))
