-- ===== src/Dhash.antt =====
-- The file client: file_client/dhash.h, transfer.h, d_messages.proto and pack.cpp. It
-- looks up files by the hash of their names. UDT, stat, OpenSSL and the generated codecs are
-- parameters. `none` is a fault: a NULL pointer or memory outside a block.
pub mod Send
pub mod Transfers
pub mod Handlers
pub mod Data
pub mod Forward
pub mod Messages
pub mod Rendezvous
pub mod Refusal
pub mod Control
pub mod Install
pub mod Announce
pub mod Stream
pub mod Protocol
pub mod Finish
pub mod Whole
pub mod Exchange
mod Samples
mod Tests
use tangent.Base.{
  ℕ, ◌^◌, ◌<◌, ◌≡◌, Bool, Option, none, some, List, [], ◌∷◌, ◌++◌, length, leb, if◌then◌else◌,
}
use tangent.Base.Bind.{◌>>=◌}
use tangent.Server.{In6Addr, ChordServer}
use tangent.Send.{Command}
use tangent.Dispatcher.{RawHeader}
use tangent.Dispatcher.Packet.{HeaderUnpack}

-- The messages of d_messages.proto; `client_request_reply` carries the code in front of the name.
pub data DhashMessage : Type 0 where
  client_request : List ℕ → DhashMessage
  client_request_reply : ℕ → List ℕ → DhashMessage
  query : In6Addr → ℕ → List ℕ → DhashMessage
  query_reply_success : List ℕ → DhashMessage
  query_reply_failure : List ℕ → DhashMessage
  push : In6Addr → ℕ → List ℕ → DhashMessage
  push_reply : List ℕ → DhashMessage

-- Which of the generated `unpack` functions is meant.
pub data Kind : Type 0 where
  a_client_request a_client_request_reply a_query a_query_reply_success : Kind
  a_query_reply_failure a_push a_push_reply : Kind

abbrev pub kind : DhashMessage → Kind
kind (client_request name) = a_client_request
kind (client_request_reply code name) = a_client_request_reply
kind (query addr port name) = a_query
kind (query_reply_success name) = a_query_reply_success
kind (query_reply_failure name) = a_query_reply_failure
kind (push addr port name) = a_push
kind (push_reply name) = a_push_reply

abbrev pub dhash_client_request : ℕ
dhash_client_request = 0

abbrev pub dhash_client_reply_local : ℕ
dhash_client_reply_local = 0

abbrev pub dhash_client_reply_success : ℕ
dhash_client_reply_success = 1

abbrev pub dhash_client_reply_failure : ℕ
dhash_client_reply_failure = 2

abbrev pub dhash_query : ℕ
dhash_query = 0

abbrev pub dhash_query_reply_success : ℕ
dhash_query_reply_success = 1

abbrev pub dhash_query_reply_failure : ℕ
dhash_query_reply_failure = 2

abbrev pub dhash_push : ℕ
dhash_push = 3

abbrev pub dhash_push_reply : ℕ
dhash_push_reply = 4

abbrev pub dhash_wire_version : ℕ
dhash_wire_version = 1

-- A `uint32_t` field holds 32 bits.
abbrev pub FitsWire : DhashMessage → Type 0
FitsWire (client_request name) = 0 < 1
FitsWire (client_request_reply code name) = code < 2 ^ 32
FitsWire (query addr port name) = port < 2 ^ 32
FitsWire (query_reply_success name) = 0 < 1
FitsWire (query_reply_failure name) = 0 < 1
FitsWire (push addr port name) = port < 2 ^ 32
FitsWire (push_reply name) = 0 < 1

-- The code outside the repository: the generated codecs, which read back what they wrote; whether
-- `stat` finds a path; the socket that UDT opens for IPv4 or IPv6, and whether it binds to a port;
-- the content of a file, the CMS structure in it, and whether that verifies.
pub record Library : Type 0 where
  pub header__pack : RawHeader → List ℕ
  pub header__unpack : HeaderUnpack
  pub message__pack : DhashMessage → List ℕ
  pub message__unpack : Kind → List ℕ → Option DhashMessage
  pub stat : List ℕ → Bool
  pub udt_socket : Bool → Option ℕ
  pub udt_bind : ℕ → ℕ → Bool
  pub bio_new_file : List ℕ → Option (List ℕ)
  pub d2i_cms : List ℕ → Option (List ℕ)
  pub cms_verify : List ℕ → Bool
  pub unpack-pack_header :
      (h : RawHeader) → h.type < 2 ^ 32 → header__unpack (header__pack h) ≡ some h
  pub unpack-pack_message :
      (m : DhashMessage) → FitsWire m → message__unpack (kind m) (message__pack m) ≡ some m

pub data TransferType : Type 0 where
  transfer_idle transfer_send transfer_receive : TransferType

-- The two callbacks that are ever set.
pub data TransferEvent : Type 0 where
  receive_success receive_fail : TransferEvent

-- A `Transfer`. `success_ev` and `fail_ev` tell whether the event is there; `local_port` is the port
-- that the UDT socket is bound to.
pub record Transfer : Type 0 where
  pub type : TransferType
  pub dir : List ℕ
  pub file : Option (List ℕ)
  pub success_cb : Option TransferEvent
  pub fail_cb : Option TransferEvent
  pub success_ev : Bool
  pub fail_ev : Bool
  pub udt_sock : ℕ
  pub local_port : ℕ
  pub remote_addr : In6Addr
  pub remote_port : ℕ

-- What the client does to the outside: a datagram through the socket of a server, a write to the
-- control socket, a thread that runs `transfer_connect`, and a transfer that is freed.
pub data Effect : Type 0 where
  chord_sent : ℕ → Command → Effect
  control_written : List ℕ → Effect
  transfer_started : Transfer → Effect
  transfer_freed : Transfer → Effect

-- The `DHash` that the handlers read, with the effects so far. Servers are known by their index.
pub record Dhash : Type 0 where
  pub servers : List ChordServer
  pub files_path : List ℕ
  pub effects : List Effect

abbrev pub effect : Effect → Dhash → Dhash
effect e w = record w { effects = w.effects ++ (e ∷ []) }

-- A message packed into a buffer of `size` bytes.
abbrev pub into : ℕ → List ℕ → Option (List ℕ)
into size bytes = if leb (length bytes) size then some bytes else none

module _ (lib : Library) where
  open lib use {header__pack, message__pack}

  -- `pack_header` of src/pack.c, whose payload passes through a buffer of 65535 bytes, into a buffer
  -- of `size` bytes.
  unfoldable pub pack_dhash_header : ℕ → ℕ → DhashMessage → Option (List ℕ)
  pack_dhash_header size type msg = do
    payload ← into 65535 (message__pack msg)
    into size (
        header__pack (record { version = some dhash_wire_version; type = type; payload = payload }))

  -- The callers' buffers have 1024 bytes.
  abbrev pub dhash_pack_control_request_reply : ℕ → List ℕ → Option (List ℕ)
  dhash_pack_control_request_reply code name =
      into 1024 (message__pack (client_request_reply code name))

  abbrev pub dhash_pack_query : In6Addr → ℕ → List ℕ → Option (List ℕ)
  dhash_pack_query addr port name = pack_dhash_header 1024 dhash_query (query addr port name)

  abbrev pub dhash_pack_query_reply_success : List ℕ → Option (List ℕ)
  dhash_pack_query_reply_success name =
      pack_dhash_header 1024 dhash_query_reply_success (query_reply_success name)

  abbrev pub dhash_pack_query_reply_failure : List ℕ → Option (List ℕ)
  dhash_pack_query_reply_failure name =
      pack_dhash_header 1024 dhash_query_reply_failure (query_reply_failure name)

  abbrev pub dhash_pack_push : In6Addr → ℕ → List ℕ → Option (List ℕ)
  dhash_pack_push addr port name = pack_dhash_header 1024 dhash_push (push addr port name)

  abbrev pub dhash_pack_push_reply : List ℕ → Option (List ℕ)
  dhash_pack_push_reply name = pack_dhash_header 1024 dhash_push_reply (push_reply name)

  -- The buffer of its caller has BUFSIZE bytes.
  abbrev pub dhash_pack_client_request : List ℕ → Option (List ℕ)
  dhash_pack_client_request name =
      pack_dhash_header 65535 dhash_client_request (client_request name)
