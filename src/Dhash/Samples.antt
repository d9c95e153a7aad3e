-- ===== src/Dhash/Samples.antt =====
-- Test data for the file client: small codecs, two clients, and a connection between them.
use tangent.Base.{
  ℕ, zero, suc, ◌≡◌, refl, ap, true, Option, none, some, List, [], ◌∷◌, ◌++◌, length, length-append,
  take, drop, get_or, leb, ◌==◌, arith, if◌then◌else◌,
}
use tangent.Server.{ChordServer, In6Addr}
use tangent.Dispatcher.{RawHeader}
use tangent.Dispatcher.Packet.{HeaderUnpack}
use tangent.Dhash.{
  DhashMessage, client_request, client_request_reply, query, query_reply_success,
  query_reply_failure, push, push_reply, Kind, kind, a_client_request, a_client_request_reply,
  a_query, a_query_reply_success, a_query_reply_failure, a_push, a_push_reply, Library, Dhash,
}
use tangent.Dhash.Stream.{Udt}
use tangent.Dhash.Whole.{IsWhole}
use tangent.Samples.{sample_server, peer}

abbrev zeros_of : ℕ → List ℕ
zeros_of zero = []
zeros_of (suc n) = 0 ∷ zeros_of n

pub length-zeros_of : (n : ℕ) → length (zeros_of n) ≡ n
length-zeros_of zero = refl
length-zeros_of (suc n) = ap suc (length-zeros_of n)

take-append : (xs ys : List ℕ) → take (length xs) (xs ++ ys) ≡ xs
take-append [] ys = refl
take-append (x ∷ xs) ys = ap (λ zs. x ∷ zs) (take-append xs ys)

drop-append : (xs ys : List ℕ) → drop (length xs) (xs ++ ys) ≡ ys
drop-append [] ys = refl
drop-append (x ∷ xs) ys = drop-append xs ys

abbrev version_code : Option ℕ → ℕ
version_code none = 0
version_code (some v) = suc v

abbrev version_of : ℕ → Option ℕ
version_of zero = none
version_of (suc v) = some v

version_of-version_code : (v : Option ℕ) → version_of (version_code v) ≡ v
version_of-version_code none = refl
version_of-version_code (some v) = refl

abbrev toy_header_pack : RawHeader → List ℕ
toy_header_pack h = version_code h.version ∷ h.type ∷ h.payload

abbrev toy_header_unpack : HeaderUnpack
toy_header_unpack (v ∷ type ∷ payload) =
    some (record { version = version_of v; type = type; payload = payload })
toy_header_unpack _ = none

pub toy_header-unpack-pack : (h : RawHeader) → toy_header_unpack (toy_header_pack h) ≡ some h
toy_header-unpack-pack h =
    ap (λ v. some (record { version = v; type = h.type; payload = h.payload }))
      (version_of-version_code h.version)

abbrev toy_pack : DhashMessage → List ℕ
toy_pack (client_request name) = name
toy_pack (client_request_reply code name) = code ∷ name
toy_pack (query addr port name) = length addr ∷ port ∷ (addr ++ name)
toy_pack (query_reply_success name) = name
toy_pack (query_reply_failure name) = name
toy_pack (push addr port name) = length addr ∷ port ∷ (addr ++ name)
toy_pack (push_reply name) = name

abbrev toy_addressed : (In6Addr → ℕ → List ℕ → DhashMessage) → List ℕ → Option DhashMessage
toy_addressed f (n ∷ port ∷ rest) = some (f (take n rest) port (drop n rest))
toy_addressed f _ = none

abbrev toy_coded : List ℕ → Option DhashMessage
toy_coded [] = none
toy_coded (code ∷ name) = some (client_request_reply code name)

abbrev toy_unpack : Kind → List ℕ → Option DhashMessage
toy_unpack a_client_request bytes = some (client_request bytes)
toy_unpack a_client_request_reply bytes = toy_coded bytes
toy_unpack a_query bytes = toy_addressed query bytes
toy_unpack a_query_reply_success bytes = some (query_reply_success bytes)
toy_unpack a_query_reply_failure bytes = some (query_reply_failure bytes)
toy_unpack a_push bytes = toy_addressed push bytes
toy_unpack a_push_reply bytes = some (push_reply bytes)

pub toy_unpack-pack : (m : DhashMessage) → toy_unpack (kind m) (toy_pack m) ≡ some m
toy_unpack-pack (client_request name) = refl
toy_unpack-pack (client_request_reply code name) = refl
toy_unpack-pack (query addr port name) = rw (take-append addr name, drop-append addr name) refl
toy_unpack-pack (query_reply_success name) = refl
toy_unpack-pack (query_reply_failure name) = refl
toy_unpack-pack (push addr port name) = rw (take-append addr name, drop-append addr name) refl
toy_unpack-pack (push_reply name) = refl

-- Files are found under the directory `h` only, and what is in one is signed.
abbrev pub toy_library : Library
toy_library = record {
  header__pack = toy_header_pack;
  header__unpack = toy_header_unpack;
  message__pack = toy_pack;
  message__unpack = toy_unpack;
  stat = λ path. get_or path 0 0 == b'h';
  udt_socket = λ v4. some 3;
  udt_bind = λ sock port. true;
  bio_new_file = λ path. some path;
  d2i_cms = λ bio. some bio;
  cms_verify = λ cms. true;
  unpack-pack_header = λ h fits. toy_header-unpack-pack h;
  unpack-pack_message = λ m fits. toy_unpack-pack m;
}

-- The server of node 60, and clients with the one directory or the other.
abbrev pub asking_server : ChordServer
asking_server = record sample_server { node = peer 60 }

abbrev pub asking_client : Dhash
asking_client = record { servers = asking_server ∷ []; files_path = b'a' ∷ []; effects = [] }

abbrev pub owning_client : Dhash
owning_client = record { servers = sample_server ∷ []; files_path = b'h' ∷ []; effects = [] }

abbrev pub lacking_client : Dhash
lacking_client = record { servers = sample_server ∷ []; files_path = b'a' ∷ []; effects = [] }

-- A connection: what is to come in, and what went out.
pub record Wire : Type 0 where
  pub incoming : List ℕ
  pub outgoing : List ℕ

abbrev pub wire_recv : Wire → ℕ → Option (List ℕ × Wire)
wire_recv s n =
    if leb n (length s.incoming)
    then some (take n s.incoming, record s { incoming = drop n s.incoming })
    else none

abbrev pub wire_put : Wire → List ℕ → Wire
wire_put s bytes = record s { outgoing = s.outgoing ++ bytes }

abbrev pub wire_udt : Udt Wire
wire_udt = record {
  recv = wire_recv;
  send = λ s bytes. some (length bytes, wire_put s bytes);
  recvfile = wire_recv;
  sendfile = λ s bytes size. some (wire_put s bytes);
  connect = λ s addr port. some s;
  uninitialised = zeros_of;
  length-uninitialised = length-zeros_of;
}

pub wire_recv-whole :
    (s : Wire) (bytes rest : List ℕ)
    → s.incoming ≡ bytes ++ rest
    → (t : Wire) × (wire_recv s (length bytes) ≡ some (bytes, t))
      × (t.incoming ≡ rest)
      × (t.outgoing ≡ s.outgoing)
wire_recv-whole s bytes rest e =
    let enough : leb (length bytes) (length (bytes ++ rest)) ≡ true =
      ground (arith, length-append bytes rest) in
    (
      record s { incoming = rest },
      rw (e, enough, take-append bytes rest, drop-append bytes rest) refl,
      refl,
      refl,
    )

abbrev pub wire_udt-IsWhole : IsWhole wire_udt
wire_udt-IsWhole = record {
  incoming = λ s. s.incoming;
  outgoing = λ s. s.outgoing;
  recv_whole = wire_recv-whole;
  send_whole = λ s bytes. (wire_put s bytes, refl, refl, refl);
  recvfile_whole = λ s bytes rest small e. wire_recv-whole s bytes rest e;
  sendfile_whole = λ s bytes small. (wire_put s bytes, refl, refl, refl);
}
