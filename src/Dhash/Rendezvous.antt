-- ===== src/Dhash/Rendezvous.antt =====
-- A query for a file and its answer, from client to client: file_client/process.cpp, pack.cpp and
-- transfer.cpp together.
use tangent.Base.{
  ℕ, ◌+◌, ◌%◌, ◌^◌, ◌≤◌, ◌<◌, ◌≡◌, refl, sym, subst, ap, ◌∙◌, true, false, Bool, Option, none, some,
  List, [], ◌∷◌, ◌++◌, length, leb, ◌==◌, get_elem?, arith,
}
use tangent.Base.Bind.{bind-some, if-some}
use tangent.Crypt.{Crypto, get_address_id}
use tangent.Crypt.Ticket.{take-all}
use tangent.Server.{Node, ChordServer, In6Addr}
use tangent.Server.Addr.{v4_mapped}
use tangent.Send.{send_data}
use tangent.Process.{copy}
use tangent.Text.{c_string, buf_to_str}
use tangent.Dhash.{
  into, Library, Transfer, receive_success, receive_fail, transfer_idle, transfer_send,
  transfer_receive, Dhash, chord_sent, transfer_started, DhashMessage, dhash_wire_version,
  pack_dhash_header, dhash_pack_query, dhash_pack_query_reply_success,
}
use tangent.Dhash.Handlers.{
  dhash_local_file_exists, dhash_process_query, dhash_process_query_reply_success, query_named,
  open_transfer,
}
use tangent.Dhash.Transfers.{
  new_transfer, transfer_start_sending, transfer_start_receiving, transfer_set_callbacks,
}
use tangent.Dhash.Send.{send_chord_pkt_directly}
use tangent.Dhash.Forward.{pass_unless_done}
use tangent.Dhash.Messages.{dhash_unpack_chord_data_lem, is_query, is_query_reply_success}
use tangent.Dhash.Data.{Table, DataMsg, new_chord_dispatcher, dhash_unpack_chord_data}

-- UDT gives out a socket whenever it is asked for one, and binds it.
pub record IsOpen (lib : Library) : Type 0 where
  pub sock : Bool → ℕ
  pub opened : (v4 : Bool) → lib.udt_socket v4 ≡ some (sock v4)
  pub bound : (s port : ℕ) → lib.udt_bind s port ≡ true

-- One transfer sends and the other receives, and each is bound to the port that the other connects to.
pub record IsRendezvous (here there : In6Addr) (file : List ℕ) (s r : Transfer) : Type 0 where
  pub sends : s.type ≡ transfer_send
  pub receives : r.type ≡ transfer_receive
  pub asked : r.file ≡ some file
  pub to_here : s.remote_addr ≡ here
  pub to_there : r.remote_addr ≡ there
  pub meets_sender : r.remote_port ≡ s.local_port
  pub meets_receiver : s.remote_port ≡ r.local_port

pub copy_all : (addr : In6Addr) → length addr ≡ 16 → copy 16 addr ≡ some addr
unfolding copy
copy_all addr e =
    let fits : leb 16 (length addr) ≡ true = ground arith in rw (fits, take-all 16 addr e) refl

into-some :
    (size : ℕ) (bytes out : List ℕ)
    → into size bytes ≡ some out
    → (bytes ≡ out) × (length out ≤ size)
into-some size bytes out e =
    let (fits, same) = if-some (leb (length bytes) size) bytes out e in
    (same, (let at : length bytes ≤ size = ground arith in subst (λ x. length x ≤ size) same at))

-- What a packed message unpacks to.
pub unpack-pack_dhash_header :
    (lib : Library) (size type : ℕ) (m : DhashMessage) (bytes : List ℕ)
    → type < 2 ^ 32
    → pack_dhash_header lib size type m ≡ some bytes
    → lib.header__unpack bytes
      ≡ some
          (record { version = some dhash_wire_version; type = type; payload = lib.message__pack m })
unfolding pack_dhash_header
unpack-pack_dhash_header lib size type m bytes small e =
    let (payload, packed, rest) = bind-some (into 65535 (lib.message__pack m)) _ bytes e in
    let (same, short) = into-some _ _ _ packed in
    let (whole, fits) = into-some _ _ _ rest in
    ap lib.header__unpack (sym whole)
    ∙ lib.unpack-pack_header _ small
    ∙ ap (λ x. some (record { version = some dhash_wire_version; type = type; payload = x }))
        (sym same)

module _ (cr : Crypto) (lib : Library) (o : IsOpen lib) where
  -- The transfer that a handler opens.
  abbrev fresh : ChordServer → In6Addr → ℕ → Dhash → Transfer
  fresh srv addr port w = record {
    type = transfer_idle;
    dir = w.files_path;
    file = none;
    success_cb = none;
    fail_cb = none;
    success_ev = false;
    fail_ev = false;
    udt_sock = o.sock (v4_mapped addr);
    local_port = (srv.node.port + 1) % 2 ^ 16;
    remote_addr = addr;
    remote_port = (port + 1) % 2 ^ 16;
  }

  open_transfer-fresh :
      (srv : ChordServer) (addr : In6Addr) (port : ℕ) (w : Dhash)
      → open_transfer cr lib srv addr port w ≡ some (fresh srv addr port w)
  unfolding new_transfer
  open_transfer-fresh srv addr port w =
      rw (o.opened (v4_mapped addr), o.bound (o.sock (v4_mapped addr)) _) refl

  -- A client with the file answers, and starts to send.
  dhash_process_query-found :
      (i : ℕ) (srv : ChordServer) (addr : In6Addr) (port : ℕ) (name reply : List ℕ) (from : Node)
      (w : Dhash)
      → length addr ≡ 16
      → (length name == 0) ≡ false
      → length name < 1024
      → dhash_local_file_exists lib w.files_path name ≡ true
      → dhash_pack_query_reply_success lib name ≡ some reply
      → dhash_process_query cr lib i srv addr port name from w
        ≡ some (
          0,
          record w {
            effects =
                (w.effects
                  ++ (chord_sent i (
                        send_data addr
                          (port % 2 ^ 16)
                          false
                          10
                          (get_address_id cr addr (port % 2 ^ 16))
                          reply)
                      ∷ []))
                ++ (transfer_started (record (fresh srv addr port w) { type = transfer_send })
                    ∷ []);
          },
        )
  unfolding dhash_process_query query_named buf_to_str transfer_start_sending
      send_chord_pkt_directly
  dhash_process_query-found i srv addr port name reply from w len named short here packed =
      let fits : leb (length name + 1) 1024 ≡ true = ground arith in
      rw
        (
          copy_all addr len,
          named,
          query_named,
          fits,
          here,
          packed,
          open_transfer-fresh srv addr port w,
        )
        refl

  -- The client that asked starts to receive.
  dhash_process_query_reply_success-opens :
      (i : ℕ) (srv : ChordServer) (name : List ℕ) (from : Node) (w : Dhash)
      → length name < 1024
      → dhash_process_query_reply_success cr lib i srv name from w
        ≡ some (
          0,
          record w {
            effects =
                w.effects
                ++ (transfer_started (record (fresh srv from.addr from.port w) {
                  type = transfer_receive;
                  file = some (c_string name);
                  success_cb = some receive_success;
                  fail_cb = some receive_fail;
                  success_ev = true;
                  fail_ev = true;
                })
                    ∷ []);
          },
        )
  unfolding dhash_process_query_reply_success buf_to_str transfer_start_receiving
      transfer_set_callbacks
  dhash_process_query_reply_success-opens i srv name from w short =
      let fits : leb (length name + 1) 1024 ≡ true = ground arith in
      rw (fits, open_transfer-fresh srv from.addr from.port w) refl

-- A client with its table, and the server of index `index` through which it takes part.
pub record Member (cr : Crypto) (lib : Library) : Type 0 where
  pub client : Dhash
  pub table : Table
  pub index : ℕ
  pub srv : ChordServer
  pub at : get_elem? client.servers index ≡ some srv
  pub made : new_chord_dispatcher cr lib ≡ some table

-- What the two clients have done when the answer has come in: the one with the file has answered and
-- sends, and the one that asked receives.
pub record IsServed (cr : Crypto) (lib : Library) (a b : Member cr lib) (file reply : List ℕ)
    (after_query after_reply : Option (Table × Dhash)) : Type 0 where
  pub sender : Transfer
  pub receiver : Transfer
  pub answered :
      after_query
      ≡ some (
        b.table,
        record b.client {
          effects =
              (b.client.effects
                ++ (chord_sent b.index (
                      send_data a.srv.node.addr a.srv.node.port false 10
                        (get_address_id cr a.srv.node.addr a.srv.node.port)
                        reply)
                    ∷ []))
              ++ (transfer_started sender ∷ []);
        },
      )
  pub receiving :
      after_reply
      ≡ some (
        a.table,
        record a.client { effects = a.client.effects ++ (transfer_started receiver ∷ []) },
      )
  pub met : IsRendezvous a.srv.node.addr b.srv.node.addr file sender receiver

module _ (cr : Crypto) (lib : Library) where
  -- A query that one client packs, for a name of 1 to 1023 bytes and with the address of 16 bytes and
  -- the port below 2^16 of its server, reaches a client that has the file, and the packed answer
  -- reaches the first client from the node of the second. Where UDT opens and binds sockets and the
  -- packets fit into their buffers, the second client answers to the first one's server and sends, the
  -- first one receives the file of that name, each transfer connects to the address of the other's
  -- server and to the port that the other is bound to, and neither packet is handed on.
  pub query-rendezvous :
      (o : IsOpen lib) (a b : Member cr lib) (name query_bytes reply : List ℕ)
      (query_msg reply_msg : DataMsg) (from : Node) (junk_a junk_b : ℕ)
      → a.srv.node.port < 2 ^ 16
      → length a.srv.node.addr ≡ 16
      → 0 < length name
      → length name < 1024
      → dhash_local_file_exists lib b.client.files_path name ≡ true
      → dhash_pack_query lib a.srv.node.addr a.srv.node.port name ≡ some query_bytes
      → dhash_pack_query_reply_success lib name ≡ some reply
      → query_msg.data_bytes ≡ query_bytes
      → reply_msg.data_bytes ≡ reply
      → IsServed cr lib a b
          (c_string name)
          reply
          (dhash_unpack_chord_data lib junk_b b.index b.srv query_msg from b.table b.client)
          (dhash_unpack_chord_data lib junk_a a.index a.srv reply_msg b.srv.node a.table a.client)
  unfolding pass_unless_done
  query-rendezvous o a b name query_bytes reply query_msg reply_msg from junk_a junk_b port16 addr16
        named short here packed answered eq er =
      let nonempty : (length name == 0) ≡ false = ground arith in
      let cut : a.srv.node.port % 2 ^ 16 ≡ a.srv.node.port = omega arith in
      record {
        sender = record (fresh cr lib o b.srv a.srv.node.addr a.srv.node.port b.client) {
          type = transfer_send;
        };
        receiver = record (fresh cr lib o a.srv b.srv.node.addr b.srv.node.port a.client) {
          type = transfer_receive;
          file = some (c_string name);
          success_cb = some receive_success;
          fail_cb = some receive_fail;
          success_ev = true;
          fail_ev = true;
        };
        answered =
            dhash_unpack_chord_data_lem cr lib junk_b b.index b.srv query_msg from _ _ _ b.table
              b.client (is_query _ _ name) (omega arith) b.made b.at
              (ap lib.header__unpack eq
                ∙ unpack-pack_dhash_header lib 1024 _ _ query_bytes (omega arith) packed)
            ∙ rw
                (
                  dhash_process_query-found cr lib o b.index b.srv a.srv.node.addr a.srv.node.port
                      name reply from b.client addr16 nonempty short here answered,
                  cut,
                )
                refl;
        receiving =
            dhash_unpack_chord_data_lem cr lib junk_a a.index a.srv reply_msg b.srv.node _ _ _
              a.table a.client (is_query_reply_success name) (omega arith) a.made a.at
              (ap lib.header__unpack er
                ∙ unpack-pack_dhash_header lib 1024 _ _ reply (omega arith) answered)
            ∙ rw
                (dhash_process_query_reply_success-opens cr lib o a.index a.srv name b.srv.node
                  a.client short)
                refl;
        met = record {
          sends = refl;
          receives = refl;
          asked = refl;
          to_here = refl;
          to_there = refl;
          meets_sender = refl;
          meets_receiver = refl;
        };
      }
