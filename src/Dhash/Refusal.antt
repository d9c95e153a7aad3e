-- ===== src/Dhash/Refusal.antt =====
-- A query at a client without the file: file_client/process.cpp and pack.cpp, with `process_data` of
-- src/process.c.
use tangent.Base.{
  ℕ, ◌+◌, ◌-◌, ◌%◌, ◌^◌, ◌≤◌, ◌<◌, ◌≡◌, refl, ap, ◌∙◌, true, false, Bool, some, List, [], ◌∷◌, ◌++◌,
  length, leb, ◌==◌, arith,
}
use tangent.Id.{id_bytes}
use tangent.Crypt.{Crypto, get_address_id, get_data_id}
use tangent.Crypt.Ticket.{take-all}
use tangent.Server.{Node}
use tangent.Server.Addr.{is_addr_unspecified}
use tangent.Send.{send_data}
use tangent.Process.{copy, decrement}
use tangent.Process.Route.{chord_id_is_local, next_route_node, process_data, data_at}
use tangent.Text.{buf_to_str}
use tangent.Dhash.{
  Library, chord_sent, control_written, dhash_client_reply_failure,
  dhash_pack_control_request_reply, dhash_pack_query, dhash_pack_query_reply_failure,
}
use tangent.Dhash.Handlers.{
  dhash_local_file_exists, dhash_process_query, dhash_process_query_reply_failure, query_named,
}
use tangent.Dhash.Send.{send_chord_pkt_directly, dhash_send_control_packet}
use tangent.Dhash.Forward.{pass_unless_done}
use tangent.Dhash.Messages.{dhash_unpack_chord_data_lem, is_query, is_query_reply_failure}
use tangent.Dhash.Rendezvous.{Member, copy_all, unpack-pack_dhash_header}
use tangent.Dhash.Data.{DataMsg, dhash_unpack_chord_data}

module _ (cr : Crypto) (lib : Library) where
  -- A query for a name of 1 to 1023 bytes that one client packs, with the address of 16 bytes and the
  -- port below 2^16 of its server, reaches a client that lacks the file and is the successor of the
  -- name's hash. Where the packets fit into their buffers, that client sends one packet, the refusal,
  -- straight to the first one's server, which on its arrival writes the failure to the control socket.
  pub query-refused :
      (a b : Member cr lib) (name query_bytes reply told : List ℕ) (query_msg reply_msg : DataMsg)
      (from : Node) (junk_a junk_b : ℕ)
      → a.srv.node.port < 2 ^ 16
      → length a.srv.node.addr ≡ 16
      → 0 < length name
      → length name < 1024
      → dhash_local_file_exists lib b.client.files_path name ≡ false
      → chord_id_is_local b.srv (get_data_id cr name) ≡ true
      → dhash_pack_query lib a.srv.node.addr a.srv.node.port name ≡ some query_bytes
      → dhash_pack_query_reply_failure lib name ≡ some reply
      → dhash_pack_control_request_reply lib dhash_client_reply_failure name ≡ some told
      → query_msg.data_bytes ≡ query_bytes
      → reply_msg.data_bytes ≡ reply
      → (dhash_unpack_chord_data lib junk_b b.index b.srv query_msg from b.table b.client
          ≡ some (
            b.table,
            record b.client {
              effects =
                  b.client.effects
                  ++ (chord_sent b.index (
                        send_data a.srv.node.addr a.srv.node.port false 10
                          (get_address_id cr a.srv.node.addr a.srv.node.port)
                          reply)
                      ∷ []);
            },
          ))
        × (dhash_unpack_chord_data lib junk_a a.index a.srv reply_msg b.srv.node a.table a.client
            ≡ some (
              a.table,
              record a.client { effects = a.client.effects ++ (control_written told ∷ []) },
            ))
  unfolding pass_unless_done dhash_process_query query_named buf_to_str send_chord_pkt_directly
      dhash_process_query_reply_failure dhash_send_control_packet
  query-refused a b name query_bytes reply told query_msg reply_msg from junk_a junk_b port16 addr16
        named short missing mine packed refused control eq er =
      let nonempty : (length name == 0) ≡ false = ground arith in
      let fits : leb (length name + 1) 1024 ≡ true = ground arith in
      let cut : a.srv.node.port % 2 ^ 16 ≡ a.srv.node.port = omega arith in
      (
        dhash_unpack_chord_data_lem cr lib junk_b b.index b.srv query_msg from _ _ _ b.table
              b.client (is_query _ _ name) (omega arith) b.made b.at
              (ap lib.header__unpack eq
                ∙ unpack-pack_dhash_header lib 1024 _ _ query_bytes (omega arith) packed)
            ∙ rw
                (
                  copy_all a.srv.node.addr addr16,
                  nonempty,
                  query_named,
                  fits,
                  missing,
                  mine,
                  cut,
                  refused,
                )
                refl,
        dhash_unpack_chord_data_lem cr lib junk_a a.index a.srv reply_msg b.srv.node _ _ _ a.table
              a.client (is_query_reply_failure name) (omega arith) a.made a.at
              (ap lib.header__unpack er
                ∙ unpack-pack_dhash_header lib 1024 _ _ reply (omega arith) refused)
            ∙ rw (control) refl,
      )

  -- The same query at a client that lacks the file and is not the successor: where the packet is
  -- addressed to the hash of the name, its time to live is at least 2 and below 2^32 and the server
  -- knows its address, it goes on as it came, once, to the node that `next_route_node` names, with a time
  -- to live that is one less, cut to eight bits: a packet with 257 leaves with 0.
  pub query-forwarded :
      (a b : Member cr lib) (name query_bytes : List ℕ) (ttl : ℕ) (last : Bool) (from : Node)
      (junk : ℕ)
      → a.srv.node.port < 2 ^ 16
      → length a.srv.node.addr ≡ 16
      → 0 < length name
      → length name < 1024
      → dhash_local_file_exists lib b.client.files_path name ≡ false
      → chord_id_is_local b.srv (get_data_id cr name) ≡ false
      → is_addr_unspecified b.srv.node.addr ≡ false
      → 2 ≤ ttl
      → ttl < 2 ^ 32
      → dhash_pack_query lib a.srv.node.addr a.srv.node.port name ≡ some query_bytes
      → dhash_unpack_chord_data lib junk b.index b.srv
          (record {
            id = get_data_id cr name;
            ttl = some ttl;
            last = some last;
            data_bytes = query_bytes;
          })
          from
          b.table
          b.client
        ≡ some (
          b.table,
          record b.client {
            effects =
                b.client.effects
                ++ (chord_sent b.index (
                      send_data
                        (next_route_node b.srv (get_data_id cr name) last).0.addr
                        (next_route_node b.srv (get_data_id cr name) last).0.port
                        (next_route_node b.srv (get_data_id cr name) last).1
                        ((ttl - 1) % 256)
                        (get_data_id cr name)
                        query_bytes)
                    ∷ []);
          },
        )
  unfolding pass_unless_done dhash_process_query query_named buf_to_str process_data data_at copy
      get_data_id
  query-forwarded a b name query_bytes ttl last from junk port16 addr16 named short missing others
        known alive small packed =
      let nonempty : (length name == 0) ≡ false = ground arith in
      let fits : leb (length name + 1) 1024 ≡ true = ground arith in
      let sized = (cr.sha1-IsId name).size in
      let id_fits : leb id_bytes (length (cr.sha1 name)) ≡ true = ground arith in
      let away : chord_id_is_local b.srv (cr.sha1 name) ≡ false = others in
      let hop : decrement ttl ≡ ttl - 1 = omega arith in
      let live : (ttl - 1 == 0) ≡ false = ground arith in
      dhash_unpack_chord_data_lem cr lib junk b.index b.srv _ from _ _ _ b.table b.client
        (is_query _ _ name) (omega arith) b.made b.at
        (unpack-pack_dhash_header lib 1024 _ _ query_bytes (omega arith) packed)
      ∙ rw
          (
            copy_all a.srv.node.addr addr16,
            nonempty,
            query_named,
            fits,
            missing,
            others,
            process_data,
            id_fits,
            take-all id_bytes (cr.sha1 name) sized,
            data_at,
            known,
            hop,
            live,
            away,
          )
          refl
