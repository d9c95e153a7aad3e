-- ===== src/Process/Tests.antt =====
-- The handlers of src/process.c on the sample server.
use tangent.Base.{
  ℕ, ◌+◌, ◌≡◌, ◌⊎◌, ◌≤◌, inl, inr, refl, true, false, none, some, List, [], ◌∷◌, ◌++◌, take, arith,
}
use tangent.Id.{bytes_equal, memcmp}
use tangent.Server.{Finger, ChordServer, ticket_timeout}
use tangent.Server.Addr.{is_addr_unspecified, v6_addr_equals}
use tangent.Finger.{activate_finger}
use tangent.Finger.Invariant.{left_bound}
use tangent.Crypt.{TicketMsg, char, short, long, addr_arg, ticket_digest, pack_ticket}
use tangent.Send.{Command, send_ping, send_pong, perform, pack_header}
use tangent.Send.Messages.{Datagram, ping, chord_ping}
use tangent.Process.{returned, fault, ErrorCode, chord_no_error, or_default}
use tangent.Process.Follow.{activate_and_follow_lem}
use tangent.Process.Peers.{activate_and_follow, process_ping, process_pong}
use tangent.Process.Route.{next_route_node}
use tangent.Process.Handle.{process}
use tangent.Process.Invariant.{Keeps}
use tangent.Process.Keeps.{may_fault, process-Keeps}
use tangent.Process.Routing.{IsHop, next_route_node-IsHop}
use tangent.Process.Liveness.{
  IsHeard, ping_args, process_ping-send_pong, process_pong-verified, process_pong-perform,
}
use tangent.Samples.{
  silent_finger, byte_id, byte_id-IsId, peer, peer_addr, sample_server, sample_server-IsTable,
  sample_server-IsServer, toy_crypto,
}

process-Keeps_example :
    Keeps
      (may_fault (ping (some (1 ∷ [])) 4))
      (process toy_crypto 1000 5 true sample_server (ping (some (1 ∷ [])) 4) (peer 100))
process-Keeps_example =
    process-Keeps toy_crypto 1000 5 true sample_server (ping (some (1 ∷ [])) 4) (peer 100)
      sample_server-IsServer (byte_id-IsId 100 (omega arith))

next_route_node-IsHop_example :
    IsHop sample_server (byte_id 230) false (next_route_node sample_server (byte_id 230) false)
next_route_node-IsHop_example =
    next_route_node-IsHop sample_server (byte_id 230) false sample_server-IsTable
      (byte_id-IsId 230 (omega arith))

known : is_addr_unspecified sample_server.node.addr ≡ false
unfolding is_addr_unspecified
known = refl

other_peer : v6_addr_equals (peer_addr 10) (peer_addr 100) ≡ false
unfolding v6_addr_equals bytes_equal memcmp
other_peer = refl

process_ping-send_pong_example :
    (srv' : ChordServer) × (before : List Command) × ((before ≡ [])
      ⊎ (before ≡ send_ping (peer_addr 100) 4000 ∷ []))
    × (process_ping true sample_server (some (1 ∷ 2 ∷ [])) 77 (peer 100)
        ≡ returned chord_no_error srv'
            (before ++ (send_pong (peer_addr 100) 4000 (1 ∷ 2 ∷ []) 77 ∷ [])))
process_ping-send_pong_example =
    process_ping-send_pong sample_server true (1 ∷ 2 ∷ []) 77 (peer 100) sample_server-IsServer
      known (byte_id-IsId 100 (omega arith))

process_pong-verified_example :
    ((code : ErrorCode) × (process_pong toy_crypto 1000 5 sample_server (some (1 ∷ [])) 4 (peer 100)
        ≡ returned code sample_server []))
    ⊎ ((toy_crypto.ticket_unpack (or_default [] (some (1 ∷ []))) ≡ none)
        × (process_pong toy_crypto 1000 5 sample_server (some (1 ∷ [])) 4 (peer 100) ≡ fault))
    ⊎ ((t : TicketMsg) × (toy_crypto.ticket_unpack (or_default [] (some (1 ∷ []))) ≡ some t)
        × (1000 ≤ t.time + ticket_timeout)
        × (t.hash ≡ take 4 (ticket_digest toy_crypto (7 ∷ 8 ∷ []) t.time (ping_args (peer 100) 4))))
process_pong-verified_example =
    process_pong-verified toy_crypto 1000 5 sample_server (some (1 ∷ [])) 4 (peer 100) (omega arith)

abbrev ping_ticket : List ℕ
ping_ticket =
    pack_ticket toy_crypto (7 ∷ 8 ∷ []) 4 1000
      (char chord_ping ∷ addr_arg (peer_addr 100) ∷ short 4000 ∷ long 77 ∷ [])

abbrev ping_datagram : Datagram
ping_datagram = record {
  addr = peer_addr 100;
  port = 4000;
  header = pack_header (ping (some ping_ticket) 77);
}

sent :
    perform toy_crypto sample_server 1000 77 (send_ping (peer_addr 100) 4000) ≡ some ping_datagram
unfolding perform pack_header
sent = refl

inside : ping_datagram.header.payload ≡ ping (some ping_ticket) 77
unfolding pack_header
inside = refl

process_pong-perform_example :
    (srv' : ChordServer) × (f : Finger) × (process_pong toy_crypto 1002 90 sample_server
        (some ping_ticket)
        77
        (peer 100)
      ≡ returned chord_no_error srv' [])
    × IsHeard (peer 100) srv' f
process_pong-perform_example =
    process_pong-perform toy_crypto 1000 77 1002 90 sample_server (peer 100) ping_ticket
      ping_datagram sample_server-IsServer known (byte_id-IsId 100 (omega arith))
      (rw other_peer refl) (omega arith) (omega arith) (omega arith) sent inside

-- The passive finger becomes active, and the range of the server is left as it was.
activate_and_follow_lem_example :
    activate_and_follow sample_server silent_finger
    ≡ returned chord_no_error
        (record (activate_finger sample_server silent_finger) {
          pred_bound = left_bound (activate_finger sample_server silent_finger);
        })
        []
activate_and_follow_lem_example =
    activate_and_follow_lem sample_server silent_finger sample_server-IsTable (inr (inl refl))
