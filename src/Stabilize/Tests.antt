-- ===== src/Stabilize/Tests.antt =====
-- Rounds of src/stabilize.c on the sample server.
use tangent.Base.{
  ℕ, zero, suc, ◌+◌, ◌*◌, ◌%◌, ◌<◌, ◌≡◌, refl, inl, inr, true, false, none, some, List, [], ◌∷◌,
  ◌≤◌, length, zeros, All, arith,
}
use tangent.Finger.{succ_finger, first_such}
use tangent.Finger.Invariant.{IsTable}
use tangent.Send.{Command, send_ping, perform, pack_header, send_if, send_packet, perform_all}
use tangent.Send.Messages.{Datagram}
use tangent.Stabilize.{ping, fix_fingers}
use tangent.Stabilize.Pings.{ping-IsTable}
use tangent.Stabilize.Queries.{IsLookup, fix_fingers-IsLookup}
use tangent.Stabilize.Silent.{IsGone, rounds, rounds-IsGone}
use tangent.Server.{ChordServer, In6Addr, nfingers, ping_thresh}
use tangent.Server.Addr.{v4_mapped}
use tangent.Process.Invariant.{IsServer}
use tangent.Stabilize.Clean.{clean_finger_list}
use tangent.Stabilize.Clean.Removal.{Removes}
use tangent.Stabilize.Clean.Kept.{IsDisposable, clean_finger_list-spares_backups}
use tangent.Stabilize.Round.Sends.{
  inet_addrstrlen, IsPeer, ToNode, texts_fit, stabilize_round, stabilize_round-IsServer,
}
use tangent.Finger.Insert.{insert_finger-IsInserted}
use tangent.Samples.{
  byte_id, byte_id-IsId, peer_addr, sample_server-IsServer, near_finger, last_finger, sample_server,
  toy_crypto, sample_server-IsTable,
}

ping-IsTable_example : IsTable (ping sample_server).0
ping-IsTable_example = ping-IsTable sample_server sample_server-IsTable

successor : succ_finger sample_server ≡ some near_finger
unfolding succ_finger first_such
successor = refl

fix_fingers-IsLookup_example :
    (k : ℕ) × (cmds : List Command) × (k < nfingers)
    × (fix_fingers sample_server 5 ≡ some (record sample_server { to_fix_finger = k }, cmds))
    × All (IsLookup sample_server) cmds
fix_fingers-IsLookup_example =
    fix_fingers-IsLookup sample_server 5 near_finger successor (omega arith)

rounds-IsGone_example : IsGone 2 (rounds 5 sample_server)
rounds-IsGone_example =
    rounds-IsGone 4 sample_server last_finger sample_server-IsTable (inr (inr (inl refl)))
      (omega arith) refl

-- The sample server with `n` more fingers, ten steps apart.
grown : ℕ → (srv : ChordServer) × IsTable srv
grown zero = (sample_server, sample_server-IsTable)
grown (suc n) =
    let (srv, t) = grown n in
    let b = (40 + 10 * n) % 256 in
    let (ins, _, r) =
      insert_finger-IsInserted srv (byte_id b) (peer_addr b) 4000 t
        (byte_id-IsId b (omega arith)) in
    (ins.srv, r.table)

-- Thirteen fingers.
abbrev full_server : ChordServer
full_server = (grown 10).0

clean_finger_list-spares_backups_example :
    (t : ChordServer) × (clean_finger_list full_server ≡ some t)
    × Removes (IsDisposable full_server) full_server t
clean_finger_list-spares_backups_example = clean_finger_list-spares_backups full_server (grown 10).1

-- A text of two characters for every address.
abbrev two_characters : In6Addr → List ℕ
two_characters addr = b':' ∷ b':' ∷ []

no_text_too_long :
    All
      (λ f.
        ping_thresh ≤ f.npings
        → (length (two_characters sample_server.node.addr) < inet_addrstrlen)
          × (length (two_characters f.node.addr) < inet_addrstrlen))
      sample_server.flist
no_text_too_long = (
  (λ h. (omega arith, omega arith)),
  ((λ h. (omega arith, omega arith)), ((λ h. (omega arith, omega arith)), tt)),
)

stabilize_round-IsServer_example :
    (t : ChordServer) × (sent : List Datagram) × (next : ℕ) × (stabilize_round two_characters
        toy_crypto true
        (λ i. (1000, i))
        60
        3
        sample_server
      ≡ some (t, sent, next))
    × IsServer t
    × All (ToNode (IsPeer sample_server)) sent
stabilize_round-IsServer_example =
    stabilize_round-IsServer two_characters toy_crypto true (λ i. (1000, i)) 60 3 sample_server
      sample_server-IsServer (omega arith) no_text_too_long (λ n k. refl)

-- An IPv4 socket asserts on the same peers.
over_v4 :
    perform_all toy_crypto sample_server false
      (λ i. (1000, i))
      0
      (send_ping (peer_addr 90) 4000 ∷ [])
    ≡ none
unfolding perform_all perform pack_header send_if send_packet v4_mapped
over_v4 = refl

-- A finger that is dropped takes sixteen characters past the end of the array.
too_long :
    stabilize_round
      (λ addr. zeros 16)
      toy_crypto
      true
      (λ i. (1000, i))
      60
      3
      (record sample_server { flist = record near_finger { npings = ping_thresh } ∷ [] })
    ≡ none
unfolding stabilize_round texts_fit
too_long = refl
