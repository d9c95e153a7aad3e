-- ===== src/Stabilize/Round/Sends.antt =====
-- A whole round of src/stabilize.c: the texts of the addresses that `ping` writes, the steps on the
-- table, and the datagrams through the socket of the server, one by one. Other logging is left out.
use tangent.Base.{
  ℕ, ◌+◌, ◌^◌, ◌≤◌, ◌<◌, ◌≡◌, inl, inr, refl, Bool, true, not, ◌&&◌, ◌||◌, Option, none, some, List,
  [], ◌∷◌, All, All-mono, length, leb, ltb, if◌then◌else◌, arith, Bool-cases,
}
use tangent.Base.Bind.{◌>>=◌}
use tangent.Server.{Node, Finger, ChordServer, In6Addr, ping_thresh}
use tangent.Server.Addr.{v4_mapped}
use tangent.Finger.Search.{In, All-self}
use tangent.Crypt.{Crypto}
use tangent.Send.{Command, perform, pack_header, send_packet, send_if, perform_all}
use tangent.Send.Messages.{Datagram}
use tangent.Process.Invariant.{IsServer}
use tangent.Stabilize.Queries.{InNodes}
use tangent.Stabilize.Receivers.{IsTo, fs_to, ping_to, stab_to, Peers}
use tangent.Stabilize.Round.{stabilize}
use tangent.Stabilize.Round.Keeps.{stabilize-IsServer}

-- INET_ADDRSTRLEN: the bytes of `srv_addr` and `dropped_addr`.
abbrev pub inet_addrstrlen : ℕ
inet_addrstrlen = 16

-- A finger of the list, or a well-known node.
pub data IsPeer (srv : ChordServer) : Node → Type 0 where
  listed : (f : Finger) → In f srv.flist → IsPeer srv f.node
  well_known_one : (n : Node) → InNodes n srv.well_known → IsPeer srv n

module _ (inet_ntop : In6Addr → List ℕ) where
  -- The text and its NUL fit.
  abbrev pub text_fits : In6Addr → Bool
  text_fits addr = ltb (length (inet_ntop addr)) inet_addrstrlen

  -- Where `ping` drops a finger, it writes the texts of the server's address and the finger's.
  unfoldable pub texts_fit : In6Addr → List Finger → Bool
  texts_fit self [] = true
  texts_fit self (f ∷ fs) =
      (not (leb ping_thresh f.npings) || (text_fits self && text_fits f.node.addr))
      && texts_fit self fs

  -- `none` is a fault: a text that is written over the end of its array, or one of the assertions.
  unfoldable pub stabilize_round :
      Crypto → Bool → (ℕ → ℕ × ℕ) → ℕ → ℕ → ChordServer → Option (ChordServer × List Datagram × ℕ)
  stabilize_round cr is_v6 clock idx rnd srv =
      if not (texts_fit srv.node.addr srv.flist)
      then none
      else stabilize idx rnd srv >>= (λ done.
        perform_all cr srv is_v6 clock 0 done.1 >>= (λ sent. some (done.0, sent, done.2)))

  texts_fit-true :
      (self : In6Addr) (fs : List Finger)
      → All
          (λ f.
            ping_thresh ≤ f.npings
            → (length (inet_ntop self) < inet_addrstrlen)
              × (length (inet_ntop f.node.addr) < inet_addrstrlen))
          fs
      → texts_fit self fs ≡ true
  unfolding texts_fit
  texts_fit-true self [] a = refl
  texts_fit-true self (f ∷ fs) a =
      let rest = texts_fit-true self fs a.1 in
      elim (Bool-cases (leb ping_thresh f.npings)) [
        | inr stays ↦ rw (stays, rest) refl
        | inl dropped ↦
            let due : ping_thresh ≤ f.npings = ground arith in
            let (own, other) = a.0 due in
            let own_fits : text_fits self ≡ true = ground arith in
            let other_fits : text_fits f.node.addr ≡ true = ground arith in
            rw (dropped, rest, own_fits, other_fits) refl
      ]

-- A datagram to a node with `P`.
pub record ToNode (P : Node → Type 0) (d : Datagram) : Type 0 where
  pub node : Node
  pub known : P node
  pub same_addr : d.addr ≡ node.addr
  pub same_port : d.port ≡ node.port

module _ (P : Node → Type 0) (cr : Crypto) (srv : ChordServer) where
  -- Every command of a round sends one datagram, to the node that it is for.
  perform-ToNode :
      (epoch usec : ℕ) (c : Command)
      → IsTo P c
      → (d : Datagram) × (perform cr srv epoch usec c ≡ some d) × ToNode P d
  unfolding perform pack_header
  perform-ToNode epoch usec _ (fs_to n ttl a p h) =
      (_, refl, record { node = n; known = h; same_addr = refl; same_port = refl })
  perform-ToNode epoch usec _ (ping_to n h) =
      (_, refl, record { node = n; known = h; same_addr = refl; same_port = refl })
  perform-ToNode epoch usec _ (stab_to n a p h) =
      (_, refl, record { node = n; known = h; same_addr = refl; same_port = refl })

  perform_all-ToNode :
      (is_v6 : Bool) (clock : ℕ → ℕ × ℕ) (i : ℕ) (cs : List Command)
      → ((n : Node) → P n → (is_v6 || v4_mapped n.addr) ≡ true)
      → All (IsTo P) cs
      → (ds : List Datagram) × (perform_all cr srv is_v6 clock i cs ≡ some ds)
        × (length ds ≡ length cs)
        × All (ToNode P) ds
  unfolding perform_all send_if send_packet
  perform_all-ToNode is_v6 clock i [] fits a = ([], refl, refl, tt)
  perform_all-ToNode is_v6 clock i (c ∷ cs) fits a =
      let (d, e, to) = perform-ToNode (clock i).0 (clock i).1 c a.0 in
      let (ds, f, n, b) = perform_all-ToNode is_v6 clock (i + 1) cs fits a.1 in
      let goes : (is_v6 || v4_mapped d.addr) ≡ true = rw (to.same_addr) (fits to.node to.known) in
      (d ∷ ds, rw (e, goes, f, perform_all, send_if, send_packet), omega arith, (to, b))

All-InNodes-self : (ns : List Node) → All (λ n. InNodes n ns) ns
All-InNodes-self [] = tt
All-InNodes-self (n ∷ ns) =
    (inl refl, All-mono (λ m. InNodes m ns) _ ns (λ m k. inr k) (All-InNodes-self ns))

own-Peers : (srv : ChordServer) → Peers (IsPeer srv) srv
own-Peers srv = record {
  fingers =
      All-mono (λ f. In f srv.flist) (λ f. IsPeer srv f.node) srv.flist (λ f m. listed f m)
        (All-self srv.flist);
  well_known =
      All-mono (λ n. InNodes n srv.well_known) (IsPeer srv) srv.well_known
        (λ n m. well_known_one n m) (All-InNodes-self srv.well_known);
}

-- Take a server in order, whose counter of rounds is below 2 ^ 31 - 1. Let the texts that `inet_ntop`
-- gives for its own address and for those of the fingers that have missed too many pings be shorter
-- than INET_ADDRSTRLEN, and let it send over IPv6, or let all its fingers and well-known nodes have
-- IPv4 addresses. Then a round of `stabilize` comes to its end: the assertion that there is a
-- predecessor and that of `send_raw_v4` hold, and the texts of dropped fingers stay within their
-- arrays. It leaves a server in order, and every datagram goes to a node that was a finger when the
-- round began, or to a well-known node.
pub stabilize_round-IsServer :
    (inet_ntop : In6Addr → List ℕ) (cr : Crypto) (is_v6 : Bool) (clock : ℕ → ℕ × ℕ) (idx rnd : ℕ)
    (srv : ChordServer)
    → IsServer srv
    → idx + 1 < 2 ^ 31
    → All
        (λ f.
          ping_thresh ≤ f.npings
          → (length (inet_ntop srv.node.addr) < inet_addrstrlen)
            × (length (inet_ntop f.node.addr) < inet_addrstrlen))
        srv.flist
    → ((n : Node) → IsPeer srv n → (is_v6 || v4_mapped n.addr) ≡ true)
    → (t : ChordServer) × (sent : List Datagram) × (next : ℕ) × (stabilize_round inet_ntop cr is_v6
          clock idx rnd srv
        ≡ some (t, sent, next))
      × IsServer t
      × All (ToNode (IsPeer srv)) sent
unfolding stabilize_round
stabilize_round-IsServer inet_ntop cr is_v6 clock idx rnd srv v small short reach =
    let texts = texts_fit-true inet_ntop srv.node.addr srv.flist short in
    let (t, cmds, next, e, w, to) =
      stabilize-IsServer (IsPeer srv) idx rnd srv v (own-Peers srv) small in
    let (sent, f, _, known) = perform_all-ToNode (IsPeer srv) cr srv is_v6 clock 0 cmds reach to in
    (t, sent, next, rw (texts, e, f, stabilize_round), w, known)
