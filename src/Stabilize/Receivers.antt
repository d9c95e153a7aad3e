-- ===== src/Stabilize/Receivers.antt =====
-- To whom a round of src/stabilize.c sends: fingers of the list, and well-known nodes.
use tangent.Base.{
  ℕ, ◌+◌, inl, inr, sym, subst, not, ◌||◌, Option, none, some, List, [], ◌∷◌, All, All-append, leb,
  ◌==◌, Bool-cases, if◌then◌else◌,
}
use tangent.Server.{Node, Finger, ChordServer, In6Addr, ping_thresh}
use tangent.Finger.Search.{In, All-In, All-self, All-modify, All-unlink, Distinct}
use tangent.Finger.Invariant.{IsTable, remove_finger_lem}
use tangent.Send.{Command, send_fs, send_ping, send_stab}
use tangent.Stabilize.{count_ping, ping_one, ping_from, ping}
use tangent.Stabilize.Round.{ask_to_join}
use tangent.Stabilize.Pings.{ping_one-IsTurn, IsTurn-members}
use tangent.Stabilize.Queries.{IsQuery, query, InNodes, IsLookup, to_finger, to_well_known}

-- A command of a round whose receiver is a node with `P`.
pub data IsTo (P : Node → Type 0) : Command → Type 0 where
  fs_to : (n : Node) (ttl : ℕ) (a : In6Addr) (p : ℕ) → P n → IsTo P (send_fs n.addr n.port ttl a p)
  ping_to : (n : Node) → P n → IsTo P (send_ping n.addr n.port)
  stab_to : (n : Node) (a : In6Addr) (p : ℕ) → P n → IsTo P (send_stab n.addr n.port a p)

-- `P` holds of every finger and of every well-known node.
pub record Peers (P : Node → Type 0) (srv : ChordServer) : Type 0 where
  pub fingers : All (λ f. P f.node) srv.flist
  pub well_known : All P srv.well_known

module _ (P : Node → Type 0) where
  pub All-InNodes : (ns : List Node) (n : Node) → All P ns → InNodes n ns → P n
  All-InNodes [] n a m = absurd m
  All-InNodes (k ∷ ks) n a (inl e) = subst P (sym e) a.0
  All-InNodes (k ∷ ks) n a (inr m) = All-InNodes ks n a.1 m

  pub Peers-In : (srv : ChordServer) (f : Finger) → Peers P srv → In f srv.flist → P f.node
  Peers-In srv f p m = All-In (λ g. P g.node) f srv.flist p.fingers m

  ping_one-Peers :
      (srv : ChordServer) (f : Finger) (i : ℕ)
      → IsTable srv
      → In f srv.flist
      → Peers P srv
      → Peers P (ping_one srv f i).0 × All (IsTo P) (ping_one srv f i).1
  unfolding ping_one
  ping_one-Peers srv f i t m p = elim (Bool-cases (leb ping_thresh f.npings)) [
    | inl dead ↦
        rw (dead, ping_one)
          (
            rw (remove_finger_lem srv f t) (record {
              fingers = All-unlink (λ g. P g.node) f.loc srv.flist p.fingers;
              well_known = p.well_known;
            }),
            tt,
          )
    | inr alive ↦ elim (Bool-cases (not (f.npings == 0) || srv.to_ping == i)) [
      | inl due ↦
          rw (alive, due, ping_one)
            (
              record {
                fingers =
                    All-modify (λ g. P g.node) f.loc count_ping srv.flist (λ g h. h) p.fingers;
                well_known = p.well_known;
              },
              (ping_to f.node (Peers-In srv f p m), tt),
            )
      | inr quiet ↦ rw (alive, quiet, ping_one) (p, tt)
    ]
  ]

  ping_from-Peers :
      (srv : ChordServer) (fs : List Finger) (i : ℕ) (f_pinged : Option ℕ)
      → IsTable srv
      → Distinct fs
      → All (λ h. In h srv.flist) fs
      → Peers P srv
      → Peers P (ping_from srv fs i f_pinged).0 × All (IsTo P) (ping_from srv fs i f_pinged).1
  unfolding ping_from
  ping_from-Peers srv [] i q t d h p = (p, tt)
  ping_from-Peers srv (f ∷ fs) i q t d h p =
      let turn = ping_one-IsTurn srv f i t h.0 in
      let (kept, sent) = ping_one-Peers srv f i t h.0 p in
      let (after, later) =
        ping_from-Peers (ping_one srv f i).0 fs (i + 1)
          (if (ping_one srv f i).2 then some f.loc else q) turn.table d.1
          (IsTurn-members srv _ f fs turn d.0 h.1) kept in
      (after, All-append (IsTo P) (ping_one srv f i).1 _ sent later)

  pub ping-Peers :
      (srv : ChordServer)
      → IsTable srv
      → Peers P srv
      → Peers P (ping srv).0 × All (IsTo P) (ping srv).1
  unfolding ping
  ping-Peers srv t p =
      let (kept, sent) =
        ping_from-Peers srv srv.flist 0 none t t.list.distinct (All-self srv.flist) p in
      (record { fingers = kept.fingers; well_known = kept.well_known }, sent)

  pub IsQuery-IsTo :
      (srv : ChordServer) (cmds : List Command)
      → Peers P srv
      → All (IsQuery srv) cmds
      → All (IsTo P) cmds
  IsQuery-IsTo srv [] p a = tt
  IsQuery-IsTo srv (c ∷ cs) p a = (one c a.0, IsQuery-IsTo srv cs p a.1)
    where
      one : (c : Command) → IsQuery srv c → IsTo P c
      one _ (query f m) = fs_to f.node _ _ _ (Peers-In srv f p m)

  pub IsLookup-IsTo :
      (srv : ChordServer) (cmds : List Command)
      → Peers P srv
      → All (IsLookup srv) cmds
      → All (IsTo P) cmds
  IsLookup-IsTo srv [] p a = tt
  IsLookup-IsTo srv (c ∷ cs) p a = (one c a.0, IsLookup-IsTo srv cs p a.1)
    where
      one : (c : Command) → IsLookup srv c → IsTo P c
      one _ (to_finger f m) = fs_to f.node _ _ _ (Peers-In srv f p m)
      one _ (to_well_known n m) = fs_to n _ _ _ (All-InNodes srv.well_known n p.well_known m)

  pub ask_to_join-IsTo :
      (srv : ChordServer) (nodes : List Node) → All P nodes → All (IsTo P) (ask_to_join srv nodes)
  unfolding ask_to_join
  ask_to_join-IsTo srv [] a = tt
  ask_to_join-IsTo srv (n ∷ ns) a =
      (fs_to n _ _ _ a.0, (ping_to n a.0, ask_to_join-IsTo srv ns a.1))
