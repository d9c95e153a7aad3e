-- ===== src/Process/Routing.antt =====
-- Where src/process.c sends packets: what a server takes as its own, and that a packet that is sent on
-- comes closer to its identifier.
use tangent.Base.{
  ◌≤◌, ◌<◌, ◌≡◌, ◌⊎◌, inl, inr, refl, sym, ◌∙◌, Bool, true, false, ◌||◌, some, leb, arith,
  Bool-cases, Option-cases,
}
use tangent.Id.{ChordId, IsId, id_equals, id_is_between}
use tangent.Id.Value.{value-lt-circle}
use tangent.Id.Between.{rank, id_is_between-rank, id_equals-value, rank_bounds, rank-rank}
use tangent.Server.{Node, Finger, ChordServer}
use tangent.Finger.{succ_finger, pred_finger, closest_preceding_node}
use tangent.Finger.Search.{All-In, first_such-some}
use tangent.Finger.Closest.{closest_preceding_finger-IsClosest}
use tangent.Finger.Invariant.{IsTable}
use tangent.Process.Route.{chord_id_is_local, is_succ_of, route_onward, next_route_node}

equals_or_between :
    (x a b : ChordId)
    → IsId x
    → IsId a
    → IsId b
    → (id_equals x b || id_is_between x a b) ≡ leb (rank a x) (rank a b)
unfolding rank
equals_or_between x a b hx ha hb =
    rw (id_is_between-rank x a b hx ha hb, id_equals-value x b hx hb)
      (ground (arith, value-lt-circle x hx, value-lt-circle a ha, value-lt-circle b hb))

-- Where its own identifier and its left bound are valid, a server takes exactly the identifiers
-- from behind its left bound up to its own as local.
pub chord_id_is_local-rank :
    (srv : ChordServer) (x : ChordId)
    → IsId x
    → IsId srv.node.id
    → IsId srv.pred_bound
    → chord_id_is_local srv x ≡ leb (rank srv.pred_bound x) (rank srv.pred_bound srv.node.id)
unfolding chord_id_is_local
chord_id_is_local-rank srv x hx hs hp = equals_or_between x srv.pred_bound srv.node.id hx hp hs

-- What is left of the way to `x` behind the next node, unless it is this node itself.
abbrev pub Nearer : Node → ChordId → Node → Type 0
Nearer self x np = (np ≡ self) ⊎ (rank np.id x < rank self.id x)

-- The node that comes before an identifier is nearer to it.
pub closest_preceding_node-Nearer :
    (srv : ChordServer) (x : ChordId) (fall : Bool)
    → IsTable srv
    → IsId x
    → Nearer srv.node x (closest_preceding_node srv x fall)
unfolding closest_preceding_node
closest_preceding_node-Nearer srv x fall t hx =
    elim (closest_preceding_finger-IsClosest srv x fall t.self hx t.list.ids t.list.sorted) [
      | inl (e, _) ↦ inl (rw (e, closest_preceding_node))
      | inr (f, e, c) ↦
          let hf = All-In (λ g. IsId g.node.id) f srv.flist t.list.ids c.member in
          let way = rank-rank srv.node.id f.node.id x t.self hf hx c.before in
          let (step, _) = rank_bounds srv.node.id f.node.id t.self hf in
          inr (rw (e, closest_preceding_node) (omega arith))
    ]

-- Where a packet for `x` goes next: nearer to `x`, or marked as the last hop, to the predecessor if
-- this hop was marked already, or to the successor if `x` lies in (self, successor].
pub data IsHop (srv : ChordServer) (x : ChordId) (last : Bool) : Node × Bool → Type 0 where
  nearer : {np : Node} → Nearer srv.node x np → IsHop srv x last (np, false)
  to_pred :
      {pf : Finger} → last ≡ true → pred_finger srv ≡ some pf → IsHop srv x last (pf.node, true)
  to_succ :
      {sf : Finger}
      → succ_finger srv ≡ some sf
      → rank srv.node.id x ≤ rank srv.node.id sf.node.id
      → IsHop srv x last (sf.node, true)

or_comm : (a b : Bool) → (a || b) ≡ (b || a)
or_comm a b = ground arith

route_onward-IsHop :
    (srv : ChordServer) (x : ChordId) (last : Bool)
    → IsTable srv
    → IsId x
    → IsHop srv x last (route_onward srv x)
unfolding route_onward succ_finger
route_onward-IsHop srv x last t hx = elim (Option-cases (succ_finger srv)) [
  | inl e ↦ rw (e, route_onward) (nearer (closest_preceding_node-Nearer srv x false t hx))
  | inr (sf, e) ↦ elim (Bool-cases (is_succ_of srv x sf)) [
    | inr far ↦ rw (e, far, route_onward) (nearer (closest_preceding_node-Nearer srv x false t hx))
    | inl near ↦
        let hf =
          All-In (λ g. IsId g.node.id) sf srv.flist t.list.ids
            (first_such-some _ srv.flist sf e).0 in
        let way : leb (rank srv.node.id x) (rank srv.node.id sf.node.id) ≡ true =
          sym (equals_or_between x srv.node.id sf.node.id hx t.self hf)
          ∙ or_comm (id_equals x sf.node.id) (id_is_between x srv.node.id sf.node.id)
          ∙ near in
        rw (e, near, route_onward) (to_succ e (ground arith))
  ]
]

-- On a server with its finger table in order, `next_route_node` sends a packet for an
-- identifier either unmarked, to a node that is nearer to it or to this node itself; or marked,
-- to the predecessor if this hop was marked, or to the successor if the identifier lies in
-- (self, successor].
pub next_route_node-IsHop :
    (srv : ChordServer) (x : ChordId) (last : Bool)
    → IsTable srv
    → IsId x
    → IsHop srv x last (next_route_node srv x last)
unfolding next_route_node
next_route_node-IsHop srv x false t hx = route_onward-IsHop srv x false t hx
next_route_node-IsHop srv x true t hx = elim (Option-cases (pred_finger srv)) [
  | inl e ↦ rw (e, next_route_node) (route_onward-IsHop srv x true t hx)
  | inr (pf, e) ↦ rw (e, next_route_node) (to_pred refl e)
]
