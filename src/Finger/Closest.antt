-- ===== src/Finger/Closest.antt =====
-- `closest_preceding_finger` of src/finger.c finds the last finger before an identifier.
use tangent.Base.{
  ◌≤◌, ◌<◌, ◌≡◌, ◌⊎◌, inl, inr, Bool, true, false, ◌&&◌, ◌||◌, none, some, List, [], ◌∷◌, All,
  All-mono, ltb_iff, arith, Bool-cases, Option-cases,
}
use tangent.Id.{ChordId, IsId, id_is_between}
use tangent.Id.Between.{rank, id_is_between-rank}
use tangent.Server.{Finger, ChordServer}
use tangent.Finger.{is_active, is_preceding, last_such, closest_preceding_finger}
use tangent.Finger.Search.{In, All-In, last_such-some, last_such-none}
use tangent.Finger.Sorted.{Sorted, HasId}

-- A finger that `closest_preceding_finger` may answer with: one that is asked for, before `id`.
pub IsPreceding : ChordId → ChordId → Bool → Finger → Type 0
IsPreceding self id fall f = ((fall || is_active f) ≡ true) × (rank self f.node.id < rank self id)

-- It is one, and no later finger is.
pub record IsClosest (self id : ChordId) (fall : Bool) (fs : List Finger) (f : Finger)
    : Type 0 where
  pub member : In f fs
  pub asked : (fall || is_active f) ≡ true
  pub before : rank self f.node.id < rank self id
  pub closest :
      All
        (λ g. (is_preceding self id fall g ≡ false) ⊎ (rank self g.node.id ≤ rank self f.node.id))
        fs

last_such-last :
    (self : ChordId) (p : Finger → Bool) (fs : List Finger) (f : Finger)
    → Sorted self fs
    → last_such p fs ≡ some f
    → All (λ g. (p g ≡ false) ⊎ (rank self g.node.id ≤ rank self f.node.id)) fs
unfolding last_such
last_such-last self p [] f s e = tt
last_such-last self p (g ∷ gs) f s e = elim (Option-cases (last_such p gs)) [
  | inr (h, t) ↦
      let e' : some h ≡ some f = rw (t, last_such) at e in
      let t' : last_such p gs ≡ some f = cc in
      let later =
        All-In (λ k. rank self g.node.id < rank self k.node.id) f gs s.0
          (last_such-some p gs f t').0 in
      (inr (omega arith), last_such-last self p gs f s.1 t')
  | inl t ↦ elim (Bool-cases (p g)) [
    | inl u ↦
        let e' : some g ≡ some f = rw (t, u, last_such) at e in
        let same : g ≡ f = cc in
        (inr (rw same (omega arith)), All-mono _ _ gs (λ k. inl) (last_such-none p gs t))
    | inr u ↦ let e' : none ≡ some f = rw (t, u, last_such) at e in cc
  ]
]

is_preceding_split : (a c : Bool) → (a && c) ≡ true → (a ≡ true) × (c ≡ true)
is_preceding_split a c e = ground arith

-- In a sorted list of valid identifiers, what the search finds is the closest finger before
-- `id`, clockwise from this server; where it finds none, no finger that is asked for lies
-- before `id`.
pub closest_preceding_finger-IsClosest :
    (srv : ChordServer) (id : ChordId) (fall : Bool)
    → IsId srv.node.id
    → IsId id
    → All HasId srv.flist
    → Sorted srv.node.id srv.flist
    → ((closest_preceding_finger srv id fall ≡ none)
        × All (λ g. is_preceding srv.node.id id fall g ≡ false) srv.flist)
      ⊎ ((f : Finger) × (closest_preceding_finger srv id fall ≡ some f)
          × IsClosest srv.node.id id fall srv.flist f)
unfolding closest_preceding_finger
closest_preceding_finger-IsClosest srv id fall hs hi ids s =
    elim (Option-cases (last_such p srv.flist)) [
      | inl e ↦ inl (e, last_such-none p srv.flist e)
      | inr (f, e) ↦ inr (f, e, found f e)
    ]
  where
    p : Finger → Bool
    p = is_preceding srv.node.id id fall

    found :
        (f : Finger) → last_such p srv.flist ≡ some f → IsClosest srv.node.id id fall srv.flist f
    found f e =
        let (m, passes) = last_such-some p srv.flist f e in
        let (on, between) = is_preceding_split _ (id_is_between f.node.id srv.node.id id) passes in
        let hf = All-In HasId f srv.flist ids m in
        record {
          member = m;
          asked = on;
          before =
              (ltb_iff _ _).0
                (rw (id_is_between-rank f.node.id srv.node.id id hf hs hi) at between);
          closest = last_such-last srv.node.id p srv.flist f s e;
        }
