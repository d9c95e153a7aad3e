-- ===== src/Process/Follow.antt =====
-- `activate_and_follow`, the end of `process_pong` in src/process.c: the predecessor before and after
-- `activate_finger`.
use tangent.Base.{
  ℕ, ◌≡◌, inl, inr, refl, sym, ap, subst, ◌∙◌, true, false, none, some, List, [], All, All-mono,
  ◌==◌, ==_iff, arith, Bool-cases, Option-cases,
}
use tangent.Id.{ChordId}
use tangent.Server.{Finger, ChordServer, Status, passive, active}
use tangent.Finger.{
  is_active, pred_finger, same_finger, modify, activate_finger, chord_update_range,
}
use tangent.Finger.Search.{In, All-In, All-self, All-modify, In-modify, Distinct}
use tangent.Finger.Invariant.{
  SameTurns, IsTable, left_bound, pred_finger-none, pred_finger-In, In-loc,
}
use tangent.Process.{Outcome, returned, chord_no_error}
use tangent.Process.Peers.{activate_and_follow}

-- A cell of a modified list stems from a cell at the same address with the same identifier.
In-modify_from :
    (g : Finger) (loc : ℕ) (change : Finger → Finger) (fs : List Finger)
    → ((f : Finger) → (change f).loc ≡ f.loc)
    → ((f : Finger) → (change f).node.id ≡ f.node.id)
    → In g (modify loc change fs)
    → (h : Finger) × In h fs × (h.loc ≡ g.loc) × (h.node.id ≡ g.node.id)
In-modify_from g loc change fs kl ki m = All-In From g (modify loc change fs) all m
  where
    From : Finger → Type 0
    From k = (h : Finger) × In h fs × (h.loc ≡ k.loc) × (h.node.id ≡ k.node.id)

    start : All From fs
    start = All-mono (λ k. In k fs) From fs (λ k n. (k, n, refl, refl)) (All-self fs)

    all : All From (modify loc change fs)
    all =
        All-modify From loc change fs
          (λ f from. (from.0, from.1, from.2 ∙ sym (kl f), from.3 ∙ sym (ki f))) start

-- Where activation leaves the predecessor's pointer alone, it leaves its identifier alone.
activated_from :
    (srv : ChordServer) (f g : Finger)
    → In g (activate_finger srv f).flist
    → (h : Finger) × In h srv.flist × (h.loc ≡ g.loc) × (h.node.id ≡ g.node.id)
unfolding activate_finger
activated_from srv f g m = by_status f.status refl
  where
    by_status :
        (s : Status)
        → f.status ≡ s
        → (h : Finger) × In h srv.flist × (h.loc ≡ g.loc) × (h.node.id ≡ g.node.id)
    by_status active e = (g, rw (e, activate_finger) at m, refl, refl)
    by_status passive e =
        In-modify_from g f.loc (λ k. record k { status = active }) srv.flist (λ k. refl) (λ k. refl)
          (rw (e, activate_finger) at m)

activate_finger-active :
    (srv : ChordServer) (f : Finger) → f.status ≡ active → activate_finger srv f ≡ srv
unfolding activate_finger
activate_finger-active srv f e = rw (e, activate_finger)

-- An activated finger is in the list, active and otherwise as it was.
pub activated_active :
    (srv : ChordServer) (f : Finger)
    → Distinct srv.flist
    → In f srv.flist
    → In (record f { status = active }) (activate_finger srv f).flist
unfolding activate_finger
activated_active srv f d m = by_status f.status refl
  where
    by_status :
        (s : Status)
        → f.status ≡ s
        → In (record f { status = active }) (activate_finger srv f).flist
    by_status active e =
        let same : f ≡ record f { status = active } = ap (λ s. record f { status = s }) e in
        subst (λ a. In (record f { status = active }) a.flist)
          (sym (activate_finger-active srv f e)) (subst (λ g. In g srv.flist) same m)
    by_status passive e =
        rw (e, activate_finger) (In-modify f (λ k. record k { status = active }) srv.flist d m)

pub activate_finger-same :
    (srv : ChordServer) (f : Finger)
    → ((activate_finger srv f).node ≡ srv.node)
      × ((activate_finger srv f).pred_bound ≡ srv.pred_bound)
      × SameTurns srv (activate_finger srv f)
unfolding activate_finger
activate_finger-same srv f = ground arith

-- Where the predecessor's cell is the same as before, so is its identifier.
same_pred :
    (srv : ChordServer) (f np : Finger)
    → IsTable srv
    → pred_finger (activate_finger srv f) ≡ some np
    → same_finger (pred_finger srv) (some np) ≡ true
    → srv.pred_bound ≡ np.node.id
same_pred srv f np t e same = elim (Option-cases (pred_finger srv)) [
  | inl k ↦ let no_pred : same_finger none (some np) ≡ true = rw k at same in cc
  | inr (p, k) ↦
      let at_loc : (p.loc == np.loc) ≡ true = rw k at same in
      let (h, n, l, i) = activated_from srv f np (pred_finger-In (activate_finger srv f) np e) in
      let one =
        In-loc p h srv.flist t.list.distinct (pred_finger-In srv p k) n
          ((==_iff _ _).0 at_loc ∙ sym l) in
      t.range ∙ rw k (ap (λ c. c.node.id) one ∙ i)
]

-- With the table in order, the end of `process_pong` never fails its assertion for a finger of
-- the list: it activates the finger and moves the left end of the range to the predecessor that
-- the activation leaves.
pub activate_and_follow_lem :
    (srv : ChordServer) (f : Finger)
    → IsTable srv
    → In f srv.flist
    → activate_and_follow srv f
      ≡ returned chord_no_error
          (record (activate_finger srv f) { pred_bound = left_bound (activate_finger srv f) })
          []
unfolding activate_and_follow chord_update_range
activate_and_follow_lem srv f t m = elim (Option-cases (pred_finger activated)) [
  | inl e ↦
      let n = activated_active srv f t.list.distinct m in
      let off = All-In (λ h. is_active h ≡ false) _ activated.flist (no_active e) n in cc
  | inr (np, e) ↦ elim (Bool-cases (same_finger (pred_finger srv) (some np))) [
    | inl same ↦
        let kept = (activate_finger-same srv f).1 ∙ same_pred srv f np t e same in
        rw (e, activate_and_follow, same) (ap with_bound kept)
    | inr new ↦ rw (e, activate_and_follow, new)
  ]
]
  where
    activated : ChordServer
    activated = activate_finger srv f

    with_bound : ChordId → Outcome
    with_bound b = returned chord_no_error (record activated { pred_bound = b }) []

    no_active : pred_finger activated ≡ none → All (λ h. is_active h ≡ false) activated.flist
    no_active e = pred_finger-none activated e
