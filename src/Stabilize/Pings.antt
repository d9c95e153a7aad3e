-- ===== src/Stabilize/Pings.antt =====
-- `ping` of src/stabilize.c keeps the finger table in order.
use tangent.Base.{
  ℕ, ◌+◌, ◌≡◌, ◌≢◌, inl, inr, refl, sym, ap, ◌∙◌, Bool, true, false, not, ◌||◌, Option, none, List,
  [], ◌∷◌, All, leb, ◌==◌, ==_iff, arith, Bool-cases,
}
use tangent.Server.{Finger, ChordServer, ping_thresh}
use tangent.Finger.{modify, pred_finger}
use tangent.Finger.Search.{In-modify_other, In-unlink_other, In, All-In, All-self, Distinct}
use tangent.Finger.Invariant.{SameTurns, IsTable, remove_finger_lem, remove_finger-IsTable}
use tangent.Finger.Store.{modify-IsTable}
use tangent.Stabilize.{count_ping, ping_one, ping_from, ping}

pub differs : (b : Bool) → b ≡ false → b ≡ true → ⊥
differs b e k = cc

-- Counting a ping for a member is the store of one number more than it has.
modify_member :
    (f : Finger) (fs : List Finger)
    → Distinct fs
    → In f fs
    → modify f.loc count_ping fs ≡ modify f.loc (λ g. record g { npings = f.npings + 1 }) fs
unfolding modify
modify_member f [] d m = refl
modify_member f (g ∷ gs) d (inl e) = elim (Bool-cases (g.loc == f.loc)) [
  | inl at ↦ rw (at, e) refl
  | inr off ↦ absurd (differs (g.loc == f.loc) off ((==_iff _ _).1 (ap (λ k. k.loc) (sym e))))
]
modify_member f (g ∷ gs) d (inr m) = elim (Bool-cases (g.loc == f.loc)) [
  | inl at ↦ absurd (All-In (λ k. g.loc ≢ k.loc) f gs d.0 m ((==_iff _ _).0 at))
  | inr off ↦ rw off (ap (λ l. g ∷ l) (modify_member f gs d.1 m))
]

-- One turn keeps the table in order and every other cell in the list.
pub record IsTurn (srv : ChordServer) (f : Finger) (s : ChordServer) : Type 0 where
  pub table : IsTable s
  pub others : (h : Finger) → h.loc ≢ f.loc → In h srv.flist → In h s.flist
  pub same_node : s.node ≡ srv.node
  pub same_turns : SameTurns srv s

pub ping_one-IsTurn :
    (srv : ChordServer) (f : Finger) (i : ℕ)
    → IsTable srv
    → In f srv.flist
    → IsTurn srv f (ping_one srv f i).0
unfolding ping_one
ping_one-IsTurn srv f i t m = elim (Bool-cases (leb ping_thresh f.npings)) [
  | inl dead ↦
      rw (dead, ping_one)
        (record {
          table = remove_finger-IsTable srv f t m;
          others =
              λ h ne k. rw (remove_finger_lem srv f t) (In-unlink_other h f.loc srv.flist ne k);
          same_node = ap (λ u. u.node) (remove_finger_lem srv f t);
          same_turns = (
            ap (λ u. u.to_fix_finger) (remove_finger_lem srv f t),
            ap (λ u. u.to_fix_backup) (remove_finger_lem srv f t),
          );
        })
  | inr alive ↦ elim (Bool-cases (not (f.npings == 0) || srv.to_ping == i)) [
    | inl due ↦
        rw (alive, due, ping_one)
          (record {
            table = rw (modify_member f srv.flist t.list.distinct m) (
                modify-IsTable srv f.loc (λ g. record g { npings = f.npings + 1 }) (λ g. refl)
                  (λ g. refl) (λ g. refl) (λ g h. ground arith) t);
            others = λ h ne k. In-modify_other h f.loc count_ping srv.flist ne k;
            same_node = refl;
            same_turns = (refl, refl);
          })
    | inr quiet ↦
        rw (alive, quiet, ping_one)
          (record { table = t; others = λ h ne k. k; same_node = refl; same_turns = (refl, refl) })
  ]
]

-- The cells that are still to come are in the list after a turn.
pub IsTurn-members :
    (srv s : ChordServer) (f : Finger) (gs : List Finger)
    → IsTurn srv f s
    → All (λ g. f.loc ≢ g.loc) gs
    → All (λ g. In g srv.flist) gs
    → All (λ g. In g s.flist) gs
IsTurn-members srv s f [] turn a b = tt
IsTurn-members srv s f (g ∷ gs) turn a b =
    (turn.others g (λ e. a.0 (sym e)) b.0, IsTurn-members srv s f gs turn a.1 b.1)

pub ping_from-IsTable :
    (srv : ChordServer) (fs : List Finger) (i : ℕ) (f_pinged : Option ℕ)
    → IsTable srv
    → Distinct fs
    → All (λ h. In h srv.flist) fs
    → IsTable (ping_from srv fs i f_pinged).0
unfolding ping_from
ping_from-IsTable srv [] i p t d h = t
ping_from-IsTable srv (f ∷ fs) i p t d h =
    let turn = ping_one-IsTurn srv f i t h.0 in
    ping_from-IsTable (ping_one srv f i).0 fs (i + 1) _ turn.table d.1
      (IsTurn-members srv _ f fs turn d.0 h.1)

-- A round of pings, which drops the fingers that have missed too many and counts one more for
-- others, takes a finger table in order to one in order: no finger is left with more unanswered
-- pings than the threshold.
pub ping-IsTable : (srv : ChordServer) → IsTable srv → IsTable (ping srv).0
unfolding ping pred_finger
ping-IsTable srv t =
    let w = ping_from-IsTable srv srv.flist 0 none t t.list.distinct (All-self srv.flist) in
    record { self = w.self; list = w.list; range = w.range }

ping_from-same :
    (srv : ChordServer) (fs : List Finger) (i : ℕ) (f_pinged : Option ℕ)
    → IsTable srv
    → Distinct fs
    → All (λ h. In h srv.flist) fs
    → let t = (ping_from srv fs i f_pinged).0 in (t.node ≡ srv.node) × SameTurns srv t
unfolding ping_from
ping_from-same srv [] i p t d h = (refl, (refl, refl))
ping_from-same srv (f ∷ fs) i p t d h =
    let turn = ping_one-IsTurn srv f i t h.0 in
    let (node, (fix_finger, fix_backup)) =
      ping_from-same (ping_one srv f i).0 fs (i + 1) _ turn.table d.1
        (IsTurn-members srv _ f fs turn d.0 h.1) in
    (node ∙ turn.same_node, (fix_finger ∙ turn.same_turns.0, fix_backup ∙ turn.same_turns.1))

pub ping-same :
    (srv : ChordServer) → IsTable srv → ((ping srv).0.node ≡ srv.node) × SameTurns srv (ping srv).0
unfolding ping
ping-same srv t = ping_from-same srv srv.flist 0 none t t.list.distinct (All-self srv.flist)
