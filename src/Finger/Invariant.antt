-- ===== src/Finger/Invariant.antt =====
-- What holds of the finger list of src/finger.c between calls, and that removing and activating
-- fingers keep it.
use tangent.Base.{
  ℕ, ◌+◌, ◌≤◌, ◌<◌, ◌≡◌, ◌≢◌, ◌⊎◌, inl, inr, refl, sym, ap, ◌∙◌, Bool, true, false, Option, none,
  some, List, [], ◌∷◌, if◌then◌else◌, arith, All, Bool-cases, ==_iff,
}
use tangent.Base.Int.{ℤ, pos, ◌-ℤ◌}
use tangent.Id.{ChordId, IsId}
use tangent.Server.{Finger, Status, passive, active, ChordServer, max_passive_fingers, ping_thresh}
use tangent.Finger.{
  is_active, modify, unlink, pred_finger, same_finger, drop_finger, follow_pred, remove_finger,
  activate_finger, chord_update_range,
}
use tangent.Finger.Search.{
  In, Distinct, All-In, All-unlink, All-modify, Distinct-unlink, Distinct-modify, passive_count,
  passive_count-unlink, passive_count-activate, last_such-some, last_such-none, In-unlink,
}
use tangent.Finger.Sorted.{Sorted, HasId, Sorted-unlink, Sorted-modify}

-- The list: valid identifiers in strict clockwise order, cells at different addresses below the next
-- one, the passive fingers counted and within the limit, and no more unanswered pings than allowed.
pub record IsFingerList (self : ChordId) (next : ℕ) (num : ℤ) (fs : List Finger) : Type 0 where
  pub ids : All HasId fs
  pub sorted : Sorted self fs
  pub distinct : Distinct fs
  pub fresh : All (λ f. f.loc < next) fs
  pub counted : num ≡ pos (passive_count fs)
  pub room : passive_count fs ≤ max_passive_fingers
  pub pings : All (λ f. f.npings ≤ ping_thresh) fs

abbrev pub bound : ChordId → Option Finger → ChordId
bound self none = self
bound self (some p) = p.node.id

-- Where the server's range begins: at its closest active predecessor, or at itself.
abbrev pub left_bound : ChordServer → ChordId
left_bound srv = bound srv.node.id (pred_finger srv)

-- The round-robin counters of the two servers are the same.
abbrev pub SameTurns : ChordServer → ChordServer → Type 0
SameTurns srv t = (t.to_fix_finger ≡ srv.to_fix_finger) × (t.to_fix_backup ≡ srv.to_fix_backup)

pub record IsTable (srv : ChordServer) : Type 0 where
  pub self : IsId srv.node.id
  pub list : IsFingerList srv.node.id srv.next_loc srv.num_passive_fingers srv.flist
  pub range : srv.pred_bound ≡ left_bound srv

minus_one : (n k : ℕ) → n + 1 ≡ k → pos k -ℤ pos 1 ≡ pos n
unfolding ◌-ℤ◌
minus_one n k e = ground arith

drop_finger-list :
    (srv : ChordServer) (f : Finger)
    → IsTable srv
    → In f srv.flist
    → let d = drop_finger srv f in IsFingerList d.node.id d.next_loc d.num_passive_fingers d.flist
drop_finger-list srv f t m = record {
  ids = All-unlink HasId f.loc srv.flist l.ids;
  sorted = Sorted-unlink srv.node.id f.loc srv.flist l.sorted;
  distinct = Distinct-unlink f.loc srv.flist l.distinct;
  fresh = All-unlink (λ g. g.loc < srv.next_loc) f.loc srv.flist l.fresh;
  counted = recount (Bool-cases (is_active f));
  room = omega (arith, gone, l.room);
  pings = All-unlink (λ g. g.npings ≤ ping_thresh) f.loc srv.flist l.pings;
}
  where
    l : IsFingerList srv.node.id srv.next_loc srv.num_passive_fingers srv.flist
    l = t.list

    gone :
        passive_count (unlink f.loc srv.flist) + (if is_active f then 0 else 1)
        ≡ passive_count srv.flist
    gone = passive_count-unlink f srv.flist l.distinct m

    recount :
        (is_active f ≡ true) ⊎ (is_active f ≡ false)
        → (drop_finger srv f).num_passive_fingers ≡ pos (passive_count (unlink f.loc srv.flist))
    recount (inl e) = ground (arith, l.counted, gone)
    recount (inr e) = ground (
      arith,
      l.counted,
      gone,
      minus_one (passive_count (unlink f.loc srv.flist)) (passive_count srv.flist),
    )

follow_pred_lem :
    (srv : ChordServer) (pred pf : Option Finger)
    → follow_pred srv pred pf ≡ record srv {
      pred_bound = if same_finger pred pf then srv.pred_bound else bound srv.node.id pf;
    }
unfolding chord_update_range
follow_pred_lem srv pred none = ground arith
follow_pred_lem srv pred (some p) = ground arith

-- Two cells of the list at one address are one.
pub In-loc :
    (f g : Finger) (fs : List Finger) → Distinct fs → In f fs → In g fs → f.loc ≡ g.loc → f ≡ g
In-loc f g [] d m n e = absurd m
In-loc f g (h ∷ hs) d (inl p) (inl q) e = p ∙ sym q
In-loc f g (h ∷ hs) d (inl p) (inr n) e =
    absurd (All-In (λ k. h.loc ≢ k.loc) g hs d.0 n (ap (λ k. k.loc) (sym p) ∙ e))
In-loc f g (h ∷ hs) d (inr m) (inl q) e =
    absurd (All-In (λ k. h.loc ≢ k.loc) f hs d.0 m (ap (λ k. k.loc) (sym q) ∙ sym e))
In-loc f g (h ∷ hs) d (inr m) (inr n) e = In-loc f g hs d.1 m n e

same_finger-bound :
    (self : ChordId) (p q : Option Finger) (fs : List Finger)
    → Distinct fs
    → ((f : Finger) → p ≡ some f → In f fs)
    → ((f : Finger) → q ≡ some f → In f fs)
    → same_finger p q ≡ true
    → bound self p ≡ bound self q
same_finger-bound self none none fs d hp hq e = refl
same_finger-bound self none (some g) fs d hp hq e = cc
same_finger-bound self (some f) none fs d hp hq e = cc
same_finger-bound self (some f) (some g) fs d hp hq e =
    ap (λ h. h.node.id) (In-loc f g fs d (hp f refl) (hq g refl) ((==_iff _ _).0 e))

pub pred_finger-In : (srv : ChordServer) (f : Finger) → pred_finger srv ≡ some f → In f srv.flist
unfolding pred_finger
pred_finger-In srv f e = (last_such-some is_active srv.flist f e).0

pub pred_finger-none :
    (srv : ChordServer) → pred_finger srv ≡ none → All (λ f. is_active f ≡ false) srv.flist
unfolding pred_finger
pred_finger-none srv e = last_such-none is_active srv.flist e

-- On a server with its finger table in order, `remove_finger` takes the finger out, counts it
-- off if it was passive, and moves the left end of the range to the predecessor that remains;
-- nothing else of the server changes.
pub remove_finger_lem :
    (srv : ChordServer) (f : Finger)
    → IsTable srv
    → remove_finger srv f ≡ record srv {
      num_passive_fingers =
          if is_active f then srv.num_passive_fingers else srv.num_passive_fingers -ℤ pos 1;
      flist = unlink f.loc srv.flist;
      pred_bound = left_bound (drop_finger srv f);
    }
unfolding remove_finger pred_finger
remove_finger_lem srv f t =
    follow_pred_lem (drop_finger srv f) (pred_finger srv) (pred_finger (drop_finger srv f))
    ∙ ap (λ b. record (drop_finger srv f) { pred_bound = b }) (bound_cases (Bool-cases _))
  where
    pf : Option Finger
    pf = pred_finger (drop_finger srv f)

    same : Bool
    same = same_finger (pred_finger srv) pf

    bound_cases :
        (same ≡ true) ⊎ (same ≡ false)
        → (if same then srv.pred_bound else bound srv.node.id pf) ≡ bound srv.node.id pf
    bound_cases (inl e) = rw e (
        t.range
        ∙ same_finger-bound srv.node.id (pred_finger srv) pf srv.flist t.list.distinct
            (λ g h. pred_finger-In srv g h)
            (λ g h. In-unlink g f.loc srv.flist (pred_finger-In (drop_finger srv f) g h)) e)
    bound_cases (inr e) = rw e

-- Removing a finger of the list keeps the invariant.
pub remove_finger-IsTable :
    (srv : ChordServer) (f : Finger) → IsTable srv → In f srv.flist → IsTable (remove_finger srv f)
unfolding pred_finger
remove_finger-IsTable srv f t m =
    rw (remove_finger_lem srv f t)
      (record { self = t.self; list = drop_finger-list srv f t m; range = same_pred })
  where
    same_pred :
        left_bound (drop_finger srv f)
        ≡ left_bound (record (drop_finger srv f) { pred_bound = left_bound (drop_finger srv f) })
    same_pred = refl

-- Activating a passive finger of the list keeps the list in order and counts the finger off.
pub activate_finger-list :
    (srv : ChordServer) (f : Finger)
    → IsFingerList srv.node.id srv.next_loc srv.num_passive_fingers srv.flist
    → In f srv.flist
    → let a = activate_finger srv f in
      IsFingerList a.node.id a.next_loc a.num_passive_fingers a.flist
unfolding activate_finger
activate_finger-list srv f l m = by_status f.status refl
  where
    on : Finger → Finger
    on g = record g { status = active }

    by_status :
        (s : Status)
        → f.status ≡ s
        → let a = activate_finger srv f in
          IsFingerList a.node.id a.next_loc a.num_passive_fingers a.flist
    by_status active e = rw (e, activate_finger) l
    by_status passive e =
        let one = passive_count-activate f srv.flist l.distinct m e in
        rw (e, activate_finger)
          (record {
            ids = All-modify HasId f.loc on srv.flist (λ g h. h) l.ids;
            sorted = Sorted-modify srv.node.id f.loc on srv.flist (λ g. refl) l.sorted;
            distinct = Distinct-modify f.loc on srv.flist (λ g. refl) l.distinct;
            fresh = All-modify (λ g. g.loc < srv.next_loc) f.loc on srv.flist (λ g h. h) l.fresh;
            counted =
                ap (λ k. k -ℤ pos 1) l.counted
                ∙ minus_one (passive_count (modify f.loc on srv.flist)) (passive_count srv.flist)
                    one;
            room = omega (arith, one, l.room);
            pings = All-modify (λ g. g.npings ≤ ping_thresh) f.loc on srv.flist (λ g h. h) l.pings;
          })
