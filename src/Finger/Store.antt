-- ===== src/Finger/Store.antt =====
-- Stores through a `Finger *` in src/finger.c and src/process.c that keep the finger list in order.
use tangent.Base.{ℕ, ◌≤◌, ◌<◌, ◌≡◌, refl, sym, ap, ◌∙◌, Option, none, some, List, [], ◌∷◌, arith}
use tangent.Base.Int.{pos}
use tangent.Id.{ChordId}
use tangent.Server.{Finger, ChordServer, ping_thresh}
use tangent.Finger.{is_active, modify, pred_finger, last_such}
use tangent.Finger.Search.{All-modify, Distinct-modify, passive_count-modify}
use tangent.Finger.Sorted.{HasId, Sorted-modify}
use tangent.Finger.Invariant.{IsFingerList, IsTable, bound}

abbrev id_of : Option Finger → Option ChordId
id_of none = none
id_of (some f) = some f.node.id

bound-id_of :
    (self : ChordId) (p q : Option Finger) → id_of p ≡ id_of q → bound self p ≡ bound self q
bound-id_of self none none e = refl
bound-id_of self none (some g) e = cc
bound-id_of self (some f) none e = cc
bound-id_of self (some f) (some g) e = cc

last_active-modify :
    (loc : ℕ) (change : Finger → Finger) (fs : List Finger)
    → ((f : Finger) → (change f).node.id ≡ f.node.id)
    → ((f : Finger) → (change f).status ≡ f.status)
    → id_of (last_such is_active (modify loc change fs)) ≡ id_of (last_such is_active fs)
unfolding last_such modify
last_active-modify loc change [] ki ks = refl
last_active-modify loc change (f ∷ fs) ki ks =
    ground (arith, last_active-modify loc change fs ki ks, ki f, ks f)

-- Stores that leave identifiers, addresses and status alone, and count no pings, keep the invariant.
pub modify-IsTable :
    (srv : ChordServer) (loc : ℕ) (change : Finger → Finger)
    → ((f : Finger) → (change f).node.id ≡ f.node.id)
    → ((f : Finger) → (change f).status ≡ f.status)
    → ((f : Finger) → (change f).loc ≡ f.loc)
    → ((f : Finger) → f.npings ≤ ping_thresh → (change f).npings ≤ ping_thresh)
    → IsTable srv
    → IsTable (record srv { flist = modify loc change srv.flist })
unfolding pred_finger
modify-IsTable srv loc change ki ks kl kp t = record {
  self = t.self;
  list = record {
    ids = All-modify HasId loc change srv.flist (λ f h. rw (ki f) h) l.ids;
    sorted = Sorted-modify srv.node.id loc change srv.flist ki l.sorted;
    distinct = Distinct-modify loc change srv.flist kl l.distinct;
    fresh =
        All-modify (λ f. f.loc < srv.next_loc) loc change srv.flist (λ f h. rw (kl f) h) l.fresh;
    counted = l.counted ∙ ap pos (sym (passive_count-modify loc change srv.flist ks));
    room = rw (passive_count-modify loc change srv.flist ks) l.room;
    pings = All-modify (λ f. f.npings ≤ ping_thresh) loc change srv.flist kp l.pings;
  };
  range =
      t.range ∙ sym (bound-id_of srv.node.id _ _ (last_active-modify loc change srv.flist ki ks));
}
  where
    l : IsFingerList srv.node.id srv.next_loc srv.num_passive_fingers srv.flist
    l = t.list
