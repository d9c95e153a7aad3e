-- ===== src/Finger/Place.antt =====
-- `insert_new`, the end of `insert_finger` of src/finger.c: a new finger in its place.
use tangent.Base.{
  ℕ, suc, ◌+◌, ◌≤◌, ◌<◌, ◌≡◌, ◌≢◌, inl, inr, refl, sym, ap, ◌∙◌, true, false, some, List, [], ◌∷◌,
  ltb, arith, All, All-mono, Bool-cases,
}
use tangent.Base.Int.{pos, ◌+ℤ◌}
use tangent.Id.{ChordId, IsId}
use tangent.Id.Between.{rank, rank-injective}
use tangent.Server.{Finger, ChordServer, In6Addr, max_passive_fingers, ping_thresh}
use tangent.Finger.{is_active, insert_new, new_finger, pred_finger, last_such}
use tangent.Finger.Search.{In, Distinct, passive_count}
use tangent.Finger.Sorted.{
  HasId, insert_by_rank, Sorted-insert_by_rank, All-insert_by_rank, fingerlist_insert-rank,
}
use tangent.Finger.Invariant.{IsFingerList, IsTable, bound}

plus_one : (n : ℕ) → pos n +ℤ pos 1 ≡ pos (n + 1)
unfolding ◌+ℤ◌
plus_one n = ground arith

passive_count-insert_by_rank :
    (self : ChordId) (new : Finger) (fs : List Finger)
    → is_active new ≡ false
    → passive_count (insert_by_rank self new fs) ≡ passive_count fs + 1
unfolding passive_count insert_by_rank
passive_count-insert_by_rank self new [] p = rw p
passive_count-insert_by_rank self new (f ∷ fs) p =
    ground (arith, passive_count-insert_by_rank self new fs p)

-- A passive finger in front of `last_such is_active` does not count.
last_active-insert_by_rank :
    (self : ChordId) (new : Finger) (fs : List Finger)
    → is_active new ≡ false
    → last_such is_active (insert_by_rank self new fs) ≡ last_such is_active fs
unfolding last_such insert_by_rank
last_active-insert_by_rank self new [] p = rw p
last_active-insert_by_rank self new (f ∷ fs) p =
    ground (arith, last_active-insert_by_rank self new fs p)

Distinct-insert_by_rank :
    (self : ChordId) (new : Finger) (fs : List Finger)
    → Distinct fs
    → All (λ f. f.loc < new.loc) fs
    → Distinct (insert_by_rank self new fs)
unfolding insert_by_rank
Distinct-insert_by_rank self new [] d h = (tt, tt)
Distinct-insert_by_rank self new (f ∷ fs) d h =
    elim (Bool-cases (ltb (rank self f.node.id) (rank self new.node.id))) [
      | inl e ↦ rw e (
        All-insert_by_rank (λ g. f.loc ≢ g.loc) self new fs (omega (arith, h.0)) d.0,
        Distinct-insert_by_rank self new fs d.1 h.1,
      )
      | inr e ↦
          rw e
            ((omega (arith, h.0), All-mono (λ g. g.loc < new.loc) _ fs (λ g k. omega arith) h.1), d)
    ]

-- What `insert_new` leaves: the new finger, passive and unmeasured, in its place by rank.
pub insert_new_lem :
    (srv : ChordServer) (id : ChordId) (addr : In6Addr) (port : ℕ)
    → IsTable srv
    → IsId id
    → let new = new_finger srv.next_loc (record { id = id; addr = addr; port = port }) in
      insert_new srv id addr port ≡ record {
        finger = some new;
        fnew = some true;
        srv = record srv {
          num_passive_fingers = srv.num_passive_fingers +ℤ pos 1;
          next_loc = suc srv.next_loc;
          flist = insert_by_rank srv.node.id new srv.flist;
        };
      }
unfolding insert_new new_finger
insert_new_lem srv id addr port t h =
    ap
      (λ s. record {
        finger = some (new_finger srv.next_loc (record { id = id; addr = addr; port = port }));
        fnew = some true;
        srv = s;
      })
      (fingerlist_insert-rank _ _ t.self (new_HasId) t.list.ids t.list.sorted t.list.distinct)
  where
    new_HasId : HasId (new_finger srv.next_loc (record { id = id; addr = addr; port = port }))
    new_HasId = h

ranks_differ :
    (self id : ChordId) (fs : List Finger)
    → IsId self
    → IsId id
    → All HasId fs
    → All (λ f. id ≢ f.node.id) fs
    → All (λ f. rank self f.node.id ≢ rank self id) fs
ranks_differ self id [] s h hs ne = tt
ranks_differ self id (f ∷ fs) s h hs ne = (
  (λ e. ne.0 (sym (rank-injective self f.node.id id s hs.0 h e))),
  ranks_differ self id fs s h hs.1 ne.1,
)

pub insert_new-IsTable :
    (srv : ChordServer) (id : ChordId) (addr : In6Addr) (port : ℕ)
    → IsTable srv
    → IsId id
    → passive_count srv.flist < max_passive_fingers
    → All (λ f. id ≢ f.node.id) srv.flist
    → IsTable (insert_new srv id addr port).srv
unfolding new_finger pred_finger
insert_new-IsTable srv id addr port t h room absent =
    rw (insert_new_lem srv id addr port t h) (record {
      self = t.self;
      list = record {
        ids = All-insert_by_rank HasId self new srv.flist h l.ids;
        sorted = Sorted-insert_by_rank self new srv.flist l.sorted apart;
        distinct = Distinct-insert_by_rank self new srv.flist l.distinct l.fresh;
        fresh =
            All-insert_by_rank (λ f. f.loc < suc srv.next_loc) self new srv.flist (omega arith)
              (All-mono (λ f. f.loc < srv.next_loc) _ srv.flist (λ f k. omega arith) l.fresh);
        counted =
            ap (λ k. k +ℤ pos 1) l.counted
            ∙ plus_one (passive_count srv.flist)
            ∙ ap pos (sym (passive_count-insert_by_rank self new srv.flist refl));
        room = omega (arith, passive_count-insert_by_rank self new srv.flist refl);
        pings =
            All-insert_by_rank (λ f. f.npings ≤ ping_thresh) self new srv.flist (omega arith)
              l.pings;
      };
      range = t.range ∙ ap (bound self) (sym (last_active-insert_by_rank self new srv.flist refl));
    })
  where
    self : ChordId
    self = srv.node.id

    new : Finger
    new = new_finger srv.next_loc (record { id = id; addr = addr; port = port })

    l : IsFingerList srv.node.id srv.next_loc srv.num_passive_fingers srv.flist
    l = t.list

    apart : All (λ f. rank self f.node.id ≢ rank self id) srv.flist
    apart = ranks_differ self id srv.flist t.self h l.ids absent

pub In-insert_by_rank :
    (self : ChordId) (new : Finger) (fs : List Finger) → In new (insert_by_rank self new fs)
unfolding insert_by_rank
In-insert_by_rank self new [] = inl refl
In-insert_by_rank self new (f ∷ fs) =
    elim (Bool-cases (ltb (rank self f.node.id) (rank self new.node.id))) [
      | inl e ↦ rw e (inr (In-insert_by_rank self new fs))
      | inr e ↦ rw e (inl refl)
    ]
