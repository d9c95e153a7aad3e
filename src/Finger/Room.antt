-- ===== src/Finger/Room.antt =====
-- `make_room`, the limit on passive fingers in `insert_finger` of src/finger.c: it always finds room.
use tangent.Base.{
  ◌<◌, ◌≡◌, ◌≢◌, inl, inr, refl, true, false, Option, none, some, arith, All, Bool-cases,
}
use tangent.Base.Int.{pos, leb_ℤ}
use tangent.Id.{ChordId}
use tangent.Server.{Finger, ChordServer, max_passive_fingers}
use tangent.Finger.{is_active, get_worst_passive_finger, remove_finger, make_room}
use tangent.Finger.Search.{In, All-unlink, passive_count, passive_count-unlink}
use tangent.Finger.Worst.{Worst, get_worst_passive_finger-Worst}
use tangent.Finger.Invariant.{SameTurns, IsTable, remove_finger_lem, remove_finger-IsTable}

get_worst-some :
    (srv : ChordServer)
    → 0 < passive_count srv.flist
    → (w : Finger) × (get_worst_passive_finger srv ≡ some w)
      × In w srv.flist
      × (is_active w ≡ false)
get_worst-some srv h = by_result (get_worst_passive_finger srv) refl
  where
    by_result :
        (r : Option Finger)
        → get_worst_passive_finger srv ≡ r
        → (w : Finger) × (get_worst_passive_finger srv ≡ some w)
          × In w srv.flist
          × (is_active w ≡ false)
    by_result none e =
        let (_, zero_passive) = rw e at (get_worst_passive_finger-Worst srv) in absurd (omega arith)
    by_result (some w) e =
        let worst : Worst srv.flist none (some w) = rw e at (get_worst_passive_finger-Worst srv) in
        elim (worst.0) [ inl k ↦ cc | inr (m, p) ↦ (w, e, m, p) ]

-- Room for one more passive finger is made, if there is none; the assertion never fails.
pub record IsRoomy (srv roomy : ChordServer) : Type 0 where
  pub table : IsTable roomy
  pub space : passive_count roomy.flist < max_passive_fingers
  pub same_node : roomy.node ≡ srv.node
  pub same_turns : SameTurns srv roomy
  pub same_next : roomy.next_loc ≡ srv.next_loc
  pub absent :
      (id : ChordId) → All (λ f. id ≢ f.node.id) srv.flist → All (λ f. id ≢ f.node.id) roomy.flist

pub make_room-IsRoomy :
    (srv : ChordServer)
    → IsTable srv
    → (roomy : ChordServer) × (make_room srv ≡ some roomy) × IsRoomy srv roomy
unfolding make_room
make_room-IsRoomy srv t =
    elim (Bool-cases (leb_ℤ (pos max_passive_fingers) srv.num_passive_fingers)) [
      | inr e ↦ (
        srv,
        rw e,
        record {
          table = t;
          space = ground (arith, t.list.counted);
          same_node = refl;
          same_turns = (refl, refl);
          same_next = refl;
          absent = λ id h. h;
        },
      )
      | inl e ↦
          let (w, found, m, p) = worst_found e in
          (remove_finger srv w, rw (e, found, make_room), removed w m p)
    ]
  where
    worst_found :
        leb_ℤ (pos max_passive_fingers) srv.num_passive_fingers ≡ true
        → (w : Finger) × (get_worst_passive_finger srv ≡ some w)
          × In w srv.flist
          × (is_active w ≡ false)
    worst_found e = get_worst-some srv (ground (arith, t.list.counted))

    removed :
        (w : Finger) → In w srv.flist → is_active w ≡ false → IsRoomy srv (remove_finger srv w)
    removed w m p = rw (remove_finger_lem srv w t) (record {
      table = rw (remove_finger_lem srv w t) at (remove_finger-IsTable srv w t m);
      space =
          let gone = passive_count-unlink w srv.flist t.list.distinct m in
          let one = rw p at gone in omega (arith, one, t.list.room);
      same_node = refl;
      same_turns = (refl, refl);
      same_next = refl;
      absent = λ id h. All-unlink (λ f. id ≢ f.node.id) w.loc srv.flist h;
    })
