-- ===== src/Finger/Tests.antt =====
-- The finger list of src/finger.c on the sample server.
use tangent.Finger.Links.{Links, remove_links, insert_links}
use tangent.Finger.Links.Segment.{IsLinked}
use tangent.Finger.Links.Remove.{remove_links-IsLinked}
use tangent.Finger.Links.Insert.{loc_of, insert_links-IsLinked}
use tangent.Base.{
  ℕ, zero, suc, Option, ◌≡◌, ◌⊎◌, refl, inl, inr, none, some, All, true, false, arith,
  if◌then◌else◌,
}
use tangent.Base.Int.{pos, ◌-ℤ◌}
use tangent.Server.{Finger, passive}
use tangent.Finger.{
  Inserted, new_finger, is_active, is_preceding, closest_preceding_finger, fingerlist_insert,
  unlink, drop_finger, remove_finger, insert_finger, get_worst_passive_finger,
}
use tangent.Finger.Sorted.{insert_by_rank, fingerlist_insert-rank}
use tangent.Finger.Closest.{IsClosest, closest_preceding_finger-IsClosest}
use tangent.Finger.Invariant.{left_bound, remove_finger_lem}
use tangent.Finger.Worst.{Worst, get_worst_passive_finger-Worst}
use tangent.Finger.Insert.{IsInserted, is_own, insert_finger-IsInserted}
use tangent.Samples.{
  peer_finger, byte_id, byte_id-IsId, peer, peer_addr, sample_server, sample_server-IsTable,
  silent_finger, last_finger,
}

abbrev new_peer : Finger
new_peer = new_finger 3 (peer 100)

fingerlist_insert-rank_example : fingerlist_insert sample_server new_peer ≡ record sample_server {
  flist = insert_by_rank sample_server.node.id new_peer sample_server.flist;
}
unfolding new_finger
fingerlist_insert-rank_example =
    fingerlist_insert-rank sample_server new_peer sample_server-IsTable.self
      (byte_id-IsId 100 (omega arith)) sample_server-IsTable.list.ids
      sample_server-IsTable.list.sorted (sample_server-IsTable).list.distinct

remove_finger_lem_example : remove_finger sample_server last_finger ≡ record sample_server {
  num_passive_fingers =
      if is_active last_finger
      then sample_server.num_passive_fingers
      else sample_server.num_passive_fingers -ℤ pos 1;
  flist = unlink last_finger.loc sample_server.flist;
  pred_bound = left_bound (drop_finger sample_server last_finger);
}
remove_finger_lem_example = remove_finger_lem sample_server last_finger sample_server-IsTable

closest_preceding_finger-IsClosest_example :
    ((closest_preceding_finger sample_server (byte_id 210) true ≡ none)
      × All (λ g. is_preceding (byte_id 10) (byte_id 210) true g ≡ false) sample_server.flist)
    ⊎ ((f : Finger) × (closest_preceding_finger sample_server (byte_id 210) true ≡ some f)
        × IsClosest (byte_id 10) (byte_id 210) true sample_server.flist f)
closest_preceding_finger-IsClosest_example =
    closest_preceding_finger-IsClosest sample_server (byte_id 210) true sample_server-IsTable.self
      (byte_id-IsId 210 (omega arith)) sample_server-IsTable.list.ids
      sample_server-IsTable.list.sorted

insert_finger-IsInserted_example :
    (ins : Inserted) × (insert_finger sample_server (byte_id 100) (peer_addr 100) 4000 ≡ some ins)
    × IsInserted sample_server (byte_id 100) (is_own sample_server (peer_addr 100) 4000) ins
insert_finger-IsInserted_example =
    insert_finger-IsInserted sample_server (byte_id 100) (peer_addr 100) 4000 sample_server-IsTable
      (byte_id-IsId 100 (omega arith))

get_worst_passive_finger-Worst_example :
    Worst sample_server.flist none (get_worst_passive_finger sample_server)
get_worst_passive_finger-Worst_example = get_worst_passive_finger-Worst sample_server

-- The links of the three cells of the sample server.
abbrev next_link : ℕ → Option ℕ
next_link zero = some 1
next_link (suc zero) = some 2
next_link (suc (suc n)) = none

abbrev prev_link : ℕ → Option ℕ
prev_link (suc zero) = some 0
prev_link (suc (suc zero)) = some 1
prev_link _ = none

abbrev sample_links : Links
sample_links = record {
  head_flist = some 0;
  tail_flist = some 2;
  next = next_link;
  prev = prev_link;
}

sample_links-IsLinked : IsLinked sample_links sample_server.flist
sample_links-IsLinked = record {
  head = refl;
  tail = refl;
  within = (refl, refl, (refl, refl, (refl, refl, tt)));
}

remove_links-IsLinked_example :
    (t : Links) × (remove_links sample_links 1 ≡ some t)
    × IsLinked t (remove_finger sample_server silent_finger).flist
remove_links-IsLinked_example =
    remove_links-IsLinked sample_server sample_links silent_finger sample_server-IsTable
      (inr (inl refl)) sample_links-IsLinked

-- A finger between the second and the third.
abbrev between_finger : Finger
between_finger = peer_finger 3 210 passive 0

insert_links-IsLinked_example :
    IsLinked
      (insert_links sample_links 3
        (loc_of (closest_preceding_finger sample_server (byte_id 210) true)))
      (fingerlist_insert sample_server between_finger).flist
insert_links-IsLinked_example =
    insert_links-IsLinked sample_server sample_links between_finger
      (sample_server-IsTable).list.distinct
      ((λ e. omega arith), ((λ e. omega arith), ((λ e. omega arith), tt))) refl refl
      sample_links-IsLinked
