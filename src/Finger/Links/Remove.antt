-- ===== src/Finger/Links/Remove.antt =====
-- The stores of `remove_finger` in src/finger.c take a finger out of the list, and nothing else.
use tangent.Base.{
  ℕ, ◌≡◌, ◌≢◌, ◌⊎◌, inl, inr, refl, sym, ap, subst, Bool-cases, ◌∙◌, true, false, Option, none,
  some, List, [], ◌∷◌, ◌++◌,
}
use tangent.Server.{Finger, ChordServer}
use tangent.Finger.{unlink, remove_finger}
use tangent.Finger.Search.{In, Distinct}
use tangent.Finger.Invariant.{IsTable, remove_finger_lem}
use tangent.Finger.Links.{
  Field, Links, put, put_if, points_to, unlink_head, unlink_tail, unlink_next, remove_links,
}
use tangent.Finger.Links.Segment.{
  unlink-behind, first_of, IsLinked, put-same, put-other, IsSegment-put_next, IsSegment-put_prev,
  last_of-append, IsSegment-split, IsSegment-append, Place, at_head, behind, find_place,
  Distinct-split, same_loc, points_to-last_of, points_to-first_of, unlink-head,
}

-- The result of the stores.
data IsRemoved (fs : List Finger) : Option Links → Type 0 where
  removed : {t : Links} → IsLinked t fs → IsRemoved fs (some t)

module _ (m : Links) (f : Finger) where
  -- The two branches for an end of the list, each where it applies and where it does not.
  unlink_head-at :
      points_to m.head_flist f.loc ≡ true
      → unlink_head m f.loc
        ≡ record m { head_flist = m.next f.loc; prev = put_if m.prev (m.next f.loc) none }
  unfolding unlink_head
  unlink_head-at e = rw e

  unlink_head-off : points_to m.head_flist f.loc ≡ false → unlink_head m f.loc ≡ m
  unfolding unlink_head
  unlink_head-off e = rw e

  unlink_tail-at :
      points_to m.tail_flist f.loc ≡ true
      → unlink_tail m f.loc
        ≡ record m { tail_flist = m.prev f.loc; next = put_if m.next (m.prev f.loc) none }
  unfolding unlink_tail
  unlink_tail-at e = rw e

  unlink_tail-off : points_to m.tail_flist f.loc ≡ false → unlink_tail m f.loc ≡ m
  unfolding unlink_tail
  unlink_tail-off e = rw e

  -- The test of the branches.
  remove_links-end :
      (points_to m.tail_flist f.loc ≡ true) ⊎ (points_to m.head_flist f.loc ≡ true)
      → remove_links m f.loc ≡ some (unlink_tail (unlink_head m f.loc) f.loc)
  unfolding remove_links
  remove_links-end (inl e) = rw e
  remove_links-end (inr e) = elim (Bool-cases (points_to m.tail_flist f.loc)) [
    | inl at ↦ rw at
    | inr off ↦ rw (off, e)
  ]

  remove_links-between :
      (p n : ℕ)
      → points_to m.tail_flist f.loc ≡ false
      → points_to m.head_flist f.loc ≡ false
      → m.prev f.loc ≡ some p
      → m.next f.loc ≡ some n
      → p ≢ f.loc
      → remove_links m f.loc
        ≡ some (record m { next = put m.next p (m.next f.loc); prev = put m.prev n (m.prev f.loc) })
  unfolding remove_links unlink_next
  remove_links-between p n t h ep en ne =
      let kept = put-other m.next p f.loc (m.next f.loc) ne ∙ en in
      rw (t, h, ep, unlink_next, kept)
        (ap (λ o. some (record m { next = put m.next p (m.next f.loc); prev = put m.prev n o })) ep)

points_to_self : (o : Option ℕ) (loc : ℕ) → o ≡ some loc → points_to o loc ≡ true
unfolding points_to
points_to_self o loc e = rw e (same_loc loc)

from_eq :
    {fs : List Finger} {r : Option Links} {t : Links} → r ≡ some t → IsLinked t fs → IsRemoved fs r
from_eq e l = rw e (removed l)

module _ (m : Links) (f : Finger) where
  -- The only finger.
  alone : IsLinked m (f ∷ []) → IsRemoved [] (remove_links m f.loc)
  unfolding put_if
  alone l =
      from_eq
        (remove_links-end m f (inl (points_to_self m.tail_flist f.loc l.tail))
          ∙ ap (λ k. some (unlink_tail k f.loc))
              (unlink_head-at m f (points_to_self m.head_flist f.loc l.head))
          ∙ ap some (unlink_tail-at _ f (points_to_self m.tail_flist f.loc l.tail)))
        (record {
          head = l.within.1;
          tail = ap (λ o. put_if m.prev o none f.loc) l.within.1 ∙ l.within.0;
          within = tt;
        })

  -- The first of several.
  first_one :
      (n : Finger) (ns : List Finger)
      → Distinct (f ∷ n ∷ ns)
      → IsLinked m (f ∷ n ∷ ns)
      → IsRemoved (n ∷ ns) (remove_links m f.loc)
  unfolding put_if
  first_one n ns d l =
      let (_, en, (_, enn, rest)) = l.within in
      let off =
        subst (λ o. points_to o f.loc ≡ false) (sym l.tail) (points_to-last_of f.loc n ns d.0) in
      let store : put_if m.prev (m.next f.loc) none ≡ put m.prev n.loc none =
        ap (λ o. put_if m.prev o none) en in
      from_eq
        (remove_links-end m f (inr (points_to_self m.head_flist f.loc l.head))
          ∙ ap (λ k. some (unlink_tail k f.loc))
              (unlink_head-at m f (points_to_self m.head_flist f.loc l.head))
          ∙ ap some (unlink_tail-off _ f off)
          ∙ ap (λ g. some (record m { head_flist = m.next f.loc; prev = g })) store)
        (record {
          head = en;
          tail = l.tail;
          within = (
            put-same m.prev n.loc none,
            enn,
            IsSegment-put_prev m.next m.prev n.loc none (some n.loc) ns none d.1.0 rest,
          );
        })

  -- The last of several, behind `q`.
  last_one :
      (xs : List Finger) (q : Finger)
      → Distinct (xs ++ (q ∷ f ∷ []))
      → IsLinked m (xs ++ (q ∷ f ∷ []))
      → IsRemoved (xs ++ (q ∷ [])) (remove_links m f.loc)
  unfolding put_if
  last_one xs q d l =
      let (front, (eq, _, (ep, _, _))) =
        IsSegment-split m.next m.prev none xs (q ∷ f ∷ []) none l.within in
      let (dx, dy, (aq, (af, _))) = Distinct-split xs (q ∷ f ∷ []) d in
      let off =
        subst (λ o. points_to o f.loc ≡ false) (sym l.head)
          (points_to-first_of f.loc xs q (f ∷ []) none af (λ e. dy.0.0 (sym e))) in
      let at = l.tail ∙ last_of-append none xs (q ∷ f ∷ []) in
      let store : put_if m.next (m.prev f.loc) none ≡ put m.next q.loc none =
        ap (λ o. put_if m.next o none) ep in
      from_eq
        (remove_links-end m f (inl (points_to_self m.tail_flist f.loc at))
          ∙ ap (λ k. some (unlink_tail k f.loc)) (unlink_head-off m f off)
          ∙ ap some (unlink_tail-at m f (points_to_self m.tail_flist f.loc at))
          ∙ ap (λ g. some (record m { tail_flist = m.prev f.loc; next = g })) store)
        (record {
          head = l.head ∙ same_first xs;
          tail = ep ∙ sym (last_of-append none xs (q ∷ []));
          within =
              IsSegment-append (put m.next q.loc none) m.prev none xs (q ∷ []) none
                (IsSegment-put_next m.next m.prev q.loc none none xs (some q.loc) aq front)
                (eq, put-same m.next q.loc none, tt);
        })
    where
      same_first :
          (ys : List Finger) → first_of (ys ++ (q ∷ f ∷ [])) none ≡ first_of (ys ++ (q ∷ [])) none
      same_first [] = refl
      same_first (y ∷ ys) = refl

  -- One between `q` and `n`.
  middle_one :
      (xs : List Finger) (q n : Finger) (ns : List Finger)
      → Distinct (xs ++ (q ∷ f ∷ n ∷ ns))
      → IsLinked m (xs ++ (q ∷ f ∷ n ∷ ns))
      → IsRemoved (xs ++ (q ∷ n ∷ ns)) (remove_links m f.loc)
  middle_one xs q n ns d l =
      let (front, (eq, _, (ep, en, (_, enn, rest)))) =
        IsSegment-split m.next m.prev none xs (q ∷ f ∷ n ∷ ns) none l.within in
      let (dx, dy, (aq, (af, (an, _)))) = Distinct-split xs (q ∷ f ∷ n ∷ ns) d in
      let head_off =
        subst (λ o. points_to o f.loc ≡ false) (sym l.head)
          (points_to-first_of f.loc xs q (f ∷ n ∷ ns) none af (λ e. dy.0.0 (sym e))) in
      let at = l.tail ∙ last_of-append none xs (q ∷ f ∷ n ∷ ns) in
      let tail_off =
        subst (λ o. points_to o f.loc ≡ false) (sym at) (points_to-last_of f.loc n ns dy.1.0) in
      let next : Field = put m.next q.loc (m.next f.loc) in
      let prev : Field = put m.prev n.loc (m.prev f.loc) in
      from_eq (remove_links-between m f q.loc n.loc tail_off head_off ep en dy.0.0) (record {
        head = l.head ∙ same_first xs;
        tail = at ∙ sym (last_of-append none xs (q ∷ n ∷ ns));
        within =
            IsSegment-append next prev none xs (q ∷ n ∷ ns) none
              (IsSegment-put_prev next m.prev n.loc (m.prev f.loc) none xs (some q.loc) an (
                IsSegment-put_next m.next m.prev q.loc (m.next f.loc) none xs (some q.loc) aq
                  front))
              (
                put-other m.prev n.loc q.loc (m.prev f.loc) (λ e. dy.0.1.0 (sym e)) ∙ eq,
                put-same m.next q.loc (m.next f.loc) ∙ en,
                (
                  put-same m.prev n.loc (m.prev f.loc) ∙ ep,
                  put-other m.next q.loc n.loc (m.next f.loc) dy.0.1.0 ∙ enn,
                  IsSegment-put_prev next m.prev n.loc (m.prev f.loc) (some n.loc) ns none dy.1.1.0
                      (IsSegment-put_next m.next m.prev q.loc (m.next f.loc) (some n.loc) ns none
                        dy.0.1.1 rest),
                ),
              );
      })
    where
      same_first :
          (ys : List Finger)
          → first_of (ys ++ (q ∷ f ∷ n ∷ ns)) none ≡ first_of (ys ++ (q ∷ n ∷ ns)) none
      same_first [] = refl
      same_first (y ∷ ys) = refl

  -- What is left is the list without the finger.
  by_place :
      (fs : List Finger)
      → Place f fs
      → Distinct fs
      → IsLinked m fs
      → IsRemoved (unlink f.loc fs) (remove_links m f.loc)
  by_place _ (at_head []) d l = rw (unlink-head f []) (alone l)
  by_place _ (at_head (n ∷ ns)) d l = rw (unlink-head f (n ∷ ns)) (first_one n ns d l)
  by_place _ (behind xs q []) d l = rw (unlink-behind f xs q [] d) (last_one xs q d l)
  by_place _ (behind xs q (n ∷ ns)) d l =
      rw (unlink-behind f xs q (n ∷ ns) d) (middle_one xs q n ns d l)

-- Where the links hold the finger list in both directions and the table is in order, the stores of
-- `remove_finger` for a finger of the list go through no NULL pointer, whether it is at the head, at
-- the tail, both or neither, and leave links that hold the list that `remove_finger` leaves.
pub remove_links-IsLinked :
    (srv : ChordServer) (m : Links) (f : Finger)
    → IsTable srv
    → In f srv.flist
    → IsLinked m srv.flist
    → (t : Links) × (remove_links m f.loc ≡ some t) × IsLinked t (remove_finger srv f).flist
remove_links-IsLinked srv m f w i l =
    result (remove_links m f.loc)
      (by_place m f srv.flist (find_place f srv.flist i) w.list.distinct l)
  where
    result :
        (r : Option Links)
        → IsRemoved (unlink f.loc srv.flist) r
        → (t : Links) × (r ≡ some t) × IsLinked t (remove_finger srv f).flist
    result none a = elim a [ ]
    result (some t) (removed k) =
        (t, refl, subst (λ u. IsLinked t u.flist) (sym (remove_finger_lem srv f w)) k)
