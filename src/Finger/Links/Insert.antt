-- ===== src/Finger/Links/Insert.antt =====
-- The stores of `fingerlist_insert` in src/finger.c link a new finger into the list.
use tangent.Base.{
  ℕ, ◌≡◌, inl, inr, refl, sym, ap, subst, ◌∙◌, true, Option, none, some, List, [], ◌∷◌, ◌++◌,
}
use tangent.Server.{Finger, ChordServer}
use tangent.Finger.{place, insert_after, closest_preceding_finger, fingerlist_insert}
use tangent.Finger.Search.{In, Distinct, last_such-some}
use tangent.Finger.Links.{Field, Links, put, put_if, insert_head, insert_behind, insert_links}
use tangent.Finger.Links.Segment.{
  first_of, IsSegment, IsLinked, IsApart, put-same, put-other, IsSegment-put_next,
  IsSegment-put_prev, last_of-append, IsSegment-split, IsSegment-append, Distinct-split, All-split,
  same_loc, other_loc,
}

-- The address of what a search found.
abbrev pub loc_of : Option Finger → Option ℕ
loc_of none = none
loc_of (some f) = some f.loc

-- A list that is split at a cell.
data Split (q : Finger) : List Finger → Type 0 where
  split : (xs ys : List Finger) → Split q (xs ++ (q ∷ ys))

find-Split : (q : Finger) (fs : List Finger) → In q fs → Split q fs
find-Split q [] m = absurd m
find-Split q (g ∷ gs) (inl e) = subst (λ h. Split q (h ∷ gs)) e (split [] gs)
find-Split q (g ∷ gs) (inr m) = further (find-Split q gs m)
  where
    further : {hs : List Finger} → Split q hs → Split q (g ∷ hs)
    further (split xs ys) = split (g ∷ xs) ys

insert_after-append :
    (q new : Finger) (xs ys : List Finger)
    → IsApart q.loc xs
    → insert_after q.loc new (xs ++ (q ∷ ys)) ≡ xs ++ (q ∷ new ∷ ys)
unfolding insert_after
insert_after-append q new [] ys a = rw (same_loc q.loc)
insert_after-append q new (x ∷ xs) ys a =
    rw (other_loc q.loc x.loc a.0, insert_after)
      (ap (λ l. x ∷ l) (insert_after-append q new xs ys a.1))

module _ (m : Links) (new : Finger) where
  in_front :
      (h : Finger) (hs : List Finger)
      → Distinct (h ∷ hs)
      → IsApart new.loc (h ∷ hs)
      → IsLinked m (h ∷ hs)
      → IsLinked (insert_head m new.loc h.loc) (new ∷ h ∷ hs)
  unfolding insert_head
  in_front h hs d a l =
      let (_, en, rest) = l.within in
      let next : Field = put m.next new.loc (some h.loc) in
      let prev : Field = put m.prev new.loc none in
      record {
        head = refl;
        tail = l.tail;
        within = (
          put-other prev h.loc new.loc (some new.loc) (λ e. a.0 (sym e))
              ∙ put-same m.prev new.loc none,
          put-same m.next new.loc (some h.loc),
          (
            put-same prev h.loc (some new.loc),
            put-other m.next new.loc h.loc (some h.loc) a.0 ∙ en,
            IsSegment-put_prev next prev h.loc (some new.loc) (some h.loc) hs none d.0 (
                IsSegment-put_prev next m.prev new.loc none (some h.loc) hs none a.1 (
                  IsSegment-put_next m.next m.prev new.loc (some h.loc) (some h.loc) hs none a.1
                    rest)),
          ),
        );
      }

  same_first :
      (q : Finger) (xs ys : List Finger)
      → first_of (xs ++ (q ∷ ys)) none ≡ first_of (xs ++ (q ∷ new ∷ ys)) none
  same_first q [] ys = refl
  same_first q (x ∷ xs) ys = refl

  -- The cells in front of `q`.
  front_kept :
      (xs : List Finger) (q : Finger) (prev : Field) (v w : Option ℕ)
      → IsApart new.loc xs
      → IsApart q.loc xs
      → IsSegment m.next prev none xs (some q.loc)
      → IsSegment
          (put (put m.next new.loc v) q.loc w)
          (put prev new.loc (some q.loc))
          none
          xs
          (some q.loc)
  front_kept xs q prev v w an aq s =
      IsSegment-put_next (put m.next new.loc v) (put prev new.loc (some q.loc)) q.loc w none xs
        (some q.loc) aq
        (IsSegment-put_next m.next (put prev new.loc (some q.loc)) new.loc v none xs (some q.loc) an
          (IsSegment-put_prev m.next prev new.loc (some q.loc) none xs (some q.loc) an s))

  -- Behind `q`, which is the last finger or in front of `n`.
  link_behind :
      (xs : List Finger) (q : Finger) (ys : List Finger)
      → Distinct (xs ++ (q ∷ ys))
      → IsApart new.loc (xs ++ (q ∷ ys))
      → IsLinked m (xs ++ (q ∷ ys))
      → IsLinked (insert_behind m new.loc q.loc) (xs ++ (q ∷ new ∷ ys))
  unfolding insert_behind put_if
  link_behind xs q [] d a l =
      let (front, (eq, en, _)) = IsSegment-split m.next m.prev none xs (q ∷ []) none l.within in
      let (_, dy, (aq, _)) = Distinct-split xs (q ∷ []) d in
      let (ax, (ne, _)) = All-split new xs (q ∷ []) a in
      let next : Field = put m.next new.loc (m.next q.loc) in
      let following : next q.loc ≡ none = put-other m.next new.loc q.loc (m.next q.loc) ne ∙ en in
      rw (following, insert_behind, put_if)
        (record {
          head = l.head ∙ same_first q xs [];
          tail = sym (last_of-append none xs (q ∷ new ∷ []));
          within =
              IsSegment-append _ _ none xs (q ∷ new ∷ []) none
                (front_kept xs q m.prev (m.next q.loc) (some new.loc) ax aq front)
                (
                  put-other m.prev new.loc q.loc (some q.loc) ne ∙ eq,
                  put-same next q.loc (some new.loc),
                  (
                    put-same m.prev new.loc (some q.loc),
                    put-other next q.loc new.loc (some new.loc) (λ e. ne (sym e))
                        ∙ put-same m.next new.loc (m.next q.loc)
                        ∙ en,
                    tt,
                  ),
                );
        })
  link_behind xs q (n ∷ ns) d a l =
      let (front, (eq, en, (_, enn, rest))) =
        IsSegment-split m.next m.prev none xs (q ∷ n ∷ ns) none l.within in
      let (_, dy, (aq, (an, _))) = Distinct-split xs (q ∷ n ∷ ns) d in
      let (ax, (ne, (nn, ans))) = All-split new xs (q ∷ n ∷ ns) a in
      let next : Field = put m.next new.loc (m.next q.loc) in
      let prev : Field = put m.prev n.loc (some new.loc) in
      let following : next q.loc ≡ some n.loc =
        put-other m.next new.loc q.loc (m.next q.loc) ne ∙ en in
      rw (following, insert_behind, put_if)
        (record {
          head = l.head ∙ same_first q xs (n ∷ ns);
          tail =
              l.tail
              ∙ last_of-append none xs (q ∷ n ∷ ns)
              ∙ sym (last_of-append none xs (q ∷ new ∷ n ∷ ns));
          within =
              IsSegment-append _ _ none xs (q ∷ new ∷ n ∷ ns) none
                (front_kept xs q prev (m.next q.loc) (some new.loc) ax aq (
                  IsSegment-put_prev m.next m.prev n.loc (some new.loc) none xs (some q.loc) an
                    front))
                (
                  put-other prev new.loc q.loc (some q.loc) ne
                      ∙ put-other m.prev n.loc q.loc (some new.loc) (λ e. dy.0.0 (sym e))
                      ∙ eq,
                  put-same next q.loc (some new.loc),
                  (
                    put-same prev new.loc (some q.loc),
                    put-other next q.loc new.loc (some new.loc) (λ e. ne (sym e))
                        ∙ put-same m.next new.loc (m.next q.loc)
                        ∙ en,
                    (
                      put-other prev new.loc n.loc (some q.loc) nn
                          ∙ put-same m.prev n.loc (some new.loc),
                      put-other next q.loc n.loc (some new.loc) dy.0.0
                          ∙ put-other m.next new.loc n.loc (m.next q.loc) nn
                          ∙ enn,
                      IsSegment-put_next next (put prev new.loc (some q.loc)) q.loc (some new.loc)
                          (some n.loc) ns none dy.0.1
                          (IsSegment-put_next m.next (put prev new.loc (some q.loc)) new.loc
                            (m.next q.loc) (some n.loc) ns none ans
                            (IsSegment-put_prev m.next prev new.loc (some q.loc) (some n.loc) ns
                              none ans
                              (IsSegment-put_prev m.next m.prev n.loc (some new.loc) (some n.loc) ns
                                none dy.1.0 rest))),
                    ),
                  ),
                );
        })

  insert_behind-Split :
      (q : Finger) (fs : List Finger)
      → Split q fs
      → Distinct fs
      → IsApart new.loc fs
      → IsLinked m fs
      → IsLinked (insert_behind m new.loc q.loc) (insert_after q.loc new fs)
  insert_behind-Split q _ (split xs ys) d a l =
      let (_, _, (aq, _)) = Distinct-split xs (q ∷ ys) d in
      rw (insert_after-append q new xs ys aq) (link_behind xs q ys d a l)

fingerlist_insert-place :
    (srv : ChordServer) (new h : Finger) (hs : List Finger)
    → srv.flist ≡ h ∷ hs
    → (fingerlist_insert srv new).flist
      ≡ place (closest_preceding_finger srv new.node.id true) new srv.flist
unfolding fingerlist_insert
fingerlist_insert-place srv new h hs e = ap (λ s. s.flist) (ap branch e)
  where
    branch : List Finger → ChordServer
    branch [] = record srv { flist = new ∷ [] }
    branch (f ∷ fs) = record srv {
      flist = place (closest_preceding_finger srv new.node.id true) new srv.flist;
    }

-- At a list with the head `h`, behind what was found.
insert_links-place :
    (m : Links) (new h : Finger) (hs : List Finger) (prec : Option Finger)
    → ((q : Finger) → prec ≡ some q → In q (h ∷ hs))
    → Distinct (h ∷ hs)
    → IsApart new.loc (h ∷ hs)
    → IsLinked m (h ∷ hs)
    → IsLinked (insert_links m new.loc (loc_of prec)) (place prec new (h ∷ hs))
unfolding insert_links place
insert_links-place m new h hs none found d a l =
    rw (l.head, insert_links) (in_front m new h hs d a l)
insert_links-place m new h hs (some q) found d a l =
    rw (l.head, insert_links)
      (insert_behind-Split m new q (h ∷ hs) (find-Split q (h ∷ hs) (found q refl)) d a l)

-- Where the links hold the finger list in both directions, with cells at different addresses, and a
-- new cell at another address has no links yet, the stores of `fingerlist_insert` leave links that
-- hold the list that `fingerlist_insert` leaves, whether the list was empty or the new finger goes to
-- its head, to its tail or between two others.
pub insert_links-IsLinked :
    (srv : ChordServer) (m : Links) (new : Finger)
    → Distinct srv.flist
    → IsApart new.loc srv.flist
    → m.next new.loc ≡ none
    → m.prev new.loc ≡ none
    → IsLinked m srv.flist
    → IsLinked
        (insert_links m new.loc (loc_of (closest_preceding_finger srv new.node.id true)))
        (fingerlist_insert srv new).flist
unfolding insert_links fingerlist_insert closest_preceding_finger
insert_links-IsLinked srv m new d a no_next no_prev l = by_list srv.flist refl
  where
    prec : Option Finger
    prec = closest_preceding_finger srv new.node.id true

    by_list :
        (fs : List Finger)
        → srv.flist ≡ fs
        → IsLinked (insert_links m new.loc (loc_of prec)) (fingerlist_insert srv new).flist
    by_list [] e =
        let none_yet : m.head_flist ≡ none = l.head ∙ ap (λ fs. first_of fs none) e in
        rw (none_yet, e, insert_links, fingerlist_insert)
          (record { head = refl; tail = refl; within = (no_prev, no_next, tt) })
    by_list (h ∷ hs) e =
        let inserted : (fingerlist_insert srv new).flist ≡ place prec new (h ∷ hs) =
          fingerlist_insert-place srv new h hs e ∙ ap (place prec new) e in
        let found : (q : Finger) → prec ≡ some q → In q (h ∷ hs) =
          λ q k. subst (In q) e (last_such-some _ srv.flist q k).0 in
        subst (IsLinked (insert_links m new.loc (loc_of prec))) (sym inserted) (
          insert_links-place m new h hs prec found (subst Distinct e d)
            (subst (IsApart new.loc) e a) (subst (IsLinked m) e l))
