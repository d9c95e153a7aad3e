-- ===== src/Finger/Sorted.antt =====
-- The order of the finger list: clockwise from the server, so by `rank` of its identifier.
use tangent.Base.{
  ℕ, ◌+◌, ◌<◌, ◌≡◌, ◌≢◌, inl, inr, refl, sym, ap, ◌∙◌, Bool, true, false, Option, none, some, List,
  [], ◌∷◌, ltb, ◌==◌, if◌then◌else◌, arith, All, All-mono, Bool-cases, Option-cases, ltb_iff,
  ==_iff,
}
use tangent.Id.{ChordId, IsId, id_equals}
use tangent.Id.Between.{rank, id_is_between-rank, id_equals_iff}
use tangent.Server.{Finger, ChordServer}
use tangent.Finger.{
  last_such, place, is_preceding, modify, unlink, closest_preceding_finger, fingerlist_insert,
  get_finger, get_finger_from,
}
use tangent.Finger.Search.{In, Distinct, All-In, All-unlink, All-modify, last_such-some}

-- `f` lies before `g` going clockwise from `self`.
abbrev pub Before : ChordId → Finger → Finger → Type 0
Before self f g = rank self f.node.id < rank self g.node.id

-- Strictly sorted, so that no identifier occurs twice.
abbrev pub Sorted : ChordId → List Finger → Type 0
Sorted self [] = Unit
Sorted self (f ∷ fs) = All (Before self f) fs × Sorted self fs

abbrev pub HasId : Finger → Type 0
HasId f = IsId f.node.id

-- Insertion into a sorted list, by the rank alone.
unfoldable pub insert_by_rank : ChordId → Finger → List Finger → List Finger
insert_by_rank self new [] = new ∷ []
insert_by_rank self new (f ∷ fs) =
    if ltb (rank self f.node.id) (rank self new.node.id)
    then f ∷ insert_by_rank self new fs
    else new ∷ f ∷ fs

pub All-insert_by_rank {κ} :
    (P : Finger → Type κ) (self : ChordId) (new : Finger) (fs : List Finger)
    → P new
    → All P fs
    → All P (insert_by_rank self new fs)
unfolding insert_by_rank
All-insert_by_rank P self new [] p h = (p, tt)
All-insert_by_rank P self new (f ∷ fs) p h =
    elim (Bool-cases (ltb (rank self f.node.id) (rank self new.node.id))) [
      | inl e ↦ rw e (h.0, All-insert_by_rank P self new fs p h.1)
      | inr e ↦ rw e (p, h)
    ]

pub Sorted-insert_by_rank :
    (self : ChordId) (new : Finger) (fs : List Finger)
    → Sorted self fs
    → All (λ f. rank self f.node.id ≢ rank self new.node.id) fs
    → Sorted self (insert_by_rank self new fs)
unfolding insert_by_rank
Sorted-insert_by_rank self new [] s ne = (tt, tt)
Sorted-insert_by_rank self new (f ∷ fs) s ne =
    elim (Bool-cases (ltb (rank self f.node.id) (rank self new.node.id))) [
      | inl e ↦
          let lt = (ltb_iff _ _).0 e in
          rw e (
            All-insert_by_rank (Before self f) self new fs lt s.0,
            Sorted-insert_by_rank self new fs s.1 ne.1,
          )
      | inr e ↦
          let lt : Before self new f = ground (arith, ne.0) in
          rw e ((lt, All-mono (Before self f) (Before self new) fs (λ g h. omega arith) s.0), s)
    ]

pub Sorted-unlink :
    (self : ChordId) (loc : ℕ) (fs : List Finger) → Sorted self fs → Sorted self (unlink loc fs)
unfolding unlink
Sorted-unlink self loc [] s = tt
Sorted-unlink self loc (f ∷ fs) s = elim (Bool-cases (f.loc == loc)) [
  | inl e ↦ rw e s.1
  | inr e ↦ rw e (All-unlink _ loc fs s.0, Sorted-unlink self loc fs s.1)
]

pub Sorted-modify :
    (self : ChordId) (loc : ℕ) (change : Finger → Finger) (fs : List Finger)
    → ((f : Finger) → (change f).node.id ≡ f.node.id)
    → Sorted self fs
    → Sorted self (modify loc change fs)
unfolding modify
Sorted-modify self loc change [] keep s = tt
Sorted-modify self loc change (f ∷ fs) keep s = elim (Bool-cases (f.loc == loc)) [
  | inl e ↦ rw e (All-mono _ _ fs (λ g h. rw (keep f) h) s.0, s.1)
  | inr e ↦ rw e (
    All-modify (Before self f) loc change fs (λ g h. rw (keep g) h) s.0,
    Sorted-modify self loc change fs keep s.1,
  )
]

-- A test that holds of exactly the fingers before the new one.
module _ (self : ChordId) (new : Finger) (p : Finger → Bool) where
  abbrev Tests : Finger → Type 0
  Tests f = p f ≡ ltb (rank self f.node.id) (rank self new.node.id)

  -- Linking behind the last finger that passes puts the new one in its place.
  place-last_such :
      (fs : List Finger)
      → Sorted self fs
      → Distinct fs
      → All Tests fs
      → place (last_such p fs) new fs ≡ insert_by_rank self new fs
  unfolding last_such place insert_by_rank
  place-last_such [] s d t = refl
  place-last_such (f ∷ fs) s d t = elim (Option-cases (last_such p fs)) [
    | inr (g, e) ↦
        let (m, pass) = last_such-some p fs g e in
        let apart = All-In (λ h. f.loc ≢ h.loc) g fs d.0 m in
        let behind = All-In (Before self f) g fs s.0 m in
        let low = (ltb_iff _ _).0 (sym (All-In Tests g fs t.1 m) ∙ pass) in
        let lt : ltb (rank self f.node.id) (rank self new.node.id) ≡ true =
          (ltb_iff _ _).1 (omega arith) in
        let miss : (f.loc == g.loc) ≡ false = ground arith in
        let ih = rw e at (place-last_such fs s.1 d.1 t.1) in
        rw (e, last_such, lt, miss) (ap (λ l. f ∷ l) ih)
    | inl e ↦
        let ih = rw e at (place-last_such fs s.1 d.1 t.1) in
        elim (Bool-cases (p f)) [
          | inl u ↦
              let lt = sym t.0 ∙ u in
              rw (e, last_such, u, lt, (==_iff f.loc f.loc).1 refl) (ap (λ l. f ∷ l) ih)
          | inr u ↦ let ge = sym t.0 ∙ u in rw (e, last_such, u, ge)
        ]
  ]

is_preceding-rank :
    (self : ChordId) (new : Finger) (fs : List Finger)
    → IsId self
    → HasId new
    → All HasId fs
    → All (Tests self new (is_preceding self new.node.id true)) fs
is_preceding-rank self new fs hs hn h =
    All-mono HasId _ fs (λ f hf. id_is_between-rank f.node.id self new.node.id hf hs hn) h

-- In a sorted list of valid identifiers at different addresses, `fingerlist_insert` puts a new
-- finger with a valid identifier in its place by rank: at the head, between two fingers, at the
-- tail, or alone.
pub fingerlist_insert-rank :
    (srv : ChordServer) (new : Finger)
    → IsId srv.node.id
    → HasId new
    → All HasId srv.flist
    → Sorted srv.node.id srv.flist
    → Distinct srv.flist
    → fingerlist_insert srv new ≡ record srv { flist = insert_by_rank srv.node.id new srv.flist }
unfolding fingerlist_insert closest_preceding_finger place last_such insert_by_rank
fingerlist_insert-rank srv new hs hn h s d = insert_cases srv.flist refl
  where
    self : ChordId
    self = srv.node.id

    ranked :
        place (last_such (is_preceding self new.node.id true) srv.flist) new srv.flist
        ≡ insert_by_rank self new srv.flist
    ranked =
        place-last_such self new (is_preceding self new.node.id true) srv.flist s d
          (is_preceding-rank self new srv.flist hs hn h)

    insert_cases :
        (fs : List Finger)
        → srv.flist ≡ fs
        → fingerlist_insert srv new
          ≡ record srv { flist = insert_by_rank srv.node.id new srv.flist }
    insert_cases [] e = ground arith
    insert_cases (f ∷ fs) e = ground (arith, ranked)

-- No finger of the list has an identifier that `get_finger` does not find.
get_finger_from-none :
    (fs : List Finger) (id : ChordId) (i : ℕ)
    → IsId id
    → All HasId fs
    → get_finger_from fs id i ≡ none
    → All (λ f. id ≢ f.node.id) fs
unfolding get_finger_from
get_finger_from-none [] id i hi h e = tt
get_finger_from-none (f ∷ fs) id i hi h e = elim (Bool-cases (id_equals id f.node.id)) [
  | inl t ↦ let e' : ◌≡◌ {A = Option (Finger × ℕ)} (some (f, i)) none = rw t at e in cc
  | inr t ↦
      let e' : get_finger_from fs id (i + 1) ≡ none = rw t at e in
      (
        (λ same. let u = (id_equals_iff id f.node.id hi h.0).1 same in cc),
        get_finger_from-none fs id (i + 1) hi h.1 e',
      )
]

pub get_finger-none :
    (srv : ChordServer) (id : ChordId)
    → IsId id
    → All HasId srv.flist
    → get_finger srv id ≡ none
    → All (λ f. id ≢ f.node.id) srv.flist
unfolding get_finger
get_finger-none srv id hi h e = get_finger_from-none srv.flist id 0 hi h e

get_finger_from-some :
    (fs : List Finger) (id : ChordId) (i : ℕ) (f : Finger) (j : ℕ)
    → get_finger_from fs id i ≡ some (f, j)
    → In f fs × (id_equals id f.node.id ≡ true)
unfolding get_finger_from
get_finger_from-some [] id i f j e = cc
get_finger_from-some (g ∷ gs) id i f j e = elim (Bool-cases (id_equals id g.node.id)) [
  | inl t ↦
      let e' : ◌≡◌ {A = Option (Finger × ℕ)} (some (g, i)) (some (f, j)) = rw t at e in
      let same : g ≡ f = cc in (inl (sym same), rw (← same) t)
  | inr t ↦
      let e' : get_finger_from gs id (i + 1) ≡ some (f, j) = rw t at e in
      let (m, u) = get_finger_from-some gs id (i + 1) f j e' in (inr m, u)
]

pub get_finger-some :
    (srv : ChordServer) (id : ChordId) (f : Finger) (j : ℕ)
    → get_finger srv id ≡ some (f, j)
    → In f srv.flist × (id_equals id f.node.id ≡ true)
unfolding get_finger
get_finger-some srv id f j e = get_finger_from-some srv.flist id 0 f j e
