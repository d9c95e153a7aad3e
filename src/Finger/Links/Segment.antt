-- ===== src/Finger/Links/Segment.antt =====
-- When the links of src/finger.c hold a list of fingers, and stores that leave them as they are.
use tangent.Base.{
  ℕ, ◌≡◌, ◌≢◌, inl, inr, refl, sym, ap, subst, ◌∙◌, true, false, Option, none, some, List, [], ◌∷◌,
  ◌++◌, All, ◌==◌, ==_iff, Bool-cases,
}
use tangent.Server.{Finger}
use tangent.Finger.Search.{In, Distinct}
use tangent.Finger.{unlink}
use tangent.Finger.Links.{Field, Links, put, points_to}

-- The first cell, or what follows the list; the last cell, or what precedes it.
abbrev pub first_of : List Finger → Option ℕ → Option ℕ
first_of [] r = r
first_of (f ∷ fs) r = some f.loc

abbrev pub last_of : Option ℕ → List Finger → Option ℕ
last_of p [] = p
last_of p (f ∷ fs) = last_of (some f.loc) fs

-- The links within a run of cells between `p` and `r`.
abbrev pub IsSegment : Field → Field → Option ℕ → List Finger → Option ℕ → Type 0
IsSegment next prev p [] r = Unit
IsSegment next prev p (f ∷ fs) r =
    (prev f.loc ≡ p) × (next f.loc ≡ first_of fs r) × IsSegment next prev (some f.loc) fs r

-- The links hold the list in both directions.
pub record IsLinked (m : Links) (fs : List Finger) : Type 0 where
  pub head : m.head_flist ≡ first_of fs none
  pub tail : m.tail_flist ≡ last_of none fs
  pub within : IsSegment m.next m.prev none fs none

pub put-same : (field : Field) (loc : ℕ) (v : Option ℕ) → put field loc v loc ≡ v
unfolding put
put-same field loc v = let e : (loc == loc) ≡ true = (==_iff loc loc).1 refl in rw e

pub put-other : (field : Field) (loc x : ℕ) (v : Option ℕ) → loc ≢ x → put field loc v x ≡ field x
unfolding put
put-other field loc x v ne = elim (Bool-cases (x == loc)) [
  | inl e ↦ absurd (ne (sym ((==_iff x loc).0 e)))
  | inr e ↦ rw e
]

-- No cell of the run lies at `loc`.
abbrev pub IsApart : ℕ → List Finger → Type 0
IsApart loc fs = All (λ g. loc ≢ g.loc) fs

pub IsSegment-put_next :
    (next prev : Field) (loc : ℕ) (v p : Option ℕ) (fs : List Finger) (r : Option ℕ)
    → IsApart loc fs
    → IsSegment next prev p fs r
    → IsSegment (put next loc v) prev p fs r
IsSegment-put_next next prev loc v p [] r a s = tt
IsSegment-put_next next prev loc v p (f ∷ fs) r a s = (
  s.0,
  put-other next loc f.loc v a.0 ∙ s.1,
  IsSegment-put_next next prev loc v (some f.loc) fs r a.1 s.2,
)

pub IsSegment-put_prev :
    (next prev : Field) (loc : ℕ) (v p : Option ℕ) (fs : List Finger) (r : Option ℕ)
    → IsApart loc fs
    → IsSegment next prev p fs r
    → IsSegment next (put prev loc v) p fs r
IsSegment-put_prev next prev loc v p [] r a s = tt
IsSegment-put_prev next prev loc v p (f ∷ fs) r a s = (
  put-other prev loc f.loc v a.0 ∙ s.0,
  s.1,
  IsSegment-put_prev next prev loc v (some f.loc) fs r a.1 s.2,
)

first_of-append :
    (xs ys : List Finger) (r : Option ℕ) → first_of (xs ++ ys) r ≡ first_of xs (first_of ys r)
first_of-append [] ys r = refl
first_of-append (x ∷ xs) ys r = refl

pub last_of-append :
    (p : Option ℕ) (xs ys : List Finger) → last_of p (xs ++ ys) ≡ last_of (last_of p xs) ys
last_of-append p [] ys = refl
last_of-append p (x ∷ xs) ys = last_of-append (some x.loc) xs ys

-- Two runs, one behind the other.
pub IsSegment-split :
    (next prev : Field) (p : Option ℕ) (xs ys : List Finger) (r : Option ℕ)
    → IsSegment next prev p (xs ++ ys) r
    → IsSegment next prev p xs (first_of ys r) × IsSegment next prev (last_of p xs) ys r
IsSegment-split next prev p [] ys r s = (tt, s)
IsSegment-split next prev p (x ∷ xs) ys r s =
    let (a, b) = IsSegment-split next prev (some x.loc) xs ys r s.2 in
    ((s.0, s.1 ∙ first_of-append xs ys r, a), b)

pub IsSegment-append :
    (next prev : Field) (p : Option ℕ) (xs ys : List Finger) (r : Option ℕ)
    → IsSegment next prev p xs (first_of ys r)
    → IsSegment next prev (last_of p xs) ys r
    → IsSegment next prev p (xs ++ ys) r
IsSegment-append next prev p [] ys r a b = b
IsSegment-append next prev p (x ∷ xs) ys r a b = (
  a.0,
  a.1 ∙ sym (first_of-append xs ys r),
  IsSegment-append next prev (some x.loc) xs ys r a.2 b,
)

-- Where a cell stands in a list.
pub data Place (f : Finger) : List Finger → Type 0 where
  at_head : (ys : List Finger) → Place f (f ∷ ys)
  behind : (xs : List Finger) (q : Finger) (ys : List Finger) → Place f (xs ++ (q ∷ f ∷ ys))

pub find_place : (f : Finger) (fs : List Finger) → In f fs → Place f fs
find_place f [] m = absurd m
find_place f (g ∷ gs) (inl e) = subst (λ h. Place f (h ∷ gs)) e (at_head gs)
find_place f (g ∷ gs) (inr m) = further (find_place f gs m)
  where
    further : {hs : List Finger} → Place f hs → Place f (g ∷ hs)
    further (at_head ys) = behind [] g ys
    further (behind xs q ys) = behind (g ∷ xs) q ys

pub All-split :
    (x : Finger) (xs ys : List Finger)
    → IsApart x.loc (xs ++ ys)
    → IsApart x.loc xs × IsApart x.loc ys
All-split x [] ys a = (tt, a)
All-split x (z ∷ zs) ys a = let (b, c) = All-split x zs ys a.1 in ((a.0, b), c)

-- Cells at different addresses, in two runs.
pub Distinct-split :
    (xs ys : List Finger)
    → Distinct (xs ++ ys)
    → Distinct xs × Distinct ys × All (λ y. IsApart y.loc xs) ys
Distinct-split [] ys d = (tt, d, nothing ys)
  where
    nothing : (ys : List Finger) → All (λ y. IsApart y.loc []) ys
    nothing [] = tt
    nothing (y ∷ ys) = (tt, nothing ys)
Distinct-split (x ∷ xs) ys d =
    let (dx, dy, apart) = Distinct-split xs ys d.1 in
    let (ax, ay) = All-split x xs ys d.0 in ((ax, dx), dy, both x xs ys ay apart)
  where
    both :
        (x : Finger) (xs ys : List Finger)
        → All (λ g. x.loc ≢ g.loc) ys
        → All (λ y. IsApart y.loc xs) ys
        → All (λ y. IsApart y.loc (x ∷ xs)) ys
    both x xs [] a b = tt
    both x xs (y ∷ ys) a b = (((λ e. a.0 (sym e)), b.0), both x xs ys a.1 b.1)

pub same_loc : (loc : ℕ) → (loc == loc) ≡ true
same_loc loc = (==_iff loc loc).1 refl

pub other_loc : (a b : ℕ) → a ≢ b → (b == a) ≡ false
other_loc a b ne = elim (Bool-cases (b == a)) [
  | inl e ↦ absurd (ne (sym ((==_iff b a).0 e)))
  | inr e ↦ e
]

-- The ends of a list without a cell at `loc`.
pub points_to-last_of :
    (loc : ℕ) (f : Finger) (fs : List Finger)
    → IsApart loc (f ∷ fs)
    → points_to (last_of (some f.loc) fs) loc ≡ false
unfolding points_to
points_to-last_of loc f [] a = other_loc loc f.loc a.0
points_to-last_of loc f (g ∷ gs) a = points_to-last_of loc g gs a.1

pub points_to-first_of :
    (loc : ℕ) (xs : List Finger) (q : Finger) (ys : List Finger) (r : Option ℕ)
    → IsApart loc xs
    → loc ≢ q.loc
    → points_to (first_of (xs ++ (q ∷ ys)) r) loc ≡ false
unfolding points_to
points_to-first_of loc [] q ys r a ne = other_loc loc q.loc ne
points_to-first_of loc (x ∷ xs) q ys r a ne = other_loc loc x.loc a.0

-- Taking a cell out of the list.
pub unlink-head : (f : Finger) (ys : List Finger) → unlink f.loc (f ∷ ys) ≡ ys
unfolding unlink
unlink-head f ys = rw (same_loc f.loc)

pub unlink-append :
    (f : Finger) (xs ys : List Finger)
    → IsApart f.loc xs
    → unlink f.loc (xs ++ ys) ≡ xs ++ unlink f.loc ys
unfolding unlink
unlink-append f [] ys a = refl
unlink-append f (x ∷ xs) ys a =
    rw (other_loc f.loc x.loc a.0, unlink) (ap (λ l. x ∷ l) (unlink-append f xs ys a.1))

pub unlink-behind :
    (f : Finger) (xs : List Finger) (q : Finger) (ys : List Finger)
    → Distinct (xs ++ (q ∷ f ∷ ys))
    → unlink f.loc (xs ++ (q ∷ f ∷ ys)) ≡ xs ++ (q ∷ ys)
unfolding unlink
unlink-behind f xs q ys d =
    let (_, dy, (_, (af, _))) = Distinct-split xs (q ∷ f ∷ ys) d in
    unlink-append f xs (q ∷ f ∷ ys) af
    ∙ ap (λ l. xs ++ l)
        (rw (other_loc f.loc q.loc (λ e. dy.0.0 (sym e)), unlink)
          (ap (λ l. q ∷ l) (unlink-head f ys)))
