-- ===== src/Stabilize/Clean/Backwards.antt =====
-- The finger list in the order of the `prev` links, for `clean_finger_list` of src/stabilize.c.
use tangent.Base.{
  ◌<◌, ◌≡◌, ◌≢◌, inl, inr, refl, sym, List, [], ◌∷◌, ◌++◌, All, All-append, All-mono, length,
  length-append, arith,
}
use tangent.Id.{ChordId}
use tangent.Id.Between.{rank}
use tangent.Server.{Finger}
use tangent.Finger.Search.{In, Distinct}
use tangent.Finger.Sorted.{Sorted}
use tangent.Stabilize.{backwards}
use tangent.Stabilize.Queries.{All-backwards}

-- Counterclockwise from one cell to the next.
abbrev pub Descending : ChordId → List Finger → Type 0
Descending self [] = Unit
Descending self (f ∷ fs) =
    All (λ g. rank self g.node.id < rank self f.node.id) fs × Descending self fs

All-and {κ μ} :
    (P : Finger → Type κ) (Q : Finger → Type μ) (fs : List Finger)
    → All P fs
    → All Q fs
    → All (λ f. P f × Q f) fs
All-and P Q [] p q = tt
All-and P Q (f ∷ fs) p q = ((p.0, q.0), All-and P Q fs p.1 q.1)

Distinct-snoc :
    (f : Finger) (fs : List Finger)
    → Distinct fs
    → All (λ g. g.loc ≢ f.loc) fs
    → Distinct (fs ++ (f ∷ []))
Distinct-snoc f [] d a = (tt, tt)
Distinct-snoc f (g ∷ gs) d a = (All-append _ gs (f ∷ []) d.0 (a.0, tt), Distinct-snoc f gs d.1 a.1)

Descending-snoc :
    (self : ChordId) (f : Finger) (fs : List Finger)
    → Descending self fs
    → All (λ g. rank self f.node.id < rank self g.node.id) fs
    → Descending self (fs ++ (f ∷ []))
Descending-snoc self f [] d a = (tt, tt)
Descending-snoc self f (g ∷ gs) d a =
    (All-append _ gs (f ∷ []) d.0 (a.0, tt), Descending-snoc self f gs d.1 a.1)

pub Distinct-backwards : (fs : List Finger) → Distinct fs → Distinct (backwards fs)
unfolding backwards
Distinct-backwards [] d = tt
Distinct-backwards (f ∷ fs) d = Distinct-snoc f (backwards fs) (Distinct-backwards fs d.1) (
    All-mono (λ g. f.loc ≢ g.loc) (λ g. g.loc ≢ f.loc) (backwards fs) (λ g ne e. ne (sym e))
      (All-backwards _ fs d.0))

pub Descending-backwards :
    (self : ChordId) (fs : List Finger) → Sorted self fs → Descending self (backwards fs)
unfolding backwards
Descending-backwards self [] s = tt
Descending-backwards self (f ∷ fs) s =
    Descending-snoc self f (backwards fs) (Descending-backwards self fs s.1)
      (All-backwards _ fs s.0)

In-append : (f : Finger) (xs ys : List Finger) → In f xs → In f (xs ++ ys)
In-append f [] ys m = absurd m
In-append f (x ∷ xs) ys (inl e) = inl e
In-append f (x ∷ xs) ys (inr m) = inr (In-append f xs ys m)

In-snoc : (f : Finger) (xs : List Finger) → In f (xs ++ (f ∷ []))
In-snoc f [] = inl refl
In-snoc f (x ∷ xs) = inr (In-snoc f xs)

pub In-backwards : (f : Finger) (fs : List Finger) → In f fs → In f (backwards fs)
unfolding backwards
In-backwards f [] m = absurd m
In-backwards f (g ∷ gs) (inl e) = rw e (In-snoc g (backwards gs))
In-backwards f (g ∷ gs) (inr m) = In-append f (backwards gs) (g ∷ []) (In-backwards f gs m)

pub length-backwards : (fs : List Finger) → length (backwards fs) ≡ length fs
unfolding backwards
length-backwards [] = refl
length-backwards (f ∷ fs) =
    omega (arith, length-append (backwards fs) (f ∷ []), length-backwards fs)
