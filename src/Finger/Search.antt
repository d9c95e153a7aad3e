-- ===== src/Finger/Search.antt =====
-- What the searches of src/finger.c find, and what stores through the found pointers change.
use tangent.Base.{
  ℕ, ◌+◌, ◌≡◌, ◌≢◌, ◌⊎◌, inl, inr, refl, sym, ap, subst, ◌∙◌, Bool, true, false, none, some, List,
  [], ◌∷◌, ◌==◌, if◌then◌else◌, arith, All, All-mono, Bool-cases, Option-cases, ==_iff,
}
use tangent.Server.{Finger, passive, active}
use tangent.Finger.{is_active, first_such, last_such, modify, unlink}

-- The cell is one of the list's.
abbrev pub In : Finger → List Finger → Type 0
In f [] = ⊥
In f (g ∷ gs) = (f ≡ g) ⊎ In f gs

-- The cells lie at different addresses.
abbrev pub Distinct : List Finger → Type 0
Distinct [] = Unit
Distinct (f ∷ fs) = All (λ g. f.loc ≢ g.loc) fs × Distinct fs

pub All-In {κ} : (P : Finger → Type κ) (f : Finger) (fs : List Finger) → All P fs → In f fs → P f
All-In P f [] h m = absurd m
All-In P f (g ∷ gs) h (inl e) = subst P (sym e) h.0
All-In P f (g ∷ gs) h (inr m) = All-In P f gs h.1 m

pub All-self : (fs : List Finger) → All (λ g. In g fs) fs
All-self [] = tt
All-self (f ∷ fs) = (inl refl, All-mono (λ g. In g fs) _ fs (λ g m. inr m) (All-self fs))

-- What the searches find are cells of the list that pass the test.
pub first_such-some :
    (p : Finger → Bool) (fs : List Finger) (f : Finger)
    → first_such p fs ≡ some f
    → In f fs × (p f ≡ true)
unfolding first_such
first_such-some p [] f e = cc
first_such-some p (g ∷ gs) f e = elim (Bool-cases (p g)) [
  | inl t ↦
      let e' : some g ≡ some f = rw t at e in
      let same : g ≡ f = cc in (inl (sym same), rw (← same) t)
  | inr t ↦
      let e' : first_such p gs ≡ some f = rw t at e in
      let (m, pass) = first_such-some p gs f e' in (inr m, pass)
]

pub last_such-some :
    (p : Finger → Bool) (fs : List Finger) (f : Finger)
    → last_such p fs ≡ some f
    → In f fs × (p f ≡ true)
unfolding last_such
last_such-some p [] f e = cc
last_such-some p (g ∷ gs) f e = elim (Option-cases (last_such p gs)) [
  | inr (h, t) ↦
      let e' : some h ≡ some f = rw (t, last_such) at e in
      let (m, pass) = last_such-some p gs f (t ∙ e') in (inr m, pass)
  | inl t ↦
      let e' : (if p g then some g else none) ≡ some f = rw (t, last_such) at e in
      elim (Bool-cases (p g)) [
        | inl u ↦
            let e'' : some g ≡ some f = rw u at e' in
            let same : g ≡ f = cc in (inl (sym same), rw (← same) u)
        | inr u ↦ let e'' : none ≡ some f = rw u at e' in cc
      ]
]

-- Nothing passes the test when the search finds nothing.
pub last_such-none :
    (p : Finger → Bool) (fs : List Finger) → last_such p fs ≡ none → All (λ f. p f ≡ false) fs
unfolding last_such
last_such-none p [] e = tt
last_such-none p (g ∷ gs) e = elim (Option-cases (last_such p gs)) [
  | inr (h, t) ↦ let e' : some h ≡ none = rw (t, last_such) at e in cc
  | inl t ↦
      let e' : (if p g then some g else none) ≡ none = rw (t, last_such) at e in
      elim (Bool-cases (p g)) [
        | inl u ↦ let e'' : some g ≡ none = rw u at e' in cc
        | inr u ↦ (u, last_such-none p gs t)
      ]
]

pub first_such-none :
    (p : Finger → Bool) (fs : List Finger) → first_such p fs ≡ none → All (λ f. p f ≡ false) fs
unfolding first_such
first_such-none p [] e = tt
first_such-none p (g ∷ gs) e = elim (Bool-cases (p g)) [
  | inl u ↦ let e' : some g ≡ none = rw u at e in cc
  | inr u ↦ let e' : first_such p gs ≡ none = rw u at e in (u, first_such-none p gs e')
]

-- Stores and unlinking keep what holds of every cell.
pub All-unlink {κ} :
    (P : Finger → Type κ) (loc : ℕ) (fs : List Finger) → All P fs → All P (unlink loc fs)
unfolding unlink
All-unlink P loc [] h = tt
All-unlink P loc (f ∷ fs) h = elim (Bool-cases (f.loc == loc)) [
  | inl e ↦ rw e h.1
  | inr e ↦ rw e (h.0, All-unlink P loc fs h.1)
]

pub All-modify {κ} :
    (P : Finger → Type κ) (loc : ℕ) (change : Finger → Finger) (fs : List Finger)
    → ((f : Finger) → P f → P (change f))
    → All P fs
    → All P (modify loc change fs)
unfolding modify
All-modify P loc change [] keep h = tt
All-modify P loc change (f ∷ fs) keep h = elim (Bool-cases (f.loc == loc)) [
  | inl e ↦ rw e (keep f h.0, h.1)
  | inr e ↦ rw e (h.0, All-modify P loc change fs keep h.1)
]

pub In-unlink : (g : Finger) (loc : ℕ) (fs : List Finger) → In g (unlink loc fs) → In g fs
In-unlink g loc fs m =
    All-In (λ h. In h fs) g (unlink loc fs) (All-unlink (λ h. In h fs) loc fs (All-self fs)) m

pub Distinct-unlink : (loc : ℕ) (fs : List Finger) → Distinct fs → Distinct (unlink loc fs)
unfolding unlink
Distinct-unlink loc [] h = tt
Distinct-unlink loc (f ∷ fs) h = elim (Bool-cases (f.loc == loc)) [
  | inl e ↦ rw e h.1
  | inr e ↦ rw e (All-unlink _ loc fs h.0, Distinct-unlink loc fs h.1)
]

pub Distinct-modify :
    (loc : ℕ) (change : Finger → Finger) (fs : List Finger)
    → ((f : Finger) → (change f).loc ≡ f.loc)
    → Distinct fs
    → Distinct (modify loc change fs)
unfolding modify
Distinct-modify loc change [] keep h = tt
Distinct-modify loc change (f ∷ fs) keep h = elim (Bool-cases (f.loc == loc)) [
  | inl e ↦ rw (e, keep f) h
  | inr e ↦ rw e (
    All-modify _ loc change fs (λ g ne. rw (keep g) ne) h.0,
    Distinct-modify loc change fs keep h.1,
  )
]

-- How many fingers are passive.
unfoldable pub passive_count : List Finger → ℕ
passive_count [] = 0
passive_count (f ∷ fs) = (if is_active f then 0 else 1) + passive_count fs

-- A cell of a list with distinct addresses is the one that its address leads to.
pub passive_count-unlink :
    (f : Finger) (fs : List Finger)
    → Distinct fs
    → In f fs
    → passive_count (unlink f.loc fs) + (if is_active f then 0 else 1) ≡ passive_count fs
unfolding unlink passive_count
passive_count-unlink f [] d m = absurd m
passive_count-unlink f (g ∷ gs) d (inl e) = rw (e, (==_iff g.loc g.loc).1 refl) (omega arith)
passive_count-unlink f (g ∷ gs) d (inr m) =
    let apart : g.loc ≢ f.loc = All-In (λ h. g.loc ≢ h.loc) f gs d.0 m in
    let miss : (g.loc == f.loc) ≡ false = ground arith in
    rw miss (omega (arith, passive_count-unlink f gs d.1 m))

pub passive_count-modify :
    (loc : ℕ) (change : Finger → Finger) (fs : List Finger)
    → ((f : Finger) → (change f).status ≡ f.status)
    → passive_count (modify loc change fs) ≡ passive_count fs
unfolding modify passive_count
passive_count-modify loc change [] keep = refl
passive_count-modify loc change (f ∷ fs) keep = elim (Bool-cases (f.loc == loc)) [
  | inl e ↦ rw (e, keep f)
  | inr e ↦ rw (e, passive_count-modify loc change fs keep)
]

pub passive_count-activate :
    (f : Finger) (fs : List Finger)
    → Distinct fs
    → In f fs
    → f.status ≡ passive
    → passive_count (modify f.loc (λ g. record g { status = active }) fs) + 1 ≡ passive_count fs
unfolding modify passive_count
passive_count-activate f [] d m s = absurd m
passive_count-activate f (g ∷ gs) d (inl e) s =
    let s' : g.status ≡ passive = rw e at s in rw (e, (==_iff g.loc g.loc).1 refl, s') (omega arith)
passive_count-activate f (g ∷ gs) d (inr m) s =
    let apart : g.loc ≢ f.loc = All-In (λ h. g.loc ≢ h.loc) f gs d.0 m in
    let miss : (g.loc == f.loc) ≡ false = ground arith in
    rw miss (omega (arith, passive_count-activate f gs d.1 m s))

pub In-modify :
    (f : Finger) (change : Finger → Finger) (fs : List Finger)
    → Distinct fs
    → In f fs
    → In (change f) (modify f.loc change fs)
unfolding modify
In-modify f change [] d m = absurd m
In-modify f change (g ∷ gs) d (inl e) = rw (e, (==_iff g.loc g.loc).1 refl) (inl refl)
In-modify f change (g ∷ gs) d (inr m) =
    let apart : g.loc ≢ f.loc = All-In (λ h. g.loc ≢ h.loc) f gs d.0 m in
    let miss : (g.loc == f.loc) ≡ false = ground arith in
    rw miss (inr (In-modify f change gs d.1 m))

-- A store or a removal at one address leaves the cells at the others.
pub In-modify_other :
    (h : Finger) (loc : ℕ) (change : Finger → Finger) (fs : List Finger)
    → h.loc ≢ loc
    → In h fs
    → In h (modify loc change fs)
unfolding modify
In-modify_other h loc change [] ne m = absurd m
In-modify_other h loc change (f ∷ fs) ne (inl e) = elim (Bool-cases (f.loc == loc)) [
  | inl at ↦ absurd (ne (ap (λ k. k.loc) e ∙ (==_iff _ _).0 at))
  | inr off ↦ rw off (inl e)
]
In-modify_other h loc change (f ∷ fs) ne (inr m) = elim (Bool-cases (f.loc == loc)) [
  | inl at ↦ rw at (inr m)
  | inr off ↦ rw off (inr (In-modify_other h loc change fs ne m))
]

pub In-unlink_other :
    (h : Finger) (loc : ℕ) (fs : List Finger) → h.loc ≢ loc → In h fs → In h (unlink loc fs)
unfolding unlink
In-unlink_other h loc [] ne m = absurd m
In-unlink_other h loc (f ∷ fs) ne (inl e) = elim (Bool-cases (f.loc == loc)) [
  | inl at ↦ absurd (ne (ap (λ k. k.loc) e ∙ (==_iff _ _).0 at))
  | inr off ↦ rw off (inl e)
]
In-unlink_other h loc (f ∷ fs) ne (inr m) = elim (Bool-cases (f.loc == loc)) [
  | inl at ↦ rw at m
  | inr off ↦ rw off (inr (In-unlink_other h loc fs ne m))
]
