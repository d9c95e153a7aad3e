-- ===== src/Finger/Worst.antt =====
-- `get_worst_passive_finger` of src/finger.c: which finger gives way to a new one.
use tangent.Base.{
  ◌-◌, ◌≤◌, ◌≡◌, ◌⊎◌, inl, inr, refl, sym, true, false, not, ◌&&◌, Option, none, some, List, [],
  ◌∷◌, arith, All, Bool-cases,
}
use tangent.Base.Int.{ℤ, pos, negsuc, ltb_ℤ, leb_ℤ, ◌≤ℤ◌}
use tangent.Server.{Finger, ChordServer, ping_thresh}
use tangent.Finger.{is_active, worst_passive, get_worst_passive_finger}
use tangent.Finger.Search.{In, passive_count}

-- `npings_record` is always that of the worst finger so far.
abbrev pub record_of : Option Finger → ℤ
record_of none = negsuc 0
record_of (some w) = pos w.npings

abbrev pub NoneWorse : Finger → List Finger → Type 0
NoneWorse w fs = All (λ g. (is_active g ≡ true) ⊎ (g.npings ≤ w.npings)) fs

-- What one call of the loop finds, from the worst finger so far.
abbrev pub Worst : List Finger → Option Finger → Option Finger → Type 0
Worst fs worst none = (worst ≡ none) × (passive_count fs ≡ 0)
Worst fs worst (some w) =
    ((worst ≡ some w) ⊎ (In w fs × (is_active w ≡ false)))
    × ((ping_thresh - 1 ≤ w.npings) ⊎ (NoneWorse w fs × (record_of worst ≤ℤ pos w.npings)))

Worst-skip :
    (f : Finger) (fs : List Finger) (worst r : Option Finger)
    → ((is_active f ≡ true) ⊎ (pos f.npings ≤ℤ record_of worst))
    → Worst fs worst r
    → Worst (f ∷ fs) worst r
unfolding passive_count
Worst-skip f fs none none (inl a) w = (refl, ground arith)
Worst-skip f fs none none (inr a) w = absurd (omega arith)
Worst-skip f fs (some v) none a w = cc
Worst-skip f fs worst (some w) a (found, best) = (wider found, still best)
  where
    wider :
        (worst ≡ some w) ⊎ (In w fs × (is_active w ≡ false))
        → (worst ≡ some w) ⊎ (In w (f ∷ fs) × (is_active w ≡ false))
    wider (inl e) = inl e
    wider (inr (m, p)) = inr (inr m, p)

    low :
        (is_active f ≡ true) ⊎ (pos f.npings ≤ℤ record_of worst)
        → record_of worst ≤ℤ pos w.npings
        → (is_active f ≡ true) ⊎ (f.npings ≤ w.npings)
    low (inl t) h = inl t
    low (inr t) h = inr (omega arith)

    still :
        (ping_thresh - 1 ≤ w.npings) ⊎ (NoneWorse w fs × (record_of worst ≤ℤ pos w.npings))
        → (ping_thresh - 1 ≤ w.npings) ⊎ (NoneWorse w (f ∷ fs) × (record_of worst ≤ℤ pos w.npings))
    still (inl h) = inl h
    still (inr (n, h)) = inr ((low a h, n), h)

Worst-take :
    (f : Finger) (fs : List Finger) (worst r : Option Finger)
    → is_active f ≡ false
    → record_of worst ≤ℤ pos f.npings
    → Worst fs (some f) r
    → Worst (f ∷ fs) worst r
Worst-take f fs worst none a h w = cc
Worst-take f fs worst (some w) a h (found, best) = (inr (among found), still best)
  where
    among :
        (some f ≡ some w) ⊎ (In w fs × (is_active w ≡ false))
        → In w (f ∷ fs) × (is_active w ≡ false)
    among (inl e) = let same : f ≡ w = cc in (inl (sym same), rw (← same) a)
    among (inr (m, p)) = (inr m, p)

    still :
        (ping_thresh - 1 ≤ w.npings) ⊎ (NoneWorse w fs × (pos f.npings ≤ℤ pos w.npings))
        → (ping_thresh - 1 ≤ w.npings) ⊎ (NoneWorse w (f ∷ fs) × (record_of worst ≤ℤ pos w.npings))
    still (inl k) = inl k
    still (inr (n, k)) = inr ((inr (omega arith), n), omega arith)

worst_passive-Worst :
    (fs : List Finger) (worst : Option Finger)
    → Worst fs worst (worst_passive fs worst (record_of worst))
unfolding worst_passive passive_count
worst_passive-Worst [] none = (refl, refl)
worst_passive-Worst [] (some w) = (inl refl, inr (tt, omega arith))
worst_passive-Worst (f ∷ fs) worst =
    elim (Bool-cases (not (is_active f) && ltb_ℤ (record_of worst) (pos f.npings))) [
      | inr e ↦
          rw (e) (Worst-skip f fs worst _ (passed_over worst e) (worst_passive-Worst fs worst))
      | inl e ↦ elim (Bool-cases (leb_ℤ (pos (ping_thresh - 1)) (pos f.npings))) [
        | inl t ↦ rw (e, t) (inr (inl refl, ground arith), inl (ground arith))
        | inr t ↦
            rw (e, t)
              (Worst-take f fs worst _ (ground arith) (taken worst e)
                (worst_passive-Worst fs (some f)))
      ]
    ]
  where
    passed_over :
        (v : Option Finger)
        → (not (is_active f) && ltb_ℤ (record_of v) (pos f.npings)) ≡ false
        → (is_active f ≡ true) ⊎ (pos f.npings ≤ℤ record_of v)
    passed_over v e = elim (Bool-cases (is_active f)) [
      | inl t ↦ inl t
      | inr u ↦
          let e' : ltb_ℤ (record_of v) (pos f.npings) ≡ false = rw u at e in inr (ground arith)
    ]

    taken :
        (v : Option Finger)
        → (not (is_active f) && ltb_ℤ (record_of v) (pos f.npings)) ≡ true
        → record_of v ≤ℤ pos f.npings
    taken v e = ground arith

-- The worst finger that `get_worst_passive_finger` returns is a passive finger of the list, and none
-- of the passive ones has missed more pings, unless it has missed PING_THRESH - 1 already. It returns
-- none only if every finger is active.
pub get_worst_passive_finger-Worst :
    (srv : ChordServer) → Worst srv.flist none (get_worst_passive_finger srv)
unfolding get_worst_passive_finger
get_worst_passive_finger-Worst srv = worst_passive-Worst srv.flist none
