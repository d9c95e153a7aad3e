-- ===== src/Stabilize/Silent.antt =====
-- A finger that never answers is dropped: `ping` of src/stabilize.c over several rounds.
use tangent.Base.{
  ℕ, zero, suc, ◌+◌, ◌≤◌, ◌<◌, ◌≡◌, ◌≢◌, inl, inr, sym, subst, ◌∙◌, true, not, ◌||◌, Option, none,
  List, [], ◌∷◌, All, All-mono, leb, ==_iff, ◌==◌, arith, Bool-cases,
}
use tangent.Server.{Finger, ChordServer, ping_thresh}
use tangent.Finger.{unlink}
use tangent.Finger.Search.{In, All-self, All-modify, All-unlink, Distinct, In-modify}
use tangent.Finger.Invariant.{IsTable, remove_finger_lem}
use tangent.Stabilize.{count_ping, ping_one, ping_from, ping}
use tangent.Stabilize.Pings.{IsTurn-members, differs, ping_one-IsTurn, ping-IsTable}

-- No cell lies at the address.
abbrev pub IsGone : ℕ → ChordServer → Type 0
IsGone loc srv = All (λ g. g.loc ≢ loc) srv.flist

-- `f` has counted one more unanswered ping, or has been dropped if it had reached the threshold.
pub data IsCounted (f : Finger) (srv : ChordServer) : Type 0 where
  counted : f.npings < ping_thresh → In (count_ping f) srv.flist → IsCounted f srv
  dropped : ping_thresh ≤ f.npings → IsGone f.loc srv → IsCounted f srv

unlink-gone : (loc : ℕ) (fs : List Finger) → Distinct fs → All (λ g. g.loc ≢ loc) (unlink loc fs)
unfolding unlink
unlink-gone loc [] d = tt
unlink-gone loc (g ∷ gs) d = elim (Bool-cases (g.loc == loc)) [
  | inl e ↦
      let at = (==_iff _ _).0 e in
      rw e (All-mono (λ h. g.loc ≢ h.loc) (λ h. h.loc ≢ loc) gs (λ h ne k. ne (at ∙ sym k)) d.0)
  | inr e ↦ rw e ((λ k. differs (g.loc == loc) e ((==_iff _ _).1 k)), unlink-gone loc gs d.1)
]

-- The turn of a finger that has missed a ping counts or drops it.
ping_one-IsCounted :
    (srv : ChordServer) (f : Finger) (i : ℕ)
    → IsTable srv
    → In f srv.flist
    → 1 ≤ f.npings
    → IsCounted f (ping_one srv f i).0
unfolding ping_one
ping_one-IsCounted srv f i t m missed = elim (Bool-cases (leb ping_thresh f.npings)) [
  | inl dead ↦
      rw (dead, ping_one)
        (dropped (ground arith)
          (rw (remove_finger_lem srv f t) (unlink-gone f.loc srv.flist t.list.distinct)))
  | inr alive ↦
      let due : (not (f.npings == 0) || srv.to_ping == i) ≡ true = ground arith in
      rw (alive, due, ping_one)
        (counted (ground arith) (In-modify f count_ping srv.flist t.list.distinct m))
]

-- The turn of another finger leaves that as it is.
ping_one-IsGone :
    (srv : ChordServer) (f : Finger) (i loc : ℕ)
    → IsTable srv
    → IsGone loc srv
    → IsGone loc (ping_one srv f i).0
unfolding ping_one
ping_one-IsGone srv f i loc t gone = elim (Bool-cases (leb ping_thresh f.npings)) [
  | inl dead ↦
      rw (dead, ping_one) (rw (remove_finger_lem srv f t) (All-unlink _ f.loc srv.flist gone))
  | inr alive ↦ elim (Bool-cases (not (f.npings == 0) || srv.to_ping == i)) [
    | inl due ↦
        rw (alive, due, ping_one)
          (All-modify (λ g. g.loc ≢ loc) f.loc count_ping srv.flist (λ g ne. ne) gone)
    | inr quiet ↦ rw (alive, quiet, ping_one) gone
  ]
]

ping_from-after :
    (srv : ChordServer) (fs : List Finger) (i : ℕ) (p : Option ℕ) (f : Finger)
    → IsTable srv
    → Distinct fs
    → All (λ g. In g srv.flist) fs
    → All (λ g. f.loc ≢ g.loc) fs
    → IsCounted f srv
    → IsCounted f (ping_from srv fs i p).0
unfolding ping_from
ping_from-after srv [] i p f t d h apart c = c
ping_from-after srv (g ∷ gs) i p f t d h apart c =
    let turn = ping_one-IsTurn srv g i t h.0 in
    ping_from-after (ping_one srv g i).0 gs (i + 1) _ f turn.table d.1
      (IsTurn-members srv _ g gs turn d.0 h.1) apart.1
      (elim c [
        | counted low m ↦ counted low (turn.others (count_ping f) apart.0 m)
        | dropped high gone ↦ dropped high (ping_one-IsGone srv g i f.loc t gone)
      ])

ping_from-IsCounted :
    (srv : ChordServer) (fs : List Finger) (i : ℕ) (p : Option ℕ) (f : Finger)
    → IsTable srv
    → Distinct fs
    → All (λ g. In g srv.flist) fs
    → In f fs
    → 1 ≤ f.npings
    → IsCounted f (ping_from srv fs i p).0
unfolding ping_from
ping_from-IsCounted srv [] i p f t d h m missed = absurd m
ping_from-IsCounted srv (g ∷ gs) i p f t d h m missed =
    let turn = ping_one-IsTurn srv g i t h.0 in
    let rest = IsTurn-members srv _ g gs turn d.0 h.1 in
    elim m [
      | inl e ↦
          let first =
            subst (λ k. IsCounted k (ping_one srv g i).0) (sym e)
              (ping_one-IsCounted srv g i t h.0 (subst (λ k. 1 ≤ k.npings) e missed)) in
          let apart = subst (λ k. All (λ l. k.loc ≢ l.loc) gs) (sym e) d.0 in
          ping_from-after (ping_one srv g i).0 gs (i + 1) _ f turn.table d.1 rest apart first
      | inr n ↦ ping_from-IsCounted (ping_one srv g i).0 gs (i + 1) _ f turn.table d.1 rest n missed
    ]

-- A round of pings counts one more for a finger that has missed some, or drops it at the threshold.
ping-IsCounted :
    (srv : ChordServer) (f : Finger)
    → IsTable srv
    → In f srv.flist
    → 1 ≤ f.npings
    → IsCounted f (ping srv).0
unfolding ping
ping-IsCounted srv f t m missed =
    elim (ping_from-IsCounted srv srv.flist 0 none f t t.list.distinct (All-self srv.flist) m
      missed) [ counted low n ↦ counted low n | dropped high gone ↦ dropped high gone ]

-- Rounds of pings, with no answer between them.
unfoldable pub rounds : ℕ → ChordServer → ChordServer
rounds zero srv = srv
rounds (suc n) srv = rounds n (ping srv).0

-- With the table in order, a finger that has missed a ping and answers none is out of the list
-- after the rounds that are left up to the threshold, and one more.
pub rounds-IsGone :
    (left : ℕ) (srv : ChordServer) (f : Finger)
    → IsTable srv
    → In f srv.flist
    → 1 ≤ f.npings
    → f.npings + left ≡ ping_thresh
    → IsGone f.loc (rounds (suc left) srv)
unfolding rounds
rounds-IsGone zero srv f t m missed e = elim (ping-IsCounted srv f t m missed) [
  | counted low n ↦ absurd (omega arith)
  | dropped high gone ↦ gone
]
rounds-IsGone (suc left) srv f t m missed e = elim (ping-IsCounted srv f t m missed) [
  | counted low n ↦
      rounds-IsGone left (ping srv).0 (count_ping f) (ping-IsTable srv t) n (omega arith)
        (omega arith)
  | dropped high gone ↦ absurd (omega arith)
]
