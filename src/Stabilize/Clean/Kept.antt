-- ===== src/Stabilize/Clean/Kept.antt =====
-- `clean_finger_list` of src/stabilize.c removes no backup successor, and never reads through NULL.
use tangent.Base.{
  ℕ, zero, suc, ◌-◌, ◌≤◌, ◌≡◌, inl, inr, refl, sym, ap, true, false, ◌||◌, Option, some, List, [],
  ◌∷◌, All, All-drop, drop, length, length-drop, ◌==◌, ==_iff, arith, Bool-cases,
}
use tangent.Id.{ChordId, IsId, id_bits, id_equals, id_is_between, chord_id_successor}
use tangent.Id.Value.{value-lt-circle}
use tangent.Id.Between.{rank, id_is_between-rank, id_equals-value}
use tangent.Id.Step.{value-chord_id_successor}
use tangent.Server.{Finger, ChordServer, nfingers, nsuccessors}
use tangent.Finger.Search.{In, All-self}
use tangent.Finger.Sorted.{HasId}
use tangent.Finger.Invariant.{IsTable}
use tangent.Stabilize.{backwards}
use tangent.Stabilize.Queries.{All-backwards}
use tangent.Stabilize.Clean.{keep_proper, skip_preds, skip_succs, clean_finger_list}
use tangent.Stabilize.Clean.Backwards.{
  Descending-backwards, Distinct-backwards, In-backwards, length-backwards,
}
use tangent.Stabilize.Clean.Chain.{IsBehind, IsChain, keep_proper-Removes}
use tangent.Stabilize.Clean.Removal.{Removes, done, Removes-mono}

-- Every identifier lies before or behind another one on the circle, or is one of the two ends.
covered :
    (x a b : ChordId)
    → IsId x
    → IsId a
    → IsId b
    → (id_is_between x a b || id_equals x a) ≡ false
    → (id_is_between x b a || id_equals x b) ≡ true
unfolding rank
covered x a b hx ha hb =
    rw
      (
        id_is_between-rank x a b hx ha hb,
        id_is_between-rank x b a hx hb ha,
        id_equals-value x a hx ha,
        id_equals-value x b hx hb,
      )
      (λ e. ground (arith, value-lt-circle x hx, value-lt-circle a ha, value-lt-circle b hb))

-- With ten fingers the last backup successor is the last predecessor too, and none is removed.
keep_proper_same :
    (srv : ChordServer) (ls f : Finger) (ps : List Finger) (k : ℕ)
    → IsId srv.node.id
    → IsId ls.node.id
    → k ≤ id_bits
    → keep_proper srv ls ls k f ps ≡ srv
unfolding keep_proper
keep_proper_same srv ls f ps zero hs hl small = refl
keep_proper_same srv ls f ps (suc k) hs hl small = elim (Bool-cases (f.loc == ls.loc)) [
  | inl at ↦ rw (at, keep_proper)
  | inr off ↦
      elim (Bool-cases (id_is_between id ls.node.id srv.node.id || id_equals id ls.node.id)) [
        | inl pred ↦
            rw (off, pred, keep_proper) (keep_proper_same srv ls f ps k hs hl (omega arith))
        | inr more ↦
            let hi = (value-chord_id_successor srv.node.id k hs (omega arith)).0 in
            rw (off, more, covered id ls.node.id srv.node.id hi hl hs more, keep_proper)
      ]
]
  where
    id : ChordId
    id = chord_id_successor srv.node.id k

-- What `clean_finger_list` returns.
abbrev pub Cleaned : ChordServer → Finger → Option ChordServer → Type 0
Cleaned srv ls r = (t : ChordServer) × (r ≡ some t) × Removes (IsBehind srv.node.id ls) srv t

skip_preds-Cleaned :
    (srv : ChordServer) (ls : Finger) (chain : List Finger)
    → IsChain srv.node.id ls srv chain
    → All HasId chain
    → 4 ≤ length chain
    → Cleaned srv ls (skip_preds srv ls chain)
unfolding skip_preds
skip_preds-Cleaned srv ls [] c h long = absurd (omega arith)
skip_preds-Cleaned srv ls (a ∷ []) c h long = absurd (omega arith)
skip_preds-Cleaned srv ls (a ∷ b ∷ []) c h long = absurd (omega arith)
skip_preds-Cleaned srv ls (a ∷ b ∷ lp ∷ []) c h long = absurd (omega arith)
skip_preds-Cleaned srv ls (a ∷ b ∷ lp ∷ f ∷ ps) c h long =
    elim (Bool-cases (a.loc == ls.loc || b.loc == ls.loc)) [
      | inl few ↦ (srv, rw (few, skip_preds), done)
      | inr many ↦ (keep_proper srv ls lp nfingers f ps, rw (many, skip_preds), rest many c.last_in)
    ]
  where
    rest :
        (a.loc == ls.loc || b.loc == ls.loc) ≡ false
        → In ls (a ∷ b ∷ lp ∷ f ∷ ps)
        → Removes (IsBehind srv.node.id ls) srv (keep_proper srv ls lp nfingers f ps)
    rest many (inl e) =
        let at = (==_iff a.loc ls.loc).1 (ap (λ g. g.loc) (sym e)) in absurd (ground arith)
    rest many (inr (inl e)) =
        let at = (==_iff b.loc ls.loc).1 (ap (λ g. g.loc) (sym e)) in absurd (ground arith)
    rest many (inr (inr (inl e))) =
        rw (sym e, keep_proper_same srv ls f ps nfingers c.table.self (rw e h.1.1.0) (omega arith))
          done
    rest many (inr (inr (inr m))) =
        keep_proper-Removes srv.node.id ls lp nfingers srv f ps (record {
          table = c.table;
          node = refl;
          members = c.members.1.1.1;
          distinct = c.distinct.1.1.1;
          descending = c.descending.1.1.1;
          last_in = m;
        })

-- Behind the finger that stands in the list as the last of the backup successors.
abbrev pub IsDisposable : ChordServer → Finger → Type 0
IsDisposable srv f =
    (f_lastsucc : Finger) × (fs : List Finger) × (drop (nsuccessors - 1) srv.flist
      ≡ f_lastsucc ∷ fs)
    × IsBehind srv.node.id f_lastsucc f

backwards-IsChain :
    (srv : ChordServer) (ls : Finger)
    → IsTable srv
    → In ls srv.flist
    → IsChain srv.node.id ls srv (backwards srv.flist)
backwards-IsChain srv ls t m = record {
  table = t;
  node = refl;
  members = All-backwards (λ g. In g srv.flist) srv.flist (All-self srv.flist);
  distinct = Distinct-backwards srv.flist t.list.distinct;
  descending = Descending-backwards srv.node.id srv.flist t.list.sorted;
  last_in = In-backwards ls srv.flist m;
}

-- At every server whose finger list is in order, `clean_finger_list` returns without a read through
-- NULL. What it returns comes from the server by removing fingers only, each of them strictly behind
-- the eighth finger of the list, the last of the backup successors.
pub clean_finger_list-spares_backups :
    (srv : ChordServer)
    → IsTable srv
    → (t : ChordServer) × (clean_finger_list srv ≡ some t) × Removes (IsDisposable srv) srv t
unfolding clean_finger_list skip_succs
clean_finger_list-spares_backups srv t =
    cases (drop (nsuccessors - 1) srv.flist) refl
      (All-drop (λ g. In g srv.flist) (nsuccessors - 1) srv.flist (All-self srv.flist))
  where
    cases :
        (fs : List Finger)
        → drop (nsuccessors - 1) srv.flist ≡ fs
        → All (λ g. In g srv.flist) fs
        → (r : ChordServer) × (skip_succs srv fs ≡ some r) × Removes (IsDisposable srv) srv r
    cases [] e m = (srv, refl, done)
    cases (ls ∷ []) e m = (srv, refl, done)
    cases (ls ∷ g ∷ fs) e m =
        let n = length-drop (nsuccessors - 1) srv.flist in
        let k = ap length e in
        let (r, same, a) =
          skip_preds-Cleaned srv ls (backwards srv.flist) (backwards-IsChain srv ls t m.0)
            (All-backwards HasId srv.flist t.list.ids)
            (omega (arith, n, k, length-backwards srv.flist)) in
        (r, same, Removes-mono _ _ (λ f b. (ls, g ∷ fs, e, b)) srv r a)
