-- ===== src/Stabilize/Clean/Chain.antt =====
-- The loops of `clean_finger_list` in src/stabilize.c remove no backup successor.
use tangent.Base.{
  ℕ, zero, suc, ◌<◌, ◌≡◌, ◌≢◌, inl, inr, sym, ap, false, ◌||◌, Option, none, some, List, [], ◌∷◌,
  All, ◌==◌, ==_iff, Bool-cases,
}
use tangent.Id.{ChordId, id_equals, id_is_between, chord_id_successor}
use tangent.Id.Between.{rank}
use tangent.Server.{Finger, ChordServer}
use tangent.Finger.{remove_finger, unlink}
use tangent.Finger.Search.{In, Distinct, All-In, In-unlink_other}
use tangent.Finger.Invariant.{IsTable, remove_finger_lem, remove_finger-IsTable}
use tangent.Stabilize.Clean.{prune, keep_proper}
use tangent.Stabilize.Clean.Backwards.{Descending}
use tangent.Stabilize.Clean.Removal.{Removes, done, removing, Removes-trans}

-- Behind the last backup successor.
abbrev pub IsBehind : ChordId → Finger → Finger → Type 0
IsBehind self f_lastsucc f = rank self f_lastsucc.node.id < rank self f.node.id

-- What holds of `f` and its `prev` links in the loops.
pub record IsChain (self : ChordId) (ls : Finger) (srv : ChordServer) (chain : List Finger)
    : Type 0 where
  pub table : IsTable srv
  pub node : srv.node.id ≡ self
  pub members : All (λ g. In g srv.flist) chain
  pub distinct : Distinct chain
  pub descending : Descending self chain
  pub last_in : In ls chain

-- What the inner loop leaves.
data IsPruned (self : ChordId) (ls : Finger) (srv : ChordServer)
    : ChordServer × Option (Finger × List Finger) → Type 0 where
  ended : {s : ChordServer} → Removes (IsBehind self ls) srv s → IsPruned self ls srv (s, none)
  onward :
      {s : ChordServer} {g : Finger} {gs : List Finger}
      → Removes (IsBehind self ls) srv s
      → IsChain self ls s (g ∷ gs)
      → IsPruned self ls srv (s, some (g, gs))

module _ (self : ChordId) (ls : Finger) where
  behind :
      (srv : ChordServer) (f : Finger) (ps : List Finger)
      → IsChain self ls srv (f ∷ ps)
      → (f.loc == ls.loc) ≡ false
      → In ls ps × IsBehind self ls f
  behind srv f ps c off = elim c.last_in [
    | inl e ↦ absurd (apart e)
    | inr m ↦ (m, All-In (λ g. rank self g.node.id < rank self f.node.id) ls ps c.descending.0 m)
  ]
    where
      apart : ls ≡ f → ⊥
      apart e = let same = (==_iff f.loc ls.loc).1 (ap (λ k. k.loc) (sym e)) in cc

  -- The chain behind `f`, in the server as it is or without `f`.
  IsChain-tail :
      (srv : ChordServer) (f : Finger) (ps : List Finger)
      → IsChain self ls srv (f ∷ ps)
      → In ls ps
      → IsChain self ls srv ps
  IsChain-tail srv f ps c m = record {
    table = c.table;
    node = c.node;
    members = c.members.1;
    distinct = c.distinct.1;
    descending = c.descending.1;
    last_in = m;
  }

  members_without :
      (srv : ChordServer) (f : Finger) (ps : List Finger)
      → All (λ g. f.loc ≢ g.loc) ps
      → All (λ g. In g srv.flist) ps
      → All (λ g. In g (unlink f.loc srv.flist)) ps
  members_without srv f [] a m = tt
  members_without srv f (p ∷ ps) a m =
      (In-unlink_other p f.loc srv.flist (λ e. a.0 (sym e)) m.0, members_without srv f ps a.1 m.1)

  IsChain-without :
      (srv : ChordServer) (f : Finger) (ps : List Finger)
      → IsChain self ls srv (f ∷ ps)
      → In ls ps
      → IsChain self ls (remove_finger srv f) ps
  IsChain-without srv f ps c m =
      let e = remove_finger_lem srv f c.table in
      record {
        table = remove_finger-IsTable srv f c.table c.members.0;
        node = rw e c.node;
        members = rw e (members_without srv f ps c.distinct.0 c.members.1);
        distinct = c.distinct.1;
        descending = c.descending.1;
        last_in = m;
      }

  prune-IsPruned :
      (srv : ChordServer) (id : ChordId) (f : Finger) (ps : List Finger)
      → IsChain self ls srv (f ∷ ps)
      → IsPruned self ls srv (prune srv ls id f ps)
  unfolding prune
  prune-IsPruned srv id f [] c = ended done
  prune-IsPruned srv id f (p ∷ ps) c = elim (Bool-cases (f.loc == ls.loc)) [
    | inl at ↦ rw (at, prune) (ended done)
    | inr off ↦
        let (m, far) = behind srv f (p ∷ ps) c off in
        elim (Bool-cases (id_is_between p.node.id id f.node.id || id_equals p.node.id id)) [
          | inr proper ↦ rw (off, proper, prune) (onward done (IsChain-tail srv f (p ∷ ps) c m))
          | inl spare ↦
              rw (off, spare, prune)
                (after srv f _ c.members.0 far (
                  prune-IsPruned (remove_finger srv f) id p ps
                    (IsChain-without srv f (p ∷ ps) c m)))
        ]
  ]
    where
      after :
          (srv : ChordServer) (f : Finger) (r : ChordServer × Option (Finger × List Finger))
          → In f srv.flist
          → IsBehind self ls f
          → IsPruned self ls (remove_finger srv f) r
          → IsPruned self ls srv r
      after srv f r m far (ended a) = ended (removing f m far a)
      after srv f r m far (onward a c) = onward (removing f m far a) c

  pub keep_proper-Removes :
      (lp : Finger) (k : ℕ) (srv : ChordServer) (f : Finger) (ps : List Finger)
      → IsChain self ls srv (f ∷ ps)
      → Removes (IsBehind self ls) srv (keep_proper srv ls lp k f ps)
  unfolding keep_proper
  keep_proper-Removes lp zero srv f ps c = done
  keep_proper-Removes lp (suc k) srv f ps c = elim (Bool-cases (f.loc == ls.loc)) [
    | inl at ↦ rw (at, keep_proper) done
    | inr off ↦
        elim (Bool-cases (id_is_between id lp.node.id srv.node.id || id_equals id lp.node.id)) [
          | inl pred ↦ rw (off, pred, keep_proper) (keep_proper-Removes lp k srv f ps c)
          | inr more ↦
              elim (Bool-cases
                (id_is_between id srv.node.id ls.node.id || id_equals id srv.node.id)) [
                  | inl succ ↦ rw (off, more, succ, keep_proper) done
                  | inr far ↦ elim (Bool-cases (id_is_between f.node.id srv.node.id id)) [
                    | inl before ↦
                        rw (off, more, far, before, keep_proper)
                          (keep_proper-Removes lp k srv f ps c)
                    | inr candidate ↦
                        rw (off, more, far, candidate, keep_proper)
                          (by_pruned (prune srv ls id f ps)
                            (λ s g gs d. keep_proper-Removes lp k s g gs d)
                            (prune-IsPruned srv id f ps c))
                  ]
                ]
        ]
  ]
    where
      id : ChordId
      id = chord_id_successor srv.node.id k

      by_pruned :
          (r : ChordServer × Option (Finger × List Finger))
          → ((s : ChordServer) (g : Finger) (gs : List Finger)
              → IsChain self ls s (g ∷ gs)
              → Removes (IsBehind self ls) s (keep_proper s ls lp k g gs))
          → IsPruned self ls srv r
          → Removes
              (IsBehind self ls)
              srv
              (elim r.1 [ none ↦ r.0 | some (g, gs) ↦ keep_proper r.0 ls lp k g gs ])
      by_pruned (s, none) rest (ended a) = a
      by_pruned (s, some (g, gs)) rest (onward a d) = Removes-trans _ srv s _ a (rest s g gs d)
