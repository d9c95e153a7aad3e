-- ===== src/Stabilize/Clean.antt =====
-- `clean_finger_list` of src/stabilize.c. `f` and the cells that its `prev` links lead to are a finger
-- and a list; `f_tmp` needs no variable.
pub mod Removal
pub mod Backwards
pub mod Chain
pub mod Kept
use tangent.Base.{
  ℕ, zero, suc, ◌-◌, Bool, true, false, ◌||◌, Option, none, some, List, [], ◌∷◌, drop, ◌==◌,
}
use tangent.Id.{ChordId, id_equals, id_is_between, chord_id_successor}
use tangent.Server.{Finger, ChordServer, nfingers, nsuccessors}
use tangent.Finger.{remove_finger}
use tangent.Stabilize.{backwards}

-- The inner loop at a proper finger candidate `f` for `id`. It ends the function (`none`), or goes on
-- with the next identifier at another finger.
unfoldable pub prune :
    ChordServer
    → Finger
    → ChordId
    → Finger
    → List Finger
    → ChordServer × Option (Finger × List Finger)
prune srv f_lastsucc id f [] = (srv, none)
prune srv f_lastsucc id f (prev ∷ prevs) = elim (f.loc == f_lastsucc.loc) [
  | true ↦ (srv, none)
  | false ↦ elim (id_is_between prev.node.id id f.node.id || id_equals prev.node.id id) [
    | true ↦ prune (remove_finger srv f) f_lastsucc id prev prevs
    | false ↦ (srv, some (prev, prevs))
  ]
]

-- The loop over `k`, from `k - 1` down to 0.
unfoldable pub keep_proper : ChordServer → Finger → Finger → ℕ → Finger → List Finger → ChordServer
keep_proper srv f_lastsucc f_lastpred zero f prevs = srv
keep_proper srv f_lastsucc f_lastpred (suc k) f prevs = elim (f.loc == f_lastsucc.loc) [
  | true ↦ srv
  | false ↦
      let id = chord_id_successor srv.node.id k in
      elim (id_is_between id f_lastpred.node.id srv.node.id || id_equals id f_lastpred.node.id) [
        | true ↦ keep_proper srv f_lastsucc f_lastpred k f prevs
        | false ↦
            elim (id_is_between id srv.node.id f_lastsucc.node.id || id_equals id srv.node.id) [
              | true ↦ srv
              | false ↦ elim (id_is_between f.node.id srv.node.id id) [
                | true ↦ keep_proper srv f_lastsucc f_lastpred k f prevs
                | false ↦
                    let (s, next) = prune srv f_lastsucc id f prevs in
                    elim next [
                      | none ↦ s
                      | some (g, gs) ↦ keep_proper s f_lastsucc f_lastpred k g gs
                    ]
              ]
            ]
      ]
]

-- The same loop where `f` is NULL: `none` is the read of `f->node.id`.
unfoldable pub keep_null : ChordServer → Finger → Finger → ℕ → Option ChordServer
keep_null srv f_lastsucc f_lastpred zero = some srv
keep_null srv f_lastsucc f_lastpred (suc k) =
    let id = chord_id_successor srv.node.id k in
    elim (id_is_between id f_lastpred.node.id srv.node.id || id_equals id f_lastpred.node.id) [
      | true ↦ keep_null srv f_lastsucc f_lastpred k
      | false ↦ elim (id_is_between id srv.node.id f_lastsucc.node.id || id_equals id srv.node.id) [
        | true ↦ some srv
        | false ↦ none
      ]
    ]

-- From `f_lastpred->prev` on.
abbrev pub keep_from : ChordServer → Finger → Finger → List Finger → Option ChordServer
keep_from srv f_lastsucc f_lastpred [] = keep_null srv f_lastsucc f_lastpred nfingers
keep_from srv f_lastsucc f_lastpred (f ∷ prevs) =
    some (keep_proper srv f_lastsucc f_lastpred nfingers f prevs)

-- From the tail, behind the predecessors. `none` is a read through NULL, at the end of a list that is
-- too short.
unfoldable pub skip_preds : ChordServer → Finger → List Finger → Option ChordServer
skip_preds srv f_lastsucc [] = none
skip_preds srv f_lastsucc (tail ∷ []) = elim (tail.loc == f_lastsucc.loc) [
  | true ↦ some srv
  | false ↦ none
]
skip_preds srv f_lastsucc (tail ∷ second ∷ []) =
    elim (tail.loc == f_lastsucc.loc || second.loc == f_lastsucc.loc) [
      | true ↦ some srv
      | false ↦ none
    ]
skip_preds srv f_lastsucc (tail ∷ second ∷ f_lastpred ∷ prevs) =
    elim (tail.loc == f_lastsucc.loc || second.loc == f_lastsucc.loc) [
      | true ↦ some srv
      | false ↦ keep_from srv f_lastsucc f_lastpred prevs
    ]

-- At the end of the successor list.
unfoldable pub skip_succs : ChordServer → List Finger → Option ChordServer
skip_succs srv [] = some srv
skip_succs srv (f ∷ []) = some srv
skip_succs srv (f ∷ g ∷ fs) = skip_preds srv f (backwards srv.flist)

unfoldable pub clean_finger_list : ChordServer → Option ChordServer
unfolding skip_succs skip_preds
clean_finger_list srv = skip_succs srv (drop (nsuccessors - 1) srv.flist)
