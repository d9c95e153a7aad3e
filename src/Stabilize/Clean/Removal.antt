-- ===== src/Stabilize/Clean/Removal.antt =====
-- What stays the same while `clean_finger_list` of src/stabilize.c removes fingers.
use tangent.Base.{◌≡◌, refl}
use tangent.Server.{Finger, ChordServer}
use tangent.Finger.{remove_finger}
use tangent.Finger.Search.{In, In-unlink}
use tangent.Finger.Invariant.{SameTurns, IsTable, remove_finger_lem, remove_finger-IsTable}

-- The second server comes from the first by removing some of its fingers, each of which satisfies `P`.
pub data Removes (P : Finger → Type 0) : ChordServer → ChordServer → Type 0 where
  done : {srv : ChordServer} → Removes P srv srv
  removing :
      {srv t : ChordServer} (f : Finger)
      → In f srv.flist
      → P f
      → Removes P (remove_finger srv f) t
      → Removes P srv t

pub Removes-trans :
    (P : Finger → Type 0) (r s t : ChordServer) → Removes P r s → Removes P s t → Removes P r t
Removes-trans P r s t done b = b
Removes-trans P r s t (removing f m p a) b =
    removing f m p (Removes-trans P (remove_finger r f) s t a b)

pub Removes-mono :
    (P Q : Finger → Type 0)
    → ((f : Finger) → P f → Q f)
    → (r s : ChordServer) → Removes P r s
    → Removes Q r s
Removes-mono P Q f r s done = done
Removes-mono P Q f r s (removing g m p a) =
    removing g m (f g p) (Removes-mono P Q f (remove_finger r g) s a)

-- The table stays in order, and the rest of the server as it was.
pub record IsRest (srv t : ChordServer) : Type 0 where
  pub table : IsTable t
  pub same_node : t.node ≡ srv.node
  pub same_turns : SameTurns srv t
  pub subset : (f : Finger) → In f t.flist → In f srv.flist

pub Removes-IsRest :
    (P : Finger → Type 0) (srv t : ChordServer) → IsTable srv → Removes P srv t → IsRest srv t
Removes-IsRest P srv t w done = record {
  table = w;
  same_node = refl;
  same_turns = (refl, refl);
  subset = λ f m. m;
}
Removes-IsRest P srv t w (removing f m p a) =
    let e = remove_finger_lem srv f w in
    let r = Removes-IsRest P (remove_finger srv f) t (remove_finger-IsTable srv f w m) a in
    record {
      table = r.table;
      same_node = rw e at r.same_node;
      same_turns = rw e at r.same_turns;
      subset = λ g n. In-unlink g f.loc srv.flist (rw e at (r.subset g n));
    }
