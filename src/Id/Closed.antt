-- ===== src/Id/Closed.antt =====
-- The identifiers that the arithmetic of src/util.c makes.
use tangent.Base.{ℕ, ◌<◌}
use tangent.Id.{
  ChordId, IsId, id_bits, id_add, id_subtract, id_random_between, chord_id_successor,
  chord_id_predecessor,
}

-- What the operations make, in any number of steps, of identifiers that are given.
pub data IsBuilt : ChordId → Type 0 where
  given : (x : ChordId) → IsId x → IsBuilt x
  sum : (x y : ChordId) → IsBuilt x → IsBuilt y → IsBuilt (id_add x y)
  difference : (x y : ChordId) → IsBuilt x → IsBuilt y → IsBuilt (id_subtract x y)
  next : (x : ChordId) (n : ℕ) → IsBuilt x → n < id_bits → IsBuilt (chord_id_successor x n)
  previous : (x : ChordId) (n : ℕ) → IsBuilt x → n < id_bits → IsBuilt (chord_id_predecessor x n)
  random : (rnd : ℕ) (x y : ChordId) → IsBuilt x → IsBuilt y → IsBuilt (id_random_between rnd x y)
