-- ===== src/Finger/Links.antt =====
-- The links between the fingers of src/finger.c: `head_flist` and `tail_flist`, and the `next` and
-- `prev` of the cell at each address. `none` is NULL, and as the result of an operation a store
-- through NULL.
pub mod Segment
pub mod Remove
pub mod Insert
use tangent.Base.{ℕ, Bool, true, false, not, ◌&&◌, Option, none, some, ◌==◌, if◌then◌else◌}
use tangent.Base.Bind.{◌>>=◌}

abbrev pub Field : Type 0
Field = ℕ → Option ℕ

pub record Links : Type 0 where
  pub head_flist : Option ℕ
  pub tail_flist : Option ℕ
  pub next : Field
  pub prev : Field

-- A store into the field of the cell at `loc`.
unfoldable pub put : Field → ℕ → Option ℕ → Field
put field loc value x = if x == loc then value else field x

-- The same where the pointer is not NULL, as under `if (f->next)`.
unfoldable pub put_if : Field → Option ℕ → Option ℕ → Field
put_if field none value = field
put_if field (some loc) value = put field loc value

-- `p == f`, for a cell `f`.
unfoldable pub points_to : Option ℕ → ℕ → Bool
points_to none f = false
points_to (some p) f = p == f

-- The branch of `remove_finger` for a finger at the head.
unfoldable pub unlink_head : Links → ℕ → Links
unlink_head m f =
    if points_to m.head_flist f
    then record m { head_flist = m.next f; prev = put_if m.prev (m.next f) none }
    else m

-- The branch for a finger at the tail.
unfoldable pub unlink_tail : Links → ℕ → Links
unlink_tail m f =
    if points_to m.tail_flist f
    then record m { tail_flist = m.prev f; next = put_if m.next (m.prev f) none }
    else m

-- The branch for a finger between two others, behind the store into `f->prev->next`.
unfoldable pub unlink_next : Links → ℕ → Option Links
unlink_next m f = elim (m.next f) [
  | none ↦ none
  | some n ↦ some (record m { prev = put m.prev n (m.prev f) })
]

-- What `remove_finger` does to the links.
unfoldable pub remove_links : Links → ℕ → Option Links
remove_links m f =
    if not (points_to m.tail_flist f) && not (points_to m.head_flist f)
    then (elim (m.prev f) [
      | none ↦ none
      | some p ↦ unlink_next (record m { next = put m.next p (m.next f) }) f
    ])
    else some (unlink_tail (unlink_head m f) f)

-- The branch of `fingerlist_insert` in front of the head `h`.
unfoldable pub insert_head : Links → ℕ → ℕ → Links
insert_head m new_f h = record {
  head_flist = some new_f;
  tail_flist = m.tail_flist;
  next = put m.next new_f (some h);
  prev = put (put m.prev new_f none) h (some new_f);
}

-- The branch behind the preceding finger.
unfoldable pub insert_behind : Links → ℕ → ℕ → Links
insert_behind m new_f prec_f =
    let next = put m.next new_f (m.next prec_f) in
    let following = next prec_f in
    record {
      head_flist = m.head_flist;
      tail_flist = elim following [ none ↦ some new_f | some n ↦ m.tail_flist ];
      next = put next prec_f (some new_f);
      prev = put (put_if m.prev following (some new_f)) new_f (some prec_f);
    }

-- What `fingerlist_insert` does to the links.
unfoldable pub insert_links : Links → ℕ → Option ℕ → Links
insert_links m new_f prec_f = elim m.head_flist [
  | none ↦ record m { head_flist = some new_f; tail_flist = some new_f }
  | some h ↦ elim prec_f [ none ↦ insert_head m new_f h | some p ↦ insert_behind m new_f p ]
]
