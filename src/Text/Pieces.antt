-- ===== src/Text/Pieces.antt =====
-- What `fprintf` is asked to print: the text of a format between its directives, and the arguments.
use Prim.Native.String.{String}
use tangent.Base.{ℕ, List}
use tangent.Base.Int.{ℤ}

-- `dec` is a decimal number of any of the C types, `hex2` a byte under `%02x`, `real` the bits of a
-- floating-point number, `str` and `chr` the arguments of `%s` and `%c`.
pub data Piece : Type 0 where
  lit : String → Piece
  dec : ℤ → Piece
  hex2 : ℕ → Piece
  real : ℕ → Piece
  str : List ℕ → Piece
  chr : ℕ → Piece

abbrev pub Out : Type 0
Out = List Piece
