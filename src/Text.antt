-- ===== src/Text.antt =====
-- The parts of src/util.c that put texts into static buffers. A text is the list of its character
-- codes; `none` is a write past the end of a buffer.
pub mod Hex
pub mod Pieces
pub mod Nodes
pub mod Message
mod Tests
use tangent.Base.{
  ℕ, ◌+◌, ◌-◌, ◌*◌, ◌/◌, ◌%◌, Option, none, some, List, [], ◌∷◌, ◌++◌, length, take, leb, ltb, ◌==◌,
  if◌then◌else◌,
}
use tangent.Id.{ChordId}

-- The text that a NUL ends, or that ends with the bytes, behind which a NUL stands.
unfoldable pub c_string : List ℕ → List ℕ
c_string [] = []
c_string (b ∷ bs) = let rest = c_string bs in if b == 0 then [] else b ∷ rest

-- The buffer has 1024 bytes, the NUL included.
unfoldable pub buf_to_str : List ℕ → Option (List ℕ)
buf_to_str buf = if leb (length buf + 1) 1024 then some (c_string buf) else none

-- The digit that `%x` gives for a value below 16.
abbrev pub hex_digit : ℕ → ℕ
hex_digit d = if ltb d 10 then b'0' + d else b'a' + (d - 10)

-- `%02x` of a byte.
abbrev pub hex_byte : ℕ → List ℕ
hex_byte b = hex_digit (b / 16) ∷ hex_digit (b % 16) ∷ []

unfoldable pub hex_bytes : List ℕ → List ℕ
hex_bytes [] = []
hex_bytes (b ∷ bs) = hex_byte b ++ hex_bytes bs

-- The digits and the NUL in the 1024 bytes of the buffer.
unfoldable pub buf_to_hex : List ℕ → Option (List ℕ)
buf_to_hex buf = if leb (length buf * 2 + 1) 1024 then some (hex_bytes buf) else none

-- Without CHORD_PRINT_LONG_IDS, four bytes; no text for NULL.
unfoldable pub id_to_str : Option ChordId → List ℕ
id_to_str none = []
id_to_str (some id) = hex_bytes (take 4 id)
