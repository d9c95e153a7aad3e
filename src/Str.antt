-- ===== src/Str.antt =====
-- src/str.c: strings that grow by pieces. The cells from `first` to `last` are a list; a text is what
-- `vsnprintf` formats, without its final NUL, and has no NUL within. `none` is a write past the end of
-- a block.
pub mod Flat
mod Tests
use tangent.Base.{
  ℕ, ◌+◌, Bool, Option, none, some, List, [], ◌∷◌, ◌++◌, length, leb, ltb, if◌then◌else◌,
}
use tangent.Base.Bind.{◌>>=◌}

pub record LinkedStringNode : Type 0 where
  pub chars : List ℕ
  pub len : ℕ

abbrev pub LinkedString : Type 0
LinkedString = List LinkedStringNode

abbrev pub lstr_empty : LinkedString
lstr_empty = []

-- The node behind `last`. `vsprintf` writes the text and a NUL into a block of `formatted_len` bytes.
unfoldable pub lstr_add_node : LinkedString → ℕ → List ℕ → Option LinkedString
lstr_add_node str formatted_len text =
    if leb (length text + 1) formatted_len
    then some (str ++ (record { chars = text; len = formatted_len } ∷ []))
    else none

-- LSTR_VADD: the length with the NUL.
unfoldable pub lstr_add : LinkedString → List ℕ → Option LinkedString
lstr_add str text = lstr_add_node str (length text + 1) text

unfoldable pub lstr_new : List ℕ → Option LinkedString
lstr_new text = lstr_add lstr_empty text

-- The first loop of `lstr_flat`.
unfoldable pub total_len : List LinkedStringNode → ℕ → ℕ
total_len [] len = len
total_len (node ∷ nodes) len = total_len nodes (len + node.len)

-- `strcat` into a block of `size` bytes, with a NUL behind.
unfoldable pub append_text : ℕ → List ℕ → List ℕ → Option (List ℕ)
append_text size flat chars =
    if leb (length flat + length chars + 1) size then some (flat ++ chars) else none

-- The second loop.
unfoldable pub append_all : ℕ → List LinkedStringNode → List ℕ → Option (List ℕ)
append_all size [] flat = some flat
append_all size (node ∷ nodes) flat = append_text size flat node.chars >>= append_all size nodes

-- `flat[0] = '\\0'` comes first.
unfoldable pub lstr_flat : LinkedString → Option (List ℕ)
lstr_flat str = let size = total_len str 0 in if ltb 0 size then append_all size str [] else none
