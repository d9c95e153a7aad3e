-- ===== src/Text/Tests.antt =====
-- Texts of src/util.c and src/message_print.c at small inputs.
use tangent.Base.{ℕ, ◌+◌, ◌≡◌, ◌≤◌, ◌⊎◌, refl, true, none, some, List, [], ◌∷◌, length, arith}
use tangent.Base.Int.{pos}
use tangent.Text.{c_string, buf_to_str, buf_to_hex}
use tangent.Text.Hex.{unhex, buf_to_hex-unhex}
use tangent.Text.Pieces.{lit, dec}
use tangent.Text.Message.{
  body, string, field_cons, no_fields, optional, at_default, submessage, print_nl, print_tabs,
  required_field_print, unknown_fields_print,
}

cut_at_nul : buf_to_str (b'a' ∷ b'b' ∷ 0 ∷ b'c' ∷ []) ≡ some (b'a' ∷ b'b' ∷ [])
unfolding buf_to_str c_string
cut_at_nul = refl

abbrev two_bytes : List ℕ
two_bytes = 10 ∷ 255 ∷ []

buf_to_hex-unhex_example :
    ((length two_bytes ≤ 511)
      × (digits : List ℕ) × (buf_to_hex two_bytes ≡ some digits)
      × (length digits + 1 ≤ 1024)
      × (unhex digits ≡ two_bytes))
    ⊎ ((512 ≤ length two_bytes) × (buf_to_hex two_bytes ≡ none))
buf_to_hex-unhex_example = buf_to_hex-unhex two_bytes (omega arith, (omega arith, tt))

-- A text at its default value is read through the wrong pointer.
defaulted :
    required_field_print
      (λ b. true)
      1
      (submessage (body 24 (field_cons 1 string (b's' ∷ []) (optional at_default) no_fields) []))
    ≡ none
unfolding required_field_print
defaulted = refl

numbers_printed :
    required_field_print (λ b. true) 1 (submessage (body 8 no_fields []))
    ≡ some (
        lit "\n"
        ∷ lit "\t"
        ∷ lit "{ ["
        ∷ dec (pos 8)
        ∷ lit "]"
        ∷ lit "\n"
        ∷ lit "\t"
        ∷ lit "}"
        ∷ [])
unfolding required_field_print print_tabs print_nl unknown_fields_print
numbers_printed = refl
