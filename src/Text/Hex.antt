-- ===== src/Text/Hex.antt =====
-- The hexadecimal texts of src/util.c say which bytes they stand for.
use tangent.Base.{
  ℕ, ◌+◌, ◌-◌, ◌*◌, ◌/◌, ◌%◌, ◌≤◌, ◌<◌, ◌≡◌, refl, ap₂, ◌⊎◌, none, some, List, [], ◌∷◌, length, All,
  ltb, leb, if◌then◌else◌, arith, Bool-cases, inl, inr,
}
use tangent.Text.{hex_digit, hex_bytes, buf_to_hex}

-- The value of a lower-case digit, and the bytes of a text of digits.
abbrev pub digit_value : ℕ → ℕ
digit_value c = if ltb c b'a' then c - b'0' else c - b'a' + 10

unfoldable pub unhex : List ℕ → List ℕ
unhex [] = []
unhex (c ∷ []) = []
unhex (c ∷ d ∷ cs) = (digit_value c * 16 + digit_value d) ∷ unhex cs

digit_value-hex_digit : (d : ℕ) → d < 16 → digit_value (hex_digit d) ≡ d
digit_value-hex_digit d h = ground arith

unhex-hex_bytes : (bytes : List ℕ) → All (λ b. b < 256) bytes → unhex (hex_bytes bytes) ≡ bytes
unfolding unhex hex_bytes
unhex-hex_bytes [] h = refl
unhex-hex_bytes (b ∷ bs) h =
    let high = digit_value-hex_digit (b / 16) (omega (arith, h.0)) in
    let low = digit_value-hex_digit (b % 16) (omega arith) in
    ap₂ ◌∷◌ (omega (arith, high, low)) (unhex-hex_bytes bs h.1)

length-hex_bytes : (bytes : List ℕ) → length (hex_bytes bytes) ≡ length bytes * 2
unfolding hex_bytes
length-hex_bytes [] = refl
length-hex_bytes (b ∷ bs) = omega (arith, length-hex_bytes bs)

-- For at most 511 bytes buf_to_hex gives a text of two digits for each byte, which with its NUL fits
-- into the buffer and says which bytes it stands for; for more bytes it writes past the buffer.
pub buf_to_hex-unhex :
    (bytes : List ℕ)
    → All (λ b. b < 256) bytes
    → ((length bytes ≤ 511)
        × (digits : List ℕ) × (buf_to_hex bytes ≡ some digits)
        × (length digits + 1 ≤ 1024)
        × (unhex digits ≡ bytes))
      ⊎ ((512 ≤ length bytes) × (buf_to_hex bytes ≡ none))
unfolding buf_to_hex
buf_to_hex-unhex bytes h = elim (Bool-cases (leb (length bytes * 2 + 1) 1024)) [
  | inl fits ↦
      let short : length bytes ≤ 511 = ground arith in
      inl (
        short,
        hex_bytes bytes,
        rw fits refl,
        omega (arith, length-hex_bytes bytes),
        unhex-hex_bytes bytes h,
      )
  | inr long ↦ let many : 512 ≤ length bytes = ground arith in inr (many, rw long refl)
]
