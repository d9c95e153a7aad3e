-- ===== src/Crypt/Encoding.antt =====
-- The bytes that `vpack_hash` of src/crypt.c feeds to the digest: for one format they determine the
-- arguments, so a ticket for one peer, port and time is not the encoding of another's.
use tangent.Base.{
  ℕ, zero, suc, ◌/◌, ◌%◌, ◌^◌, ◌<◌, ◌≡◌, refl, ap, ap₂, List, [], ◌∷◌, ◌++◌, map, length, All,
  arith,
}
use tangent.Id.{id_bytes}
use tangent.Id.Value.{pow_256}
use tangent.Crypt.{Arg, char, short, long, id_arg, addr_arg, le_bytes, hash_arg, vpack_hash}

-- The letter that stands for the argument in a format.
abbrev pub letter : Arg → ℕ
letter (char c) = b'c'
letter (short s) = b's'
letter (long l) = b'l'
letter (id_arg id) = b'x'
letter (addr_arg v6addr) = b'6'

-- The argument has its C type's range.
abbrev pub Fits : Arg → Type 0
Fits (char c) = c < 256
Fits (short s) = s < 2 ^ 16
Fits (long l) = l < 2 ^ 64
Fits (id_arg id) = length id ≡ id_bytes
Fits (addr_arg v6addr) = length v6addr ≡ 16

pub length-le_bytes : (k n : ℕ) → length (le_bytes k n) ≡ k
unfolding le_bytes
length-le_bytes zero n = refl
length-le_bytes (suc k) n = ap suc (length-le_bytes k (n / 256))

heads {ℓ} : {A : Type ℓ} {x y : A} {xs ys : List A} → x ∷ xs ≡ y ∷ ys → x ≡ y
heads e = cc

tails {ℓ} : {A : Type ℓ} {x y : A} {xs ys : List A} → x ∷ xs ≡ y ∷ ys → xs ≡ ys
tails e = cc

le_bytes-injective : (k m n : ℕ) → m < 256 ^ k → n < 256 ^ k → le_bytes k m ≡ le_bytes k n → m ≡ n
unfolding le_bytes
le_bytes-injective zero m n hm hn e = omega arith
le_bytes-injective (suc k) m n hm hn e =
    let low : m % 256 ≡ n % 256 = heads e in
    let high =
      le_bytes-injective k (m / 256) (n / 256) (omega (arith, pow_256 k)) (omega (arith, pow_256 k))
        (tails e) in
    omega arith

append-injective {ℓ} :
    {A : Type ℓ} (xs ys us vs : List A)
    → length xs ≡ length ys
    → xs ++ us ≡ ys ++ vs
    → (xs ≡ ys) × (us ≡ vs)
append-injective [] [] us vs l e = (refl, e)
append-injective [] (y ∷ ys) us vs l e = absurd (omega arith)
append-injective (x ∷ xs) [] us vs l e = absurd (omega arith)
append-injective (x ∷ xs) (y ∷ ys) us vs l e =
    let (p, q) = append-injective xs ys us vs (omega arith) (tails e) in (ap₂ ◌∷◌ (heads e) p, q)

length-hash_arg :
    (a b : Arg) → Fits a → Fits b → letter a ≡ letter b → length (hash_arg a) ≡ length (hash_arg b)
unfolding hash_arg le_bytes
length-hash_arg (char c) (char d) fa fb l = refl
length-hash_arg (short s) (short t) fa fb l = refl
length-hash_arg (long m) (long n) fa fb l = refl
length-hash_arg (id_arg i) (id_arg j) fa fb l = omega arith
length-hash_arg (addr_arg i) (addr_arg j) fa fb l = omega arith
length-hash_arg _ _ fa fb l = absurd (omega arith)

hash_arg-injective :
    (a b : Arg) → Fits a → Fits b → letter a ≡ letter b → hash_arg a ≡ hash_arg b → a ≡ b
unfolding hash_arg
hash_arg-injective (char c) (char d) fa fb l e =
    let same : c % 256 ≡ d % 256 = heads e in ap char (omega arith)
hash_arg-injective (short s) (short t) fa fb l e = ap short (le_bytes-injective 2 s t fa fb e)
hash_arg-injective (long m) (long n) fa fb l e = ap long (le_bytes-injective 8 m n fa fb e)
hash_arg-injective (id_arg i) (id_arg j) fa fb l e = ap id_arg e
hash_arg-injective (addr_arg i) (addr_arg j) fa fb l e = ap addr_arg e
hash_arg-injective _ _ fa fb l e = absurd (omega arith)

-- Two lists of arguments of the same format, each in the range of its type, that feed the same bytes
-- to the digest are the same.
pub vpack_hash-injective :
    (xs ys : List Arg)
    → All Fits xs
    → All Fits ys
    → map letter xs ≡ map letter ys
    → vpack_hash xs ≡ vpack_hash ys
    → xs ≡ ys
unfolding vpack_hash
vpack_hash-injective [] [] fx fy l e = refl
vpack_hash-injective [] (y ∷ ys) fx fy l e = cc
vpack_hash-injective (x ∷ xs) [] fx fy l e = cc
vpack_hash-injective (x ∷ xs) (y ∷ ys) fx fy l e =
    let lx : letter x ≡ letter y = heads l in
    let (p, q) =
      append-injective (hash_arg x) (hash_arg y) (vpack_hash xs) (vpack_hash ys)
        (length-hash_arg x y fx.0 fy.0 lx) e in
    ap₂ ◌∷◌ (hash_arg-injective x y fx.0 fy.0 lx p)
      (vpack_hash-injective xs ys fx.1 fy.1 (tails l) q)
