-- ===== src/Id.antt =====
-- src/util.c and include/chord/chord_api.h: identifiers on the Chord circle.
-- A `chordID` is its 20 bytes, the most significant first, as in `x[0] .. x[19]`.
-- The loops over `i` from the last byte to the first are recursions that go to the tail first.
pub mod Value
pub mod Arith
pub mod Step
pub mod Between
pub mod Random
pub mod Closed
mod Tests
use Prim.Native.Nat.{compare, Ordering}
use tangent.Base.{
  ℕ, zero, suc, ◌+◌, ◌-◌, ◌*◌, ◌/◌, ◌%◌, ◌^◌, ◌<◌, ◌≡◌, Bool, true, false, not, ◌&&◌, ◌||◌, List,
  [], ◌∷◌, map, ltb, ◌==◌, if◌then◌else◌, length, get_or, set, All,
}

abbrev pub id_bits : ℕ
id_bits = 160

abbrev pub id_bytes : ℕ
id_bytes = 20

abbrev pub ChordId : Type 0
ChordId = List ℕ

-- Twenty values that fit an `unsigned char`.
pub record IsId (x : ChordId) : Type 0 where
  pub size : length x ≡ id_bytes
  pub bytes : All (λ b. b < 256) x

-- libc's `memcmp` on two blocks of the same length.
unfoldable pub memcmp : List ℕ → List ℕ → Ordering
memcmp [] ys = Ordering.eq
memcmp (x ∷ xs) [] = Ordering.eq
memcmp (x ∷ xs) (y ∷ ys) = elim (compare x y) [
  | Ordering.lt ↦ Ordering.lt
  | Ordering.gt ↦ Ordering.gt
  | Ordering.eq ↦ memcmp xs ys
]

-- `memcmp(a, b, n) == 0`.
unfoldable pub bytes_equal : List ℕ → List ℕ → Bool
bytes_equal a b = elim (memcmp a b) [ Ordering.eq ↦ true | _ ↦ false ]

unfoldable pub id_equals : ChordId → ChordId → Bool
unfolding bytes_equal
id_equals a b = bytes_equal a b

unfoldable pub is_less : ChordId → ChordId → Bool
is_less a b = elim (memcmp a b) [ Ordering.lt ↦ true | _ ↦ false ]

unfoldable pub id_is_between : ChordId → ChordId → ChordId → Bool
id_is_between x a b =
    if id_equals a b
    then not (id_equals x a)
    else if is_less a b
    then is_less a x && is_less x b
    else is_less a x || is_less x b

-- The bytes of the sum, and the carry that leaves the first byte.
pub add_bytes : List ℕ → List ℕ → List ℕ × ℕ
add_bytes [] bs = ([], 0)
add_bytes (a ∷ as') [] = ([], 0)
add_bytes (a ∷ as') (b ∷ bs) =
    let (res, carry) = add_bytes as' bs in (((a + b + carry) % 256) ∷ res, (a + b + carry) / 256)

unfoldable pub id_add : ChordId → ChordId → ChordId
id_add a b = (add_bytes a b).0

-- The bytes of the difference, and the borrow. `a - borrow < b` is tested without the subtraction.
pub subtract_bytes : List ℕ → List ℕ → List ℕ × ℕ
subtract_bytes [] bs = ([], 0)
subtract_bytes (a ∷ as') [] = ([], 0)
subtract_bytes (a ∷ as') (b ∷ bs) =
    let (res, borrow) = subtract_bytes as' bs in
    if ltb a (b + borrow) then ((256 + a - borrow - b) ∷ res, 1) else ((a - borrow - b) ∷ res, 0)

unfoldable pub id_subtract : ChordId → ChordId → ChordId
id_subtract a b = (subtract_bytes a b).0

-- `for (i = start-1; i >= 0; i--) { id.x[i]++; if (id.x[i]) break; }`, with `start` rounds left.
pub carry_up : ℕ → ChordId → ChordId
carry_up zero x = x
carry_up (suc i) x =
    let b = (get_or x i 0 + 1) % 256 in
    let x' = set x i b in let rest = carry_up i x' in if b == 0 then rest else x'

pub chord_id_successor : ChordId → ℕ → ChordId
chord_id_successor x n =
    let start = id_bytes - 1 - n / 8 in
    let old = get_or x start 0 in
    let new = (old + 2 ^ (n % 8)) % 256 in
    let x' = set x start new in if ltb new old then carry_up start x' else x'

-- The same loop downwards: a byte that is zero wraps to 255 and the borrow goes on.
pub borrow_up : ℕ → ChordId → ChordId
borrow_up zero x = x
borrow_up (suc i) x =
    let b = get_or x i 0 in
    let x' = set x i ((b + 256 - 1) % 256) in
    let rest = borrow_up i x' in if b == 0 then rest else x'

pub chord_id_predecessor : ChordId → ℕ → ChordId
chord_id_predecessor x n =
    let start = id_bytes - 1 - n / 8 in
    let old = get_or x start 0 in
    let new = (old + 256 - 2 ^ (n % 8)) % 256 in
    let x' = set x start new in if ltb old new then borrow_up start x' else x'

-- `rnd` is what libc's `random()` returns.
unfoldable pub random_from : ℕ → ChordId → ChordId
random_from rnd a = let m = rnd % 10 + 1 in map (λ x. x * m / 11) a

unfoldable pub id_random_between : ℕ → ChordId → ChordId → ChordId
id_random_between rnd a b = id_add a (random_from rnd (id_subtract b a))
