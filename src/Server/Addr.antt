-- ===== src/Server/Addr.antt =====
-- Peer addresses in src/util.c: IPv6 addresses of 16 bytes, with IPv4 addresses mapped into them.
-- A host with little-endian words, whose `ulong` has eight bytes.
use tangent.Base.{
  ℕ, ◌+◌, ◌*◌, ◌/◌, ◌%◌, ◌^◌, ◌≡◌, refl, Bool, true, false, ◌&&◌, List, [], ◌∷◌, ◌++◌, arith, ◌==◌,
}
use tangent.Id.{bytes_equal}
use tangent.Server.{In6Addr}

-- `IN6_IS_ADDR_UNSPECIFIED` of <netinet/in.h>: all sixteen bytes are zero.
unfoldable pub is_addr_unspecified : In6Addr → Bool
is_addr_unspecified [] = true
is_addr_unspecified (b ∷ bs) = b == 0 && is_addr_unspecified bs

unfoldable pub v6_addr_equals : In6Addr → In6Addr → Bool
v6_addr_equals a b = bytes_equal a b

-- `IN6_IS_ADDR_V4MAPPED` of <netinet/in.h>: ten zero bytes, then two bytes 0xff.
unfoldable pub v4_mapped : In6Addr → Bool
v4_mapped (a ∷ b ∷ c ∷ d ∷ e ∷ f ∷ g ∷ h ∷ i ∷ j ∷ k ∷ l ∷ rest) =
    a == 0
    && b == 0
    && c == 0
    && d == 0
    && e == 0
    && f == 0
    && g == 0
    && h == 0
    && i == 0
    && j == 0
    && k == 255
    && l == 255
v4_mapped _ = false

-- The low four bytes of `v4addr` in memory order, behind the mapping prefix.
unfoldable pub to_v6addr : ℕ → In6Addr
to_v6addr v4addr =
    0
    ∷ 0
    ∷ 0
    ∷ 0
    ∷ 0
    ∷ 0
    ∷ 0
    ∷ 0
    ∷ 0
    ∷ 0
    ∷ 255
    ∷ 255
    ∷ (v4addr % 256)
    ∷ (v4addr / 256 % 256)
    ∷ (v4addr / 65536 % 256)
    ∷ (v4addr / 16777216 % 256)
    ∷ []

-- A number in memory order, the least significant byte first.
le_value : List ℕ → ℕ
le_value [] = 0
le_value (b ∷ bs) = b + 256 * le_value bs

drop12 : List ℕ → List ℕ
drop12 (a ∷ b ∷ c ∷ d ∷ e ∷ f ∷ g ∷ h ∷ i ∷ j ∷ k ∷ l ∷ rest) = rest
drop12 _ = []

-- Reads a `ulong`, eight bytes, from byte 12 on: the last four are `behind` the address in memory.
pub to_v4addr : In6Addr → List ℕ → ℕ
to_v4addr addr behind = le_value (drop12 addr ++ behind)

-- An IPv4 address is mapped into an address that is recognised as mapped, and whose low 32 bits are
-- read back, whatever lies in memory behind the address.
pub to_v4addr-to_v6addr :
    (v4addr : ℕ) (behind : List ℕ)
    → (v4_mapped (to_v6addr v4addr) ≡ true)
      × (to_v4addr (to_v6addr v4addr) behind % 2 ^ 32 ≡ v4addr % 2 ^ 32)
unfolding to_v4addr to_v6addr drop12 le_value v4_mapped
to_v4addr-to_v6addr v4addr behind = (refl, omega arith)
