-- ===== src/Hosts.antt =====
-- src/hosts.c: the address of this host, and the address that a name stands for. The calls of the system
-- and of the resolver are parameters. An IPv4 address is the 32 bits of an `s_addr`.
pub mod Resolve
mod Tests
use Prim.Native.String.{String}
use tangent.Base.{
  ℕ, zero, suc, ◌+◌, ◌/◌, Bool, true, false, not, ◌&&◌, Option, none, some, List, [], ◌∷◌,
  get_elem?, ◌==◌, if◌then◌else◌,
}
use tangent.Base.Bind.{◌>>=◌}
use tangent.Server.{In6Addr}
use tangent.Server.Addr.{to_v6addr}

-- What `getaddrinfo` finds first: an address of the one family, or of another, whose bytes are read as
-- those of an IPv6 address.
pub data AddrInfo : Type 0 where
  inet : ℕ → AddrInfo
  other_family : In6Addr → AddrInfo

-- A `struct hostent`: the length of an address in bytes and the addresses.
pub record Hostent : Type 0 where
  pub h_length : ℕ
  pub h_addr_list : List ℕ

-- An interface `eth<i>` that answers: whether it is up, and its address, if it has one.
pub record Interface : Type 0 where
  pub is_up : Bool
  pub address : Option ℕ

-- `loopback` is `inet_addr("127.0.0.1")`.
pub record System : Type 0 where
  pub loopback : ℕ
  pub interface : ℕ → Option Interface
  pub uname : Option String
  pub gethostbyname : String → Option Hostent
  pub inet_pton6 : String → Option In6Addr
  pub inet_pton4 : String → Option ℕ
  pub getaddrinfo : String → Option AddrInfo

abbrev pub max_num_interfaces : ℕ
max_num_interfaces = 3

module _ (sys : System) where
  abbrev address_up : Interface → Option ℕ
  address_up i = if i.is_up then i.address else none

  -- The loop over `left` interfaces from number `i` on.
  unfoldable pub eth_from : ℕ → ℕ → ℕ
  eth_from zero i = sys.loopback
  eth_from (suc left) i =
      let rest = eth_from left (i + 1) in
      elim (sys.interface i >>= address_up) [ none ↦ rest | some addr ↦ addr ]

  unfoldable pub get_local_addr_eth : ℕ
  get_local_addr_eth = eth_from max_num_interfaces 0

  -- The loop over `left` addresses from number `i` on; `none` is a read behind the list.
  unfoldable pub first_not_local : ℕ → ℕ → List ℕ → Option ℕ
  first_not_local zero i addrs = some 0
  first_not_local (suc left) i addrs =
      let rest = first_not_local left (i + 1) addrs in
      elim (get_elem? addrs i) [
        | none ↦ none
        | some addr ↦ if addr == sys.loopback then rest else some addr
      ]

  -- The bound of the loop is the length of an address in words.
  unfoldable pub name_to_addr : String → Option ℕ
  name_to_addr name = elim (sys.gethostbyname name) [
    | none ↦ some 0
    | some hptr ↦ first_not_local (hptr.h_length / 4) 0 hptr.h_addr_list
  ]

  -- `junk` is the uninitialised `addr`, which stays as it is where `uname` fails.
  unfoldable pub uname_addr : ℕ → Option ℕ
  uname_addr junk = elim sys.uname [ none ↦ some junk | some nodename ↦ name_to_addr nodename ]

  unfoldable pub get_local_addr_uname : ℕ → Option ℕ
  get_local_addr_uname junk = do
    addr ← uname_addr junk
    some (if addr == 0 then sys.loopback else addr)

  unfoldable pub get_local_addr : ℕ → Option ℕ
  get_local_addr junk = do
    addr ← get_local_addr_uname junk
    some (if addr == sys.loopback then get_local_addr_eth else addr)

  -- `get_local_addr_eth` gives the loopback address itself where it finds no other.
  abbrev pub get_addr : ℕ → Option ℕ
  get_addr junk = get_local_addr junk

abbrev from_info : AddrInfo → In6Addr
from_info (inet v4addr) = to_v6addr v4addr
from_info (other_family addr) = addr

-- The attempts in their order: as the text of an address of either family, then by the resolver.
unfoldable pub first_resolved : Option In6Addr → Option ℕ → Option AddrInfo → Option In6Addr
first_resolved (some addr) v4 info = some addr
first_resolved none (some v4addr) info = some (to_v6addr v4addr)
first_resolved none none none = none
first_resolved none none (some info) = some (from_info info)

-- `none` is the result -1.
unfoldable pub resolve_v6name : System → String → Option In6Addr
resolve_v6name sys name =
    first_resolved (sys.inet_pton6 name) (sys.inet_pton4 name) (sys.getaddrinfo name)
