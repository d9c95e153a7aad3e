-- ===== src/Hosts/Tests.antt =====
-- Addresses of src/hosts.c on a host with one interface.
use tangent.Base.{ℕ, zero, suc, ◌≡◌, refl, true, Option, none, some, [], ◌∷◌}
use tangent.Hosts.{
  System, Interface, eth_from, get_local_addr_eth, get_local_addr, get_local_addr_uname, uname_addr,
  name_to_addr, first_not_local,
}

abbrev second_up : ℕ → Option Interface
second_up zero = none
second_up (suc n) = some (record { is_up = true; address = some 77 })

-- 127.0.0.1 as the 32 bits of an `s_addr`, and a host whose name stands for that address.
abbrev loopback : ℕ
loopback = 16777343

abbrev host : System
host = record {
  loopback = loopback;
  interface = second_up;
  uname = some "host";
  gethostbyname = λ name. some (record { h_length = 4; h_addr_list = loopback ∷ 55 ∷ [] });
  inet_pton6 = λ name. none;
  inet_pton4 = λ name. none;
  getaddrinfo = λ name. none;
}

-- The second address of the name is not looked at.
interface_taken : get_local_addr host 9 ≡ some 77
unfolding get_local_addr get_local_addr_uname uname_addr name_to_addr first_not_local
    get_local_addr_eth eth_from
interface_taken = refl
