-- ===== src/Hosts/Resolve.antt =====
-- The addresses that `resolve_v6name` of src/hosts.c gives to the peers of a configuration file.
use Prim.Native.String.{String}
use tangent.Base.{
  ℕ, ◌≡◌, refl, subst, Option, none, some, List, [], ◌∷◌, length, All, Option-cases, inl, inr,
}
use tangent.Id.{ChordId}
use tangent.Server.{In6Addr, Node, ChordServer}
use tangent.Server.Addr.{to_v6addr}
use tangent.Chord.{Peer, new_server, add_peers, initialize_server}
use tangent.Hosts.{System, AddrInfo, inet, other_family, first_resolved, resolve_v6name}
use mathlib.Core.Option.{some-injective, none-ne-some}

-- The resolver gives addresses of 16 bytes.
pub record IsResolver (sys : System) : Type 0 where
  pub text6 : (name : String) (a : In6Addr) → sys.inet_pton6 name ≡ some a → length a ≡ 16
  pub found6 :
      (name : String) (a : In6Addr) → sys.getaddrinfo name ≡ some (other_family a) → length a ≡ 16

length-to_v6addr : (v4addr : ℕ) → length (to_v6addr v4addr) ≡ 16
unfolding to_v6addr
length-to_v6addr v4addr = refl

length-first_resolved :
    (v6 : Option In6Addr) (v4 : Option ℕ) (info : Option AddrInfo) (a : In6Addr)
    → ((b : In6Addr) → v6 ≡ some b → length b ≡ 16)
    → ((b : In6Addr) → info ≡ some (other_family b) → length b ≡ 16)
    → first_resolved v6 v4 info ≡ some a
    → length a ≡ 16
unfolding first_resolved
length-first_resolved (some b) v4 info a text found e = text a e
length-first_resolved none (some v4addr) info a text found e =
    subst (λ x. length x ≡ 16) (some-injective _ a e) (length-to_v6addr v4addr)
length-first_resolved none none none a text found e = absurd (none-ne-some a e)
length-first_resolved none none (some (inet v4addr)) a text found e =
    subst (λ x. length x ≡ 16) (some-injective _ a e) (length-to_v6addr v4addr)
length-first_resolved none none (some (other_family b)) a text found e =
    subst (λ x. length x ≡ 16) (some-injective b a e) (found b refl)

module _ (sys : System) (good : IsResolver sys) where
  length-resolve_v6name :
      (name : String) (a : In6Addr) → resolve_v6name sys name ≡ some a → length a ≡ 16
  unfolding resolve_v6name
  length-resolve_v6name name a e =
      length-first_resolved (sys.inet_pton6 name) (sys.inet_pton4 name) (sys.getaddrinfo name) a
        (good.text6 name) (good.found6 name) e

  add_peers-addresses :
      (junk : ChordId) (peers : List Peer) (srv : ChordServer)
      → All (λ (n : Node). length n.addr ≡ 16) srv.well_known
      → All
          (λ (n : Node). length n.addr ≡ 16)
          (add_peers (resolve_v6name sys) junk srv peers).well_known
  unfolding add_peers
  add_peers-addresses junk [] srv h = h
  add_peers-addresses junk (peer ∷ peers) srv h =
      elim (Option-cases (resolve_v6name sys peer.address)) [
        | inl unknown ↦ rw (unknown, add_peers) (add_peers-addresses junk peers srv h)
        | inr (addr, found) ↦
            rw (found, add_peers)
              (add_peers-addresses junk peers _ (length-resolve_v6name peer.address addr found, h))
      ]

  -- Where the resolver gives addresses of 16 bytes, every well-known node of a server that was set up
  -- from a section of the configuration file has one, whatever names and ports the peers have.
  pub initialize_server-addresses :
      (junk : ChordId) (ticket_salt : List ℕ) (port : ℕ) (peers : List Peer)
      → All
          (λ (n : Node). length n.addr ≡ 16)
          (initialize_server (resolve_v6name sys) junk ticket_salt port peers).well_known
  unfolding initialize_server new_server
  initialize_server-addresses junk ticket_salt port peers = add_peers-addresses junk peers _ tt
