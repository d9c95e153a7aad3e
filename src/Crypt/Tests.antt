-- ===== src/Crypt/Tests.antt =====
-- Tickets of src/crypt.c with the sample digest and codec.
use tangent.Base.{ℕ, ◌+◌, ◌≡◌, ◌≤◌, ◌↔◌, refl, true, none, some, List, [], ◌∷◌, take, arith}
use tangent.Server.{ticket_timeout}
use tangent.Crypt.{TicketMsg, Arg, char, short, ticket_digest, pack_ticket, verify_ticket}
use tangent.Crypt.Encoding.{vpack_hash-injective}
use tangent.Crypt.Ticket.{verify_ticket_iff, verify_ticket-pack_ticket}
use tangent.Samples.{toy_crypto}

abbrev salt : List ℕ
salt = 7 ∷ 8 ∷ []

abbrev args : List Arg
args = char 3 ∷ short 4000 ∷ []

verify_ticket_iff_example :
    ((verify_ticket toy_crypto salt 4 1000 (900 ∷ 7 ∷ 8 ∷ 132 ∷ 3 ∷ []) args ≡ some true) ↔ (
      (t : TicketMsg) × (toy_crypto.ticket_unpack (900 ∷ 7 ∷ 8 ∷ 132 ∷ 3 ∷ []) ≡ some t)
      × (1000 ≤ t.time + ticket_timeout)
      × (t.hash ≡ take 4 (ticket_digest toy_crypto salt t.time args))))
    × ((verify_ticket toy_crypto salt 4 1000 (900 ∷ 7 ∷ 8 ∷ 132 ∷ 3 ∷ []) args ≡ none)
        ↔ (toy_crypto.ticket_unpack (900 ∷ 7 ∷ 8 ∷ 132 ∷ 3 ∷ []) ≡ none))
verify_ticket_iff_example =
    verify_ticket_iff toy_crypto salt 4 args (omega arith) 1000 (900 ∷ 7 ∷ 8 ∷ 132 ∷ 3 ∷ [])

verify_ticket-pack_ticket_example :
    verify_ticket toy_crypto salt 4 1000900 (pack_ticket toy_crypto salt 4 1000 args) args
    ≡ some true
verify_ticket-pack_ticket_example =
    verify_ticket-pack_ticket toy_crypto salt 4 args (omega arith) 1000 1000900 (omega arith)
      (omega arith)

vpack_hash-injective_example : args ≡ args
vpack_hash-injective_example =
    vpack_hash-injective args args (omega arith, (omega arith, tt)) (omega arith, (omega arith, tt))
      refl refl
