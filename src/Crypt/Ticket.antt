-- ===== src/Crypt/Ticket.antt =====
-- Tickets of src/crypt.c: what was packed verifies, and what verifies carries the right hash.
use tangent.Base.{
  ℕ, zero, suc, ◌+◌, ◌%◌, ◌^◌, ◌<◌, ◌≤◌, ◌≡◌, ◌≢◌, ◌↔◌, subst, refl, sym, ap, ◌∙◌, true, none, some,
  some-injective, List, [], ◌∷◌, length, take, length-take, ltb, ltb_iff, ◌==◌, ==_iff, arith,
  Bool-cases, Option-cases, inl, inr,
}
use tangent.Id.{id_bytes}
use tangent.Id.Between.{bytes_equal_iff}
use tangent.Server.{ticket_timeout}
use tangent.Crypt.{Crypto, TicketMsg, Arg, ticket_digest, pack_ticket, verify_ticket, check_ticket}

pub take-all {ℓ} : {A : Type ℓ} (n : ℕ) (xs : List A) → length xs ≡ n → take n xs ≡ xs
take-all zero [] e = refl
take-all zero (x ∷ xs) e = absurd (omega arith)
take-all (suc n) [] e = refl
take-all (suc n) (x ∷ xs) e = ap (λ l. x ∷ l) (take-all n xs (omega arith))

module _ (cr : Crypto) (salt : List ℕ) (hash_len : ℕ) (args : List Arg)
    (small : hash_len ≤ id_bytes) where
  abbrev stamp : ℕ → List ℕ
  stamp time = take hash_len (ticket_digest cr salt time args)

  length-stamp : (time : ℕ) → length (stamp time) ≡ hash_len
  unfolding ticket_digest
  length-stamp time =
      omega (arith, length-take hash_len (ticket_digest cr salt time args), (cr.sha1-IsId _).size)

  check_iff :
      (now : ℕ) (t : TicketMsg)
      → (check_ticket cr salt hash_len now args t ≡ true)
        ↔ ((now ≤ t.time + ticket_timeout) × (t.hash ≡ stamp t.time))
  check_iff now t = elim (Bool-cases (length t.hash == hash_len)) [
    | inr e ↦ rw e (
      (λ k. cc),
      λ k.
          let l = ap length k.1 ∙ length-stamp t.time in
          let e' : length t.hash ≢ hash_len = ground arith in absurd (e' l),
    )
    | inl e ↦
        let whole = take-all hash_len t.hash ((==_iff _ _).0 e) in
        elim (Bool-cases (ltb (t.time + ticket_timeout) now)) [
          | inl late ↦ rw (e, late) ((λ k. cc), λ k. absurd (omega (arith, (ltb_iff _ _).0 late)))
          | inr early ↦
              let eq =
                bytes_equal_iff (stamp t.time) t.hash
                  (length-stamp t.time ∙ sym ((==_iff _ _).0 e)) in
              rw (e, early, whole) ((λ k. (ground arith, sym (eq.0 k))), λ k. eq.1 (sym k.1))
        ]
  ]

  abbrev IsStamped : ℕ → TicketMsg → Type 0
  IsStamped now t = (now ≤ t.time + ticket_timeout) × (t.hash ≡ stamp t.time)

  again :
      {now : ℕ} {t : TicketMsg}
      → ((u : TicketMsg) × (some t ≡ some u)
          × (now ≤ u.time + ticket_timeout)
          × (u.hash ≡ stamp u.time))
      → (u : TicketMsg) × (some t ≡ some u) × IsStamped now u
  again (u, same, fresh, whole) = (u, same, (fresh, whole))

  -- If the hash length fits a digest, a ticket verifies exactly when it unpacks, is not older
  -- than the timeout, and carries the first `hash_len` bytes of the digest of salt, its own
  -- time and the arguments; and the check faults exactly when the ticket does not unpack.
  pub verify_ticket_iff :
      (now : ℕ) (buf : List ℕ)
      → ((verify_ticket cr salt hash_len now buf args ≡ some true) ↔ (
          (t : TicketMsg) × (cr.ticket_unpack buf ≡ some t)
          × (now ≤ t.time + ticket_timeout)
          × (t.hash ≡ stamp t.time)))
        × ((verify_ticket cr salt hash_len now buf args ≡ none) ↔ (cr.ticket_unpack buf ≡ none))
  unfolding verify_ticket
  verify_ticket_iff now buf = elim (Option-cases (cr.ticket_unpack buf)) [
    | inl e ↦ rw (e, verify_ticket) (((λ k. cc), λ k. cc), ((λ k. refl), λ k. refl))
    | inr (t, e) ↦
        rw (e, verify_ticket)
          (
            (
              (λ k.
                  let (fresh, same) = (check_iff now t).0 (some-injective _ _ k) in
                  (t, refl, fresh, same)),
              λ k.
                  let (u, same, rest) = again k in
                  let read : u ≡ t = cc in
                  ap some ((check_iff now t).1 (subst (IsStamped now) read rest)),
            ),
            ((λ k. cc), λ k. cc),
          )
  ]

  -- If the hash length fits a digest, a ticket that was packed at `now`, below 2 ^ 32, verifies
  -- with the same salt and arguments until it times out.
  pub verify_ticket-pack_ticket :
      (now later : ℕ)
      → now < 2 ^ 32
      → later ≤ now + ticket_timeout
      → verify_ticket cr salt hash_len later (pack_ticket cr salt hash_len now args) args
        ≡ some true
  unfolding pack_ticket
  verify_ticket-pack_ticket now later h k =
      let same : now % 2 ^ 32 ≡ now = omega arith in
      (verify_ticket_iff later _).0.1 (_, cr.unpack-pack _ (omega arith), omega arith, refl)
