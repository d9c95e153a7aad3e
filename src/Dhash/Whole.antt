-- ===== src/Dhash/Whole.antt =====
-- The loops of file_client/transfer.cpp over a connection that takes and gives all the bytes of a call
-- at once.
use tangent.Base.{
  ℕ, zero, suc, ◌+◌, ◌-◌, ◌^◌, ◌≤◌, ◌<◌, ◌≡◌, refl, ap, ◌∙◌, true, false, some, List, [], ◌∷◌, ◌++◌,
  length, drop, ltb, arith, append-nil, append_assoc,
}
use tangent.Crypt.Ticket.{take-all}
use tangent.Dhash.Stream.{Udt, Run, finished, ◌>>=◌, blocking_recv_buf, blocking_send_buf}

-- A connection as the bytes that have come in and those that went out. Each call moves all the bytes
-- that it is asked for, where they are there.
pub record IsWhole {S : Type 0} (u : Udt S) : Type 0 where
  pub incoming : S → List ℕ
  pub outgoing : S → List ℕ
  pub recv_whole :
      (s : S) (bytes rest : List ℕ)
      → incoming s ≡ bytes ++ rest
      → (t : S) × (u.recv s (length bytes) ≡ some (bytes, t))
        × (incoming t ≡ rest)
        × (outgoing t ≡ outgoing s)
  pub send_whole :
      (s : S) (bytes : List ℕ)
      → (t : S) × (u.send s bytes ≡ some (length bytes, t))
        × (incoming t ≡ incoming s)
        × (outgoing t ≡ outgoing s ++ bytes)
  pub recvfile_whole :
      (s : S) (bytes rest : List ℕ)
      → length bytes < 2 ^ 31
      → incoming s ≡ bytes ++ rest
      → (t : S) × (u.recvfile s (length bytes) ≡ some (bytes, t))
        × (incoming t ≡ rest)
        × (outgoing t ≡ outgoing s)
  pub sendfile_whole :
      (s : S) (bytes : List ℕ)
      → length bytes < 2 ^ 31
      → (t : S) × (u.sendfile s bytes (length bytes) ≡ some t)
        × (incoming t ≡ incoming s)
        × (outgoing t ≡ outgoing s ++ bytes)

drop-all : (n : ℕ) (xs : List ℕ) → length xs ≤ n → drop n xs ≡ []
drop-all zero [] h = refl
drop-all zero (x ∷ xs) h = absurd (omega arith)
drop-all (suc n) [] h = refl
drop-all (suc n) (x ∷ xs) h = drop-all n xs (omega arith)

-- A state of the connection: what is still to come in, and what has gone out.
pub record IsAt {S : Type 0} {u : Udt S} (w : IsWhole u) (s : S) (into out : List ℕ) : Type 0 where
  pub came : w.incoming s ≡ into
  pub went : w.outgoing s ≡ out

-- A run that finished with a result, in such a state.
pub record Ends {S A : Type 0} {u : Udt S} (w : IsWhole u) (r : Run S A) (a : A) (into out : List ℕ)
    : Type 0 where
  pub state : S
  pub ended : r ≡ finished a state
  pub at : IsAt w state into out

pub >>=-Ends :
    {S A B : Type 0} {u : Udt S} (w : IsWhole u) (r : Run S A) (k : A → S → Run S B) (a : A) (b : B)
    (into out more gone : List ℕ) (e : Ends w r a into out)
    → Ends w (k a e.state) b more gone
    → Ends w (r >>= k) b more gone
>>=-Ends w r k a b into out more gone e next = record {
  state = next.state;
  ended = rw e.ended next.ended;
  at = next.at;
}

module _ {S : Type 0} (u : Udt S) (w : IsWhole u) where
  recv-stop :
      (fuel size got : ℕ) (buf : List ℕ) (s : S)
      → size ≤ got
      → blocking_recv_buf u fuel size got buf s ≡ finished buf s
  unfolding blocking_recv_buf
  recv-stop zero size got buf s h = let e : ltb got size ≡ false = ground arith in rw e refl
  recv-stop (suc fuel) size got buf s h = let e : ltb got size ≡ false = ground arith in rw e refl

  send-stop :
      (fuel size sent : ℕ) (buf : List ℕ) (s : S)
      → size ≤ sent
      → blocking_send_buf u fuel size sent buf s ≡ finished sent s
  unfolding blocking_send_buf
  send-stop zero size sent buf s h = let e : ltb sent size ≡ false = ground arith in rw e refl
  send-stop (suc fuel) size sent buf s h = let e : ltb sent size ≡ false = ground arith in rw e refl

  pub blocking_recv_buf-whole :
      (fuel size : ℕ) (bytes rest out : List ℕ) (buf : List ℕ) (s : S)
      → length bytes ≡ size
      → 0 < size
      → length buf ≡ size
      → IsAt w s (bytes ++ rest) out
      → Ends w (blocking_recv_buf u (suc fuel) size 0 buf s) bytes rest out
  unfolding blocking_recv_buf
  blocking_recv_buf-whole fuel size bytes rest out buf s sized some_bytes same h =
      let (t, came, into, went) = w.recv_whole s bytes rest h.came in
      let more : ltb 0 size ≡ true = ground arith in
      let asked : u.recv s (size - 0) ≡ some (bytes, t) = ap (u.recv s) (omega arith) ∙ came in
      record {
        state = t;
        ended =
            rw (more, asked, drop-all (length bytes) buf (omega arith), append-nil bytes)
              (recv-stop fuel size (0 + length bytes) bytes t (omega arith));
        at = record { came = into; went = went ∙ h.went };
      }

  pub blocking_send_buf-whole :
      (fuel size : ℕ) (bytes into out : List ℕ) (s : S)
      → length bytes ≡ size
      → 0 < size
      → IsAt w s into out
      → Ends w (blocking_send_buf u (suc fuel) size 0 bytes s) size into (out ++ bytes)
  unfolding blocking_send_buf
  blocking_send_buf-whole fuel size bytes into out s sized some_bytes h =
      let (t, went, came, sent) = w.send_whole s bytes in
      let total : 0 + size ≡ size = omega arith in
      let more : ltb 0 size ≡ true = ground arith in
      record {
        state = t;
        ended =
            rw (more, take-all size bytes sized, went, sized, total)
              (send-stop fuel size size bytes t (omega arith));
        at = record { came = came ∙ h.came; went = sent ∙ ap (λ x. x ++ bytes) h.went };
      }

  pub reassoc :
      {s : S} {out : List ℕ} (xs ys zs : List ℕ)
      → IsAt w s ((xs ++ ys) ++ zs) out
      → IsAt w s (xs ++ (ys ++ zs)) out
  reassoc xs ys zs h = record { came = h.came ∙ append_assoc xs ys zs; went = h.went }
