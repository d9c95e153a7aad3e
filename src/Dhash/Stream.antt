-- ===== src/Dhash/Stream.antt =====
-- The loops of file_client/transfer.cpp that fill and empty a buffer. The calls of UDT are parameters
-- on a state `S` of the connection, and `none` is UDT::ERROR. The loops run on fuel.
use tangent.Base.{
  ℕ, zero, suc, ◌+◌, ◌-◌, ◌≡◌, Option, none, some, List, ◌++◌, length, take, drop, ltb,
  if◌then◌else◌,
}
use tangent.Server.{In6Addr}

-- `recv` gives the bytes that came in for a request of a length, `send` how many of the bytes it
-- took; `recvfile` gives the content that went into the file, for the bits of an `int` as the size.
-- `uninitialised` is what a local array of a length holds.
pub record Udt (S : Type 0) : Type 0 where
  pub recv : S → ℕ → Option (List ℕ × S)
  pub send : S → List ℕ → Option (ℕ × S)
  pub recvfile : S → ℕ → Option (List ℕ × S)
  pub sendfile : S → List ℕ → ℕ → Option S
  pub connect : S → In6Addr → ℕ → Option S
  pub uninitialised : ℕ → List ℕ
  pub length-uninitialised : (n : ℕ) → length (uninitialised n) ≡ n

-- `failed` is a return of 0, `unfinished` a loop out of fuel, and `fault` an access outside a block.
pub data Run (S A : Type 0) : Type 0 where
  finished : A → S → Run S A
  failed : Run S A
  unfinished : Run S A
  fault : Run S A

infixl 5 ◌>>=◌
abbrev pub ◌>>=◌ : {S A B : Type 0} → Run S A → (A → S → Run S B) → Run S B
finished a s >>= k = k a s
failed >>= k = failed
unfinished >>= k = unfinished
fault >>= k = fault

-- A chunk written to the start of a buffer.
abbrev pub overlay : List ℕ → List ℕ → List ℕ
overlay chunk buf = chunk ++ drop (length chunk) buf

module _ {S : Type 0} (u : Udt S) where
  -- The result is the buffer. Each chunk goes to its start.
  unfoldable pub blocking_recv_buf : ℕ → ℕ → ℕ → List ℕ → S → Run S (List ℕ)
  blocking_recv_buf zero size got buf s = if ltb got size then unfinished else finished buf s
  blocking_recv_buf (suc fuel) size got buf s =
      if ltb got size
      then (elim (u.recv s (size - got)) [
        | none ↦ failed
        | some r ↦ blocking_recv_buf fuel size (got + length r.0) (overlay r.0 buf) r.1
      ])
      else finished buf s

  -- Each call is given the whole buffer of `size` bytes.
  unfoldable pub blocking_send_buf : ℕ → ℕ → ℕ → List ℕ → S → Run S ℕ
  blocking_send_buf zero size sent buf s = if ltb sent size then unfinished else finished sent s
  blocking_send_buf (suc fuel) size sent buf s =
      if ltb sent size
      then (elim (u.send s (take size buf)) [
        | none ↦ failed
        | some r ↦ blocking_send_buf fuel size (sent + r.0) buf r.1
      ])
      else finished sent s
