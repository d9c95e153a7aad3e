-- ===== src/Dhash/Finish.antt =====
-- The loops of file_client/transfer.cpp end where every call of UDT moves at least one byte.
use tangent.Base.{
  ℕ, zero, suc, ◌+◌, ◌-◌, ◌%◌, ◌^◌, ◌≤◌, ◌<◌, ◌≡◌, refl, Bool, true, false, Option, none, some,
  List, length, take, length-take, ltb, arith, Bool-cases, Option-cases, inl, inr, if◌then◌else◌,
}
use tangent.Crypt.{le_bytes}
use tangent.Dhash.{
  Transfer, TransferEvent, TransferType, transfer_idle, transfer_send, transfer_receive,
}
use tangent.Dhash.Stream.{
  Udt, Run, finished, failed, unfinished, fault, ◌>>=◌, overlay, blocking_recv_buf,
  blocking_send_buf,
}
use tangent.Dhash.Protocol.{
  path_fits, path_in, short_count, Ending, raised, freed, abandoned, crashed, end_transfer,
  ending_of, receive_named, receive_file, send_file, open_named, read_name, transfer_receive_run,
  transfer_send_run, run_transfer, transfer_connect,
}

-- A call that is asked for at least one byte moves at least one, or is an error.
pub record IsBlocking {S : Type 0} (u : Udt S) : Type 0 where
  pub gives : (s : S) (n : ℕ) (r : List ℕ × S) → 0 < n → u.recv s n ≡ some r → 0 < length r.0
  pub takes :
      (s : S) (bytes : List ℕ) (r : ℕ × S) → 0 < length bytes → u.send s bytes ≡ some r → 0 < r.0

pub data IsOver {S A : Type 0} : Run S A → Type 0 where
  is_finished : (a : A) (s : S) → IsOver (finished a s)
  is_failed : IsOver failed
  is_fault : IsOver fault

>>=-IsOver :
    {S A B : Type 0} (r : Run S A) (k : A → S → Run S B)
    → IsOver r
    → ((a : A) (s : S) → IsOver (k a s))
    → IsOver (r >>= k)
>>=-IsOver (finished a s) k over next = next a s
>>=-IsOver failed k over next = is_failed
>>=-IsOver unfinished k over next = elim over [ ]
>>=-IsOver fault k over next = is_fault

if-IsOver : {S A : Type 0} (b : Bool) (r : Run S A) → IsOver r → IsOver (if b then r else fault)
if-IsOver true r over = over
if-IsOver false r over = is_fault

option-IsOver :
    {S A B : Type 0} (o : Option B) (f : B → Run S A)
    → ((x : B) → IsOver (f x))
    → IsOver (elim o [ none ↦ failed | some x ↦ f x ])
option-IsOver none f over = is_failed
option-IsOver (some x) f over = over x

module _ {S : Type 0} (u : Udt S) (b : IsBlocking u) where
  blocking_recv_buf-IsOver :
      (fuel size got : ℕ) (buf : List ℕ) (s : S)
      → size ≤ got + fuel
      → IsOver (blocking_recv_buf u fuel size got buf s)
  unfolding blocking_recv_buf
  blocking_recv_buf-IsOver zero size got buf s enough =
      let e : ltb got size ≡ false = ground arith in rw e (is_finished buf s)
  blocking_recv_buf-IsOver (suc fuel) size got buf s enough = elim (Bool-cases (ltb got size)) [
    | inl more ↦ elim (Option-cases (u.recv s (size - got))) [
      | inl error ↦ rw (more, error) is_failed
      | inr (r, came) ↦
          let left : 0 < size - got = ground arith in
          let some_bytes = b.gives s (size - got) r left came in
          rw (more, came)
            (blocking_recv_buf-IsOver fuel size (got + length r.0) (overlay r.0 buf) r.1
              (omega (arith, some_bytes, enough)))
    ]
    | inr all ↦ rw all (is_finished buf s)
  ]

  blocking_send_buf-IsOver :
      (fuel size sent : ℕ) (buf : List ℕ) (s : S)
      → size ≤ length buf
      → size ≤ sent + fuel
      → IsOver (blocking_send_buf u fuel size sent buf s)
  unfolding blocking_send_buf
  blocking_send_buf-IsOver zero size sent buf s long enough =
      let e : ltb sent size ≡ false = ground arith in rw e (is_finished sent s)
  blocking_send_buf-IsOver (suc fuel) size sent buf s long enough =
      elim (Bool-cases (ltb sent size)) [
        | inl more ↦ elim (Option-cases (u.send s (take size buf))) [
          | inl error ↦ rw (more, error) is_failed
          | inr (r, went) ↦
              let left : 0 < length (take size buf) = ground (arith, length-take size buf) in
              let some_bytes = b.takes s (take size buf) r left went in
              rw (more, went)
                (blocking_send_buf-IsOver fuel size (sent + r.0) buf r.1 long
                  (omega (arith, some_bytes, enough)))
        ]
        | inr all ↦ rw all (is_finished sent s)
      ]

  receive_file-IsOver :
      (fuel : ℕ) (dir file : List ℕ) (size : ℕ) (s : S)
      → IsOver (receive_file u fuel dir file size s)
  unfolding receive_file
  receive_file-IsOver fuel dir file size s =
      if-IsOver (path_fits dir file) _ (option-IsOver (u.recvfile s size) _ λ r. is_finished _ r.1)

  transfer_receive_run-IsOver :
      (fuel : ℕ) (dir file : List ℕ) (s : S)
      → 2 ^ 15 ≤ fuel
      → IsOver (transfer_receive_run u fuel dir file s)
  unfolding transfer_receive_run le_bytes
  transfer_receive_run-IsOver fuel dir file s enough =
      let short : short_count (length file % 2 ^ 16) ≤ length file = ground arith in
      let below : short_count (length file % 2 ^ 16) ≤ 2 ^ 15 = ground arith in
      >>=-IsOver _ _ (blocking_send_buf-IsOver fuel 2 0 _ s (omega arith) (omega (arith, enough)))
        λ n s1.
          >>=-IsOver _ _
            (blocking_send_buf-IsOver fuel _ 0 file s1 short (omega (arith, enough, below)))
            λ m s2.
              >>=-IsOver _ _ (blocking_recv_buf-IsOver fuel 4 0 _ s2 (omega (arith, enough)))
                λ size. receive_file-IsOver fuel dir file _

  send_file-IsOver :
      (fuel : ℕ) (content : List ℕ) (s : S) → 2 ^ 15 ≤ fuel → IsOver (send_file u fuel content s)
  unfolding send_file le_bytes
  send_file-IsOver fuel content s enough =
      >>=-IsOver _ _ (blocking_send_buf-IsOver fuel 4 0 _ s (omega arith) (omega (arith, enough)))
        λ n s1.
          option-IsOver (u.sendfile s1 content (length content % 2 ^ 32)) _
            λ s2. is_finished content s2

  open_named-IsOver :
      (fuel : ℕ) (read_file : List ℕ → Option (List ℕ)) (dir file : List ℕ) (s : S)
      → 2 ^ 15 ≤ fuel
      → IsOver (open_named u fuel read_file dir file s)
  unfolding open_named
  open_named-IsOver fuel read_file dir file s enough = if-IsOver (path_fits dir file) _ (
      option-IsOver (read_file (path_in dir file)) _
        λ content. send_file-IsOver fuel content s enough)

  read_name-IsOver :
      (fuel : ℕ) (read_file : List ℕ → Option (List ℕ)) (dir : List ℕ) (name_len : ℕ) (s : S)
      → 2 ^ 15 ≤ fuel
      → IsOver (read_name u fuel read_file dir name_len s)
  unfolding read_name
  read_name-IsOver fuel read_file dir name_len s enough =
      elim (Bool-cases (ltb name_len (2 ^ 15))) [
        | inl small ↦
            let below : name_len ≤ 2 ^ 15 = ground arith in
            rw small (
              >>=-IsOver _ _ (blocking_recv_buf-IsOver fuel _ 0 _ s (omega (arith, enough, below)))
                λ name. λ t. open_named-IsOver fuel read_file dir _ t enough)
        | inr big ↦ rw big is_fault
      ]

  transfer_send_run-IsOver :
      (fuel : ℕ) (read_file : List ℕ → Option (List ℕ)) (dir : List ℕ) (s : S)
      → 2 ^ 15 ≤ fuel
      → IsOver (transfer_send_run u fuel read_file dir s)
  unfolding transfer_send_run
  transfer_send_run-IsOver fuel read_file dir s enough =
      >>=-IsOver _ _ (blocking_recv_buf-IsOver fuel 2 0 _ s (omega (arith, enough)))
        λ net s1. read_name-IsOver fuel read_file dir _ s1 enough

-- Every ending but `waits`.
pub data HasEnded : Ending → Type 0 where
  is_raised : (event : TransferEvent) → HasEnded (raised event)
  is_freed : HasEnded freed
  is_abandoned : HasEnded abandoned
  is_crashed : HasEnded crashed

end_transfer-HasEnded : (cb : Option TransferEvent) → HasEnded (end_transfer cb)
unfolding end_transfer
end_transfer-HasEnded none = is_freed
end_transfer-HasEnded (some event) = is_raised event

ending_of-HasEnded :
    {S A : Type 0} (trans : Transfer) (r : Run S A) → IsOver r → HasEnded (ending_of trans r)
ending_of-HasEnded trans (finished a s) over = end_transfer-HasEnded trans.success_cb
ending_of-HasEnded trans failed over = end_transfer-HasEnded trans.fail_cb
ending_of-HasEnded trans unfinished over = elim over [ ]
ending_of-HasEnded trans fault over = is_crashed

module _ {S : Type 0} (u : Udt S) (b : IsBlocking u) (fuel : ℕ) (enough : 2 ^ 15 ≤ fuel) where
  receive_named-IsOver :
      (dir : List ℕ) (file : Option (List ℕ)) (s : S) → IsOver (receive_named u fuel dir file s)
  receive_named-IsOver dir none s = is_fault
  receive_named-IsOver dir (some file) s = transfer_receive_run-IsOver u b fuel dir file s enough

  run_transfer-HasEnded :
      (read_file : List ℕ → Option (List ℕ)) (trans : Transfer) (type : TransferType) (s : S)
      → trans.type ≡ type
      → HasEnded (run_transfer u fuel read_file trans s)
  unfolding run_transfer
  run_transfer-HasEnded read_file trans transfer_receive s e =
      rw e (ending_of-HasEnded trans _ (receive_named-IsOver trans.dir trans.file s))
  run_transfer-HasEnded read_file trans transfer_send s e =
      rw e (
        ending_of-HasEnded trans _ (transfer_send_run-IsOver u b fuel read_file trans.dir s enough))
  run_transfer-HasEnded read_file trans transfer_idle s e =
      rw e (end_transfer-HasEnded trans.fail_cb)

  -- Where every call of UDT for at least one byte moves at least one byte or is an error, the thread
  -- of a transfer of either type comes to an end: 2^15 rounds are enough for each of its loops.
  pub transfer_connect-HasEnded :
      (read_file : List ℕ → Option (List ℕ)) (trans : Transfer) (s : S)
      → HasEnded (transfer_connect u fuel read_file trans s)
  unfolding transfer_connect
  transfer_connect-HasEnded read_file trans s =
      elim (Option-cases (u.connect s trans.remote_addr trans.remote_port)) [
        | inl error ↦ rw (error, transfer_connect) is_abandoned
        | inr (s1, connected) ↦
            rw (connected, transfer_connect)
              (run_transfer-HasEnded read_file trans trans.type s1 refl)
      ]
