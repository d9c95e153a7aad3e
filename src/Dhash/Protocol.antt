-- ===== src/Dhash/Protocol.antt =====
-- The thread of a transfer in file_client/transfer.cpp: `transfer_receive`, `transfer_send` and
-- `transfer_connect`. Files are read through `read_file`, which is `none` where a file does not open. A
-- word of the host is little-endian.
use tangent.Base.{
  ℕ, ◌+◌, ◌*◌, ◌/◌, ◌%◌, ◌^◌, Bool, Option, none, some, List, [], ◌∷◌, ◌++◌, length, leb, ltb,
  if◌then◌else◌,
}
use tangent.Crypt.{htons, le_bytes}
use tangent.Text.{c_string}
use tangent.Dhash.{Transfer, TransferEvent, transfer_idle, transfer_send, transfer_receive}
use tangent.Dhash.Stream.{
  Udt, Run, finished, failed, unfinished, fault, ◌>>=◌, blocking_recv_buf, blocking_send_buf,
}

-- The number that little-endian bytes stand for.
abbrev pub le_value : List ℕ → ℕ
le_value [] = 0
le_value (b ∷ bs) = b + 256 * le_value bs

-- `htonl`, and `ntohl` with it.
unfoldable pub htonl : ℕ → ℕ
htonl n =
    (n % 256) * 2 ^ 24 + n / 2 ^ 8 % 256 * 2 ^ 16 + n / 2 ^ 16 % 256 * 2 ^ 8 + n / 2 ^ 24 % 256

-- The bits of a `short` as a count of bytes: a negative one is none.
abbrev pub short_count : ℕ → ℕ
short_count bits = if ltb bits (2 ^ 15) then bits else 0

abbrev pub path_in : List ℕ → List ℕ → List ℕ
path_in dir file = dir ++ (b'/' ∷ []) ++ file

-- The path and its NUL in 1024 bytes.
abbrev pub path_fits : List ℕ → List ℕ → Bool
path_fits dir file = leb (length dir + length file + 2) 1024

-- The file that is written, and its content.
pub record Received : Type 0 where
  pub path : List ℕ
  pub content : List ℕ

module _ {S : Type 0} (u : Udt S) (fuel : ℕ) where
  -- Behind the answer of the size.
  unfoldable pub receive_file : List ℕ → List ℕ → ℕ → S → Run S Received
  receive_file dir file size s =
      if path_fits dir file
      then (elim (u.recvfile s size) [
        | none ↦ failed
        | some r ↦ finished (record { path = path_in dir file; content = r.0 }) r.1
      ])
      else fault

  unfoldable pub transfer_receive_run : List ℕ → List ℕ → S → Run S Received
  transfer_receive_run dir file s =
      let bits = length file % 2 ^ 16 in
      blocking_send_buf u fuel 2 0 (le_bytes 2 (htons bits)) s >>= λ n s1.
      blocking_send_buf u fuel (short_count bits) 0 file s1 >>= λ m s2.
      blocking_recv_buf u fuel 4 0 (u.uninitialised 4) s2 >>= λ size.
      receive_file dir file (htonl (le_value size))

  -- The size goes out, then the file.
  unfoldable pub send_file : List ℕ → S → Run S (List ℕ)
  send_file content s =
      blocking_send_buf u fuel 4 0 (le_bytes 4 (htonl (length content % 2 ^ 32))) s >>= λ n s1.
      elim (u.sendfile s1 content (length content % 2 ^ 32)) [
        | none ↦ failed
        | some s2 ↦ finished content s2
      ]

  -- Behind the name: the file is opened.
  unfoldable pub open_named : (List ℕ → Option (List ℕ)) → List ℕ → List ℕ → S → Run S (List ℕ)
  open_named read_file dir file s =
      if path_fits dir file
      then (elim (read_file (path_in dir file)) [
        | none ↦ failed
        | some content ↦ send_file content s
      ])
      else fault

  -- Behind the length: with a negative one the array for the name has no size.
  unfoldable pub read_name : (List ℕ → Option (List ℕ)) → List ℕ → ℕ → S → Run S (List ℕ)
  read_name read_file dir name_len s =
      if ltb name_len (2 ^ 15)
      then (blocking_recv_buf u fuel name_len 0 (u.uninitialised name_len) s >>= λ name.
          open_named read_file dir (c_string name))
      else fault

  -- The result is what was sent.
  unfoldable pub transfer_send_run : (List ℕ → Option (List ℕ)) → List ℕ → S → Run S (List ℕ)
  transfer_send_run read_file dir s = blocking_recv_buf u fuel 2 0 (u.uninitialised 2) s >>= λ net.
      read_name read_file dir (htons (le_value net))

-- How a thread ends: with the event of a callback active, with the transfer freed, or with neither
-- after a failed connect; `waits` is a thread that has not ended, and `crashed` one that faults.
pub data Ending : Type 0 where
  raised : TransferEvent → Ending
  freed abandoned waits crashed : Ending

unfoldable pub end_transfer : Option TransferEvent → Ending
end_transfer none = freed
end_transfer (some event) = raised event

abbrev pub ending_of : {S A : Type 0} → Transfer → Run S A → Ending
ending_of trans (finished a s) = end_transfer trans.success_cb
ending_of trans failed = end_transfer trans.fail_cb
ending_of trans unfinished = waits
ending_of trans fault = crashed

abbrev pub receive_named : {S : Type 0} → Udt S → ℕ → List ℕ → Option (List ℕ) → S → Run S Received
receive_named u fuel dir none s = fault
receive_named u fuel dir (some file) s = transfer_receive_run u fuel dir file s

unfoldable pub run_transfer :
    {S : Type 0} → Udt S → ℕ → (List ℕ → Option (List ℕ)) → Transfer → S → Ending
run_transfer u fuel read_file trans s = elim trans.type [
  | transfer_receive ↦ ending_of trans (receive_named u fuel trans.dir trans.file s)
  | transfer_send ↦ ending_of trans (transfer_send_run u fuel read_file trans.dir s)
  | transfer_idle ↦ end_transfer trans.fail_cb
]

unfoldable pub transfer_connect :
    {S : Type 0} → Udt S → ℕ → (List ℕ → Option (List ℕ)) → Transfer → S → Ending
transfer_connect u fuel read_file trans s = elim (u.connect s trans.remote_addr trans.remote_port) [
  | none ↦ abandoned
  | some s1 ↦ run_transfer u fuel read_file trans s1
]
