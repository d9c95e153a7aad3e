-- ===== src/Dhash/Exchange.antt =====
-- The two sides of a transfer in file_client/transfer.cpp, over a connection that takes and gives all
-- the bytes of a call at once.
use tangent.Base.{
  ℕ, suc, ◌%◌, ◌^◌, ◌<◌, ◌≡◌, refl, sym, ap, subst, ◌∙◌, true, Option, some, List, [], ◌++◌, length,
  ltb, arith, append-nil,
}
use tangent.Crypt.{htons, le_bytes}
use tangent.Crypt.Encoding.{length-le_bytes}
use tangent.Text.{c_string}
use tangent.Dhash.Stream.{Udt, finished}
use tangent.Dhash.Protocol.{
  le_value, htonl, path_fits, path_in, short_count, receive_file, send_file, open_named, read_name,
  transfer_receive_run, transfer_send_run,
}
use tangent.Dhash.Whole.{
  IsWhole, IsAt, Ends, >>=-Ends, blocking_recv_buf-whole, blocking_send_buf-whole, reassoc,
}

-- What goes over the wire: the length and the name one way, the size and the content the other.
abbrev pub request : List ℕ → List ℕ
request file = le_bytes 2 (htons (length file)) ++ file

abbrev pub answer : List ℕ → List ℕ
answer content = le_bytes 4 (htonl (length content)) ++ content

ntohs-htons : (n : ℕ) → n < 2 ^ 16 → htons (le_value (le_bytes 2 (htons n))) ≡ n
unfolding htons le_bytes
ntohs-htons n small = omega arith

ntohl-htonl : (n : ℕ) → n < 2 ^ 32 → htonl (le_value (le_bytes 4 (htonl n))) ≡ n
unfolding htonl le_bytes
ntohl-htonl n small = omega arith

module _ {S : Type 0} (u : Udt S) (w : IsWhole u) where
  receive_file-Ends :
      (fuel : ℕ) (dir file content rest out : List ℕ) (s : S)
      → length content < 2 ^ 31
      → path_fits dir file ≡ true
      → IsAt w s (content ++ rest) out
      → Ends w
          (receive_file u fuel dir file (length content) s)
          (record { path = path_in dir file; content = content })
          rest
          out
  unfolding receive_file
  receive_file-Ends fuel dir file content rest out s small fits h =
      let (t, came, into, went) = w.recvfile_whole s content rest small h.came in
      record {
        state = t;
        ended = rw (fits, came) refl;
        at = record { came = into; went = went ∙ h.went };
      }

  -- The receiver's side: it asks for the file, and writes the content that comes in.
  transfer_receive_run-Ends :
      (fuel : ℕ) (dir file content rest : List ℕ) (s : S)
      → 0 < length file
      → length file < 2 ^ 15
      → length content < 2 ^ 31
      → path_fits dir file ≡ true
      → IsAt w s (answer content ++ rest) []
      → Ends w
          (transfer_receive_run u (suc fuel) dir file s)
          (record { path = path_in dir file; content = content })
          rest
          (request file)
  unfolding transfer_receive_run
  transfer_receive_run-Ends fuel dir file content rest s named short small fits h =
      let bits : length file % 2 ^ 16 ≡ length file = omega arith in
      let count : short_count (length file) ≡ length file = ground arith in
      let lead = le_bytes 2 (htons (length file)) in
      let size = le_bytes 4 (htonl (length content)) in
      let asked =
        blocking_send_buf-whole u w fuel 2 lead (answer content ++ rest) [] s (length-le_bytes 2 _)
          (omega arith) h in
      let told =
        blocking_send_buf-whole u w fuel (length file) file (answer content ++ rest) lead
          asked.state refl named asked.at in
      let sized =
        blocking_recv_buf-whole u w fuel 4 size (content ++ rest) (request file) (u.uninitialised 4)
          told.state (length-le_bytes 4 _) (omega arith) (u.length-uninitialised 4)
          (reassoc u w size content rest told.at) in
      rw (bits, count)
        (>>=-Ends w _ _ _ _ _ _ _ _ asked (
          >>=-Ends w _ _ _ _ _ _ _ _ told (
            >>=-Ends w _ _ _ _ _ _ _ _ sized (
              rw (ntohl-htonl (length content) (omega arith)) (
                receive_file-Ends (suc fuel) dir file content rest (request file) sized.state small
                  fits sized.at)))))

  send_file-Ends :
      (fuel : ℕ) (content into : List ℕ) (s : S)
      → length content < 2 ^ 31
      → IsAt w s into []
      → Ends w (send_file u (suc fuel) content s) content into (answer content)
  unfolding send_file
  send_file-Ends fuel content into s small h =
      let word : length content % 2 ^ 32 ≡ length content = omega arith in
      let size = le_bytes 4 (htonl (length content)) in
      let told =
        blocking_send_buf-whole u w fuel 4 size into [] s (length-le_bytes 4 _) (omega arith) h in
      let (t, went, came, sent) = w.sendfile_whole told.state content small in
      rw word (
        >>=-Ends w _ _ _ _ _ _ _ _ told (record {
          state = t;
          ended = rw went refl;
          at = record {
            came = came ∙ told.at.came;
            went = sent ∙ ap (λ x. x ++ content) told.at.went;
          };
        }))

  read_name-Ends :
      (fuel : ℕ) (read_file : List ℕ → Option (List ℕ)) (dir file content rest : List ℕ) (s : S)
      → 0 < length file
      → length file < 2 ^ 15
      → c_string file ≡ file
      → length content < 2 ^ 31
      → path_fits dir file ≡ true
      → read_file (path_in dir file) ≡ some content
      → IsAt w s (file ++ rest) []
      → Ends w (read_name u (suc fuel) read_file dir (length file) s) content rest (answer content)
  unfolding read_name open_named
  read_name-Ends fuel read_file dir file content rest s named short text small fits here h =
      let positive : ltb (length file) (2 ^ 15) ≡ true = ground arith in
      let name =
        blocking_recv_buf-whole u w fuel (length file) file rest [] (u.uninitialised (length file))
          s refl named (u.length-uninitialised (length file)) h in
      rw positive (
        >>=-Ends w _ _ _ _ _ _ _ _ name (
          rw (text, open_named, fits, here)
            (send_file-Ends fuel content rest name.state small name.at)))

  -- The sender's side: it reads the name, and sends the size and the content of the file.
  transfer_send_run-Ends :
      (fuel : ℕ) (read_file : List ℕ → Option (List ℕ)) (dir file content rest : List ℕ) (s : S)
      → 0 < length file
      → length file < 2 ^ 15
      → c_string file ≡ file
      → length content < 2 ^ 31
      → path_fits dir file ≡ true
      → read_file (path_in dir file) ≡ some content
      → IsAt w s (request file ++ rest) []
      → Ends w (transfer_send_run u (suc fuel) read_file dir s) content rest (answer content)
  unfolding transfer_send_run
  transfer_send_run-Ends fuel read_file dir file content rest s named short text small fits here h =
      let lead = le_bytes 2 (htons (length file)) in
      let read =
        blocking_recv_buf-whole u w fuel 2 lead (file ++ rest) [] (u.uninitialised 2) s
          (length-le_bytes 2 _) (omega arith) (u.length-uninitialised 2)
          (reassoc u w lead file rest h) in
      >>=-Ends w _ _ _ _ _ _ _ _ read (
        subst
          (λ n.
            Ends w (read_name u (suc fuel) read_file dir n read.state) content rest
              (answer content))
          (sym (ntohs-htons (length file) (omega arith)))
          (read_name-Ends fuel read_file dir file content rest read.state named short text small
            fits here read.at))

-- The sender sends the file of the name that the receiver asks for; the receiver writes what the
-- sender sent; and each side puts on the wire just what the other one reads.
pub record IsExchanged {S : Type 0} (u : Udt S) (w : IsWhole u) (fuel : ℕ)
    (read_file : List ℕ → Option (List ℕ)) (sender_dir receiver_dir file content : List ℕ) (s r : S)
    : Type 0 where
  pub sender_end : S
  pub receiver_end : S
  pub sent : transfer_send_run u fuel read_file sender_dir s ≡ finished content sender_end
  pub received :
      transfer_receive_run u fuel receiver_dir file r
      ≡ finished (record { path = path_in receiver_dir file; content = content }) receiver_end
  pub asked : w.outgoing receiver_end ≡ request file
  pub answered : w.outgoing sender_end ≡ answer content

module _ {S : Type 0} (u : Udt S) (w : IsWhole u) where
  -- Over a connection on which each call moves all its bytes at once, with what each side is to send
  -- as what comes in at the other: the receiver asks for a file by a name of 1 to 2^15 - 1 bytes without
  -- a NUL, the sender has it under its directory with less than 2^31 bytes, and the paths fit into their
  -- buffers. Then the sender sends the content of that file, the receiver writes the same content under
  -- that name into its directory, and each side sends just what the other was taken to read.
  pub transfer_send-receive :
      (fuel : ℕ) (read_file : List ℕ → Option (List ℕ))
      (sender_dir receiver_dir file content : List ℕ) (s r : S)
      → 0 < length file
      → length file < 2 ^ 15
      → c_string file ≡ file
      → length content < 2 ^ 31
      → path_fits sender_dir file ≡ true
      → path_fits receiver_dir file ≡ true
      → read_file (path_in sender_dir file) ≡ some content
      → w.incoming s ≡ request file
      → w.outgoing s ≡ []
      → w.incoming r ≡ answer content
      → w.outgoing r ≡ []
      → IsExchanged u w (suc fuel) read_file sender_dir receiver_dir file content s r
  transfer_send-receive fuel read_file sender_dir receiver_dir file content s r named short text
        small sender_fits receiver_fits here s_in s_out r_in r_out =
      let sending =
        transfer_send_run-Ends u w fuel read_file sender_dir file content [] s named short text
          small sender_fits here
          (record { came = s_in ∙ sym (append-nil (request file)); went = s_out }) in
      let receiving =
        transfer_receive_run-Ends u w fuel receiver_dir file content [] r named short small
          receiver_fits
          (record { came = r_in ∙ sym (append-nil (answer content)); went = r_out }) in
      record {
        sender_end = sending.state;
        receiver_end = receiving.state;
        sent = sending.ended;
        received = receiving.ended;
        asked = receiving.at.went;
        answered = sending.at.went;
      }
