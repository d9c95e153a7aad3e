-- ===== src/Dhash/Handlers.antt =====
-- file_client/process.cpp and the lookups of files in file_client/dhash.cpp: the handlers of the
-- packets between file clients.
use tangent.Base.{
  ℕ, ◌+◌, Bool, false, Option, none, some, List, [], ◌∷◌, ◌++◌, length, leb, ◌==◌, if◌then◌else◌,
}
use tangent.Base.Bind.{◌>>=◌}
use tangent.Server.{In6Addr, Node, ChordServer}
use tangent.Crypt.{Crypto, get_data_id}
use tangent.Process.{copy, to_u16}
use tangent.Process.Route.{chord_id_is_local}
use tangent.Text.{c_string, buf_to_str}
use tangent.Dhash.{
  Library, Transfer, TransferEvent, receive_success, receive_fail, Dhash, dhash_client_reply_local,
}
use tangent.Dhash.Send.{
  dhash_send_push, dhash_send_query, dhash_send_query_reply_success, dhash_send_query_reply_failure,
  dhash_send_push_reply, dhash_send_control_packet, dhash_send_control_query_success,
  dhash_send_control_query_failure,
}
use tangent.Dhash.Transfers.{
  new_transfer, transfer_set_callbacks, transfer_start_receiving, transfer_start_sending,
  free_transfer,
}

-- The path that `stat` reads. The terminating NUL lands on the byte behind the array, which is taken
-- as unused.
abbrev pub path_of : List ℕ → List ℕ → List ℕ
path_of files_path file = c_string (files_path ++ (b'/' ∷ []) ++ file)

unfoldable pub dhash_local_file_exists : Library → List ℕ → List ℕ → Bool
dhash_local_file_exists lib files_path file = lib.stat (path_of files_path file)

-- The code and the state behind a step.
abbrev done : ℕ → Option Dhash → Option (ℕ × Dhash)
done code step = step >>= (λ w. some (code, w))

-- The text of a name is printed first, in each handler that does so.
module _ (cr : Crypto) (lib : Library) where
  -- The transfer that the handlers open on the port behind the one of the server.
  abbrev pub open_transfer : ChordServer → In6Addr → ℕ → Dhash → Option Transfer
  open_transfer srv addr port w = new_transfer lib (srv.node.port + 1) addr (port + 1) w.files_path

  -- With the file here.
  abbrev query_found : ℕ → ChordServer → In6Addr → ℕ → List ℕ → Dhash → Option Dhash
  query_found i srv reply_addr reply_port name w = do
    sent ← dhash_send_query_reply_success cr lib i reply_addr (to_u16 reply_port) name w
    transfer_start_sending (open_transfer srv reply_addr reply_port w) sent

  -- With another file: refused as its successor, or forwarded.
  abbrev query_missing : ℕ → ChordServer → In6Addr → ℕ → List ℕ → Dhash → Option (ℕ × Dhash)
  query_missing i srv reply_addr reply_port name w =
      if chord_id_is_local srv (get_data_id cr name)
      then done 0 (dhash_send_query_reply_failure cr lib i reply_addr (to_u16 reply_port) name w)
      else some (1, w)

  unfoldable pub query_named : ℕ → ChordServer → In6Addr → ℕ → List ℕ → Dhash → Option (ℕ × Dhash)
  query_named i srv reply_addr reply_port name w = do
    text ← buf_to_str name
    (if dhash_local_file_exists lib w.files_path name
        then done 0 (query_found i srv reply_addr reply_port name w)
        else query_missing i srv reply_addr reply_port name w)

  unfoldable pub dhash_process_query :
      ℕ → ChordServer → List ℕ → ℕ → List ℕ → Node → Dhash → Option (ℕ × Dhash)
  dhash_process_query i srv msg_addr reply_port name from w = do
    reply_addr ← copy 16 msg_addr
    if length name == 0 then some (0, w) else query_named i srv reply_addr reply_port name w

  unfoldable pub dhash_process_query_reply_success :
      ℕ → ChordServer → List ℕ → Node → Dhash → Option (ℕ × Dhash)
  dhash_process_query_reply_success i srv name from w = do
    text ← buf_to_str name
    trans ←
        transfer_set_callbacks (open_transfer srv from.addr from.port w) (some receive_success)
          (some receive_fail)
    done 0 (transfer_start_receiving (some trans) text w)

  unfoldable pub dhash_process_query_reply_failure :
      ℕ → ChordServer → List ℕ → Node → Dhash → Option (ℕ × Dhash)
  dhash_process_query_reply_failure i srv name from w =
      done 0 (dhash_send_control_query_failure lib name w)

  unfoldable pub push_missing :
      ℕ → ChordServer → In6Addr → ℕ → List ℕ → List ℕ → Dhash → Option Dhash
  push_missing i srv reply_addr reply_port name text w = do
    sent ← dhash_send_push_reply cr lib i reply_addr (to_u16 reply_port) name w
    transfer_start_receiving (open_transfer srv reply_addr reply_port w) text sent

  unfoldable pub dhash_process_push :
      ℕ → ChordServer → List ℕ → ℕ → List ℕ → Node → Dhash → Option (ℕ × Dhash)
  dhash_process_push i srv msg_addr reply_port name from w = do
    reply_addr ← copy 16 msg_addr
    text ← buf_to_str name
    (if dhash_local_file_exists lib w.files_path name
        then some (0, w)
        else done 0 (push_missing i srv reply_addr reply_port name text w))

  unfoldable pub dhash_process_push_reply :
      ℕ → ChordServer → List ℕ → Node → Dhash → Option (ℕ × Dhash)
  dhash_process_push_reply i srv name from w = do
    text ← buf_to_str name
    done 0 (transfer_start_sending (open_transfer srv from.addr from.port w) w)

  unfoldable pub dhash_process_client_request : List ℕ → Dhash → Option (ℕ × Dhash)
  dhash_process_client_request name w =
      if dhash_local_file_exists lib w.files_path name
      then done 0 (dhash_send_control_packet lib dhash_client_reply_local name w)
      else done 0 (dhash_send_query cr lib name w)

  -- The checks on the file that came in.
  unfoldable pub is_signed : List ℕ → Bool
  is_signed abs_file_path = elim (lib.bio_new_file abs_file_path) [
    | none ↦ false
    | some bio ↦ elim (lib.d2i_cms bio) [ none ↦ false | some cms ↦ lib.cms_verify cms ]
  ]

  unfoldable pub verified : Transfer → List ℕ → Dhash → Option Dhash
  verified trans file w = do
    told ← dhash_send_control_query_success lib file w
    pushed ← dhash_send_push cr lib file told
    some (free_transfer (some trans) pushed)

  -- The path has room for 1024 bytes. A file that does not verify leaves the transfer as it is.
  unfoldable pub received : Transfer → List ℕ → Dhash → Option Dhash
  received trans file w =
      if leb (length w.files_path + length file + 2) 1024
      then (if is_signed (w.files_path ++ (b'/' ∷ []) ++ file)
          then verified trans file w
          else some w)
      else none

  -- `receive_success` and `receive_fail`, as the event that became active.
  unfoldable pub run_event : TransferEvent → Transfer → Dhash → Option Dhash
  run_event receive_success trans w = trans.file >>= (λ file. received trans file w)
  run_event receive_fail trans w = do
    file ← trans.file
    told ← dhash_send_control_query_failure lib file w
    some (free_transfer (some trans) told)
