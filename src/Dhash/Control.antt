-- ===== src/Dhash/Control.antt =====
-- The control socket of the file client: file_client/send.cpp, pack.cpp and dhash.cpp.
use tangent.Base.{ℕ, Option, none, some, List, ◌==◌, if◌then◌else◌}
use tangent.Dhash.{
  Library, DhashMessage, client_request_reply, a_client_request_reply, dhash_client_reply_local,
  dhash_client_reply_success, dhash_client_reply_failure, dhash_pack_client_request,
}

-- What `process_reply` prints.
pub data ReplyText : Type 0 where
  is_local retrieved_successfully retrieval_failed : List ℕ → ReplyText
  unknown_code : ReplyText

unfoldable pub process_reply : ℕ → List ℕ → ReplyText
process_reply code name =
    if code == dhash_client_reply_local
    then is_local name
    else if code == dhash_client_reply_success
    then retrieved_successfully name
    else if code == dhash_client_reply_failure
    then retrieval_failed name
    else unknown_code

module _ (lib : Library) where
  -- The bytes for the socket; a failing `write` only prints.
  unfoldable pub dhash_client_send_request : List ℕ → Option (List ℕ)
  dhash_client_send_request name = dhash_pack_client_request lib name

  abbrev reply_of : {R : Type 0} → (ℕ → List ℕ → R) → DhashMessage → Option (ℕ × Option R)
  reply_of handler (client_request_reply code name) = some (0, some (handler code name))
  reply_of handler _ = none

  -- The code that is returned, with what the handler gave if it was called.
  unfoldable pub dhash_client_unpack_request_reply :
      {R : Type 0} → (ℕ → List ℕ → R) → List ℕ → Option (ℕ × Option R)
  dhash_client_unpack_request_reply handler buf =
      elim (lib.message__unpack a_client_request_reply buf) [
        | none ↦ some (1, none)
        | some reply ↦ reply_of handler reply
      ]
