-- ===== src/Dhash/Transfers.antt =====
-- file_client/transfer.cpp: the life of a transfer but for its thread. `new_transfer` returns `none`
-- where the code returns NULL.
use tangent.Base.{ℕ, ◌%◌, ◌^◌, Bool, true, false, Option, none, some, List, if◌then◌else◌}
use tangent.Base.Bind.{◌>>=◌}
use tangent.Server.{In6Addr}
use tangent.Server.Addr.{v4_mapped}
use tangent.Dhash.{
  Library, Transfer, TransferEvent, transfer_idle, transfer_send, transfer_receive, Dhash,
  transfer_started, transfer_freed, effect,
}

-- Whether a pointer is not NULL.
abbrev is_set : Option TransferEvent → Bool
is_set none = false
is_set (some e) = true

-- The ports are a `ushort`, or an `int` that `htons` cuts to 16 bits.
unfoldable pub new_transfer : Library → ℕ → In6Addr → ℕ → List ℕ → Option Transfer
new_transfer lib local_port addr port dir = do
  sock ← lib.udt_socket (v4_mapped addr)
  (if lib.udt_bind sock (local_port % 2 ^ 16)
      then some (record {
        type = transfer_idle;
        dir = dir;
        file = none;
        success_cb = none;
        fail_cb = none;
        success_ev = false;
        fail_ev = false;
        udt_sock = sock;
        local_port = local_port % 2 ^ 16;
        remote_addr = addr;
        remote_port = port % 2 ^ 16;
      })
      else none)

-- The events there were are freed first.
unfoldable pub transfer_set_callbacks :
    Option Transfer → Option TransferEvent → Option TransferEvent → Option Transfer
transfer_set_callbacks none success_cb fail_cb = none
transfer_set_callbacks (some trans) success_cb fail_cb = some (record trans {
  success_ev = is_set success_cb;
  fail_ev = is_set fail_cb;
  success_cb = success_cb;
  fail_cb = fail_cb;
})

-- On a NULL transfer these fault.
unfoldable pub transfer_start_receiving : Option Transfer → List ℕ → Dhash → Option Dhash
transfer_start_receiving none file w = none
transfer_start_receiving (some trans) file w =
    some (effect (transfer_started (record trans { file = some file; type = transfer_receive })) w)

unfoldable pub transfer_start_sending : Option Transfer → Dhash → Option Dhash
transfer_start_sending none w = none
transfer_start_sending (some trans) w =
    some (effect (transfer_started (record trans { type = transfer_send })) w)

unfoldable pub free_transfer : Option Transfer → Dhash → Dhash
free_transfer none w = w
free_transfer (some trans) w = effect (transfer_freed trans) w
