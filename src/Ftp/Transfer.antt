-- ===== src/Ftp/Transfer.antt =====
-- services/1_FTP/src/ftp_utils.c: the loops of `send_file` and `receive_file`.
pub mod Laws
use cmy_message.Prelude.{
  ℕ, zero, suc, ◌+◌, ◌-◌, min, List, [], ◌∷◌, ◌++◌, Bool, true, false, Option, none, some, ◌==◌,
  if◌then◌else◌, length, take, drop,
}
use cmy_message.Chat.{Recv, failed, closed, received}
use cmy_message.Ftp.{buffer_size}

-- How a reception ends: with the whole file, with -1 after a failed `recv`, or still waiting. The
-- answers of `recv` that were not used are left over.
pub data Received : Type 0 where
  complete broken : List ℕ → List Recv → Received
  starved : List ℕ → Received

-- `remaining_to_recv` counts down by what each `recv` gives, which is nothing on a closed connection.
unfoldable pub receive_loop : List Recv → ℕ → List ℕ → Received
receive_loop [] remaining file = if remaining == 0 then complete file [] else starved file
receive_loop (r ∷ rs) remaining file =
    let more : Received = elim r [
      | failed ↦ broken file rs
      | closed ↦ receive_loop rs remaining file
      | received bytes ↦ receive_loop rs (remaining - length bytes) (file ++ bytes)
    ] in
    if remaining == 0 then complete file (r ∷ rs) else more

unfoldable pub receive_file : ℕ → List Recv → Received
unfolding receive_loop
receive_file filesize rs = receive_loop rs filesize []

is_empty : List ℕ → Bool
is_empty [] = true
is_empty (x ∷ xs) = false

-- The status of `send_file` (false is -1) and the packets that it sends; `none` means that the fuel
-- ran out. `fread` gives what the file still has, up to the amount.
unfoldable pub send_loop : ℕ → ℕ → List ℕ → List (List ℕ) → Option (Bool × List (List ℕ))
unfolding is_empty
send_loop zero remaining file sent = none
send_loop (suc fuel) remaining file sent =
    let amount_to_send = min remaining buffer_size in
    let bytes = take amount_to_send file in
    let more =
      send_loop fuel (remaining - length bytes) (drop amount_to_send file) (sent ++ bytes ∷ []) in
    if remaining == 0
    then some (true, sent)
    else (if is_empty bytes then some (false, sent) else more)

-- A round sends at least one byte, so that `filesize + 1` rounds are enough.
unfoldable pub send_file : ℕ → List ℕ → Option (Bool × List (List ℕ))
unfolding send_loop
send_file filesize file = send_loop (filesize + 1) filesize file []
