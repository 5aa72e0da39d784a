-- ===== src/Chat/Session.antt =====
-- `send_customized_welcome_message` and the whole of `get_messages_from_active_clients`.
pub mod Rounds
pub mod Turns
use cmy_message.Prelude.{
  ℕ, ◌+◌, List, [], ◌∷◌, ◌++◌, Bool, true, false, Option, none, some, Run, ok, out_of_bounds, check,
  ◌>>=◌, ◌>>◌, leb, if◌then◌else◌, length,
}
use cmy_message.CString.{Object}
use cmy_message.HashTable.{hash_table_delete_element}
use cmy_message.Chat.{buffer_size, Shared, Recv, Sent, fd_update}
use cmy_message.Chat.Gather.{
  text_of, Ended, round_left, round_sent, round_blocked, round_failed, round,
}
use cmy_message.Ftp.Numbers.{codes}

abbrev pub welcome_msg : List ℕ → List ℕ
welcome_msg name = codes "Welcome to the broadcast channel, " ++ (name ++ (codes "!" ++ 10 ∷ []))

unfoldable pub send_customized_welcome_message : Object → Run (List ℕ)
unfolding text_of
send_customized_welcome_message name = do
  text ← text_of name
  check (leb (length (welcome_msg text) + 1) buffer_size) out_of_bounds
  ok (welcome_msg text)

-- One round: the descriptors that `select` reports, `none` if it fails, the answers of `recv`, and the
-- quit signal that is read afterwards.
pub record Round : Type 0 where
  pub ready : Option (ℕ → Bool)
  pub answers : List Recv
  pub quit_signal : Bool

-- How the function ends: it returns, it still waits, for another thread, for `select` or `recv`, or
-- the process exits.
pub data Finished : Type 0 where
  returned : Sent → Shared → Finished
  awaiting : Sent → Finished
  exit_failure : Sent → Finished

-- After the loop the name of the client leaves the table; the flag of the broadcast stays up.
unfoldable pub leave_table : Object → Sent → Shared → Run Finished
leave_table name sent s = do
  (_, table) ← hash_table_delete_element s.usernames_ht (some name)
  ok (returned sent (record s { usernames_ht = table }))

unfoldable pub after_round :
    Object → Bool → Sent → (Sent → Shared → Run Finished) → Ended → Run Finished
unfolding leave_table
after_round name quit sent next (round_left s) = ok (returned sent s)
after_round name quit sent next round_blocked = ok (awaiting sent)
after_round name quit sent next round_failed = ok (exit_failure sent)
after_round name true sent next (round_sent more s) = leave_table name (sent ++ more) s
after_round name false sent next (round_sent more s) = next (sent ++ more) s

-- A round, after `select`.
unfoldable pub selected : ℕ → Object → Shared → List Recv → Option (ℕ → Bool) → Run Ended
selected own buffer s answers none = ok round_failed
selected own buffer s answers (some ready) = round own ready answers buffer s

unfoldable pub rounds_loop : ℕ → Object → Object → List Round → Sent → Shared → Run Finished
unfolding selected after_round
rounds_loop own name buffer [] sent s = ok (awaiting sent)
rounds_loop own name buffer (r ∷ rs) sent s =
    selected own buffer s r.answers r.ready
    >>= after_round name r.quit_signal sent (rounds_loop own name buffer rs)

-- The client goes online and waits for its turn; it broadcasts once no other thread does.
unfoldable pub get_messages_from_active_clients :
    ℕ → Object → Object → List Round → Shared → Run Finished
unfolding send_customized_welcome_message rounds_loop fd_update
get_messages_from_active_clients own name buffer rounds s = do
  welcome ← send_customized_welcome_message name
  let sent : Sent = (own, welcome) ∷ []
  let online : Shared = record s { online_clients_set = fd_update true own s.online_clients_set }
  if online.is_broadcasting
      then ok (awaiting sent)
      else rounds_loop own name buffer rounds sent (record online { is_broadcasting = true })
