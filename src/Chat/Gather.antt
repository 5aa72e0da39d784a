-- ===== src/Chat/Gather.antt =====
-- `get_messages_from_active_clients`: the rounds of one broadcasting thread.
-- What the operating system answers is an argument: for each round the result of `select`, and the
-- results of the calls of `recv` in the order in which they are made.
pub mod Messages
pub mod Rounds
pub mod Short
use cmy_message.Prelude.{
  ℕ, zero, suc, ◌+◌, ◌-◌, ◌*◌, List, [], ◌∷◌, ◌++◌, Bool, true, false, Option, none, some, Run, ok,
  fault, out_of_bounds, check, ◌>>=◌, ◌>>◌, ◌==◌, leb, if◌then◌else◌, ℤ, pos, length,
}
use cmy_message.CString.{Object, c_str, is_terminated}
use cmy_message.HashTable.{Table, hash_table_delete_element}
use cmy_message.Chat.{
  buffer_size, max_num_clients, default_max_num_clients, fd_setsize, Shared, Recv, failed, closed,
  received, Sent, filled, fd_update, start_removing_client_from_broadcast,
}
use cmy_message.Chat.Broadcast.{broadcast_message_to_online_clients}

-- The sizes of the buffer for one edited message and of the common buffer.
abbrev pub edited_size : ℕ
edited_size = buffer_size + max_num_clients + 3

abbrev pub common_size : ℕ
common_size = buffer_size * default_max_num_clients

-- The characters of a string; without a terminator the read runs past the end.
unfoldable pub text_of : Object → Run (List ℕ)
text_of p = check (is_terminated p) out_of_bounds >> ok (c_str p)

-- `"%s> %s"` into the buffer for one message, and the result behind the common text.
unfoldable pub add_message : Object → Object → List ℕ → Run (List ℕ)
unfolding text_of
add_message username buffer common = do
  name ← text_of username
  body ← text_of buffer
  let edited = name ++ b'>' ∷ b' ' ∷ body
  check (leb (length edited + 1) edited_size) out_of_bounds
  check (leb (length common + length edited + 1) common_size) out_of_bounds
  ok (common ++ edited)

-- The next descriptor from `i` on that is in the set, with `n` descriptors left to look at.
unfoldable pub next_set : (ℕ → Bool) → ℕ → ℕ → Option ℕ
next_set ready zero i = none
next_set ready (suc n) i = let later = next_set ready n (suc i) in if ready i then some i else later

unfoldable pub next_ready : (ℕ → Bool) → ℕ → Option ℕ
unfolding next_set
next_ready ready i = next_set ready (fd_setsize - i) i

-- The variables of a round: bytes received in all, the text of the common buffer, the client's own
-- buffer, and the shared state.
pub record Gathered : Type 0 where
  pub tot_num_bytes_recv : ℕ
  pub common : List ℕ
  pub buffer : Object
  pub shared : Shared

-- How the loop over the descriptors ends: the thread returns, the round is complete, or `recv`
-- still waits for an answer.
pub data Turn : Type 0 where
  left : Shared → Turn
  complete : Gathered → Turn
  blocked : Turn

unfoldable pub receive_message : ℕ → List ℕ → Gathered → Run Gathered
unfolding add_message
receive_message fd bytes g = do
  let buffer = filled bytes
  common ← add_message (g.shared.usernames_by_fd_arr fd) buffer g.common
  ok (record g {
    tot_num_bytes_recv = g.tot_num_bytes_recv + length bytes;
    common = common;
    buffer = buffer;
  })

unfoldable pub drop_client : ℕ → Gathered → Run Gathered
drop_client fd g = do
  (_, s) ← start_removing_client_from_broadcast fd g.shared
  ok (record g { shared = s; buffer = filled [] })

-- The loop from index `i`. After a failed `recv` the thread returns if the client was its own.
-- After a closed connection the index is passed to `close_socket_with_ptr_if_open`, which sets it to
-- -1: the test for the thread's own client fails, and the loop goes on from 0.
unfoldable pub gather : ℕ → (ℕ → Bool) → List Recv → ℕ → Gathered → Run Turn
gather own ready [] i g = elim (next_ready ready i) [
  | none ↦ ok (complete g)
  | some fd ↦ ok blocked
]
gather own ready (r ∷ rs) i g = elim (next_ready ready i) [
  | none ↦ ok (complete g)
  | some fd ↦ (elim r [
    | failed ↦ do
      g' ← drop_client fd g
      if fd == own then ok (left g'.shared) else gather own ready rs (suc fd) g'
    | closed ↦ do g' ← drop_client fd g; gather own ready rs 0 g'
    | received bytes ↦ do g' ← receive_message fd bytes g; gather own ready rs (suc fd) g'
  ])
]

-- How a round ends: `select` fails, the thread returns, the messages are gathered and sent to everyone,
-- or `recv` still waits.
pub data Ended : Type 0 where
  round_left : Shared → Ended
  round_sent : Sent → Shared → Ended
  round_blocked : Ended
  round_failed : Ended

unfoldable pub send_round : Turn → Run Ended
send_round (left s) = ok (round_left s)
send_round blocked = ok round_blocked
send_round (complete g) = do
  (_, _, sent) ←
      broadcast_message_to_online_clients (some g.buffer) g.tot_num_bytes_recv (g.common ++ 0 ∷ [])
        g.shared
  ok (round_sent sent g.shared)

abbrev pub start_of : Object → Shared → Gathered
start_of buffer s = record { tot_num_bytes_recv = 0; common = []; buffer = buffer; shared = s }

-- The common buffer is cleared before the messages are gathered.
unfoldable pub round : ℕ → (ℕ → Bool) → List Recv → Object → Shared → Run Ended
round own ready rs buffer s = do turn ← gather own ready rs 0 (start_of buffer s); send_round turn
