-- ===== src/Chat/Broadcast.antt =====
-- `broadcast_message_to_online_clients`: the common message goes to every client in the table,
-- found again by the key of its entry.
pub mod Everyone
use cmy_message.Prelude.{
  ℕ, zero, suc, ◌+◌, ◌-◌, List, [], ◌∷◌, ◌++◌, Bool, true, false, ◌&&◌, Option, none, some, Run, ok,
  fault, null_dereference, out_of_bounds, check, ◌>>=◌, ◌>>◌, ◌==◌, ltb, leb, if◌then◌else◌, ℤ, pos,
  negsuc, set,
}
use cmy_message.CString.{Object, c_str}
use cmy_message.HashTable.{Entry, Chain, Table, at, hash_table_lookup}
use cmy_message.Chat.{buffer_size, Shared, Sent}

-- A look-up that finds nothing is reported on the server, and nobody is sent anything.
unfoldable pub send_to_entry : Table ℕ → List ℕ → Entry ℕ → Run Sent
send_to_entry t message e = do
  target ← hash_table_lookup (some t) (some e.p_key)
  elim target [ none ↦ ok [] | some fd ↦ ok ((fd, message) ∷ []) ]

unfoldable pub send_to_chain : Table ℕ → List ℕ → Chain ℕ → Run Sent
unfolding send_to_entry
send_to_chain t message [] = ok []
send_to_chain t message (e ∷ c) =
    let rest = send_to_chain t message c in
    do sent ← send_to_entry t message e; others ← rest; ok (sent ++ others)

-- The loop over the indices from `i`, with `n` of them left.
unfoldable pub send_to_chains : Table ℕ → List ℕ → ℕ → ℕ → Run Sent
unfolding send_to_chain
send_to_chains t message zero i = ok []
send_to_chains t message (suc n) i =
    let rest = send_to_chains t message n (suc i) in
    do c ← at t.elements i; sent ← send_to_chain t message c; others ← rest; ok (sent ++ others)

-- `buffer[tot_num_bytes_recv - 1] = '\0'`: the index is -1 for a round without messages.
unfoldable pub terminate_buffer : ℕ → Object → Run Object
terminate_buffer tot buffer = do
  check (ltb 0 tot && leb tot buffer_size) out_of_bounds
  ok (set buffer (tot - 1) 0)

unfoldable pub send_to_table : Option (Table ℕ) → List ℕ → Run Sent
unfolding send_to_chains
send_to_table none message = fault null_dereference
send_to_table (some t) message = send_to_chains t message t.size 0

-- `none` is a NULL client structure; otherwise its buffer is given, and so is the common buffer.
unfoldable pub broadcast_message_to_online_clients :
    Option Object → ℕ → Object → Shared → Run (ℤ × Option Object × Sent)
unfolding terminate_buffer send_to_table
broadcast_message_to_online_clients none tot common s = ok (negsuc 0, none, [])
broadcast_message_to_online_clients (some buffer) tot common s = do
  buffer' ← terminate_buffer tot buffer
  sent ← send_to_table s.usernames_ht (c_str common)
  ok (pos 0, some buffer', sent)
