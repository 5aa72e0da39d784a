-- ===== src/Chat/Gather/Short.antt =====
-- A round of the chat with the hash function of the program and short names.
use mathlib.Core.List.{flatten}
use cmy_message.Prelude.{
  ℕ, zero, suc, ◌<◌, ◌≤◌, ◌+◌, List, [], ◌∷◌, Bool, true, ◌&&◌, some, fault, out_of_bounds, ◌≡◌,
  ◌≢◌, refl, arith, ltb, leb, length, drop, All,
}
use cmy_message.CString.{Object}
use cmy_message.HashTable.{
  Entry, Chain, Table, hash_table_lookup, lookup_in, hash_table_calc_index_with_hash,
}
use cmy_message.HashTable.Murmur.{murmur3_32_hash}
use cmy_message.HashTable.Murmur.Reads.{murmur3_32_hash-short}
use cmy_message.HashTable.Valid.{IsValid}
use cmy_message.Chat.{buffer_size, Shared}
use cmy_message.Chat.Broadcast.{
  send_to_entry, send_to_chain, send_to_chains, broadcast_message_to_online_clients,
}
use cmy_message.Chat.Broadcast.Everyone.{at-drop, drop-suc}
use cmy_message.Chat.Gather.{common_size, start_of, send_round, round}
use cmy_message.Chat.Gather.Messages.{
  Messages, answers, lines, total, Fits, IsReady, gather-messages,
}

-- Keys of fewer than twenty bytes: the copies of names of fewer than nineteen characters and one.
abbrev pub IsShort : Entry ℕ → Type 0
IsShort e = length e.p_key < 20

abbrev pub AllShort : List (Chain ℕ) → Type 0
AllShort = All (All IsShort)

module _ (t : Table ℕ) (message : List ℕ) (hashed : t.p_hash_func ≡ murmur3_32_hash) where
  send_to_entry-undefined :
      (e : Entry ℕ) → IsShort e → send_to_entry t message e ≡ fault out_of_bounds
  unfolding send_to_entry hash_table_lookup lookup_in hash_table_calc_index_with_hash
  send_to_entry-undefined e short = rw (hashed, murmur3_32_hash-short e.p_key short)

  send_to_chains-undefined :
      (n i : ℕ) (cs : List (Chain ℕ))
      → drop i t.elements ≡ cs
      → length cs ≡ n
      → AllShort cs
      → flatten cs ≢ []
      → send_to_chains t message n i ≡ fault out_of_bounds
  unfolding send_to_chains send_to_chain flatten
  send_to_chains-undefined n i [] left len short some_client = absurd (some_client refl)
  send_to_chains-undefined zero i (c ∷ cs) left len short some_client = absurd (omega arith)
  send_to_chains-undefined (suc n) i ([] ∷ cs) left len short some_client = rw (
    at-drop i t.elements left,
    send_to_chains-undefined n (suc i) cs (drop-suc i t.elements left) (omega arith) short.1
        some_client,
  )
  send_to_chains-undefined (suc n) i ((e ∷ c) ∷ cs) left len short some_client =
      rw (at-drop i t.elements left, send_to_entry-undefined e short.0.0)

-- With the hash function of the program, if the table has a client and all of its names have fewer
-- than nineteen characters, a round of messages that fit reads past the end of a stored name.
pub round-undefined :
    (own : ℕ) (ready : ℕ → Bool) (ms : Messages) (buffer : Object) (s : Shared) {t : Table ℕ}
    → IsReady ready 0 ms
    → Fits s ms
    → length (lines s ms) < common_size
    → 0 < total ms
    → total ms ≤ buffer_size
    → s.usernames_ht ≡ some t
    → IsValid t
    → t.p_hash_func ≡ murmur3_32_hash
    → AllShort t.elements
    → flatten t.elements ≢ []
    → round own ready (answers ms) buffer s ≡ fault out_of_bounds
unfolding round send_round broadcast_message_to_online_clients
round-undefined own ready ms buffer s {t} r f room lo hi here valid hashed short some_client =
    let turn = gather-messages own ready ms 0 (start_of buffer s) r f (omega arith) in
    let all : 0 + total ms ≡ total ms = omega arith in
    let bounds : (ltb 0 (total ms) && leb (total ms) buffer_size) ≡ true = ground arith in
    rw (
      turn,
      all,
      bounds,
      here,
      send_to_chains-undefined t _ hashed t.size 0 t.elements refl valid.width short some_client,
    )
