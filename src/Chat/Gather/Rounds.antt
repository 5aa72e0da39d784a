-- ===== src/Chat/Gather/Rounds.antt =====
-- How the loop over the descriptors treats clients that fail or close, and a text that is too long.
use cmy_message.Prelude.{
  ℕ, ◌+◌, ◌<◌, List, ◌∷◌, ◌++◌, Bool, true, false, Option, none, some, ok, fault, out_of_bounds,
  ◌≡◌, refl, arith, ◌==◌, leb, pos, length, length-append,
}
use cmy_message.CString.{Object, c_str, is_terminated}
use cmy_message.CString.Laws.{text_equal_refl}
use cmy_message.HashTable.{Table}
use cmy_message.HashTable.Chain.{is_some}
use cmy_message.HashTable.Valid.{IsValid, view}
use cmy_message.HashTable.{hash_table_calc_index_with_hash}
use cmy_message.HashTable.Update.{Writes, hash_table_delete_element-Writes}
use cmy_message.Chat.{
  Shared, Recv, failed, closed, filled, fd_update, start_removing_client_from_broadcast,
}
use cmy_message.Chat.Gather.{
  edited_size, next_ready, Gathered, left, add_message, receive_message, drop_client, gather,
}

-- Removing a client whose name stands in the array: the run ends normally, the descriptor goes
-- offline and no other does, the name leaves the valid table and every other name stays, the
-- array of names stays, and the flag of the broadcast is down.
start_removing-Writes :
    {t : Table ℕ}
    → IsValid t
    → (s : Shared) → s.usernames_ht ≡ some t
    → (fd : ℕ) {i : ℕ} → hash_table_calc_index_with_hash t (s.usernames_by_fd_arr fd) ≡ ok i
    → is_terminated (s.usernames_by_fd_arr fd) ≡ true
    → let name = c_str (s.usernames_by_fd_arr fd) in
      (r : Bool × Table ℕ) × (start_removing_client_from_broadcast fd s
        ≡ ok (
          pos 0,
          record {
            online_clients_set = fd_update false fd s.online_clients_set;
            usernames_by_fd_arr = s.usernames_by_fd_arr;
            usernames_ht = some r.1;
            is_broadcasting = false;
          },
        ))
      × Writes t i name none (is_some (view t i name)) r
unfolding start_removing_client_from_broadcast
start_removing-Writes {t} valid s here fd home ends =
    let (r, run, w) = hash_table_delete_element-Writes valid (s.usernames_by_fd_arr fd) home ends in
    (r, rw (here, run), w)

home-Writes :
    {t : Table ℕ} (k : Object) {i : ℕ} {name : List ℕ} {v : Option ℕ} {done : Bool}
    {r : Bool × Table ℕ}
    → hash_table_calc_index_with_hash t k ≡ ok i
    → Writes t i name v done r
    → hash_table_calc_index_with_hash r.1 k ≡ ok i
unfolding hash_table_calc_index_with_hash
home-Writes k home w = rw (w.hash, w.size) home

-- When the client of the broadcasting thread itself closes its connection and is the first that is
-- ready, its descriptor is closed and read again, that read fails, and the thread returns: the
-- client is offline, its name has left the valid table, and the flag of the broadcast is down.
pub gather-own_closed :
    (own : ℕ) (ready : ℕ → Bool) (rs : List Recv) (g : Gathered) {t : Table ℕ}
    → IsValid t
    → g.shared.usernames_ht ≡ some t
    → {i : ℕ} → hash_table_calc_index_with_hash t (g.shared.usernames_by_fd_arr own) ≡ ok i
    → is_terminated (g.shared.usernames_by_fd_arr own) ≡ true
    → next_ready ready 0 ≡ some own
    → (s : Shared) × (t' : Table ℕ) × (gather own ready (closed ∷ failed ∷ rs) 0 g ≡ ok (left s))
      × (s.usernames_ht ≡ some t')
      × IsValid t'
      × (view t' i (c_str (g.shared.usernames_by_fd_arr own)) ≡ none)
      × (s.online_clients_set own ≡ false)
      × (s.is_broadcasting ≡ false)
unfolding gather drop_client fd_update
gather-own_closed own ready rs g valid here {i} home ends next =
    let name = g.shared.usernames_by_fd_arr own in
    let (r, run, w) = start_removing-Writes valid g.shared here own home ends in
    let s₁ : Shared = record {
      online_clients_set = fd_update false own g.shared.online_clients_set;
      usernames_by_fd_arr = g.shared.usernames_by_fd_arr;
      usernames_ht = some r.1;
      is_broadcasting = false;
    } in
    let (r', run', w') = start_removing-Writes w.valid s₁ refl own (home-Writes name home w) ends in
    let same : (own == own) ≡ true = ground arith in
    (
      record {
        online_clients_set = fd_update false own s₁.online_clients_set;
        usernames_by_fd_arr = g.shared.usernames_by_fd_arr;
        usernames_ht = some r'.1;
        is_broadcasting = false;
      },
      r'.1,
      rw (next, gather, run, next, gather, run', same),
      refl,
      w'.valid,
      ground (arith, w'.reads i (c_str name), text_equal_refl (c_str name)),
      rw same,
      refl,
    )

-- A text that does not fit the buffer for one message together with its sender's name is written
-- past the end of that buffer.
pub receive_message-too_long :
    (fd : ℕ) (bytes : List ℕ) (g : Gathered)
    → is_terminated (g.shared.usernames_by_fd_arr fd) ≡ true
    → is_terminated (filled bytes) ≡ true
    → edited_size
      < length (c_str (g.shared.usernames_by_fd_arr fd)) + length (c_str (filled bytes)) + 3
    → receive_message fd bytes g ≡ fault out_of_bounds
unfolding receive_message add_message
receive_message-too_long fd bytes g ends closes long =
    let name = c_str (g.shared.usernames_by_fd_arr fd) in
    let body = c_str (filled bytes) in
    let over : leb (length (name ++ b'>' ∷ b' ' ∷ body) + 1) edited_size ≡ false =
      ground (arith, length-append name (b'>' ∷ b' ' ∷ body)) in
    rw (ends, closes, over)
