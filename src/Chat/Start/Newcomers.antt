-- ===== src/Chat/Start/Newcomers.antt =====
-- What becomes of clients that come to the broadcast.
use cmy_message.Prelude.{
  ℕ, ◌+◌, ◌<◌, List, [], ◌∷◌, ◌++◌, Bool, true, false, none, some, ok, ◌==◌, ◌≡◌, ◌≢◌, arith, leb,
  length, length-append,
}
use cmy_message.CString.{Object}
use cmy_message.Queue.{Ptr, null}
use cmy_message.HashTable.{Table, hash_table_calc_index_with_hash}
use cmy_message.HashTable.Valid.{IsValid, view}
use cmy_message.HashTable.Update.{Writes}
use cmy_message.Clients.{Client, prepare_client_structs_for_data}
use cmy_message.Chat.{max_username_length, buffer_size, Shared, Recv, received, fd_update}
use cmy_message.Chat.Names.{set_username}
use cmy_message.Chat.Names.Assigned.{IsText, padded, padded-c_str, named, ask-free}
use cmy_message.Chat.Gather.{text_of}
use cmy_message.Chat.Session.{
  Round, awaiting, welcome_msg, send_customized_welcome_message, get_messages_from_active_clients,
}
use cmy_message.Chat.Start.{
  Memory, Statics, in_broadcast, after_session, after_naming, start_prepared, start_client,
  first_allocation, start_allocated, prepare_client_for_broadcast_and_start,
}

abbrev pub unlocked : Bool → Statics
unlocked done = record { did_first_allocation = done; g_mutex_server = false }

module _ (own : ℕ) (text : List ℕ) (plain : IsText text) (short : length text < max_username_length)
    (s : Shared) (busy : s.is_broadcasting ≡ true) where
  waits-welcomed :
      (buffer : Object) (rounds : List Round)
      → get_messages_from_active_clients own (padded text) buffer rounds s
        ≡ ok (awaiting ((own, welcome_msg text) ∷ []))
  unfolding get_messages_from_active_clients send_customized_welcome_message text_of
  waits-welcomed buffer rounds =
      let (same, ends) = padded-c_str text plain (omega arith) in
      let tail : length (text ++ 33 ∷ 10 ∷ []) ≡ length text + 2 =
        length-append text (33 ∷ 10 ∷ []) in
      let room : leb (length (welcome_msg text) + 1) buffer_size ≡ true = ground (arith, tail) in
      rw (ends, same, room, busy)

module _ {t : Table ℕ} (valid : IsValid t) (s : Shared) (here : s.usernames_ht ≡ some t) (own : ℕ)
    (text : List ℕ) (plain : IsText text) {i : ℕ}
    (home : hash_table_calc_index_with_hash t (padded text) ≡ ok i)
    (short : length text < max_username_length) (free : view t i text ≡ none) where
  -- With the missing return of the preparation read as the prepared structure: a client that
  -- comes while another thread broadcasts, after the controls were allocated, with memory, and
  -- names itself by a free name of fewer than twenty characters, is stored in the valid table
  -- under this name, every other name being as before, is welcomed, is put into the set of the
  -- online clients, no other client of the set being touched, and waits for its turn.
  pub prepare_client-waits :
      (m : Memory) (name buffer : Ptr) (c : Client) (x : ℕ) (answers : List Recv)
      (rounds : List Round)
      → name ≢ null
      → buffer ≢ null
      → s.is_broadcasting ≡ true
      → (r : Bool × Table ℕ) × (prepare_client_for_broadcast_and_start m
            (record {
              converted = true;
              name_memory = name;
              buffer_memory = buffer;
              client = c;
              own = own;
              answers = received (text ++ x ∷ []) ∷ answers;
              rounds = rounds;
            })
            s
            (unlocked true)
          ≡ ok (
            in_broadcast ((own, welcome_msg text) ∷ []) (record (named own (padded text) r.1 s) {
              online_clients_set = fd_update true own s.online_clients_set;
            }),
            unlocked true,
          ))
        × Writes t i text (some own) true r
  unfolding prepare_client_for_broadcast_and_start first_allocation start_allocated start_client
      prepare_client_structs_for_data start_prepared after_naming after_session set_username
  prepare_client-waits m name buffer c x answers rounds n b busy =
      let (r, run, w) = ask-free valid s here own text plain home x answers short free in
      let n' : (name == null) ≡ false = ground arith in
      let b' : (buffer == null) ≡ false = ground arith in
      let s' = named own (padded text) r.1 s in
      (r, rw (n', b', run, waits-welcomed own text plain short s' busy _ rounds), w)
