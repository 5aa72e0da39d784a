-- ===== src/Chat/Session/Rounds.antt =====
-- How a session of a broadcasting thread starts, and the sessions that end in its first round.
use mathlib.Core.List.{flatten}
use cmy_message.Prelude.{
  ℕ, ◌+◌, ◌<◌, ◌≤◌, List, [], ◌∷◌, Bool, true, false, none, some, fault, out_of_bounds, ◌≡◌, ◌≢◌,
  refl, arith, leb, length,
}
use cmy_message.CString.{Object, c_str, is_terminated}
use cmy_message.HashTable.{Table}
use cmy_message.HashTable.Murmur.{murmur3_32_hash}
use cmy_message.HashTable.Valid.{IsValid}
use cmy_message.Chat.{buffer_size, Shared, fd_update}
use cmy_message.Chat.Gather.{common_size, next_ready, text_of}
use cmy_message.Chat.Gather.Messages.{Messages, answers, lines, total, Fits, IsReady, round-quiet}
use cmy_message.Chat.Gather.Short.{AllShort, round-undefined}
use cmy_message.Chat.Session.{
  welcome_msg, send_customized_welcome_message, Round, selected, rounds_loop,
  get_messages_from_active_clients,
}

-- The state in which a client broadcasts: it is online, and the flag is up.
abbrev pub broadcasting : ℕ → Shared → Shared
broadcasting own s = record s {
  online_clients_set = fd_update true own s.online_clients_set;
  is_broadcasting = true;
}

pub lines-broadcasting :
    (own : ℕ) (s : Shared) (ms : Messages) → lines (broadcasting own s) ms ≡ lines s ms
unfolding lines
lines-broadcasting own s [] = refl
lines-broadcasting own s ((fd, body) ∷ ms) = rw (lines-broadcasting own s ms)

pub Fits-broadcasting :
    (own : ℕ) (s : Shared) (ms : Messages) → Fits s ms → Fits (broadcasting own s) ms
Fits-broadcasting own s [] f = tt
Fits-broadcasting own s ((fd, body) ∷ ms) (plain, short, ends, one, f) =
    (plain, short, ends, one, Fits-broadcasting own s ms f)

module _ (own : ℕ) (name buffer : Object) (rounds : List Round) (s : Shared)
    (ends : is_terminated name ≡ true) (fits : length (welcome_msg (c_str name)) < buffer_size)
    (free : s.is_broadcasting ≡ false) where
  pub get_messages-start :
      get_messages_from_active_clients own name buffer rounds s
      ≡ rounds_loop own name buffer rounds
          ((own, welcome_msg (c_str name)) ∷ [])
          (broadcasting own s)
  unfolding get_messages_from_active_clients send_customized_welcome_message text_of
  get_messages-start =
      let room : leb (length (welcome_msg (c_str name)) + 1) buffer_size ≡ true = ground arith in
      rw (ends, room, free)

module _ (own : ℕ) (name buffer : Object) (s : Shared) (ends : is_terminated name ≡ true)
    (fits : length (welcome_msg (c_str name)) < buffer_size)
    (free : s.is_broadcasting ≡ false) where
  -- When no other thread broadcasts and the first `select` of a client with a name that fits the
  -- welcome times out, the function writes in front of the client's buffer.
  pub get_messages-quiet :
      (r : Round) (rounds : List Round) (ready : ℕ → Bool)
      → r.ready ≡ some ready
      → next_ready ready 0 ≡ none
      → get_messages_from_active_clients own name buffer (r ∷ rounds) s ≡ fault out_of_bounds
  unfolding rounds_loop selected
  get_messages-quiet r rounds ready answered quiet = rw (
    get_messages-start own name buffer (r ∷ rounds) s ends fits free,
    answered,
    round-quiet own ready r.answers buffer (broadcasting own s) quiet,
  )

  -- With no other broadcaster, the hash function of the program, and a valid table that has a
  -- client and only names of fewer than nineteen characters, the first round of messages that fit
  -- is the last: instead of being sent, it reads past the end of a stored name.
  pub get_messages-undefined :
      (ready : ℕ → Bool) (ms : Messages) (quit : Bool) (rounds : List Round) {t : Table ℕ}
      → IsReady ready 0 ms
      → Fits s ms
      → length (lines s ms) < common_size
      → 0 < total ms
      → total ms ≤ buffer_size
      → s.usernames_ht ≡ some t
      → IsValid t
      → t.p_hash_func ≡ murmur3_32_hash
      → AllShort t.elements
      → flatten t.elements ≢ []
      → get_messages_from_active_clients own name buffer
          (record { ready = some ready; answers = answers ms; quit_signal = quit } ∷ rounds)
          s
        ≡ fault out_of_bounds
  unfolding rounds_loop selected
  get_messages-undefined ready ms quit rounds rs f room lo hi here valid hashed all_short
        some_client =
      let turn : Round = record { ready = some ready; answers = answers ms; quit_signal = quit } in
      let b = broadcasting own s in
      rw (
        get_messages-start own name buffer (turn ∷ rounds) s ends fits free,
        round-undefined own ready ms buffer b rs (Fits-broadcasting own s ms f)
            (rw (lines-broadcasting own s ms) room) lo hi here valid hashed all_short some_client,
      )
