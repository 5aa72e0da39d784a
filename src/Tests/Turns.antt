-- ===== src/Tests/Turns.antt =====
-- Runs of whole sessions of a broadcasting thread.
use mathlib.Core.List.{flatten}
use cmy_message.Prelude.{
  [], ◌∷◌, ◌++◌, map, Bool, true, false, none, some, Run, ok, fault, out_of_bounds, ◌≡◌, refl,
  arith, List, ℕ,
}
use cmy_message.CString.{c_str, is_terminated}
use cmy_message.HashTable.{Table}
use cmy_message.HashTable.Chain.{is_some}
use cmy_message.HashTable.Valid.{view}
use cmy_message.HashTable.Update.{Writes}
use cmy_message.Chat.{Shared}
use cmy_message.Chat.Broadcast.Everyone.{message_to_each}
use cmy_message.Chat.Gather.Messages.{lines, total}
use cmy_message.Chat.Session.{
  welcome_msg, Round, Finished, returned, awaiting, exit_failure, get_messages_from_active_clients,
}
use cmy_message.Chat.Session.Rounds.{get_messages-quiet}
use cmy_message.Chat.Session.Turns.{Exchange, turn_of, IsGathered, texts, get_messages-turns}
use cmy_message.Tests.{long_name, long_table, long_table-IsValid}
use cmy_message.Tests.Hashes.{long_name-home}
use cmy_message.Tests.Chats.{
  shared_of, bob, bob-IsText, nobody, nobody_ready, only_five, five-IsReady, entries,
  long_table-AllHomed,
}

-- A client that no thread broadcasts for yet.
abbrev idle : Shared
idle = record (shared_of long_table) { is_broadcasting = false }

get_messages-quiet_example :
    get_messages_from_active_clients 5 long_name []
      (record { ready = some nobody; answers = []; quit_signal = false } ∷ [])
      idle
    ≡ fault out_of_bounds
unfolding is_terminated c_str
get_messages-quiet_example =
    get_messages-quiet 5 long_name [] idle refl (omega arith) refl
      (record { ready = some nobody; answers = []; quit_signal = false }) [] nobody refl
      nobody_ready

abbrev bobs : Exchange
bobs = record { ready = only_five; messages = (5, bob) ∷ [] }

bobs-IsGathered : IsGathered idle bobs
unfolding lines total is_terminated c_str
bobs-IsGathered = record {
  all_ready = five-IsReady;
  all_fit = (bob-IsText, omega arith, refl, omega arith, tt);
  common = omega arith;
  some_bytes = omega arith;
  few_bytes = omega arith;
}

-- Two rounds, and then a third one.
get_messages-turns_example :
    let sent =
      (5, welcome_msg (c_str long_name))
      ∷ texts idle (flatten long_table.elements) (bobs ∷ bobs ∷ []) in
    let run : List Round → Run Finished = λ next.
      get_messages_from_active_clients 5 long_name []
        (map (turn_of false) (bobs ∷ bobs ∷ []) ++ next)
        idle in
    (run [] ≡ ok (awaiting sent))
    × (run (record { ready = none; answers = []; quit_signal = false } ∷ [])
        ≡ ok (exit_failure sent))
    × (s : Shared) × (r : Bool × Table ℕ) × (run (turn_of true bobs ∷ [])
        ≡ ok (
            returned
              (sent ++ message_to_each (lines idle bobs.messages) (flatten long_table.elements))
              s))
    × (s.usernames_ht ≡ some r.1)
    × Writes long_table 0 (c_str long_name) none (is_some (view long_table 0 (c_str long_name))) r
    × (s.is_broadcasting ≡ true)
unfolding is_terminated c_str
get_messages-turns_example =
    get_messages-turns 5 long_name [] long_table-IsValid long_table-AllHomed idle (bobs ∷ bobs ∷ [])
      bobs [] false [] refl (omega arith) refl refl (bobs-IsGathered, (bobs-IsGathered, tt))
      bobs-IsGathered (long_name-home entries [])
