-- ===== src/Tests/Chats.antt =====
-- Runs of the dialogue for a name and of the rounds of the chat.
use mathlib.Core.List.{flatten}
use cmy_message.Prelude.{
  ℕ, List, [], ◌∷◌, ◌++◌, Bool, true, false, none, some, ok, ◌≡◌, refl, arith, pos, set, ◌==◌,
}
use cmy_message.CString.{Object, c_str, text_equal}
use cmy_message.HashTable.{Chain, Table}
use cmy_message.HashTable.Chain.{find}
use cmy_message.HashTable.Valid.{view}
use cmy_message.HashTable.Update.{Writes}
use cmy_message.Chat.{Shared, received}
use cmy_message.Chat.Names.{
  how_can_we_call_you, username_accepted, assigned, ask_and_assign_username,
}
use cmy_message.Chat.Names.Assigned.{padded, named, IsText, ask-free}
use cmy_message.Chat.Names.Assigned.Cut.{cut, ask-cut}
use cmy_message.Chat.Broadcast.{broadcast_message_to_online_clients}
use cmy_message.Chat.Broadcast.Everyone.{AllHomed, message_to_each, broadcast-everyone}
use cmy_message.Chat.Gather.{next_set, next_ready}
use cmy_message.Chat.Gather.Messages.{IsReady}
use cmy_message.Ftp.Numbers.{codes}
use cmy_message.Tests.{
  long_name, stored, empty_table, long_table, empty_table-IsValid, long_table-IsValid,
}
use cmy_message.Tests.Hashes.{long_name-home, padded_bob-home, padded_longer-home, cut_long-home}

abbrev pub shared_of : Table ℕ → Shared
shared_of t = record {
  online_clients_set = λ i. false;
  usernames_by_fd_arr = λ i. long_name;
  usernames_ht = some t;
  is_broadcasting = true;
}

abbrev pub bob : List ℕ
bob = codes "bob"

abbrev pub nineteen : List ℕ
nineteen = codes "abcdefghijklmnopqrs"

pub bob-IsText : IsText bob
bob-IsText = (omega arith, (omega arith, (omega arith, tt)))

twenty-IsText : IsText (nineteen ++ b't' ∷ [])
twenty-IsText = search (arith)

pub nothing_there : (s : List ℕ) → view empty_table 0 s ≡ none
unfolding view find
nothing_there s = refl

ask-free_example :
    (r : Bool × Table ℕ) × (ask_and_assign_username true 5
        (received (bob ++ 10 ∷ []) ∷ [])
        (shared_of empty_table)
      ≡ ok (
          assigned
            (how_can_we_call_you ∷ username_accepted ∷ [])
            (padded bob)
            (named 5 (padded bob) r.1 (shared_of empty_table))))
    × Writes empty_table 0 bob (some 5) true r
ask-free_example =
    ask-free empty_table-IsValid (shared_of empty_table) refl 5 bob bob-IsText
      (padded_bob-home [] []) 10 [] (omega arith) (nothing_there bob)

pub nineteen-IsText : IsText nineteen
nineteen-IsText = search (arith)

abbrev pub entries : Chain ℕ
entries = stored long_name ∷ []

nineteen_taken : view long_table 0 nineteen ≡ some 7
unfolding view find c_str text_equal
nineteen_taken = refl

twenty_free : view long_table 0 (nineteen ++ b't' ∷ []) ≡ none
unfolding view find c_str text_equal
twenty_free = refl

ask-cut_example :
    ask_and_assign_username true 5
      (received ((nineteen ++ b't' ∷ []) ++ 10 ∷ []) ∷ [])
      (shared_of long_table)
    ≡ ok (
        assigned
          (how_can_we_call_you ∷ username_accepted ∷ [])
          (cut nineteen [])
          (named 5 (cut nineteen []) long_table (shared_of long_table)))
ask-cut_example =
    ask-cut nineteen b't' [] twenty-IsText refl (omega arith) long_table-IsValid
      (shared_of long_table) refl 5 10 [] (padded_longer-home entries []) twenty_free
      (cut_long-home entries []) nineteen_taken

pub long_table-AllHomed : AllHomed long_table 0 long_table.elements
long_table-AllHomed = ((long_name-home entries [], tt), (tt, tt))

abbrev pub common : Object
common = codes "bob> Hi" ++ 0 ∷ []

broadcast-everyone_example :
    broadcast_message_to_online_clients (some []) 2 common (shared_of long_table)
    ≡ ok (pos 0, some (set [] 1 0), message_to_each (codes "bob> Hi") (flatten long_table.elements))
unfolding c_str
broadcast-everyone_example =
    broadcast-everyone long_table-IsValid (codes "bob> Hi") [] common 2 (shared_of long_table) refl
      long_table-AllHomed refl (omega arith) (omega arith)

abbrev pub only_five : ℕ → Bool
only_five i = i == 5

pub five-IsReady : IsReady only_five 0 ((5, bob) ∷ [])
unfolding next_ready next_set
five-IsReady = (refl, refl)

abbrev pub nobody : ℕ → Bool
nobody i = false

pub nobody_ready : next_ready nobody 0 ≡ none
unfolding next_ready next_set
nobody_ready = refl
