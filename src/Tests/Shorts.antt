-- ===== src/Tests/Shorts.antt =====
-- A session with a client whose name is short.
use mathlib.Core.List.{flatten}
use cmy_message.Prelude.{some, ℕ, [], ◌∷◌, ◌++◌, false, fault, out_of_bounds, ◌≡◌, ◌≢◌, refl, arith}
use cmy_message.CString.{c_str, is_terminated}
use cmy_message.HashTable.{Table}
use cmy_message.HashTable.Chain.{count}
use cmy_message.HashTable.Valid.{IsValid}
use cmy_message.Chat.{Shared}
use cmy_message.Chat.Gather.Messages.{answers, lines, total}
use cmy_message.Chat.Gather.Short.{AllShort}
use cmy_message.Chat.Session.{get_messages_from_active_clients}
use cmy_message.Chat.Session.Rounds.{get_messages-undefined}
use cmy_message.Tests.{long_name, stored, table_of}
use cmy_message.Tests.Chats.{shared_of, bob, bob-IsText, only_five, five-IsReady}

abbrev bob_table : Table ℕ
bob_table = table_of (stored (bob ++ 0 ∷ []) ∷ []) []

bob_table-IsValid : IsValid bob_table
unfolding count is_terminated
bob_table-IsValid = record {
  width = refl;
  terminated = ((refl, tt), (tt, tt));
  once = λ s. (ground arith, (omega arith, tt));
}

bob_table-AllShort : AllShort bob_table.elements
bob_table-AllShort = ((omega arith, tt), (tt, tt))

some_client : flatten bob_table.elements ≢ []
unfolding flatten
some_client e = cc

abbrev bob_online : Shared
bob_online = record (shared_of bob_table) { is_broadcasting = false }

get_messages-undefined_example :
    get_messages_from_active_clients 5 long_name []
      (record { ready = some only_five; answers = answers ((5, bob) ∷ []); quit_signal = false }
        ∷ [])
      bob_online
    ≡ fault out_of_bounds
unfolding lines total is_terminated c_str
get_messages-undefined_example =
    get_messages-undefined 5 long_name [] bob_online refl (omega arith) refl only_five
      ((5, bob) ∷ []) false [] five-IsReady (bob-IsText, omega arith, refl, omega arith, tt)
      (omega arith) (omega arith) (omega arith) refl bob_table-IsValid refl bob_table-AllShort
      some_client
