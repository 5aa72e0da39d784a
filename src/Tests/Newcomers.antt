-- ===== src/Tests/Newcomers.antt =====
-- Runs of clients that come to the broadcast.
use cmy_message.Prelude.{ℕ, [], ◌∷◌, ◌++◌, Bool, true, none, some, ok, ◌≡◌, refl, arith}
use cmy_message.Queue.{null}
use cmy_message.Clients.{Client}
use cmy_message.HashTable.{Table}
use cmy_message.HashTable.Update.{Writes}
use cmy_message.Chat.{received, fd_update}
use cmy_message.Chat.Names.Assigned.{padded, named}
use cmy_message.Chat.Session.{welcome_msg}
use cmy_message.Chat.Start.{Memory, in_broadcast, Arrival, prepare_client_for_broadcast_and_start}
use cmy_message.Chat.Start.Newcomers.{unlocked, prepare_client-waits}
use cmy_message.Tests.{empty_table, empty_table-IsValid}
use cmy_message.Tests.Hashes.{padded_bob-home}
use cmy_message.Tests.Chats.{shared_of, bob, bob-IsText, nothing_there}

abbrev out_of_memory : Memory
out_of_memory = record {
  controls = null;
  names_array = 8;
  name = λ i. 16;
  thread_control = 24;
  condition_var = 32;
  broadcasting_bool = 40;
  prepared_bool = 48;
}

abbrev client : Client
client = record { p_addr = some 96; p_addr_len = some 104; buffer = none; name = none }

abbrev arrival : Arrival
arrival = record {
  converted = true;
  name_memory = 64;
  buffer_memory = 72;
  client = client;
  own = 5;
  answers = received (bob ++ 10 ∷ []) ∷ [];
  rounds = [];
}

prepare_client-waits_example :
    (r : Bool × Table ℕ) × (prepare_client_for_broadcast_and_start out_of_memory arrival
        (shared_of empty_table)
        (unlocked true)
      ≡ ok (
        in_broadcast
            ((5, welcome_msg bob) ∷ [])
            (record (named 5 (padded bob) r.1 (shared_of empty_table)) {
              online_clients_set = fd_update true 5 (shared_of empty_table).online_clients_set;
            }),
        unlocked true,
      ))
    × Writes empty_table 0 bob (some 5) true r
prepare_client-waits_example =
    prepare_client-waits empty_table-IsValid (shared_of empty_table) refl 5 bob bob-IsText
      (padded_bob-home [] []) (omega arith) (nothing_there bob) out_of_memory 64 72 client 10 [] []
      (λ e. omega arith) (λ e. omega arith) refl
