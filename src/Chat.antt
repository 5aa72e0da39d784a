-- ===== src/Chat.antt =====
-- services/2_Broadcast-chat/src/broadcast_chat_service.c: the state that the threads of the chat
-- share, and the changes that the service makes to it under its mutexes.
-- The table maps user names to clients; of a client's structure the service reads through the table
-- only `sock_fd`, so that a client stands there as its socket descriptor.
pub mod Names
pub mod Broadcast
pub mod Gather
pub mod Monitor
pub mod Session
pub mod Start
use cmy_message.Prelude.{
  ℕ, ◌+◌, ◌-◌, List, [], ◌∷◌, ◌++◌, Bool, true, false, Option, none, some, Run, ok, ◌>>=◌, ◌==◌,
  if◌then◌else◌, ℤ, pos, length, take, drop, set, replicate,
}
use cmy_message.CString.{Object}
use cmy_message.HashTable.{Table, hash_table_delete_element}

abbrev pub buffer_size : ℕ
buffer_size = 1500

abbrev pub max_username_length : ℕ
max_username_length = 20

abbrev pub max_num_clients : ℕ
max_num_clients = 5

abbrev pub default_max_num_clients : ℕ
default_max_num_clients = 30

-- `FD_SETSIZE` is the size of the table as well.
abbrev pub fd_setsize : ℕ
fd_setsize = 1024

-- The set of online descriptors, the names by descriptor, the table and the flag of the thread
-- control structure.
pub record Shared : Type 0 where
  pub online_clients_set : ℕ → Bool
  pub usernames_by_fd_arr : ℕ → Object
  pub usernames_ht : Option (Table ℕ)
  pub is_broadcasting : Bool

-- What `recv` reports.
pub data Recv : Type 0 where
  failed closed : Recv
  received : List ℕ → Recv

-- What a client is sent: the descriptor and the bytes.
abbrev pub Sent : Type 0
Sent = List (ℕ × List ℕ)

-- A buffer of `buffer_size` bytes, cleared and then filled by `recv`.
unfoldable pub filled : List ℕ → Object
filled bytes = bytes ++ replicate (buffer_size - length bytes) 0

-- `FD_CLR` and `FD_SET` on the shared set.
unfoldable pub fd_update : Bool → ℕ → (ℕ → Bool) → ℕ → Bool
fd_update on fd s i = if i == fd then on else s i

-- The set of ready sockets is passed by value, so that only the online set changes.
unfoldable pub remove_socket_from_sets : ℕ → Shared → Shared
unfolding fd_update
remove_socket_from_sets fd s = record s {
  online_clients_set = fd_update false fd s.online_clients_set;
}

-- The client goes offline, its name leaves the table, and another thread may broadcast.
unfoldable pub start_removing_client_from_broadcast : ℕ → Shared → Run (ℤ × Shared)
unfolding remove_socket_from_sets
start_removing_client_from_broadcast fd s = do
  let s₁ = remove_socket_from_sets fd s
  (_, table) ← hash_table_delete_element s₁.usernames_ht (some (s₁.usernames_by_fd_arr fd))
  ok (pos 0, record s₁ { usernames_ht = table; is_broadcasting = false })
