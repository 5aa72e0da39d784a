-- ===== src/Chat/Names/Sections.antt =====
-- The parts of `ask_and_assign_username`, `accept_and_store_client_username` and the end of
-- `get_messages_from_active_clients` that a thread does while it holds a mutex, so that the threads of
-- several clients can take turns between them.
pub mod Stored
pub mod Homes
pub mod Consistent
pub mod Kept
pub mod Runs
pub mod Race
pub mod Ordered
pub mod Unique
pub mod Placed
pub mod Settled
pub mod Counted
pub mod Reached
use cmy_message.Prelude.{
  ℕ, List, [], ◌∷◌, ◌++◌, Bool, true, Option, none, some, Run, ok, fault, ◌>>=◌, ◌==◌, ◌≡◌, refl,
  if◌then◌else◌, ◌⊎◌, inl, inr,
}
use cmy_message.CString.{Object, strlen}
use cmy_message.HashTable.{hash_table_lookup, hash_table_delete_element}
use cmy_message.Chat.{Shared, start_removing_client_from_broadcast}
use cmy_message.Chat.Names.{
  sanitize, stored_name, insert_name, set_username, accept_and_store_client_username,
}

-- Where the thread of a client is: it waits for an answer, it has found the name in the buffer free,
-- it has inserted the name, the name stands in the array too, or the client has left.
pub data Desk : Type 0 where
  choosing gone : Desk
  found_free inserted named : Object → Desk

pub record Hall : Type 0 where
  pub shared : Shared
  pub desk : ℕ → Desk

abbrev pub seat : ℕ → Desk → (ℕ → Desk) → ℕ → Desk
seat fd d desks i = if i == fd then d else desks i

abbrev pub after_look_up : Object → Option ℕ → Desk
after_look_up buffer none = found_free buffer
after_look_up buffer (some other) = choosing

-- Under `p_mutex_usernames_ht`: is the answer of the client a name in the table?
unfoldable pub look_up_section : ℕ → List ℕ → Hall → Run Hall
look_up_section fd bytes h = do
  let buffer = sanitize bytes
  present ← hash_table_lookup h.shared.usernames_ht (some buffer)
  ok (record h { desk = seat fd (after_look_up buffer present) h.desk })

-- Under the same mutex, taken again: the name goes into the table.
unfoldable pub insert_section : ℕ → Object → Hall → Run Hall
insert_section fd buffer h = do
  len ← strlen buffer
  let name = stored_name buffer len
  table ← insert_name true fd name h.shared.usernames_ht
  ok (record {
    shared = record h.shared { usernames_ht = table };
    desk = seat fd (inserted name) h.desk;
  })

-- Under `g_mutex_server`: the name goes into the array of names.
unfoldable pub array_section : ℕ → Object → Hall → Hall
unfolding set_username
array_section fd name h = record {
  shared = set_username fd name h.shared;
  desk = seat fd (named name) h.desk;
}

-- Under `p_mutex_usernames_ht`, at the end of the broadcast: the name leaves the table.
unfoldable pub leave_section : ℕ → Object → Hall → Run Hall
leave_section fd name h = do
  (_, table) ← hash_table_delete_element h.shared.usernames_ht (some name)
  ok (record { shared = record h.shared { usernames_ht = table }; desk = seat fd gone h.desk })

-- `start_removing_client_from_broadcast` by the broadcasting thread, for its own client, which leaves, or
-- for another one, whose thread stays.
unfoldable pub remove_section : Bool → ℕ → Hall → Run Hall
remove_section own fd h = do
  (_, s) ← start_removing_client_from_broadcast fd h.shared
  ok (record { shared = s; desk = seat fd (if own then gone else h.desk fd) h.desk })
