-- ===== src/Chat/Names.antt =====
-- `ask_and_assign_username` and `accept_and_store_client_username`.
pub mod Assigned
pub mod Sections
use cmy_message.Prelude.{
  ℕ, ◌+◌, ◌-◌, List, [], ◌∷◌, ◌++◌, Bool, true, false, Option, none, some, Run, ok, fault, ◌>>=◌,
  ◌==◌, leb, if◌then◌else◌, length, take, drop, set, replicate,
}
use cmy_message.CString.{Object, c_str, strlen}
use cmy_message.HashTable.{Table, hash_table_lookup, hash_table_insert}
use cmy_message.Chat.{
  buffer_size, max_username_length, Shared, Recv, failed, closed, received, Sent, filled,
}

-- The texts that the client is sent while it chooses a name.
pub data Prompt : Type 0 where
  how_can_we_call_you username_accepted username_present : Prompt

-- How the dialogue ends: the name is stored, the whole process exits with a status, or the client
-- has not answered yet.
pub data Outcome : Type 0 where
  assigned : List Prompt → Object → Shared → Outcome
  process_exit : ℕ → Outcome
  waiting : Outcome

-- `strncpy(dst, src, n)` at most `n` bytes, padded by zeros behind the terminator.
unfoldable pub strncpy : Object → Object → ℕ → Object
strncpy dst src n =
    let text = take n (c_str src) in text ++ replicate (n - length text) 0 ++ drop n dst

-- The buffer with the line end, or what else came last, overwritten by the terminator.
unfoldable pub sanitize : List ℕ → Object
unfolding filled
sanitize bytes =
    if leb (length bytes) buffer_size then set (filled bytes) (length bytes - 1) 0 else filled bytes

-- The memory that `calloc(BUFFER_SIZE, 1)` gives for the name.
unfoldable pub name_memory : Object
name_memory = replicate buffer_size 0

-- The name is copied into its memory and cut to nineteen characters.
unfoldable pub stored_name : Object → ℕ → Object
unfolding strncpy
stored_name buffer len = set (strncpy name_memory buffer len) (max_username_length - 1) 0

-- The result of the insertion is not looked at.
unfoldable pub insert_name : Bool → ℕ → Object → Option (Table ℕ) → Run (Option (Table ℕ))
insert_name memory fd name none = ok none
insert_name memory fd name (some t) = do
  (_, t') ← hash_table_insert memory t (some name) (some fd)
  ok (some t')

unfoldable pub set_username : ℕ → Object → Shared → Shared
set_username fd name s = record s {
  usernames_by_fd_arr = λ i.
      if i == fd
      then strncpy (s.usernames_by_fd_arr fd) name max_username_length
      else s.usernames_by_fd_arr i;
}

unfoldable pub accept_and_store_client_username : Bool → ℕ → Object → Shared → Run (Object × Shared)
unfolding stored_name insert_name set_username
accept_and_store_client_username memory fd buffer s = do
  len ← strlen buffer
  let name = stored_name buffer len
  table ← insert_name memory fd name s.usernames_ht
  ok (name, set_username fd name (record s { usernames_ht = table }))

-- The loop over the client's answers, after `sent`.
unfoldable pub name_loop : Bool → ℕ → List Prompt → List Recv → Shared → Run Outcome
name_loop memory fd sent [] s = ok waiting
name_loop memory fd sent (failed ∷ answers) s = ok (process_exit 1)
name_loop memory fd sent (closed ∷ answers) s = ok (process_exit 0)
name_loop memory fd sent (received bytes ∷ answers) s =
    let again = name_loop memory fd (sent ++ username_present ∷ []) answers s in
    do
      let buffer = sanitize bytes
      present ← hash_table_lookup s.usernames_ht (some buffer)
      elim present [
        | some _ ↦ again
        | none ↦ do
          (name, s') ← accept_and_store_client_username memory fd buffer s
          ok (assigned (sent ++ username_accepted ∷ []) name s')
      ]

unfoldable pub ask_and_assign_username : Bool → ℕ → List Recv → Shared → Run Outcome
unfolding name_loop
ask_and_assign_username memory fd answers s =
    name_loop memory fd (how_can_we_call_you ∷ []) answers s
