-- ===== src/Chat/Start.antt =====
-- `get_thread_control_struct_ptr`, `get_broadcast_controls_struct_ptr` and
-- `prepare_client_for_broadcast_and_start`, the function that the service runs for a client. What
-- `malloc` gives are addresses of which 0 is NULL.
pub mod Newcomers
use cmy_message.Prelude.{
  ℕ, zero, suc, ◌+◌, List, [], ◌∷◌, ◌++◌, Bool, true, false, Option, none, some, Run, ok, ◌>>=◌,
  ◌==◌, ◌||◌, if◌then◌else◌, replicate, map,
}
use cmy_message.CString.{Object}
use cmy_message.Queue.{Ptr, null}
use cmy_message.Clients.{Client, free_client_memory, prepare_client_structs_for_data}
use cmy_message.Chat.{fd_setsize, buffer_size, Shared, Recv, Sent, fd_update}
use cmy_message.Chat.Names.{
  Prompt, Outcome, assigned, process_exit, waiting, ask_and_assign_username,
}
use cmy_message.Chat.Session.{
  Round, Finished, returned, awaiting, exit_failure, get_messages_from_active_clients,
}

-- The memory for the controls: the structures, the array of names and each name.
pub record Memory : Type 0 where
  pub controls : Ptr
  pub names_array : Ptr
  pub name : ℕ → Ptr
  pub thread_control : Ptr
  pub condition_var : Ptr
  pub broadcasting_bool : Ptr
  pub prepared_bool : Ptr

-- The pointers to the two Booleans are assigned to Booleans, and then the Booleans are false.
pub record ThreadControl : Type 0 where
  pub p_broadcast_condition_var : Ptr
  pub is_broadcasting : Bool
  pub did_prepare_service_data : Bool

pub record Controllers : Type 0 where
  pub usernames_by_fd_arr : List Ptr
  pub p_threads_t : ThreadControl

unfoldable pub get_thread_control_struct_ptr : Memory → Option ThreadControl
get_thread_control_struct_ptr m =
    if m.thread_control == null
    then none
    else if m.condition_var == null
    then none
    else if m.broadcasting_bool == null
    then none
    else if m.prepared_bool == null
    then none
    else some (record {
      p_broadcast_condition_var = m.condition_var;
      is_broadcasting = false;
      did_prepare_service_data = false;
    })

-- The memory of the names from `i` on, given up at the first that is NULL.
unfoldable pub allocate_names : (ℕ → Ptr) → ℕ → ℕ → Option (List Ptr)
allocate_names name zero i = some []
allocate_names name (suc n) i =
    let rest = allocate_names name n (i + 1) in
    if name i == null then none else (elim rest [ none ↦ none | some ps ↦ some (name i ∷ ps) ])

unfoldable pub compact : List Ptr → Option ThreadControl → Option Controllers
compact names none = none
compact names (some threads) = some (record { usernames_by_fd_arr = names; p_threads_t = threads })

unfoldable pub with_names : Memory → Option (List Ptr) → Option Controllers
unfolding get_thread_control_struct_ptr compact
with_names m none = none
with_names m (some names) = compact names (get_thread_control_struct_ptr m)

unfoldable pub get_broadcast_controls_struct_ptr : Memory → Option Controllers
unfolding allocate_names with_names
get_broadcast_controls_struct_ptr m =
    if m.controls == null
    then none
    else (if m.names_array == null then none else with_names m (allocate_names m.name fd_setsize 0))

-- What the function keeps from call to call: whether the controls are allocated, and the mutex.
pub record Statics : Type 0 where
  pub did_first_allocation : Bool
  pub g_mutex_server : Bool

-- How a call ends: it waits for the mutex, it returns -1, the client has not named itself, the process
-- exits, it waits in the broadcast that it entered in the given state, or it is through, with what
-- was given back.
pub data Served : Type 0 where
  blocked_on_mutex failed naming : Served
  exited : ℕ → Served
  in_broadcast : Sent → Shared → Served
  through : Sent → List Ptr → Shared → Served

-- What the function meets: the memory of the client, what it sends while it names itself, and the
-- rounds.
pub record Arrival : Type 0 where
  pub converted : Bool
  pub name_memory : Ptr
  pub buffer_memory : Ptr
  pub client : Client
  pub own : ℕ
  pub answers : List Recv
  pub rounds : List Round

-- A client that waits was put into the set of the online clients before.
unfoldable pub after_session : ℕ → Client → Shared → Finished → Run Served
after_session own c entered (awaiting sent) = ok (
    in_broadcast sent
      (record entered { online_clients_set = fd_update true own entered.online_clients_set }))
after_session own c entered (exit_failure sent) = ok (exited 1)
after_session own c entered (returned sent s) = do
  (freed, gone) ← free_client_memory (some c)
  ok (through sent freed s)

unfoldable pub after_naming : Arrival → Client → Outcome → Run Served
unfolding after_session
after_naming a c waiting = ok naming
after_naming a c (process_exit status) = ok (exited status)
after_naming a c (assigned prompts name s) =
    get_messages_from_active_clients a.own name (replicate buffer_size 0) a.rounds s
    >>= after_session a.own c s

-- The statuses of `ask_and_assign_username` and of the broadcast are never negative when they
-- return.
unfoldable pub start_prepared : Arrival → Shared → List Ptr × Option Client → Run Served
unfolding after_naming
start_prepared a s (freed, none) = ok failed
start_prepared a s (freed, some c) =
    ask_and_assign_username true a.own a.answers s >>= after_naming a c

-- As it is meant, the preparation gives the structure that it prepared, for which the code has no
-- return statement.
unfoldable pub start_client : Arrival → Shared → Run Served
unfolding start_prepared
start_client a s =
    prepare_client_structs_for_data a.converted a.name_memory a.buffer_memory (some a.client)
    >>= start_prepared a s

-- The mutex is given back only if the first allocation succeeds or was done before.
unfoldable pub first_allocation : Memory → Statics → Option Statics
unfolding get_broadcast_controls_struct_ptr
first_allocation m st =
    if st.did_first_allocation then some st else (elim (get_broadcast_controls_struct_ptr m) [
      | none ↦ none
      | some controls ↦ some (record st { did_first_allocation = true })
    ])

unfoldable pub start_allocated :
    Statics → Arrival → Shared → Option Statics → Run (Served × Statics)
unfolding start_client
start_allocated st a s none = ok (failed, record st { g_mutex_server = true })
start_allocated st a s (some st') = do served ← start_client a s; ok (served, st')

unfoldable pub prepare_client_for_broadcast_and_start :
    Memory → Arrival → Shared → Statics → Run (Served × Statics)
unfolding first_allocation start_allocated
prepare_client_for_broadcast_and_start m a s st =
    if st.g_mutex_server
    then ok (blocked_on_mutex, st)
    else start_allocated st a s (first_allocation m st)
