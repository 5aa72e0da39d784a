-- ===== src/Server.antt =====
-- services/2_Broadcast-chat/src/utils/service_utils.c: how a service is started and closed. Memory is
-- given as addresses of which 0 is NULL, and the calls of the thread library by their statuses.
pub mod Start
pub mod Running
use cmy_message.Prelude.{
  ℕ, zero, suc, ◌+◌, List, [], ◌∷◌, ◌++◌, Bool, true, false, Option, none, some, Run, ok, fault,
  uninitialised, ◌>>=◌, ◌==◌, if◌then◌else◌, ℤ, pos, negsuc, is_neg,
}
use cmy_message.HashTable.{Table, given, hash_table_create}
use cmy_message.HashTable.Murmur.{murmur3_32_hash}
use cmy_message.Queue.{Ptr, null, size_thread_pool}
use cmy_message.Chat.{fd_setsize}
use cmy_message.Sockets.Creation.{is_zero}

abbrev pub close_server : ℕ
close_server = 1

-- The initialization ends the process, after it gave some memory back, or goes on.
pub data Setup (A : Type 0) : Type 0 where
  exit_failure : List Ptr → Setup A
  prepared : A → Setup A

abbrev pub or_exit : {A B : Type 0} → Setup A → (A → Setup B) → Setup B
or_exit (exit_failure freed) f = exit_failure freed
or_exit (prepared a) f = f a

-- What `malloc` gives for a mutex or a condition variable, and the status of its initialization.
pub record Resource : Type 0 where
  pub memory : Ptr
  pub init_status : ℤ

pub record Resources : Type 0 where
  pub thread_pool : Ptr
  pub condition_var : Resource
  pub mutex_queue : Resource
  pub mutex_quit_signal : Resource
  pub mutex_usernames_ht : Resource
  pub mutex_online_clients_set : Resource
  pub mutex_common_msg_buffer : Resource
  pub quit_signal : Ptr
  pub pthread_create : ℕ → ℤ

-- The fields of the server for its threads, and the threads of the pool that exist.
pub record Controls : Type 0 where
  pub p_thread_pool : Ptr
  pub p_condition_var : Ptr
  pub p_mutex_queue : Ptr
  pub p_mutex_quit_signal : Ptr
  pub p_mutex_usernames_ht : Ptr
  pub p_mutex_online_clients_set : Ptr
  pub p_mutex_common_msg_buffer : Ptr
  pub p_quit_signal : Ptr
  pub quit_signal_val : ℕ
  pub workers : List ℕ

unfoldable pub allocate : Ptr → Setup Ptr
allocate p = if p == null then exit_failure [] else prepared p

-- What could be allocated but not initialized is given back.
unfoldable pub initialize_resource : Resource → Setup Ptr
initialize_resource r =
    if r.memory == null
    then exit_failure []
    else (if is_zero r.init_status then prepared r.memory else exit_failure (r.memory ∷ []))

-- The loop over the threads from `i` on: a thread exists if its creation has status 0; a failure is
-- passed over.
unfoldable pub create_pool : (ℕ → ℤ) → ℕ → ℕ → List ℕ
create_pool pthread_create zero i = []
create_pool pthread_create (suc n) i =
    let more = create_pool pthread_create n (i + 1) in
    if is_zero (pthread_create i) then i ∷ more else more

unfoldable pub initialize_server_concurrency_and_thread_pool : Resources → Setup Controls
unfolding allocate initialize_resource create_pool
initialize_server_concurrency_and_thread_pool r = or_exit (allocate r.thread_pool) λ p_thread_pool.
    or_exit (initialize_resource r.condition_var) λ p_condition_var.
      or_exit (initialize_resource r.mutex_queue) λ p_mutex_queue.
        or_exit (initialize_resource r.mutex_quit_signal) λ p_mutex_quit_signal.
          or_exit (initialize_resource r.mutex_usernames_ht) λ p_mutex_usernames_ht.
            or_exit (initialize_resource r.mutex_online_clients_set) λ p_mutex_online_clients_set.
              or_exit (initialize_resource r.mutex_common_msg_buffer) λ p_mutex_common_msg_buffer.
                or_exit (allocate r.quit_signal) λ p_quit_signal. prepared (record {
                  p_thread_pool = p_thread_pool;
                  p_condition_var = p_condition_var;
                  p_mutex_queue = p_mutex_queue;
                  p_mutex_quit_signal = p_mutex_quit_signal;
                  p_mutex_usernames_ht = p_mutex_usernames_ht;
                  p_mutex_online_clients_set = p_mutex_online_clients_set;
                  p_mutex_common_msg_buffer = p_mutex_common_msg_buffer;
                  p_quit_signal = p_quit_signal;
                  quit_signal_val = 0;
                  workers = create_pool r.pthread_create size_thread_pool 0;
                })

unfoldable pub get_usernames_hash_table_ptr : Bool → Bool → Option (Table ℕ)
unfolding hash_table_create
get_usernames_hash_table_ptr malloc_ok calloc_ok =
    hash_table_create malloc_ok calloc_ok fd_setsize murmur3_32_hash (some given)

unfoldable pub get_set_of_clients_descriptors : Ptr → Option (ℕ → Bool)
get_set_of_clients_descriptors p = if p == null then none else some (λ fd. false)

-- What `pthread_join` has of the thread: the function ended without a return statement, or it
-- returned NULL or a pointer to a status.
pub data ThreadReturn : Type 0 where
  no_value returned_null : ThreadReturn
  returned : ℤ → ThreadReturn

unfoldable pub return_val : ThreadReturn → Run ℤ
return_val no_value = fault uninitialised
return_val returned_null = ok (negsuc 0)
return_val (returned v) = ok v

unfoldable pub join_thread_and_handle_errors : ℤ → ThreadReturn → Run ℤ
unfolding return_val
join_thread_and_handle_errors join_status p_thread_return_val =
    if is_neg join_status then ok join_status else return_val p_thread_return_val
