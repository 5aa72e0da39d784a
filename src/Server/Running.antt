-- ===== src/Server/Running.antt =====
-- What has been set up when a service runs, and how its start ends.
use mathlib.Core.Path.{subst}
use cmy_message.Prelude.{ℕ, [], Bool, true, false, ◌==◌, ℤ, ◌≡◌, ◌≢◌, refl, arith, replicate}
use cmy_message.HashTable.{given}
use cmy_message.HashTable.Murmur.{murmur3_32_hash}
use cmy_message.Queue.{Ptr, null, size_thread_pool}
use cmy_message.Chat.{fd_setsize}
use cmy_message.Sockets.Creation.{is_zero}
use cmy_message.Server.{
  Setup, exit_failure, prepared, or_exit, Resource, Resources, Controls, allocate,
  initialize_resource, create_pool, initialize_server_concurrency_and_thread_pool,
}
use cmy_message.Server.Start.{Listener, Running}

-- What holds of the controls, unless the initialization ends the process.
abbrev pub Prepares : (Controls → Type 0) → Setup Controls → Type 0
Prepares P (exit_failure freed) = Unit
Prepares P (prepared c) = P c

module _ (P : Controls → Type 0) (f : Ptr → Setup Controls)
    (k : (p : Ptr) → p ≢ null → Prepares P (f p)) where
  given-Prepares : (p : Ptr) (b : Bool) → (p == null) ≡ b → Prepares P (or_exit (allocate p) f)
  unfolding allocate
  given-Prepares p true e = rw e tt
  given-Prepares p false e = rw e (k p (ground arith))

  allocate-Prepares : (p : Ptr) → Prepares P (or_exit (allocate p) f)
  allocate-Prepares p = given-Prepares p (p == null) refl

  tested-Prepares :
      (r : Resource) (b done : Bool)
      → (r.memory == null) ≡ b
      → is_zero r.init_status ≡ done
      → Prepares P (or_exit (initialize_resource r) f)
  unfolding initialize_resource
  tested-Prepares r true done e d = rw e tt
  tested-Prepares r false false e d = rw (e, d) tt
  tested-Prepares r false true e d = rw (e, d) (k r.memory (ground arith))

  resource-Prepares : (r : Resource) → Prepares P (or_exit (initialize_resource r) f)
  resource-Prepares r = tested-Prepares r (r.memory == null) (is_zero r.init_status) refl refl

-- Every mutex, the condition variable and the signal are there, the signal is down, and the threads
-- are those that could be created.
pub record IsReady (pthread_create : ℕ → ℤ) (c : Controls) : Type 0 where
  pub thread_pool : c.p_thread_pool ≢ null
  pub condition_var : c.p_condition_var ≢ null
  pub mutex_queue : c.p_mutex_queue ≢ null
  pub mutex_quit_signal : c.p_mutex_quit_signal ≢ null
  pub mutex_usernames_ht : c.p_mutex_usernames_ht ≢ null
  pub mutex_online_clients_set : c.p_mutex_online_clients_set ≢ null
  pub mutex_common_msg_buffer : c.p_mutex_common_msg_buffer ≢ null
  pub quit_signal : c.p_quit_signal ≢ null
  pub down : c.quit_signal_val ≡ 0
  pub threads : c.workers ≡ create_pool pthread_create size_thread_pool 0

controls-Prepares :
    (r : Resources)
    → Prepares (IsReady r.pthread_create) (initialize_server_concurrency_and_thread_pool r)
unfolding initialize_server_concurrency_and_thread_pool
controls-Prepares r =
    let P = IsReady r.pthread_create in
    allocate-Prepares P _
      (λ pool a.
        resource-Prepares P _
          (λ var b.
            resource-Prepares P _
              (λ queue c.
                resource-Prepares P _
                  (λ quit d.
                    resource-Prepares P _
                      (λ names e.
                        resource-Prepares P _
                          (λ online f.
                            resource-Prepares P _
                              (λ common g.
                                allocate-Prepares P _
                                  (λ signal h. record {
                                    thread_pool = a;
                                    condition_var = b;
                                    mutex_queue = c;
                                    mutex_quit_signal = d;
                                    mutex_usernames_ht = e;
                                    mutex_online_clients_set = f;
                                    mutex_common_msg_buffer = g;
                                    quit_signal = h;
                                    down = refl;
                                    threads = refl;
                                  })
                                  r.quit_signal)
                              r.mutex_common_msg_buffer)
                          r.mutex_online_clients_set)
                      r.mutex_usernames_ht)
                  r.mutex_quit_signal)
              r.mutex_queue)
          r.condition_var)
      r.thread_pool

-- If the initialization does not end the process, every mutex, the condition variable, the pool and
-- the signal have memory, the signal is down, and the threads are those whose creation succeeded.
initialize-IsReady :
    (r : Resources) {c : Controls}
    → initialize_server_concurrency_and_thread_pool r ≡ prepared c
    → IsReady r.pthread_create c
initialize-IsReady r h = subst (Prepares (IsReady r.pthread_create)) h (controls-Prepares r)

-- What the threads share from the start: an empty table of names, no client online, the controls.
abbrev pub at_start : Controls → Running
at_start c = record {
  usernames_ht = record {
    size = fd_setsize;
    elements = replicate fd_setsize [];
    p_hash_func = murmur3_32_hash;
    p_cleanup_func = given;
  };
  online_clients_set = λ fd. false;
  controls = c;
}
