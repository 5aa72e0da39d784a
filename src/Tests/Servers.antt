-- ===== src/Tests/Servers.antt =====
-- Runs of the start of a service.
use cmy_message.Prelude.{zero, suc, [], ◌∷◌, true, none, some, pos}
use cmy_message.Queue.{Ptr}
use cmy_message.Sockets.{Store, af_inet}
use cmy_message.Server.{Resource, Resources, Controls}
use cmy_message.Server.Start.{Listener, Memory}
use cmy_message.Tests.Queues.{malloc, accepted, two_turns, one_client}

abbrev there : Ptr → Resource
there p = record { memory = p; init_status = pos 0 }

-- The second thread of the pool cannot be created.
abbrev resources : Resources
resources = record {
  thread_pool = 8;
  condition_var = there 16;
  mutex_queue = there 24;
  mutex_quit_signal = there 32;
  mutex_usernames_ht = there 40;
  mutex_online_clients_set = there 48;
  mutex_common_msg_buffer = there 56;
  quit_signal = 64;
  pthread_create = λ i. elim i [ zero ↦ pos 0 | suc zero ↦ pos 11 | suc (suc n) ↦ pos 0 ];
}

abbrev controls : Controls
controls = record {
  p_thread_pool = 8;
  p_condition_var = 16;
  p_mutex_queue = 24;
  p_mutex_quit_signal = 32;
  p_mutex_usernames_ht = 40;
  p_mutex_online_clients_set = 48;
  p_mutex_common_msg_buffer = 56;
  p_quit_signal = 64;
  quit_signal_val = 0;
  workers = 0 ∷ 2 ∷ [];
}

abbrev listener : Listener
listener = record {
  creation_status = pos 0;
  join_status = pos 0;
  malloc = malloc;
  memory = λ c. accepted;
  connections = two_turns;
  queue = one_client;
}

abbrev memory : Memory
memory = record { table_ok = true; array_ok = true; online_set = 72 }

abbrev bound : Store
bound = record {
  socket_t = record {
    sock_fd = some (pos 3);
    is_server = some true;
    is_ipv4 = some true;
    addr_u = some 96;
    p_addr_len = some 128;
    port = some 9034;
    p_service_func = some 160;
  };
  address = some (record { family = af_inet; host = none; port = 9034 });
  addr_len = some 8;
  freed = [];
  closed = [];
}
