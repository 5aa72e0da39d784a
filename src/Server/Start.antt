-- ===== src/Server/Start.antt =====
-- `listen_for_connections_on_separate_thread`, `start_accepting_incoming_connections`, `close_service`
-- and `start_service`, over the socket of Sockets and the listener of Pool.
use cmy_message.Prelude.{
  ℕ, List, Bool, true, none, some, Run, ok, fault, uninitialised, ◌>>=◌, ◌==◌, if◌then◌else◌, ℤ,
  pos, negsuc, is_neg,
}
use cmy_message.HashTable.{Table, Released, hash_table_destroy}
use cmy_message.Clients.{Client}
use cmy_message.Queue.{Ptr, null, Heap, Globals}
use cmy_message.Pool.{
  Accepted, Listened, listening, closed, out_of_fuel, accept_incoming_connections,
}
use cmy_message.Sockets.{Store, Host, fresh, close_server_socket}
use cmy_message.Sockets.Creation.{is_zero, create_socket_struct}
use cmy_message.Server.{
  Setup, exit_failure, prepared, Resources, Controls, close_server, no_value,
  get_usernames_hash_table_ptr, get_set_of_clients_descriptors, join_thread_and_handle_errors,
  initialize_server_concurrency_and_thread_pool,
}

-- What the listening thread meets: the statuses of its creation and of joining it, what the
-- connections are, the allocator, the fields of the clients that it rejects, and the queue.
pub record Listener : Type 0 where
  pub creation_status : ℤ
  pub join_status : ℤ
  pub malloc : Heap → Ptr
  pub memory : Ptr → Client
  pub connections : List Accepted
  pub queue : Globals

-- A call that waits for the listener, that is back with a value, or whose loop had too little fuel.
pub data Call (A : Type 0) : Type 0 where
  waiting : Globals → Call A
  back : A → Call A
  cut_short : Call A

-- `accept_incoming_connections` has no return statement.
unfoldable pub join_listener : ℤ → Listened → Run (Call ℤ)
unfolding join_thread_and_handle_errors
join_listener join_status (listening g) = ok (waiting g)
join_listener join_status (closed told g) = do
  status ← join_thread_and_handle_errors join_status no_value
  ok (back (if is_neg status then status else pos 0))
join_listener join_status out_of_fuel = ok cut_short

-- After a status above 0 there is no thread, and the identifier that is joined was never assigned.
unfoldable pub listen_for_connections_on_separate_thread : Listener → Run (Call ℤ)
unfolding join_listener
listen_for_connections_on_separate_thread l =
    if is_neg l.creation_status
    then ok (back l.creation_status)
    else if is_zero l.creation_status
    then (do
      listened ← accept_incoming_connections l.malloc l.memory l.connections l.queue
      join_listener l.join_status listened)
    else fault uninitialised

-- The memory for the table, its array and the set of the online clients.
pub record Memory : Type 0 where
  pub table_ok : Bool
  pub array_ok : Bool
  pub online_set : Ptr

-- What the threads of the server share.
pub record Running : Type 0 where
  pub usernames_ht : Table ℕ
  pub online_clients_set : ℕ → Bool
  pub controls : Controls

-- How the start goes on: a negative status, the end of the process, or the end of the function,
-- which then has no return statement.
pub data Accepting : Type 0 where
  failed_with : ℤ → Accepting
  process_exit : List Ptr → Accepting
  awaiting : Running → Globals → Accepting
  no_status : Running → Accepting
  unfinished : Accepting

unfoldable pub end_of_listener : Running → Call ℤ → Accepting
end_of_listener r (waiting g) = awaiting r g
end_of_listener r (back status) = if is_neg status then failed_with status else no_status r
end_of_listener r cut_short = unfinished

unfoldable pub listen_with : Listener → Table ℕ → (ℕ → Bool) → Setup Controls → Run Accepting
unfolding end_of_listener listen_for_connections_on_separate_thread
listen_with l t online (exit_failure freed) = ok (process_exit freed)
listen_with l t online (prepared controls) = do
  let r : Running = record { usernames_ht = t; online_clients_set = online; controls = controls }
  status ← listen_for_connections_on_separate_thread l
  ok (end_of_listener r status)

-- The buffer for the common messages and the largest descriptor are allocated without a test.
unfoldable pub start_accepting_incoming_connections : Memory → Resources → Listener → Run Accepting
unfolding listen_with
start_accepting_incoming_connections m res l =
    elim (get_usernames_hash_table_ptr m.table_ok m.array_ok) [
      | none ↦ ok (failed_with (negsuc 0))
      | some t ↦ elim (get_set_of_clients_descriptors m.online_set) [
        | none ↦ ok (failed_with (negsuc 0))
        | some online ↦ listen_with l t online (initialize_server_concurrency_and_thread_pool res)
      ]
    ]

-- The quit signal is set, the table is destroyed, and the socket is closed.
unfoldable pub close_service : Ptr → Running → Store → Run (Controls × List (Released ℕ) × Store)
close_service p_server_t r s = do
  let quitting : Controls = record r.controls { quit_signal_val = close_server }
  (released, _) ← hash_table_destroy (some r.usernames_ht)
  (_, s') ← close_server_socket p_server_t s
  ok (quitting, released, s')

-- How the service ends: as the start does, or closed.
pub data Service : Type 0 where
  failed_start : ℤ → Service
  exited : List Ptr → Service
  serving : Store → Running → Globals → Service
  service_closed : Controls → List (Released ℕ) → Store → Service
  unfinished_service : Service

-- The status of a function that ends without a return statement is used.
unfoldable pub after_accepting : Ptr → Store → Accepting → Run Service
after_accepting p_server_t s (failed_with status) = ok (failed_start status)
after_accepting p_server_t s (process_exit freed) = ok (exited freed)
after_accepting p_server_t s (awaiting r g) = ok (serving s r g)
after_accepting p_server_t s (no_status r) = fault uninitialised
after_accepting p_server_t s unfinished = ok unfinished_service

unfoldable pub serve_on : Memory → Resources → Listener → Ptr × Store → Run Service
unfolding start_accepting_incoming_connections after_accepting
serve_on m res l (p_server_t, s) = if p_server_t == null then ok (failed_start (negsuc 0)) else (do
  accepting ← start_accepting_incoming_connections m res l
  after_accepting p_server_t s accepting)

unfoldable pub start_service : Host → Memory → Resources → Listener → ℕ → Run Service
unfolding serve_on
start_service os m res l port = create_socket_struct os true port true fresh >>= serve_on m res l
