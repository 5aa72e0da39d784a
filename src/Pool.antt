-- ===== src/Pool.antt =====
-- services/2_Broadcast-chat/src/utils/service_utils.c: what the listener and the threads of the pool
-- do with the queue of pending clients.
pub mod Listener
pub mod Worker
pub mod Crew
use cmy_message.Prelude.{
  ℕ, zero, suc, ◌+◌, List, [], ◌∷◌, ◌++◌, Bool, true, false, Option, none, some, Run, ok, fault,
  uninitialised, ◌>>=◌, ◌==◌, if◌then◌else◌,
}
use cmy_message.Clients.{Client, free_client_memory, accept_connection}
use cmy_message.Queue.{Ptr, null, Heap, Globals, is_empty_queue, enqueue, dequeue}

-- The clients that are told that the service closes: those that are not NULL.
unfoldable pub told_of : Option Ptr → List Ptr
told_of none = []
told_of (some c) = if c == null then [] else c ∷ []

-- The memory of a client is released, with the fields that its structure has in the given memory.
-- Releasing a structure again, whose fields are NULL then, gives nothing back and is no fault either.
unfoldable pub release : (Ptr → Client) → Option Ptr → Run (Unit {0})
release memory none = ok tt
release memory (some c) =
    if c == null then ok tt else (do _ ← free_client_memory (some (memory c)); ok tt)

-- `none` means that the fuel ran out.
unfoldable pub reject_loop :
    (Ptr → Client) → ℕ → List Ptr → Globals → Run (Option (List Ptr × Globals))
unfolding told_of release
reject_loop memory zero told g = ok none
reject_loop memory (suc fuel) told g = if is_empty_queue g then ok (some (told, g)) else (do
  (client, g') ← dequeue g
  _ ← release memory client
  reject_loop memory fuel (told ++ told_of client) g')

-- Each turn takes a client off, so that the size of the queue and one is enough.
unfoldable pub gracefully_reject_pending_clients :
    (Ptr → Client) → Globals → Run (Option (List Ptr × Globals))
unfolding reject_loop
gracefully_reject_pending_clients memory g = reject_loop memory (g.queue_size + 1) [] g

-- One turn of the listener: what `accept_connection` meets, namely the memory for the structure and
-- its two addresses and whether there is a descriptor, and the quit signal that is read after the
-- client was put into the queue.
pub record Accepted : Type 0 where
  pub struct : Ptr
  pub addr : Ptr
  pub len : Ptr
  pub accepted : Bool
  pub quit_signal : Bool

-- How the listener ends: it still waits for a connection, or it has rejected the pending clients.
pub data Listened : Type 0 where
  listening : Globals → Listened
  closed : List Ptr → Globals → Listened
  out_of_fuel : Listened

unfoldable pub close_queue : (Ptr → Client) → Globals → Run Listened
unfolding gracefully_reject_pending_clients
close_queue memory g = do
  r ← gracefully_reject_pending_clients memory g
  elim r [ none ↦ ok out_of_fuel | some (told, g') ↦ ok (closed told g') ]

-- `while (!quit_signal_val)`: `none` is the variable before it is first assigned.
unfoldable pub while_open : (Ptr → Client) → Option Bool → Globals → Run Listened → Run Listened
unfolding close_queue
while_open memory none g next = fault uninitialised
while_open memory (some true) g next = close_queue memory g
while_open memory (some false) g next = next

-- After a failed `accept_connection`, `continue` goes on to the test of the loop. The status of
-- `enqueue` is not looked at.
unfoldable pub accept_loop :
    (Heap → Ptr) → (Ptr → Client) → List Accepted → Option Bool → Globals → Run Listened
unfolding while_open
accept_loop malloc memory [] quit_signal_val g = ok (listening g)
accept_loop malloc memory (a ∷ rest) quit_signal_val g = do
  (_, client) ← accept_connection a.accepted a.struct a.addr a.len
  elim client [
    | none ↦ while_open memory quit_signal_val g (accept_loop malloc memory rest quit_signal_val g)
    | some c ↦ do
      (_, _, g') ← enqueue malloc a.struct g
      while_open memory (some a.quit_signal) g'
          (accept_loop malloc memory rest (some a.quit_signal) g')
  ]

unfoldable pub accept_incoming_connections :
    (Heap → Ptr) → (Ptr → Client) → List Accepted → Globals → Run Listened
unfolding accept_loop
accept_incoming_connections malloc memory turns g = accept_loop malloc memory turns none g

-- The part of a turn of `search_for_thread_work` that takes a client: the queue is tested without
-- the mutex, and other threads may have changed it when the mutex is held, and again while the
-- thread waits for the signal. The queues are those at these three moments.
unfoldable pub take_client : Globals → Globals → Globals → Run (Option Ptr × Globals)
take_client seen locked woken = if is_empty_queue seen then ok (none, seen) else (do
  (client, g) ← dequeue locked
  elim client [ none ↦ dequeue woken | some c ↦ ok (some c, g) ])
