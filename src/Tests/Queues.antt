-- ===== src/Tests/Queues.antt =====
-- Runs of the queue.
use cmy_message.Prelude.{
  All, fault, uninitialised, List, false, true, [], ◌∷◌, not, none, some, ok, ◌≡◌, refl, arith,
  ◌==◌,
}
use cmy_message.Clients.{Client, free_client_memory, free_fields, free_field}
use cmy_message.Clients.Lifecycle.{is_assigned}
use cmy_message.Pool.{told_of, gracefully_reject_pending_clients, Accepted, release, reject_loop}
use cmy_message.Pool.Listener.{told_each, gracefully_reject-Models, are_assigned, IsAccepted}
use cmy_message.Pool.Worker.{
  Seen, turns_of, finished, due, serves, search_for_thread_work, search_for_thread_work-serves,
}
use cmy_message.Queue.{Ptr, null, Heap, Globals, enqueue, dequeue, is_empty_queue, write}
use cmy_message.Queue.Cells.{node, IsQueue, last}
use cmy_message.Queue.Refinement.{
  IsAllocator, arrive, leave, Models, enqueue-Models, dequeue-Models,
}

-- The next address behind two cells in use, and NULL when the first four cells are taken.
abbrev pub malloc : Heap → Ptr
malloc h = elim (h 1) [ none ↦ 1 | some _ ↦ elim (h 2) [ none ↦ 2 | some _ ↦ 0 ] ]

pub malloc-IsAllocator : IsAllocator malloc
malloc-IsAllocator h ne = ground arith

abbrev pub one_client : Globals
one_client = record {
  queue_size = 1;
  head = 1;
  tail = 1;
  heap = write (λ a. none) 1 (some (node null 55));
}

one_client-IsQueue : IsQueue one_client ((1, 55) ∷ [])
unfolding last
one_client-IsQueue = record {
  size = refl;
  front = refl;
  back = refl;
  linked = ((λ e. omega arith), refl, refl, tt);
  exact = λ a o. ground arith;
}

pub one_client-Models : Models one_client (55 ∷ [])
one_client-Models = ((1, 55) ∷ [], one_client-IsQueue, refl, omega arith)

enqueue-Models_example :
    let (status, sent, q) = arrive (not (malloc one_client.heap == null)) 77 (55 ∷ []) in
    (g : Globals) × (enqueue malloc 77 one_client ≡ ok (status, sent, g)) × Models g q
enqueue-Models_example =
    enqueue-Models malloc 77 one_client (55 ∷ []) (λ e. omega arith) malloc-IsAllocator
      one_client-Models

dequeue-Models_example :
    (g : Globals) × (dequeue one_client ≡ ok ((leave (55 ∷ [])).0, g))
    × Models g (leave (55 ∷ [])).1
dequeue-Models_example = dequeue-Models one_client (55 ∷ []) one_client-Models

-- A structure as a service leaves it, and one as `accept_connection` gives it.
abbrev prepared : Client
prepared = record { p_addr = some 8; p_addr_len = some 16; buffer = some 24; name = some 32 }

abbrev pub accepted : Client
accepted = record { p_addr = some 8; p_addr_len = some 16; buffer = none; name = none }

gracefully_reject-Models_example :
    (g : Globals) × (gracefully_reject_pending_clients (λ c. prepared) one_client
      ≡ ok (some (told_each (55 ∷ []), g)))
    × Models g []
unfolding are_assigned is_assigned
gracefully_reject-Models_example =
    gracefully_reject-Models (λ c. prepared) one_client (55 ∷ []) one_client-Models

-- A client that was accepted and is still pending has no buffer, and its release reads the pointer.
pending_undefined :
    gracefully_reject_pending_clients (λ c. accepted) one_client ≡ fault uninitialised
unfolding gracefully_reject_pending_clients reject_loop release free_client_memory free_fields
    free_field is_empty_queue dequeue
pending_undefined = refl

-- There are two turns, and memory for the node of the first client only.
abbrev pub two_turns : List Accepted
two_turns =
    record { struct = 77; addr = 8; len = 16; accepted = true; quit_signal = false }
    ∷ record { struct = 99; addr = 40; len = 48; accepted = true; quit_signal = false }
    ∷ []

pub two_turns-IsAccepted : All IsAccepted two_turns
two_turns-IsAccepted = (
  record {
    has_struct = λ e. omega arith;
    has_addr = λ e. omega arith;
    has_len = λ e. omega arith;
    is_accepted = refl;
    stays_open = refl;
  },
  (
    record {
      has_struct = λ e. omega arith;
      has_addr = λ e. omega arith;
      has_len = λ e. omega arith;
      is_accepted = refl;
      stays_open = refl;
    },
    tt,
  ),
)

-- A thread that finds one client and then reads the quit signal.
abbrev one_turn : List Seen
one_turn =
    record {
      turn = record {
        seen = one_client;
        locked = one_client;
        woken = one_client;
        quit_signal = true;
      };
      before = 55 ∷ [];
      under = 55 ∷ [];
      after = 55 ∷ [];
      before-Models = one_client-Models;
      under-Models = one_client-Models;
      after-Models = one_client-Models;
    }
    ∷ []

search_for_thread_work-serves_example :
    search_for_thread_work (λ c. ok prepared) (turns_of one_turn) ≡ ok (finished (55 ∷ []))
unfolding serves due leave told_of is_assigned
search_for_thread_work-serves_example =
    search_for_thread_work-serves (λ c. ok prepared) (λ c. (prepared, refl, refl)) one_turn
