-- ===== src/Pool/Crew.antt =====
-- The listener and the threads of the pool at work on one queue: what each of them does while it
-- holds the mutex of the queue, and in between, for any number of threads.
pub mod Counts
pub mod Conserved
use cmy_message.Prelude.{
  ℕ, ◌≡◌, ◌≢◌, List, [], ◌∷◌, ◌++◌, Bool, true, false, Option, none, some, Run, ok, ◌>>=◌, ◌==◌,
  if◌then◌else◌, ℤ, set, get_or,
}
use cmy_message.Clients.{Client}
use cmy_message.Queue.{Ptr, null, Heap, Globals, is_empty_queue, enqueue, dequeue}
use cmy_message.Pool.{gracefully_reject_pending_clients}

-- Where a thread of the pool is: before the test of the queue, before the mutex, in
-- `pthread_cond_wait`, with a client, or after the quit signal.
pub data Station : Type 0 where
  looking entering waiting finished : Station
  serving : Ptr → Station

-- The queue, the threads, whether the listener is in its loop, and what became of the clients: those
-- that were accepted, those that `enqueue` refused, whose status the listener does not look at, those
-- that were told that the service closes, and those whose service has returned.
pub record Crew : Type 0 where
  pub queue : Globals
  pub stations : List Station
  pub is_open : Bool
  pub accepted : List Ptr
  pub refused : List Ptr
  pub rejected : List Ptr
  pub served : List Ptr

unfoldable pub refused_by : Option ℤ → Ptr → List Ptr
refused_by none client = []
refused_by (some status) client = client ∷ []

-- The listener puts a client into the queue.
unfoldable pub accept_section : (Heap → Ptr) → Ptr → Crew → Run Crew
unfolding refused_by
accept_section malloc client crew = do
  (status, _, g) ← enqueue malloc client crew.queue
  ok (record crew {
    queue = g;
    accepted = crew.accepted ++ client ∷ [];
    refused = crew.refused ++ refused_by status client;
  })

-- The listener sees the quit signal and rejects what is pending, with the fields that the structures
-- of the clients have in the given memory.
unfoldable pub after_rejection : Crew → Option (List Ptr × Globals) → Crew
after_rejection crew none = crew
after_rejection crew (some (told, g)) = record crew {
  queue = g;
  is_open = false;
  rejected = crew.rejected ++ told;
}

unfoldable pub close_section : (Ptr → Client) → Crew → Run Crew
unfolding after_rejection
close_section memory crew = do
  r ← gracefully_reject_pending_clients memory crew.queue
  ok (after_rejection crew r)

abbrev pub go_to : ℕ → Station → Crew → Crew
go_to i s crew = record crew { stations = set crew.stations i s }

-- A thread tests the queue without the mutex.
unfoldable pub look_section : ℕ → Crew → Crew
look_section i crew = go_to i (if is_empty_queue crew.queue then looking else entering) crew

-- A thread takes a client off the queue; without one it goes to the given place.
unfoldable pub with_client : Station → Option Ptr → Station
with_client otherwise none = otherwise
with_client otherwise (some c) = if c == null then otherwise else serving c

unfoldable pub take_section : ℕ → Station → Crew → Run Crew
unfolding with_client
take_section i otherwise crew = do
  (client, g) ← dequeue crew.queue
  ok (record crew { queue = g; stations = set crew.stations i (with_client otherwise client) })

-- The service of a client has returned.
unfoldable pub finish_section : ℕ → Ptr → Crew → Crew
finish_section i c crew = record crew {
  stations = set crew.stations i looking;
  served = crew.served ++ c ∷ [];
}

abbrev pub IsAt : ℕ → Station → Crew → Type 0
IsAt i s crew = get_or crew.stations i finished ≡ s

pub data Step (malloc : Heap → Ptr) : Crew → Crew → Type 0 where
  accept :
      (crew crew' : Crew) (client : Ptr)
      → crew.is_open ≡ true
      → client ≢ null
      → accept_section malloc client crew ≡ ok crew'
      → Step malloc crew crew'
  close :
      (crew crew' : Crew) (memory : Ptr → Client)
      → crew.is_open ≡ true
      → close_section memory crew ≡ ok crew'
      → Step malloc crew crew'
  look : (crew : Crew) (i : ℕ) → IsAt i looking crew → Step malloc crew (look_section i crew)
  take :
      (crew crew' : Crew) (i : ℕ)
      → IsAt i entering crew
      → take_section i waiting crew ≡ ok crew'
      → Step malloc crew crew'
  wake :
      (crew crew' : Crew) (i : ℕ)
      → IsAt i waiting crew
      → take_section i looking crew ≡ ok crew'
      → Step malloc crew crew'
  finish :
      (crew : Crew) (i : ℕ) (c : Ptr)
      → IsAt i (serving c) crew
      → Step malloc crew (finish_section i c crew)
  quit : (crew : Crew) (i : ℕ) → IsAt i looking crew → Step malloc crew (go_to i finished crew)

pub data Reach (malloc : Heap → Ptr) (crew : Crew) : Crew → Type 0 where
  here : Reach malloc crew crew
  next : {c c' : Crew} → Reach malloc crew c → Step malloc c c' → Reach malloc crew c'
