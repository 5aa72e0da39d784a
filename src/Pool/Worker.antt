-- ===== src/Pool/Worker.antt =====
-- `search_for_thread_work`: the loop of a thread of the pool.
use cmy_message.Prelude.{
  List, [], ◌∷◌, ◌++◌, Bool, true, Option, none, some, Run, ok, ◌>>=◌, ◌==◌, if◌then◌else◌, ◌≡◌,
  refl, arith, Bool-cases, inl, inr,
}
use cmy_message.Clients.{Client, free_client_memory}
use cmy_message.Clients.Lifecycle.{is_assigned, free_client_memory-assigned}
use cmy_message.Queue.{Ptr, null, Globals, is_empty_queue}
use cmy_message.Queue.Refinement.{leave, Models}
use cmy_message.Pool.{told_of, take_client}
use cmy_message.Pool.Listener.{is_empty_queue-nil, found, take_client-Models}

-- One turn: the queues that the thread finds without the mutex, with it, and when it wakes, and the
-- quit signal that it reads at the end.
pub record Turn : Type 0 where
  pub seen : Globals
  pub locked : Globals
  pub woken : Globals
  pub quit_signal : Bool

-- How far the thread has come, with the clients that it has served.
pub data Worked : Type 0 where
  working finished : List Ptr → Worked

-- The service function of the client is called through its pointer. What it leaves in the structure is
-- then released.
unfoldable pub handle : (Ptr → Run Client) → Option Ptr → Run (List Ptr)
handle serve none = ok []
handle serve (some c) =
    if c == null
    then ok []
    else (do left ← serve c; _ ← free_client_memory (some left); ok (c ∷ []))

unfoldable pub work_loop : (Ptr → Run Client) → List Turn → List Ptr → Run Worked
unfolding handle
work_loop serve [] served = ok (working served)
work_loop serve (t ∷ turns) served = do
  (client, g) ← take_client t.seen t.locked t.woken
  handled ← handle serve client
  let served' = served ++ handled
  if t.quit_signal then ok (finished served') else work_loop serve turns served'

unfoldable pub search_for_thread_work : (Ptr → Run Client) → List Turn → Run Worked
unfolding work_loop
search_for_thread_work serve turns = work_loop serve turns []

-- The lists of clients that the queues of a turn stand for.
pub record Seen : Type 0 where
  pub turn : Turn
  pub before : List Ptr
  pub under : List Ptr
  pub after : List Ptr
  pub before-Models : Models turn.seen before
  pub under-Models : Models turn.locked under
  pub after-Models : Models turn.woken after

abbrev pub turns_of : List Seen → List Turn
turns_of [] = []
turns_of (s ∷ seen) = s.turn ∷ turns_of seen

-- The client of a turn: none if the queue was empty at first, else the oldest.
unfoldable pub due : List Ptr → List Ptr → List Ptr → Option Ptr
unfolding leave
due [] under after = none
due (c ∷ q) under after = (leave (found under after)).0

-- The list of what is served, turn by turn, up to the one that reads the quit signal.
unfoldable pub serves : List Seen → List Ptr → Worked
unfolding due told_of
serves [] served = working served
serves (s ∷ seen) served =
    let served' = served ++ told_of (due s.before s.under s.after) in
    let later = serves seen served' in if s.turn.quit_signal then finished served' else later

take_client-empty :
    (seen locked woken : Globals)
    → is_empty_queue seen ≡ true
    → take_client seen locked woken ≡ ok (none, seen)
unfolding take_client
take_client-empty seen locked woken e = rw e

take_client-due :
    (seen locked woken : Globals) (before under after : List Ptr)
    → Models seen before
    → Models locked under
    → Models woken after
    → (g : Globals) × (take_client seen locked woken ≡ ok (due before under after, g))
unfolding due
take_client-due seen locked woken [] under after a b c =
    (seen, take_client-empty seen locked woken (is_empty_queue-nil seen a))
take_client-due seen locked woken (d ∷ q) under after a b c =
    let (g, run, models) = take_client-Models seen locked woken d q under after a b c in (g, run)

module _ (serve : Ptr → Run Client)
    (ends : (c : Ptr) → (left : Client) × (serve c ≡ ok left) × (is_assigned left ≡ true)) where
  handle-told_of : (client : Option Ptr) → handle serve client ≡ ok (told_of client)
  unfolding handle told_of
  handle-told_of none = refl
  handle-told_of (some c) =
      let (left, run, assigned) = ends c in
      let (freed, released) = free_client_memory-assigned left assigned in
      elim (Bool-cases (c == null)) [
        | inl nothing ↦ rw nothing
        | inr there ↦ rw (there, run, released)
      ]

  work_loop-serves :
      (seen : List Seen) (served : List Ptr)
      → work_loop serve (turns_of seen) served ≡ ok (serves seen served)
  unfolding work_loop serves
  work_loop-serves [] served = refl
  work_loop-serves (s ∷ seen) served =
      let t = s.turn in
      let client = due s.before s.under s.after in
      let (g, run) =
        take_client-due t.seen t.locked t.woken s.before s.under s.after s.before-Models
          s.under-Models s.after-Models in
      let later = work_loop-serves seen (served ++ told_of client) in
      rw (run, handle-told_of client, later) (ground arith)

  -- A thread of the pool whose service function always returns, with the addresses and the buffer
  -- of the client assigned: it serves, turn by turn, the oldest client of the queue that it
  -- finds, none where it saw an empty queue, and ends after the turn in which it reads the quit
  -- signal; it never faults, also when it releases the clients.
  pub search_for_thread_work-serves :
      (seen : List Seen) → search_for_thread_work serve (turns_of seen) ≡ ok (serves seen [])
  unfolding search_for_thread_work
  search_for_thread_work-serves seen = work_loop-serves seen []
