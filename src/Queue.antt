-- ===== src/Queue.antt =====
-- services/2_Broadcast-chat/src/utils/queue.c: the queue of pending clients, a singly linked list
-- on the heap with its two ends and its size in global variables.
-- The memory manager is the argument `malloc`, which gives the address of a free cell or NULL.
pub mod Cells
pub mod Refinement
use cmy_message.Prelude.{
  ℕ, ◌+◌, ◌-◌, List, [], ◌∷◌, Bool, true, false, Option, none, some, Run, ok, fault,
  null_dereference, double_free, ◌>>=◌, ◌>>◌, ◌==◌, leb, if◌then◌else◌, ℤ, pos, negsuc,
}

-- Addresses; NULL is 0. A client is the address of its structure.
abbrev pub Ptr : Type 0
Ptr = ℕ

abbrev pub null : Ptr
null = 0

abbrev pub size_thread_pool : ℕ
size_thread_pool = 3

abbrev pub max_queue_size : ℕ
max_queue_size = 9

pub record Node : Type 0 where
  pub next : Ptr
  pub p_client_t : Ptr

abbrev pub Heap : Type 0
Heap = Ptr → Option Node

abbrev pub write : Heap → Ptr → Option Node → Heap
write h p c q = if q == p then c else h q

-- The global variables, and the heap that they point into.
pub record Globals : Type 0 where
  pub queue_size : ℕ
  pub head : Ptr
  pub tail : Ptr
  pub heap : Heap

-- The messages that `enqueue` sends to the client.
pub data Notice : Type 0 where
  too_many_requests request_pending : Notice

unfoldable pub is_empty_queue : Globals → Bool
is_empty_queue g = g.head == null

-- `tail->next = new_node`.
unfoldable pub set_next : Ptr → Ptr → Heap → Run Heap
set_next p q h = elim (h p) [
  | none ↦ fault null_dereference
  | some n ↦ ok (write h p (some (record n { next = q })))
]

-- The new node is linked behind the last one.
unfoldable pub link : Ptr → Ptr → Globals → Run Globals
unfolding set_next
link new client g =
    let h = write g.heap new (some (record { next = null; p_client_t = client })) in
    if g.tail == null
    then ok (record { queue_size = g.queue_size + 1; head = new; tail = new; heap = h })
    else (do
      h' ← set_next g.tail new h
      ok (record { queue_size = g.queue_size + 1; head = g.head; tail = new; heap = h' }))

-- The client is told so through the descriptor in its structure.
unfoldable pub tell : Ptr → Run (Unit {0})
tell client = if client == null then fault null_dereference else ok tt

-- The part of `enqueue` after the check of the capacity. A successful call has no return statement:
-- its status is `none`.
unfoldable pub append_node :
    (Heap → Ptr) → Ptr → List Notice → Globals → Run (Option ℤ × List Notice × Globals)
unfolding link
append_node malloc client sent g =
    let new = malloc g.heap in
    if new == null
    then ok (some (negsuc 0), sent, g)
    else (do g' ← link new client g; ok (none, sent, g'))

unfoldable pub enqueue : (Heap → Ptr) → Ptr → Globals → Run (Option ℤ × List Notice × Globals)
unfolding tell
enqueue malloc client g =
    if leb size_thread_pool g.queue_size
    then (tell client
        >> (if g.queue_size == max_queue_size
            then ok (some (pos 1), too_many_requests ∷ [], g)
            else append_node malloc client (request_pending ∷ []) g))
    else append_node malloc client [] g

-- The head is taken off, its node is freed, and an emptied queue has no tail.
unfoldable pub unlink_head : Node → Globals → Globals
unlink_head n g = record {
  queue_size = g.queue_size - 1;
  head = n.next;
  tail = if n.next == null then null else g.tail;
  heap = write g.heap g.head none;
}

unfoldable pub dequeue : Globals → Run (Option Ptr × Globals)
unfolding is_empty_queue unlink_head
dequeue g = if is_empty_queue g then ok (none, g) else (elim (g.heap g.head) [
  | none ↦ fault null_dereference
  | some n ↦ ok (some n.p_client_t, unlink_head n g)
])
