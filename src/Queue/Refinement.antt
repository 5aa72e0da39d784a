-- ===== src/Queue/Refinement.antt =====
-- `enqueue` and `dequeue` implement a bounded first-in first-out queue of clients.
use cmy_message.Prelude.{
  ℕ, suc, ◌+◌, ◌≤◌, List, [], ◌∷◌, ◌++◌, Bool, true, false, not, Option, none, some, ok, ◌≡◌, ◌≢◌,
  refl, sym, ◌∙◌, ap, arith, ◌==◌, leb, if◌then◌else◌, length, length-append, ℤ, pos, negsuc,
  Bool-cases, inl, inr,
}
use cmy_message.Queue.{
  Ptr, null, Heap, write, Globals, Notice, too_many_requests, request_pending, size_thread_pool,
  max_queue_size, set_next, link, append_node, tell, enqueue, unlink_head, dequeue,
}
use cmy_message.Queue.Cells.{
  Cells, has, first, last, clients, node, IsLinked, IsQueue, frame, has-append, last-append,
  has-last, write_self, write_ne, heap-last, IsLinked-append, clients-append,
}

-- `malloc` gives NULL or the address of a cell that is not in use.
abbrev pub IsAllocator : (Heap → Ptr) → Type 0
IsAllocator malloc = (h : Heap) → malloc h ≢ null → h (malloc h) ≡ none

-- An address in the list is in use.
has-ne-none : (h : Heap) (xs : Cells) (a : Ptr) → IsLinked h xs → h a ≡ none → has a xs ≡ false
has-ne-none h [] a l e = refl
has-ne-none h ((p, c) ∷ xs) a l e = ground (arith, has-ne-none h xs a l.3 e)

module _ (new client : Ptr) (nz : new ≢ null) where
  exact_after :
      (g : Globals) (xs : Cells) (d : Ptr)
      → ((a : Ptr) → has a xs ≡ false → g.heap a ≡ none)
      → has (last xs) xs ≡ true
      → (a : Ptr) → has a (xs ++ (new, client) ∷ []) ≡ false
      → write (write g.heap new (some (node null client))) (last xs) (some (node new d)) a ≡ none
  exact_after g xs d exact mem a out = ground (arith, exact a, has-append a new client xs)

  -- The new node goes behind the last one.
  link-IsQueue :
      (g : Globals) (xs : Cells)
      → IsQueue g xs
      → g.heap new ≡ none
      → (g' : Globals) × (link new client g ≡ ok g') × IsQueue g' (xs ++ (new, client) ∷ [])
  unfolding link set_next last
  link-IsQueue g [] q free = (
    record {
      queue_size = g.queue_size + 1;
      head = new;
      tail = new;
      heap = write g.heap new (some (node null client));
    },
    rw q.back,
    record {
      size = omega (arith, q.size);
      front = refl;
      back = refl;
      linked = (nz, ground arith, refl, tt);
      exact = λ a o. ground (arith, q.exact a);
    },
  )
  link-IsQueue g (x ∷ xs) q free =
      let (d, old, lz) = heap-last g.heap x xs q.linked in
      let apart = has-ne-none g.heap (x ∷ xs) new q.linked free in
      let h = write g.heap new (some (node null client)) in
      let h' = write h (last (x ∷ xs)) (some (node new d)) in
      let differ : last (x ∷ xs) ≢ new = λ e. ground (arith, has-last x xs) in
      (
        record { queue_size = g.queue_size + 1; head = g.head; tail = new; heap = h' },
        rw q.back (ground arith),
        record {
          size = omega (arith, q.size, length-append (x ∷ xs) ((new, client) ∷ []));
          front = q.front;
          back = sym (last-append new client (x ∷ xs));
          linked =
              IsLinked-append g.heap h' x xs new client d q.linked nz apart old
                (write_ne h (last (x ∷ xs)) (some (node new d)) new (λ e. differ (sym e))
                  ∙ write_self g.heap new (some (node null client)))
                (write_self h (last (x ∷ xs)) (some (node new d)))
                (λ a n m.
                  write_ne h (last (x ∷ xs)) (some (node new d)) a m
                  ∙ write_ne g.heap new (some (node null client)) a n);
          exact = λ a o. exact_after g (x ∷ xs) d q.exact (has-last x xs) a o;
        },
      )

-- A client that waits while every thread of the pool may be busy is told so.
abbrev notices : ℕ → List Notice
notices n = if leb size_thread_pool n then request_pending ∷ [] else []

-- The queue as a list of clients, oldest first: what an arrival and a removal return and leave.
unfoldable pub arrive : Bool → Ptr → List Ptr → Option ℤ × List Notice × List Ptr
arrive memory client q =
    if length q == max_queue_size then (some (pos 1), too_many_requests ∷ [], q) else (
      if memory then none else some (negsuc 0),
      notices (length q),
      if memory then q ++ client ∷ [] else q,
    )

unfoldable pub leave : List Ptr → Option Ptr × List Ptr
leave [] = (none, [])
leave (c ∷ q) = (some c, q)

-- The globals stand for the list, which is within the bound.
abbrev pub Models : Globals → List Ptr → Type 0
Models g q = (xs : Cells) × IsQueue g xs × (clients xs ≡ q) × (length q ≤ max_queue_size)

length-clients : (xs : Cells) → length (clients xs) ≡ length xs
length-clients [] = refl
length-clients (x ∷ xs) = ap suc (length-clients xs)

append_node-Models :
    (malloc : Heap → Ptr) (client : Ptr) (sent : List Notice) (g : Globals) (q : List Ptr)
    → IsAllocator malloc
    → Models g q
    → length q ≢ max_queue_size
    → let memory = not (malloc g.heap == null) in
      (g' : Globals) × (append_node malloc client sent g
        ≡ ok (if memory then none else some (negsuc 0), sent, g'))
      × Models g' (if memory then q ++ client ∷ [] else q)
unfolding append_node
append_node-Models malloc client sent g q law (xs, is, same, bound) room =
    elim (Bool-cases (malloc g.heap == null)) [
      | inl full ↦ (g, rw full, rw full (xs, is, same, bound))
      | inr free ↦
          let nz : malloc g.heap ≢ null = ground arith in
          let (g', run, is') = link-IsQueue (malloc g.heap) client nz g xs is (law g.heap nz) in
          (
            g',
            rw (free, run),
            rw free (
              xs ++ (malloc g.heap, client) ∷ [],
              is',
              rw (clients-append (malloc g.heap) client xs, same),
              omega (arith, length-append q (client ∷ [])),
            ),
          )
    ]

module _ (malloc : Heap → Ptr) (client : Ptr) (there : client ≢ null) (g : Globals) {n : ℕ}
    (size : g.queue_size ≡ n) where
  enqueue-full :
      (n == max_queue_size) ≡ true
      → enqueue malloc client g ≡ ok (some (pos 1), too_many_requests ∷ [], g)
  unfolding enqueue tell
  enqueue-full full = ground arith

  enqueue-room :
      (n == max_queue_size) ≡ false
      → enqueue malloc client g ≡ append_node malloc client (notices n) g
  unfolding enqueue tell
  enqueue-room room = ground arith

module _ (memory : Bool) (client : Ptr) (q : List Ptr) where
  arrive-full :
      (length q == max_queue_size) ≡ true
      → arrive memory client q ≡ (some (pos 1), too_many_requests ∷ [], q)
  unfolding arrive
  arrive-full full = rw full

  arrive-room :
      (length q == max_queue_size) ≡ false
      → arrive memory client q ≡ (
        if memory then none else some (negsuc 0),
        notices (length q),
        if memory then q ++ client ∷ [] else q,
      )
  unfolding arrive
  arrive-room room = rw room

-- From globals that stand for a list of at most nine clients, and with an allocator that gives
-- NULL or a free cell, the arrival of a client that is not NULL never faults, returns the status
-- and sends the messages of the list operation, and leaves globals that stand for its list, also
-- when the queue is full or memory is out.
pub enqueue-Models :
    (malloc : Heap → Ptr) (client : Ptr) (g : Globals) (q : List Ptr)
    → client ≢ null
    → IsAllocator malloc
    → Models g q
    → let (status, sent, q') = arrive (not (malloc g.heap == null)) client q in
      (g' : Globals) × (enqueue malloc client g ≡ ok (status, sent, g')) × Models g' q'
enqueue-Models malloc client g q there law (xs, is, same, bound) =
    let size : g.queue_size ≡ length q =
      omega (arith, is.size, length-clients xs, ap (λ (r : List Ptr). length r) same) in
    elim (Bool-cases (length q == max_queue_size)) [
      | inl full ↦
          rw
            (
              enqueue-full malloc client there g size full,
              arrive-full (not (malloc g.heap == null)) client q full,
            )
            (g, refl, (xs, is, same, bound))
      | inr room ↦
          rw
            (
              enqueue-room malloc client there g size room,
              arrive-room (not (malloc g.heap == null)) client q room,
            )
            (append_node-Models malloc client (notices (length q)) g q law (xs, is, same, bound)
              (ground arith))
    ]

unlink_head-IsQueue :
    (g : Globals) (p c : Ptr) (xs : Cells)
    → IsQueue g ((p, c) ∷ xs)
    → IsQueue (unlink_head (node (first xs) c) g) xs
unfolding unlink_head last
unlink_head-IsQueue g p c [] is = record {
  size = omega (arith, is.size);
  front = refl;
  back = refl;
  linked = tt;
  exact = λ a o. ground (arith, is.exact a, is.front);
}
unlink_head-IsQueue g p c ((r, e) ∷ xs) is =
    let apart = is.linked.2 in
    let rest = is.linked.3 in
    record {
      size = omega (arith, is.size);
      front = refl;
      back = ground (arith, is.back, rest.0);
      linked =
          frame g.heap (write g.heap g.head none) ((r, e) ∷ xs)
            (λ a i. write_ne g.heap g.head none a (λ h. ground (arith, is.front, apart))) rest;
      exact = λ a o. ground (arith, is.exact a, is.front);
    }

-- From globals that stand for a list of clients, a removal never faults, returns the oldest client
-- or none, and leaves globals that stand for the rest, the node being freed.
pub dequeue-Models :
    (g : Globals) (q : List Ptr)
    → Models g q
    → (g' : Globals) × (dequeue g ≡ ok ((leave q).0, g')) × Models g' (leave q).1
unfolding dequeue leave last
dequeue-Models g [] ([], is, same, bound) = (g, rw is.front, ([], is, refl, bound))
dequeue-Models g [] (x ∷ xs, is, same, bound) = cc
dequeue-Models g (d ∷ q) ([], is, same, bound) = cc
dequeue-Models g (d ∷ q) ((p, c) ∷ xs, is, same, bound) = (
  unlink_head (node (first xs) c) g,
  ground arith,
  (xs, unlink_head-IsQueue g p c xs is, cc, omega arith),
)
