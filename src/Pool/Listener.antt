-- ===== src/Pool/Listener.antt =====
-- What becomes of the pending clients.
use cmy_message.Prelude.{
  ℕ, zero, suc, ◌+◌, ◌<◌, List, [], ◌∷◌, ◌++◌, Bool, true, false, some, Option, Run, ok, fault,
  uninitialised, ◌==◌, ◌||◌, ◌&&◌, ◌⊎◌, ◌≢◌, if◌then◌else◌, Bool-cases, ◌≡◌, refl, ap, ◌∙◌, arith,
  length, append-nil, append_assoc, inl, inr,
}
use cmy_message.Clients.{Client}
use cmy_message.Clients.Lifecycle.{is_assigned, free_client_memory-cases, accept_connection-refused}
use cmy_message.Queue.{null, Ptr, Heap, Globals, is_empty_queue}
use cmy_message.Queue.Cells.{Cells, clients}
use cmy_message.Queue.Refinement.{arrive, leave, Models, dequeue-Models}
use cmy_message.Pool.{
  told_of, release, reject_loop, gracefully_reject_pending_clients, Accepted, accept_loop,
  accept_incoming_connections, take_client,
}

pub is_empty_queue-nil : (g : Globals) → Models g [] → is_empty_queue g ≡ true
unfolding is_empty_queue
is_empty_queue-nil g ([], is, same, bound) = ground (arith, is.front)
is_empty_queue-nil g (x ∷ xs, is, same, bound) = cc

is_empty_queue-cons :
    (g : Globals) (c : Ptr) (q : List Ptr) → Models g (c ∷ q) → is_empty_queue g ≡ false
unfolding is_empty_queue
is_empty_queue-cons g c q ([], is, same, bound) = cc
is_empty_queue-cons g c q ((p, d) ∷ xs, is, same, bound) = ground (arith, is.front, is.linked.0)

-- The clients of the list that are not NULL, in order.
unfoldable pub told_each : List Ptr → List Ptr
unfolding told_of
told_each [] = []
told_each (c ∷ q) = told_of (some c) ++ told_each q

-- Releasing the pending clients is defined: the fields of each that is not NULL were assigned.
unfoldable pub are_assigned : (Ptr → Client) → List Ptr → Bool
are_assigned memory [] = true
are_assigned memory (c ∷ q) = (c == null || is_assigned (memory c)) && are_assigned memory q

-- How the rejection of the listed clients ends.
unfoldable rejection :
    (Ptr → Client) → List Ptr → List Ptr → Globals → Run (Option (List Ptr × Globals))
unfolding told_each are_assigned
rejection memory told q g =
    if are_assigned memory q then ok (some (told ++ told_each q, g)) else fault uninitialised

module _ (memory : Ptr → Client) where
  release-cases :
      (c : Ptr)
      → ((release memory (some c) ≡ ok tt) × ((c == null || is_assigned (memory c)) ≡ true))
        ⊎ ((release memory (some c) ≡ fault uninitialised)
            × ((c == null || is_assigned (memory c)) ≡ false))
  unfolding release
  release-cases c = elim (Bool-cases (c == null)) [
    | inl nothing ↦ inl (rw nothing, rw nothing)
    | inr there ↦ elim (free_client_memory-cases (memory c)) [
      | inl (freed, run, has) ↦ inl (rw (there, run), rw (there, has))
      | inr (bad, lacks) ↦ inr (rw (there, bad), rw (there, lacks))
    ]
  ]

  reject_loop-Models :
      (fuel : ℕ) (told : List Ptr) (g : Globals) (q : List Ptr)
      → Models g q
      → length q < fuel
      → (g' : Globals) × (reject_loop memory fuel told g ≡ rejection memory told q g')
        × Models g' []
  unfolding reject_loop rejection leave
  reject_loop-Models zero told g q m h = absurd (omega arith)
  reject_loop-Models (suc fuel) told g [] m h = (g, rw (is_empty_queue-nil g m, append-nil told), m)
  reject_loop-Models (suc fuel) told g (c ∷ q) m h =
      let (g₁, run₁, m₁) = dequeue-Models g (c ∷ q) m in
      let (g₂, run₂, m₂) =
        reject_loop-Models fuel (told ++ told_of (some c)) g₁ q m₁ (omega arith) in
      elim (release-cases c) [
        | inl (released, has) ↦ (
          g₂,
          rw (
            is_empty_queue-cons g c q m,
            run₁,
            released,
            run₂,
            has,
            append_assoc told (told_of (some c)) (told_each q),
          ),
          m₂,
        )
        | inr (bad, lacks) ↦ (g₂, rw (is_empty_queue-cons g c q m, run₁, bad, lacks), m₂)
      ]

queue_size-length : (g : Globals) (q : List Ptr) → Models g q → g.queue_size ≡ length q
queue_size-length g q (xs, is, same, bound) = is.size ∙ len xs q same
  where
    len : (xs : Cells) (q : List Ptr) → clients xs ≡ q → length xs ≡ length q
    len [] [] e = refl
    len [] (c ∷ q) e = cc
    len (x ∷ xs) [] e = cc
    len (x ∷ xs) (c ∷ q) e = ap suc (len xs q cc)

-- When the service closes with a queue that stands for a list: if the addresses and the buffer of
-- each pending client that is not NULL were assigned, every one of these clients is told so, the
-- oldest first, the loop ends within its fuel, and the queue is empty. If one of them was not,
-- the call is undefined.
pub gracefully_reject-Models :
    (memory : Ptr → Client) (g : Globals) (q : List Ptr)
    → Models g q
    → (g' : Globals) × (gracefully_reject_pending_clients memory g
        ≡ (if are_assigned memory q then ok (some (told_each q, g')) else fault uninitialised))
      × Models g' []
unfolding gracefully_reject_pending_clients rejection
gracefully_reject-Models memory g q m =
    reject_loop-Models memory (g.queue_size + 1) [] g q m (omega (arith, queue_size-length g q m))

-- A turn in which there is memory for the client, the connection is accepted, and the quit signal is
-- down.
pub record IsAccepted (a : Accepted) : Type 0 where
  pub has_struct : a.struct ≢ null
  pub has_addr : a.addr ≢ null
  pub has_len : a.len ≢ null
  pub is_accepted : a.accepted ≡ true
  pub stays_open : a.quit_signal ≡ false

-- The queue after the clients have come, each with or without memory for its node.
unfoldable pub arrivals : List Accepted → List Bool → List Ptr → List Ptr
unfolding arrive
arrivals [] memories q = q
arrivals (a ∷ turns) [] q = q
arrivals (a ∷ turns) (memory ∷ memories) q = arrivals turns memories (arrive memory a.struct q).2

-- If there is memory for the first client but its connection is not accepted, the listener is undefined.
accept_incoming-refused :
    (malloc : Heap → Ptr) (memory : Ptr → Client) (a : Accepted) (turns : List Accepted)
    (g : Globals)
    → a.struct ≢ null
    → a.addr ≢ null
    → a.len ≢ null
    → a.accepted ≡ false
    → accept_incoming_connections malloc memory (a ∷ turns) g ≡ fault uninitialised
unfolding accept_incoming_connections accept_loop
accept_incoming-refused malloc memory a turns g s d l refused =
    rw (refused, accept_connection-refused a.struct a.addr a.len s d l)

-- The queue that a thread takes from: the one under the mutex, or the one when it wakes.
abbrev pub found : List Ptr → List Ptr → List Ptr
found [] woken = woken
found (c ∷ q) woken = c ∷ q

-- A thread that saw a queue that was not empty takes the oldest client of the queue that it finds
-- under the mutex, and if other threads have emptied it, of the queue that it finds when it wakes.
pub take_client-Models :
    (seen locked woken : Globals) (c : Ptr) (q₀ q₁ q₂ : List Ptr)
    → Models seen (c ∷ q₀)
    → Models locked q₁
    → Models woken q₂
    → let q = found q₁ q₂ in
      (g' : Globals) × (take_client seen locked woken ≡ ok ((leave q).0, g'))
      × Models g' (leave q).1
unfolding take_client leave
take_client-Models seen locked woken c q₀ [] q₂ m₀ m₁ m₂ =
    let (g₁, run₁, _) = dequeue-Models locked [] m₁ in
    let (g₂, run₂, m') = dequeue-Models woken q₂ m₂ in
    (g₂, rw (is_empty_queue-cons seen c q₀ m₀, run₁, run₂), m')
take_client-Models seen locked woken c q₀ (d ∷ q₁) q₂ m₀ m₁ m₂ =
    let (g₁, run₁, m') = dequeue-Models locked (d ∷ q₁) m₁ in
    (g₁, rw (is_empty_queue-cons seen c q₀ m₀, run₁), m')
