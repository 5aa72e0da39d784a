-- ===== src/Pool/Crew/Counts.antt =====
-- How often a client is in a list, at the threads and in the queue.
use cmy_message.Prelude.{
  ℕ, zero, suc, ◌+◌, List, [], ◌∷◌, ◌++◌, Bool, true, false, none, some, ◌≡◌, ◌≢◌, refl, arith,
  some, negsuc, ◌==◌, if◌then◌else◌, length, All, set, get_or, Bool-cases, inl, inr,
}
use cmy_message.Queue.{Ptr, null, max_queue_size}
use cmy_message.Queue.Refinement.{arrive, leave}
use cmy_message.Pool.{told_of}
use cmy_message.Pool.Listener.{told_each}
use cmy_message.Pool.Crew.{
  Station, looking, entering, waiting, finished, serving, refused_by, with_client,
}

-- How often a client is in a list.
unfoldable pub count : Ptr → List Ptr → ℕ
count c [] = 0
count c (d ∷ q) = (if d == c then 1 else 0) + count c q

pub count-append : (c : Ptr) (p q : List Ptr) → count c (p ++ q) ≡ count c p + count c q
unfolding count
count-append c [] q = omega arith
count-append c (d ∷ p) q = omega (arith, count-append c p q)

-- The clients that the threads serve.
unfoldable pub in_service : List Station → List Ptr
in_service [] = []
in_service (serving c ∷ stations) = c ∷ in_service stations
in_service (looking ∷ stations) = in_service stations
in_service (entering ∷ stations) = in_service stations
in_service (waiting ∷ stations) = in_service stations
in_service (finished ∷ stations) = in_service stations

count-head :
    (c : Ptr) (s : Station) (stations : List Station)
    → count c (in_service (s ∷ stations))
      ≡ count c (in_service (s ∷ [])) + count c (in_service stations)
unfolding count in_service
count-head c (serving d) stations = omega arith
count-head c looking stations = omega arith
count-head c entering stations = omega arith
count-head c waiting stations = omega arith
count-head c finished stations = omega arith

-- A thread that leaves one place for another.
pub count-set :
    (c : Ptr) (stations : List Station) (i : ℕ) (s s' : Station)
    → get_or stations i finished ≡ s
    → s ≢ finished
    → count c (in_service (set stations i s')) + count c (in_service (s ∷ []))
      ≡ count c (in_service stations) + count c (in_service (s' ∷ []))
count-set c [] i s s' e ne = absurd (ne cc)
count-set c (r ∷ stations) zero s s' e ne =
    let same : count c (in_service (r ∷ [])) ≡ count c (in_service (s ∷ [])) = rw e in
    omega (arith, count-head c r stations, count-head c s' stations, same)
count-set c (r ∷ stations) (suc i) s s' e ne = omega (
  arith,
  count-set c stations i s s' e ne,
  count-head c r stations,
  count-head c r (set stations i s'),
)

abbrev pub IsClient : Ptr → Type 0
IsClient c = c ≢ null

pub told_each-All : (q : List Ptr) → All IsClient q → told_each q ≡ q
unfolding told_each told_of
told_each-All [] h = refl
told_each-All (c ∷ q) h =
    let e : (c == null) ≡ false = let ne = h.0 in ground arith in rw (e, told_each-All q h.1)

All-snoc :
    (q : List Ptr) (client : Ptr)
    → All IsClient q
    → IsClient client
    → All IsClient (q ++ client ∷ [])
All-snoc [] client h k = (k, tt)
All-snoc (c ∷ q) client h k = (h.0, All-snoc q client h.1 k)

-- A client that arrives is in the queue or refused.
pub arrive-count :
    (memory : Bool) (client : Ptr) (q : List Ptr) (c : Ptr)
    → let (status, _, q') = arrive memory client q in
      count c q' + count c (refused_by status client) ≡ count c q + count c (client ∷ [])
unfolding arrive refused_by count
arrive-count memory client q c = elim (Bool-cases (length q == max_queue_size)) [
  | inl full ↦ rw full
  | inr room ↦ rw room (by_memory memory)
]
  where
    by_memory :
        (m : Bool)
        → count c (if m then q ++ client ∷ [] else q)
            + count c (refused_by (if m then none else some (negsuc 0)) client)
          ≡ count c q + count c (client ∷ [])
    by_memory true = omega (arith, count-append c q (client ∷ []))
    by_memory false = refl

pub arrive-All :
    (memory : Bool) (client : Ptr) (q : List Ptr)
    → All IsClient q
    → IsClient client
    → All IsClient (arrive memory client q).2
unfolding arrive
arrive-All memory client q h k = elim (Bool-cases (length q == max_queue_size)) [
  | inl full ↦ rw full h
  | inr room ↦ rw room (by_memory memory)
]
  where
    by_memory : (m : Bool) → All IsClient (if m then q ++ client ∷ [] else q)
    by_memory true = All-snoc q client h k
    by_memory false = h

pub leave-All : (q : List Ptr) → All IsClient q → All IsClient (leave q).1
unfolding leave
leave-All [] h = tt
leave-All (c ∷ q) h = h.1

-- A client that is taken off the queue is with the thread.
pub leave-count :
    (otherwise : Station) (q : List Ptr) (c : Ptr)
    → All IsClient q
    → count c (in_service (otherwise ∷ [])) ≡ 0
    → count c (leave q).1 + count c (in_service (with_client otherwise (leave q).0 ∷ []))
      ≡ count c q
unfolding leave with_client count in_service
leave-count otherwise [] c h e = omega arith
leave-count otherwise (d ∷ q) c h e =
    let ne : (d == null) ≡ false = let k = h.0 in ground arith in rw ne (ground arith)
