-- ===== src/Pool/Crew/Conserved.antt =====
-- No client is lost, and none is in two places.
use cmy_message.Prelude.{
  ℕ, ◌+◌, ◌≤◌, ◌<◌, List, [], ◌∷◌, ◌++◌, false, not, ok, ◌≡◌, ◌≢◌, refl, arith, ◌==◌, All, set,
  Bool-cases, inl, inr,
}
use cmy_message.Clients.{Client}
use cmy_message.Queue.{Ptr, null, Heap, is_empty_queue}
use cmy_message.Queue.Refinement.{
  IsAllocator, Models, arrive, leave, enqueue-Models, dequeue-Models,
}
use cmy_message.Pool.Listener.{told_each, are_assigned, gracefully_reject-Models}
use cmy_message.Pool.Crew.{
  Station, looking, entering, waiting, finished, serving, Crew, refused_by, accept_section,
  close_section, after_rejection, go_to, look_section, with_client, take_section, finish_section,
  IsAt, Step, accept, close, look, take, wake, finish, quit, Reach, here, next,
}
use cmy_message.Pool.Crew.Counts.{
  count, in_service, IsClient, count-append, count-set, told_each-All, arrive-count, arrive-All,
  leave-All, leave-count,
}

-- The queue stands for a list of clients, and each client that was accepted is as often in this list,
-- with a thread, served, refused or rejected, as it was accepted.
pub record IsConserved (crew : Crew) : Type 0 where
  pub pending : List Ptr
  pub models : Models crew.queue pending
  pub clients : All IsClient pending
  pub conserved :
      (c : Ptr)
      → count c crew.accepted
        ≡ count c pending
          + count c (in_service crew.stations)
          + count c crew.served
          + count c crew.refused
          + count c crew.rejected

module _ {malloc : Heap → Ptr} (law : IsAllocator malloc) {crew : Crew} (k : IsConserved crew) where
  accept-IsConserved :
      (client : Ptr)
      → IsClient client
      → (crew' : Crew) × (accept_section malloc client crew ≡ ok crew')
        × IsConserved crew'
        × ((c : Ptr) → count c crew.refused ≤ count c crew'.refused)
  unfolding accept_section
  accept-IsConserved client nz =
      let memory = not (malloc crew.queue.heap == null) in
      let (g, run, models) = enqueue-Models malloc client crew.queue k.pending nz law k.models in
      (
        record crew {
          queue = g;
          accepted = crew.accepted ++ client ∷ [];
          refused = crew.refused ++ refused_by (arrive memory client k.pending).0 client;
        },
        rw run,
        record {
          pending = (arrive memory client k.pending).2;
          models = models;
          clients = arrive-All memory client k.pending k.clients nz;
          conserved = λ c. omega (
            arith,
            k.conserved c,
            arrive-count memory client k.pending c,
            count-append c crew.accepted (client ∷ []),
            count-append c crew.refused (refused_by (arrive memory client k.pending).0 client),
          );
        },
        λ c. omega (
          arith,
          count-append c crew.refused (refused_by (arrive memory client k.pending).0 client),
        ),
      )

  close-IsConserved :
      (memory : Ptr → Client) {crew' : Crew}
      → close_section memory crew ≡ ok crew'
      → IsConserved crew' × (crew'.refused ≡ crew.refused)
  unfolding close_section after_rejection count
  close-IsConserved memory {crew'} ends =
      let (g, run, models) = gracefully_reject-Models memory crew.queue k.pending k.models in
      elim (Bool-cases (are_assigned memory k.pending)) [
        | inr lacks ↦ let undefined = rw (run, lacks) at ends in absurd cc
        | inl has ↦
            let closed = record crew {
              queue = g;
              is_open = false;
              rejected = crew.rejected ++ told_each k.pending;
            } in
            let kept : IsConserved closed = record {
              pending = [];
              models = models;
              clients = tt;
              conserved = λ c.
                  rw (told_each-All k.pending k.clients)
                    (omega (arith, k.conserved c, count-append c crew.rejected k.pending));
            } in
            let e : closed ≡ crew' = let reached = rw (run, has) at ends in cc in
            rw (← e) (kept, refl)
      ]

  go_to-IsConserved :
      (i : ℕ) (s s' : Station)
      → IsAt i s crew
      → s ≢ finished
      → ((c : Ptr) → count c (in_service (s ∷ [])) ≡ count c (in_service (s' ∷ [])))
      → IsConserved (go_to i s' crew)
  go_to-IsConserved i s s' is_at ne same = record {
    pending = k.pending;
    models = k.models;
    clients = k.clients;
    conserved =
        λ c. omega (arith, k.conserved c, count-set c crew.stations i s s' is_at ne, same c);
  }

  take-IsConserved :
      (i : ℕ) (s otherwise : Station)
      → IsAt i s crew
      → s ≢ finished
      → ((c : Ptr) → count c (in_service (s ∷ [])) ≡ 0)
      → ((c : Ptr) → count c (in_service (otherwise ∷ [])) ≡ 0)
      → (crew' : Crew) × (take_section i otherwise crew ≡ ok crew')
        × IsConserved crew'
        × (crew'.refused ≡ crew.refused)
  unfolding take_section
  take-IsConserved i s otherwise is_at ne free free' =
      let (g, run, models) = dequeue-Models crew.queue k.pending k.models in
      let s' = with_client otherwise (leave k.pending).0 in
      (
        record crew { queue = g; stations = set crew.stations i s' },
        rw run,
        record {
          pending = (leave k.pending).1;
          models = models;
          clients = leave-All k.pending k.clients;
          conserved = λ c. omega (
            arith,
            k.conserved c,
            leave-count otherwise k.pending c k.clients (free' c),
            count-set c crew.stations i s s' is_at ne,
            free c,
          );
        },
        refl,
      )

  finish-IsConserved :
      (i : ℕ) (c : Ptr) → IsAt i (serving c) crew → IsConserved (finish_section i c crew)
  unfolding finish_section in_service count
  finish-IsConserved i c is_at = record {
    pending = k.pending;
    models = k.models;
    clients = k.clients;
    conserved = λ d. omega (
      arith,
      k.conserved d,
      count-set d crew.stations i (serving c) looking is_at (λ e. cc),
      count-append d crew.served (c ∷ []),
    );
  }

module _ {malloc : Heap → Ptr} (law : IsAllocator malloc) where
  Step-IsConserved :
      {crew crew' : Crew}
      → Step malloc crew crew'
      → IsConserved crew
      → IsConserved crew' × ((c : Ptr) → count c crew.refused ≤ count c crew'.refused)
  unfolding look_section finish_section in_service count
  Step-IsConserved (accept crew crew' client up nz run) k =
      let (g, run', k', grows) = accept-IsConserved law k client nz in
      let e : g ≡ crew' = cc in rw (← e) (k', grows)
  Step-IsConserved (close crew crew' memory up run) k =
      let (k', same) = close-IsConserved law k memory run in (k', λ c. rw same (omega arith))
  Step-IsConserved (look crew i is_at) k = elim (Bool-cases (is_empty_queue crew.queue)) [
    | inl empty ↦
        rw empty
          (go_to-IsConserved law k i looking looking is_at (λ e. cc) (λ c. refl), λ c. omega arith)
    | inr some_client ↦
        rw some_client
          (go_to-IsConserved law k i looking entering is_at (λ e. cc) (λ c. refl), λ c. omega arith)
  ]
  Step-IsConserved (take crew crew' i is_at run) k =
      let (g, run', k', same) =
        take-IsConserved law k i entering waiting is_at (λ e. cc) (λ c. refl) (λ c. refl) in
      let e : g ≡ crew' = cc in rw (← e) (k', λ c. rw same (omega arith))
  Step-IsConserved (wake crew crew' i is_at run) k =
      let (g, run', k', same) =
        take-IsConserved law k i waiting looking is_at (λ e. cc) (λ c. refl) (λ c. refl) in
      let e : g ≡ crew' = cc in rw (← e) (k', λ c. rw same (omega arith))
  Step-IsConserved (finish crew i c is_at) k =
      (finish-IsConserved law k i c is_at, λ d. omega arith)
  Step-IsConserved (quit crew i is_at) k =
      (go_to-IsConserved law k i looking finished is_at (λ e. cc) (λ c. refl), λ c. omega arith)

  -- However the listener and any number of threads take turns, and however often memory is out: the
  -- queue stands for a list within its bound, and each client was accepted as often as it is in this
  -- list, with a thread, served, refused by the queue, or told that the service closes, if this is so
  -- at first. So a client that is accepted once is in one place, and is served at most once.
  pub Reach-IsConserved :
      {crew crew' : Crew} → IsConserved crew → Reach malloc crew crew' → IsConserved crew'
  Reach-IsConserved k here = k
  Reach-IsConserved k (next r st) = (Step-IsConserved st (Reach-IsConserved k r)).0

  refused-le :
      {crew crew' : Crew} (c : Ptr)
      → IsConserved crew
      → Reach malloc crew crew'
      → count c crew.refused ≤ count c crew'.refused
  refused-le c k here = omega arith
  refused-le c k (next r st) =
      omega (arith, refused-le c k r, (Step-IsConserved st (Reach-IsConserved k r)).1 c)

  -- A client that the queue refused, and that is accepted only once, is from then on neither in the
  -- queue nor with a thread, and is neither served nor told that the service closes.
  pub refused_forever :
      {crew crew' : Crew} (c : Ptr)
      → IsConserved crew
      → Reach malloc crew crew'
      → 0 < count c crew.refused
      → count c crew'.accepted ≤ 1
      → (q : List Ptr) × Models crew'.queue q
        × (count c q ≡ 0)
        × (count c (in_service crew'.stations) ≡ 0)
        × (count c crew'.served ≡ 0)
        × (count c crew'.rejected ≡ 0)
  refused_forever c k r was once =
      let k' = Reach-IsConserved k r in
      let all = k'.conserved c in
      let le = refused-le c k r in
      (k'.pending, k'.models, omega arith, omega arith, omega arith, omega arith)
