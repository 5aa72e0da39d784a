-- ===== src/Tests/Crews.antt =====
-- Runs of the listener and the threads of the pool.
use cmy_message.Prelude.{List, [], ◌∷◌, true, none, ok, ◌≡◌, refl, arith}
use cmy_message.Queue.{Ptr, write, dequeue, is_empty_queue}
use cmy_message.Queue.Refinement.{Models}
use cmy_message.Pool.Crew.{
  looking, entering, waiting, serving, Crew, Reach, here, next, look, take, finish, look_section,
  take_section, with_client, finish_section,
}
use cmy_message.Pool.Crew.Counts.{count, in_service}
use cmy_message.Pool.Crew.Conserved.{IsConserved, Reach-IsConserved, refused_forever}
use cmy_message.Tests.Queues.{malloc, malloc-IsAllocator, one_client, one_client-Models}

-- The client 66 was refused, and the client 55 is pending.
abbrev crew : Crew
crew = record {
  queue = one_client;
  stations = looking ∷ waiting ∷ [];
  is_open = true;
  accepted = 66 ∷ 55 ∷ [];
  refused = 66 ∷ [];
  rejected = [];
  served = [];
}

crew-IsConserved : IsConserved crew
unfolding count in_service
crew-IsConserved = record {
  pending = 55 ∷ [];
  models = one_client-Models;
  clients = ((λ e. omega arith), tt);
  conserved = λ c. omega arith;
}

-- The first thread serves the client.
abbrev looked : Crew
looked = record crew { stations = entering ∷ waiting ∷ [] }

abbrev taken : Crew
taken = record looked {
  queue = record { queue_size = 0; head = 0; tail = 0; heap = write one_client.heap 1 none };
  stations = serving 55 ∷ waiting ∷ [];
}

takes : take_section 0 waiting looked ≡ ok taken
unfolding take_section with_client dequeue
takes = refl

looks : Reach malloc crew looked
unfolding look_section is_empty_queue
looks = next here (look crew 0 refl)

serves : Reach malloc crew (finish_section 0 55 taken)
serves = next (next looks (take looked taken 0 refl takes)) (finish taken 0 55 refl)

Reach-IsConserved_example : IsConserved (finish_section 0 55 taken)
Reach-IsConserved_example = Reach-IsConserved malloc-IsAllocator crew-IsConserved serves

refused_forever_example :
    (q : List Ptr) × Models (finish_section 0 55 taken).queue q
    × (count 66 q ≡ 0)
    × (count 66 (in_service (finish_section 0 55 taken).stations) ≡ 0)
    × (count 66 (finish_section 0 55 taken).served ≡ 0)
    × (count 66 (finish_section 0 55 taken).rejected ≡ 0)
unfolding count finish_section
refused_forever_example =
    refused_forever malloc-IsAllocator 66 crew-IsConserved serves (omega arith) (omega arith)
