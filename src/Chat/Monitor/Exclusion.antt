-- ===== src/Chat/Monitor/Exclusion.antt =====
-- Who broadcasts: one thread at a time, as long as no broadcaster removes another's client.
use cmy_message.Prelude.{ℕ, Bool, true, false, ◌≡◌, ◌≢◌, refl, arith, Bool-cases, inl, inr}
use cmy_message.Chat.Monitor.{
  waiting, broadcasting, gone, System, move, wait_for_thread_work, Step, arrive, wake, leave, quit,
  remove_other, close_own,
}

-- Runs of the threads, by steps after which a broadcaster does not go on with the flag down, or by any.
pub data Reach (label : Bool) (s : System) : System → Type 0 where
  here : Reach label s s
  next : {t u : System} → Reach label s t → Step label t u → Reach label s u

pub data Runs (s : System) : System → Type 0 where
  start : Runs s s
  then_step : {t u : System} {label : Bool} → Runs s t → Step label t u → Runs s u

abbrev pub IsBroadcasting : System → ℕ → Type 0
IsBroadcasting s i = s.place i ≡ broadcasting

-- At most one thread broadcasts, and none while the flag is down.
pub record IsExclusive (s : System) : Type 0 where
  pub one : (i j : ℕ) → IsBroadcasting s i → IsBroadcasting s j → i ≡ j
  pub down : s.is_broadcasting ≡ false → (i : ℕ) → s.place i ≢ broadcasting

wait-IsExclusive :
    (i : ℕ) (s : System)
    → s.place i ≢ broadcasting
    → IsExclusive s
    → IsExclusive (wait_for_thread_work i s)
unfolding wait_for_thread_work
wait-IsExclusive i s ne x = elim (Bool-cases s.is_broadcasting) [
  | inl up ↦ rw up (record { one = λ j k p q. ground (arith, x.one j k); down = λ e j p. cc })
  | inr low ↦
      rw low
        (record { one = λ j k p q. ground (arith, x.down low j, x.down low k); down = λ e j p. cc })
]

Step-IsExclusive : {s t : System} → Step false s t → IsExclusive s → IsExclusive t
Step-IsExclusive (arrive s i e) x = wait-IsExclusive i s (λ h. cc) x
Step-IsExclusive (wake s i e) x = wait-IsExclusive i s (λ h. cc) x
Step-IsExclusive (leave s i e) x = record {
  one = λ j k p q. ground (arith, x.one j k);
  down = λ _ j p. ground (arith, x.one i j e);
}
Step-IsExclusive (quit s i e) x = record {
  one = λ j k p q. ground (arith, x.one j k);
  down = λ h j p. ground (arith, x.down h i);
}

Reach-IsExclusive : {s t : System} → IsExclusive s → Reach false s t → IsExclusive t
Reach-IsExclusive x here = x
Reach-IsExclusive x (next r st) = Step-IsExclusive st (Reach-IsExclusive x r)

-- From a start with the flag down and no broadcaster, as long as every broadcaster leaves at once
-- when it has put the flag down, which it does only when `recv` fails for its own client, two
-- threads that broadcast are the same thread.
pub mutual_exclusion :
    {s t : System}
    → s.is_broadcasting ≡ false
    → ((i : ℕ) → s.place i ≢ broadcasting)
    → Reach false s t
    → (i j : ℕ) → IsBroadcasting t i
    → IsBroadcasting t j
    → i ≡ j
mutual_exclusion e n r =
    (Reach-IsExclusive (record { one = λ i j p q. absurd (n i p); down = λ _. n }) r).one

-- When at most one thread broadcasts, and none while the flag is down, a broadcaster that leaves
-- at once, when `recv` fails for its own client, hands over: a waiting thread that wakes then
-- broadcasts, and at most one thread does.
pub leave-wake :
    (s : System) (i j : ℕ)
    → IsExclusive s
    → IsBroadcasting s i
    → s.place j ≡ waiting
    → (t : System) × Reach false s t × IsBroadcasting t j × IsExclusive t
unfolding wait_for_thread_work
leave-wake s i j x e w =
    let left : System = record { is_broadcasting = false; place = move i gone s.place } in
    let still : left.place j ≡ waiting = ground arith in
    let run : Reach false s (wait_for_thread_work j left) =
      next (next here (leave s i e)) (wake left j still) in
    let there : IsBroadcasting (wait_for_thread_work j left) j = ground arith in
    (wait_for_thread_work j left, run, there, Reach-IsExclusive x run)

-- A broadcaster that removes a client that is not its own and goes on lets a waiting thread in:
-- both broadcast at once.
pub remove_other-wake :
    (s : System) (i j : ℕ)
    → i ≢ j
    → IsBroadcasting s i
    → s.place j ≡ waiting
    → (t : System) × Runs s t × IsBroadcasting t i × IsBroadcasting t j
unfolding wait_for_thread_work
remove_other-wake s i j ne e w =
    let dropped : System = record s { is_broadcasting = false } in
    (
      wait_for_thread_work j dropped,
      then_step (then_step start (remove_other s i e)) (wake dropped j w),
      ground arith,
      ground arith,
    )

-- The same after the client of a broadcaster has closed its connection.
close_own-wake :
    (s : System) (i j : ℕ)
    → i ≢ j
    → IsBroadcasting s i
    → s.place j ≡ waiting
    → (t : System) × Runs s t × IsBroadcasting t i × IsBroadcasting t j
unfolding wait_for_thread_work
close_own-wake s i j ne e w =
    let dropped : System = record s { is_broadcasting = false } in
    (
      wait_for_thread_work j dropped,
      then_step (then_step start (close_own s i e)) (wake dropped j w),
      ground arith,
      ground arith,
    )

-- The flag is up and nobody broadcasts.
record IsStuck (s : System) : Type 0 where
  up : s.is_broadcasting ≡ true
  nobody : (i : ℕ) → s.place i ≢ broadcasting

wait-IsStuck : (i : ℕ) (s : System) → IsStuck s → IsStuck (wait_for_thread_work i s)
unfolding wait_for_thread_work
wait-IsStuck i s k = rw k.up (record { up = refl; nobody = λ j p. ground (arith, k.nobody j) })

Step-IsStuck : {label : Bool} {s t : System} → Step label s t → IsStuck s → IsStuck t
Step-IsStuck (arrive s i e) k = wait-IsStuck i s k
Step-IsStuck (wake s i e) k = wait-IsStuck i s k
Step-IsStuck (leave s i e) k = absurd (k.nobody i e)
Step-IsStuck (quit s i e) k = absurd (k.nobody i e)
Step-IsStuck (remove_other s i e) k = absurd (k.nobody i e)
Step-IsStuck (close_own s i e) k = absurd (k.nobody i e)

Runs-IsStuck : {s t : System} → IsStuck s → Runs s t → IsStuck t
Runs-IsStuck k start = k
Runs-IsStuck k (then_step r st) = Step-IsStuck st (Runs-IsStuck k r)

-- The only broadcaster that ends its loop on the quit signal leaves the flag up: in no later state
-- does a thread broadcast, so that those that wait do so for ever.
pub quit-forever :
    (s t : System) (i : ℕ)
    → IsExclusive s
    → IsBroadcasting s i
    → Runs (record s { place = move i gone s.place }) t
    → (t.is_broadcasting ≡ true) × ((j : ℕ) → t.place j ≢ broadcasting)
quit-forever s t i x e r =
    let stuck : IsStuck (record s { place = move i gone s.place }) = record {
      up = elim (Bool-cases s.is_broadcasting) [ inl u ↦ u | inr d ↦ absurd (x.down d i e) ];
      nobody = λ j p. ground (arith, x.one i j);
    } in
    let k = Runs-IsStuck stuck r in (k.up, k.nobody)
