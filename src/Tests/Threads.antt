-- ===== src/Tests/Threads.antt =====
-- Runs of the threads of the chat.
use cmy_message.Prelude.{ℕ, true, false, ◌≡◌, ◌≢◌, refl, arith, ◌==◌, if◌then◌else◌}
use cmy_message.Chat.Monitor.{
  arriving, waiting, broadcasting, gone, System, move, wait_for_thread_work, arrive, wake,
}
use cmy_message.Chat.Monitor.Exclusion.{
  Reach, here, next, Runs, start, then_step, IsBroadcasting, IsExclusive, mutual_exclusion,
  leave-wake, remove_other-wake, quit-forever,
}

abbrev thread_one : ℕ
thread_one = 1

abbrev thread_two : ℕ
thread_two = 2

abbrev at_start : System
at_start = record { is_broadcasting = false; place = λ i. arriving }

one_arrived : Reach false at_start (wait_for_thread_work 1 at_start)
one_arrived = next here (arrive at_start 1 refl)

one_broadcasts : IsBroadcasting (wait_for_thread_work 1 at_start) 1
unfolding wait_for_thread_work
one_broadcasts = ground arith

mutual_exclusion_example : thread_one ≡ thread_one
mutual_exclusion_example =
    mutual_exclusion {s = at_start} refl (λ i e. cc) one_arrived thread_one thread_one
      one_broadcasts one_broadcasts

-- Thread 1 broadcasts, thread 2 waits.
abbrev one_and_two : System
one_and_two = record {
  is_broadcasting = true;
  place = λ i. if i == 1 then broadcasting else if i == 2 then waiting else arriving;
}

one_and_two-IsExclusive : IsExclusive one_and_two
one_and_two-IsExclusive = record { one = λ i j p q. ground arith; down = λ e i p. cc }

leave-wake_example : (t : System) × Reach false one_and_two t × IsBroadcasting t 2 × IsExclusive t
leave-wake_example = leave-wake one_and_two 1 2 one_and_two-IsExclusive refl refl

one_ne_two : thread_one ≢ thread_two
one_ne_two e = omega arith

remove_other-wake_example :
    (t : System) × Runs one_and_two t × IsBroadcasting t 1 × IsBroadcasting t 2
remove_other-wake_example = remove_other-wake one_and_two 1 2 one_ne_two refl refl

abbrev one_quit : System
one_quit = record one_and_two { place = move 1 gone one_and_two.place }

two_wakes : Runs one_quit (wait_for_thread_work 2 one_quit)
two_wakes = then_step start (wake one_quit 2 refl)

quit-forever_example :
    let t = wait_for_thread_work 2 one_quit in
    (t.is_broadcasting ≡ true) × ((j : ℕ) → t.place j ≢ broadcasting)
quit-forever_example =
    quit-forever one_and_two (wait_for_thread_work 2 one_quit) 1 one_and_two-IsExclusive refl
      two_wakes
