-- ===== src/Chat/Monitor.antt =====
-- `wait_for_thread_work` and the places of broadcast_chat_service.c that give the broadcast up,
-- as steps of any number of threads. Each step is what one thread does while it holds the mutex.
pub mod Exclusion
use cmy_message.Prelude.{
  ℕ, Bool, true, false, ◌≡◌, ◌≢◌, refl, arith, ◌==◌, if◌then◌else◌, Run, ok, ◌>>=◌, ℤ, pos,
}
use cmy_message.Chat.{Shared, start_removing_client_from_broadcast}

-- Where a thread is: before the monitor, in `pthread_cond_wait`, in the broadcast loop, or gone.
pub data Place : Type 0 where
  arriving waiting broadcasting gone : Place

pub record System : Type 0 where
  pub is_broadcasting : Bool
  pub place : ℕ → Place

abbrev pub move : ℕ → Place → (ℕ → Place) → ℕ → Place
move i p f j = if j == i then p else f j

-- One turn of `wait_for_thread_work`: the test of the `while`, and what follows it.
unfoldable pub wait_for_thread_work : ℕ → System → System
wait_for_thread_work i s =
    if s.is_broadcasting
    then record s { place = move i waiting s.place }
    else record { is_broadcasting = true; place = move i broadcasting s.place }

-- A step is labelled by whether the broadcaster goes on after it has put the flag down. It leaves at
-- once, with its own client, when `recv` fails for this client; when its own client has closed the
-- connection, the index of the loop is -1 after the descriptor was closed, so that it goes on, with
-- index 0, as it does after it has removed another client.
pub data Step : Bool → System → System → Type 0 where
  arrive : (s : System) (i : ℕ) → s.place i ≡ arriving → Step false s (wait_for_thread_work i s)
  wake : (s : System) (i : ℕ) → s.place i ≡ waiting → Step false s (wait_for_thread_work i s)
  leave :
      (s : System) (i : ℕ)
      → s.place i ≡ broadcasting
      → Step false s (record { is_broadcasting = false; place = move i gone s.place })
  quit :
      (s : System) (i : ℕ)
      → s.place i ≡ broadcasting
      → Step false s (record s { place = move i gone s.place })
  remove_other :
      (s : System) (i : ℕ)
      → s.place i ≡ broadcasting
      → Step true s (record s { is_broadcasting = false })
  close_own :
      (s : System) (i : ℕ)
      → s.place i ≡ broadcasting
      → Step true s (record s { is_broadcasting = false })
