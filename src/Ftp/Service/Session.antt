-- ===== src/Ftp/Service/Session.antt =====
-- A session of commands ends or waits for the client: the fuel of the loop is enough.
use cmy_message.Prelude.{
  ℕ, zero, suc, ◌<◌, List, [], ◌∷◌, ◌++◌, Bool, true, false, Option, none, some, ◌≡◌, refl, ap, ◌∙◌,
  arith, ltb, ℤ, pos, length, out_of_bounds, replicate, append_assoc,
}
use cmy_message.CString.{c_str, text_equal}
use cmy_message.Chat.{Recv, closed, received}
use cmy_message.Ftp.{
  Connection, Outcome, value, blocked, undefined, Io, and_then, require, take_recv, recv, take_send,
  send, filled_response, fill_buffer_with_response, ◌>>=◌, ◌>>◌, buffer_size, client_disconnected,
}
use cmy_message.Ftp.Service.{Files}
use cmy_message.Ftp.Service.Commands.{
  run_command, is_disconnected, end_turn, turn, prompted, prompt, command_loop,
  input_client_commands, command_of, invalid_text, welcome_text, welcomed,
}
use cmy_message.Ftp.Service.Remaining.{Below, fill-Below, send-Keeps}
use cmy_message.Ftp.Service.Remaining.Commands.{run_command-Keeps}

-- Whether a run of the loop ended because its fuel was used up.
unfoldable pub ran_out : Outcome (Option ℤ) → Bool
ran_out (value none c) = true
ran_out (value (some status) c) = false
ran_out (blocked c) = false
ran_out (undefined e) = false

-- With fewer than `n` responses left, a run does not use up the fuel.
abbrev Enough : ℕ → Io (Option ℤ) → Type 0
Enough n m = (c : Connection) → length c.incoming < n → ran_out (m c) ≡ false

module _ {A : Type 0} (n : ℕ) where
  and_then-Enough :
      (o : Outcome A) (f : A → Io (Option ℤ))
      → Below n o
      → ((a : A) → Enough n (f a))
      → ran_out (and_then o f) ≡ false
  unfolding ran_out
  and_then-Enough (value a c) f h k = k a c h
  and_then-Enough (blocked c) f h k = refl
  and_then-Enough (undefined e) f h k = refl

module _ (n : ℕ) (next : Io (Option ℤ)) (enough : Enough n next) where
  end_turn-Enough :
      (wants_exit : Bool) (feedback : Option (List ℕ))
      → Enough n (end_turn wants_exit feedback next)
  unfolding end_turn ran_out
  end_turn-Enough true none c l = refl
  end_turn-Enough false none c l = enough c l
  end_turn-Enough wants_exit (some text) c l =
      and_then-Enough n (send text c) _ (send-Keeps n text c l)
        (λ done d k. ground (arith, enough d k))

  turn-Enough : (fs : Files) (quit : Bool) (text : List ℕ) → Enough n (turn fs quit text next)
  unfolding turn ran_out
  turn-Enough fs true text c l = refl
  turn-Enough fs false text c l =
      and_then-Enough n (run_command fs (command_of text) c) _
        (run_command-Keeps n fs (command_of text) c l)
        (λ (wants_exit, feedback). end_turn-Enough wants_exit feedback)

  prompted-Enough : (fs : Files) (done : Bool) → Enough (suc n) (prompted fs done next)
  unfolding prompted ran_out
  prompted-Enough fs false c l = refl
  prompted-Enough fs true c l =
      and_then-Enough n (fill_buffer_with_response c) _ (fill-Below n c l)
        (λ (status, buffer). turn-Enough fs (is_disconnected status) (c_str buffer))

command_loop-Enough : (fuel : ℕ) (fs : Files) → Enough fuel (command_loop fuel fs)
unfolding command_loop
command_loop-Enough zero fs c l = absurd (omega arith)
command_loop-Enough (suc fuel) fs c l =
    and_then-Enough (suc fuel) (send prompt c) _ (send-Keeps (suc fuel) prompt c l)
      (λ done. prompted-Enough fuel (command_loop fuel fs) (command_loop-Enough fuel fs) fs done)

require-Enough :
    (n : ℕ) (b : Bool) (next : Io (Option ℤ))
    → Enough n next
    → Enough n (require b out_of_bounds >> next)
unfolding ran_out
require-Enough n true next k = k
require-Enough n false next k = λ c l. refl

welcomed-Enough : (n : ℕ) (fs : Files) (done : Bool) → Enough n (welcomed n fs done)
unfolding welcomed ran_out
welcomed-Enough n fs false c l = refl
welcomed-Enough n fs true c l = command_loop-Enough n fs c l

-- A session never uses up its fuel: whatever the client sends and whatever the calls of `send` and
-- of the file system answer, it returns a status, waits for a response, or is undefined.
input_client_commands-enough :
    (fs : Files) (name : List ℕ) (c : Connection)
    → ran_out (input_client_commands fs name c) ≡ false
unfolding input_client_commands
input_client_commands-enough fs name c =
    let n = suc (length c.incoming) in
    require-Enough n (ltb (length (welcome_text name)) buffer_size)
      (send (welcome_text name) >>= welcomed n fs)
      (λ d l.
        and_then-Enough n (send (welcome_text name) d) (welcomed n fs)
          (send-Keeps n (welcome_text name) d l) (welcomed-Enough n fs))
      c (omega arith)

abbrev pub online : List Recv → List (List ℕ) → List (List ℕ × List ℕ) → Connection
online incoming sent files = record {
  incoming = incoming;
  send_results = [];
  sent = sent;
  files = files;
}

-- With successful calls of `send` a text goes out.
pub send-online :
    (text : List ℕ) (rs : List Recv) (sent : List (List ℕ)) (files : List (List ℕ × List ℕ))
    → send text (online rs sent files) ≡ value true (online rs (sent ++ text ∷ []) files)
unfolding send take_send
send-online text rs sent files = refl

-- What `n` turns send to a client that is not there.
abbrev pub turns : ℕ → List (List ℕ)
turns zero = []
turns (suc n) = prompt ∷ invalid_text ∷ turns n

-- With successful calls of send, a client that has closed its connection is not noticed: however
-- often recv reports it, the loop sends the prompt and the message for an invalid option once more
-- and reads again.
pub command_loop-closed :
    (fs : Files) (n fuel : ℕ) (sent : List (List ℕ)) (files : List (List ℕ × List ℕ))
    → n < fuel
    → command_loop fuel fs (online (replicate n closed) sent files)
      ≡ blocked (online [] (sent ++ (turns n ++ prompt ∷ [])) files)
unfolding command_loop prompted turn is_disconnected end_turn run_command command_of
    fill_buffer_with_response filled_response recv take_recv send take_send c_str text_equal
command_loop-closed fs n zero sent files h = absurd (omega arith)
command_loop-closed fs zero (suc fuel) sent files h = refl
command_loop-closed fs (suc n) (suc fuel) sent files h =
    let later = turns n ++ prompt ∷ [] in
    command_loop-closed fs n fuel ((sent ++ prompt ∷ []) ++ invalid_text ∷ []) files (omega arith)
    ∙ ap (λ s. blocked (online [] s files))
        (append_assoc (sent ++ prompt ∷ []) (invalid_text ∷ []) later
          ∙ append_assoc sent (prompt ∷ []) (invalid_text ∷ later))

-- A message whose number of bytes is the number that stands for a disconnected client ends the
-- session with status 0, whatever the message is.
pub command_loop-disconnected :
    (fs : Files) (fuel : ℕ) (bytes : List ℕ) (rs : List Recv) (sent : List (List ℕ))
    (files : List (List ℕ × List ℕ))
    → length bytes ≡ client_disconnected
    → command_loop (suc fuel) fs (online (received bytes ∷ rs) sent files)
      ≡ value (some (pos 0)) (online rs (sent ++ prompt ∷ []) files)
unfolding command_loop prompted turn is_disconnected fill_buffer_with_response filled_response recv
    take_recv send take_send
command_loop-disconnected fs fuel bytes rs sent files h = rw h
