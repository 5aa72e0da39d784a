-- ===== src/FtpClient/Talk.antt =====
-- A client and its server while no file is moved.
use cmy_message.Prelude.{
  ◌<◌, ℕ, List, [], ◌∷◌, ◌++◌, true, Option, none, some, ◌≡◌, arith, ltb, ℤ, pos, negsuc, length,
  All, append-nil, append_assoc,
}
use cmy_message.CString.{c_str}
use cmy_message.Chat.{Recv, received, failed, closed}
use cmy_message.Ftp.{buffer_size, Connection, Outcome, value, recv}
use cmy_message.Ftp.Service.{Files, strip_newline}
use cmy_message.Ftp.Service.Session.{online, send-online}
use cmy_message.FtpClient.{
  Event, typed, from_server, select_failed, idle, passing_on, action_of, act, print_received,
  on_event, keep_connection_with_server_cli, start_status, start_using_ftp,
}

-- The user types a line, with a next one, the server is heard, or nothing happens.
pub data Step : Type 0 where
  says : List ℕ → Option (List ℕ) → Step
  hears : List ℕ → Step
  nothing : Step

abbrev pub text_of_line : List ℕ → List ℕ
text_of_line line = strip_newline (c_str line)

-- The text of a line is no command that moves a file, and what is heard leaves room for a terminator.
abbrev pub IsTalk : Step → Type 0
IsTalk (says line next) = action_of (text_of_line line) ≡ passing_on
IsTalk (hears bytes) = length bytes < buffer_size
IsTalk nothing = Unit

unfoldable pub events_of : List Step → List Event
events_of [] = []
events_of (says line next ∷ steps) = typed (some line) next ∷ events_of steps
events_of (hears bytes ∷ steps) = from_server ∷ events_of steps
events_of (nothing ∷ steps) = idle ∷ events_of steps

unfoldable pub heard : List Step → List Recv
heard [] = []
heard (says line next ∷ steps) = heard steps
heard (hears bytes ∷ steps) = received bytes ∷ heard steps
heard (nothing ∷ steps) = heard steps

unfoldable pub said : List Step → List (List ℕ)
said [] = []
said (says line next ∷ steps) = text_of_line line ∷ said steps
said (hears bytes ∷ steps) = said steps
said (nothing ∷ steps) = said steps

module _ (fs : Files) (files : List (List ℕ × List ℕ)) where
  -- The steps are made, and the loop goes on with what is left.
  keep_connection-talk :
      (steps : List Step) (events : List Event) (rs : List Recv) (sent : List (List ℕ))
      → All IsTalk steps
      → keep_connection_with_server_cli fs
          (events_of steps ++ events)
          (online (heard steps ++ rs) sent files)
        ≡ keep_connection_with_server_cli fs events (online rs (sent ++ said steps) files)
  unfolding keep_connection_with_server_cli on_event act print_received recv events_of heard said
  keep_connection-talk [] events rs sent h = rw (append-nil sent)
  keep_connection-talk (says line next ∷ steps) events rs sent h = rw (
    h.0,
    send-online (text_of_line line) (heard steps ++ rs) sent files,
    keep_connection-talk steps events rs (sent ++ text_of_line line ∷ []) h.1,
    append_assoc sent (text_of_line line ∷ []) (said steps),
  )
  keep_connection-talk (hears bytes ∷ steps) events rs sent h =
      let room : ltb (length bytes) buffer_size ≡ true = let short = h.0 in ground (arith, short) in
      rw (room, keep_connection-talk steps events rs sent h.1)
  keep_connection-talk (nothing ∷ steps) events rs sent h =
      keep_connection-talk steps events rs sent h.1

  -- A client that is up sends the text of each line that is typed, without its line end, in the order
  -- in which the lines come, however the texts of the server come in between, as long as no line is a
  -- command that moves a file and no text of the server fills the buffer. After this it waits for
  -- the next event; it ends with status 0 if the server closes the connection, and with -3, -1 or -2
  -- if `recv` fails, `select` fails or the input ends.
  pub start_using_ftp-talk :
      (steps : List Step) (events : List Event) (next : Option (List ℕ)) (rs : List Recv)
      (sent : List (List ℕ))
      → All IsTalk steps
      → let run : List Event → List Recv → Outcome (Option ℤ) = λ then replies.
        start_using_ftp true fs
          (events_of steps ++ then)
          (online (heard steps ++ replies) sent files) in
        let ended : Connection = online rs (sent ++ said steps) files in
        (run [] rs ≡ value none ended)
        × (run (from_server ∷ events) (closed ∷ rs) ≡ value (some (pos 0)) ended)
        × (run (from_server ∷ events) (failed ∷ rs) ≡ value (some (negsuc 2)) ended)
        × (run (select_failed ∷ events) rs ≡ value (some (negsuc 0)) ended)
        × (run (typed none next ∷ events) rs ≡ value (some (negsuc 1)) ended)
  unfolding start_using_ftp keep_connection_with_server_cli on_event print_received recv
      start_status
  start_using_ftp-talk steps events next rs sent h =
      let talk = λ (then : List Event) (replies : List Recv).
        keep_connection-talk steps then replies sent h in
      (
        rw (talk [] rs),
        rw (talk (from_server ∷ events) (closed ∷ rs)),
        rw (talk (from_server ∷ events) (failed ∷ rs)),
        rw (talk (select_failed ∷ events) rs),
        rw (talk (typed none next ∷ events) rs),
      )
