-- ===== src/Ftp/Service/Commands.antt =====
-- The command loop of services/1_FTP/src/ftp_service.c.
use cmy_message.Prelude.{
  ℕ, zero, suc, List, [], ◌∷◌, ◌++◌, Bool, true, false, ◌||◌, Option, none, some, ◌==◌, ltb,
  if◌then◌else◌, ℤ, pos, negsuc, length, out_of_bounds,
}
use cmy_message.CString.{c_str, text_equal}
use cmy_message.Ftp.{
  buffer_size, client_disconnected, Io, pure, ◌>>=◌, ◌>>◌, require, send, fill_buffer_with_response,
}
use cmy_message.Ftp.Numbers.{codes}
use cmy_message.Ftp.Service.{
  Files, newline, send_or, list_files_curr_dir, download_file, upload_file,
}

pub data Command : Type 0 where
  help upload download exit list invalid : Command

-- The tests of the loop, in their order.
unfoldable pub command_of : List ℕ → Command
command_of text =
    if text_equal text (codes "-h") || text_equal text (codes "--help")
    then help
    else if text_equal text (codes "-u") || text_equal text (codes "--upload")
    then upload
    else if text_equal text (codes "-d") || text_equal text (codes "--download")
    then download
    else if text_equal text (codes "--exit")
    then exit
    else if text_equal text (codes "-l") || text_equal text (codes "--list")
    then list
    else invalid

abbrev tab : List ℕ
tab = 9 ∷ []

abbrev pub help_text : List ℕ
help_text =
    tab
    ++ codes "-u (--upload)"
    ++ newline
    ++ tab
    ++ codes "-d (--download)"
    ++ newline
    ++ tab
    ++ codes "-l (--list)"
    ++ newline
    ++ tab
    ++ codes "--exit (finish the session)"
    ++ newline

unfoldable pub inform_client : Io ℤ
unfolding send_or
inform_client = send_or help_text (negsuc 0) (pure (pos 0))

abbrev pub prompt : List ℕ
prompt = codes "> "

abbrev pub exit_text : List ℕ
exit_text = codes "'--exit' option selected. Have a nice day!" ++ newline

abbrev pub invalid_text : List ℕ
invalid_text = codes "Invalid option. Please, try again." ++ newline

-- One command: whether the client wants to exit, and the feedback. The statuses of the operations
-- are not looked at.
unfoldable pub run_command : Files → Command → Io (Bool × Option (List ℕ))
unfolding inform_client
run_command fs help = do _ ← inform_client; pure (false, none)
run_command fs upload = do _ ← upload_file fs; pure (false, none)
run_command fs download = do _ ← download_file fs; pure (false, none)
run_command fs exit = pure (true, some exit_text)
run_command fs list = do _ ← list_files_curr_dir fs; pure (false, none)
run_command fs invalid = pure (false, some invalid_text)

-- `fill_buffer_with_response(...) == CLIENT_DISCONNECTED`.
unfoldable pub is_disconnected : ℤ → Bool
is_disconnected (pos n) = n == client_disconnected
is_disconnected (negsuc n) = false

-- The end of a turn: the feedback, and the test of the loop.
unfoldable pub end_turn : Bool → Option (List ℕ) → Io (Option ℤ) → Io (Option ℤ)
end_turn wants_exit none next = if wants_exit then pure (some (pos 0)) else next
end_turn wants_exit (some text) next = do
  done ← send text
  if done then (if wants_exit then pure (some (pos 0)) else next) else pure (some (negsuc 1))

unfoldable pub turn : Files → Bool → List ℕ → Io (Option ℤ) → Io (Option ℤ)
unfolding command_of run_command end_turn
turn fs true text next = pure (some (pos 0))
turn fs false text next = do
  (wants_exit, feedback) ← run_command fs (command_of text)
  end_turn wants_exit feedback next

unfoldable pub prompted : Files → Bool → Io (Option ℤ) → Io (Option ℤ)
unfolding turn is_disconnected
prompted fs false next = pure (some (negsuc 2))
prompted fs true next = do
  (status, buffer) ← fill_buffer_with_response
  turn fs (is_disconnected status) (c_str buffer) next

-- Each turn reads at least one response. `none` means that the fuel ran out.
unfoldable pub command_loop : ℕ → Files → Io (Option ℤ)
unfolding prompted
command_loop zero fs = pure none
command_loop (suc fuel) fs =
    let next = command_loop fuel fs in do done ← send prompt; prompted fs done next

abbrev pub welcome_text : List ℕ → List ℕ
welcome_text name =
    codes "Welcome to the uploading service, "
    ++ 27 ∷ codes "[32m"
    ++ name
    ++ 27 ∷ codes "[0m!"
    ++ newline
    ++ newline
    ++ codes "Insert the desired command after the '>'."
    ++ newline
    ++ codes "Enter '-h' (or '--help') for available commands."
    ++ newline

unfoldable pub welcomed : ℕ → Files → Bool → Io (Option ℤ)
unfolding command_loop
welcomed fuel fs false = pure (some (negsuc 1))
welcomed fuel fs true = command_loop fuel fs

-- The fuel is one more than the responses that are still to come.
unfoldable pub input_client_commands : Files → List ℕ → Io (Option ℤ)
unfolding welcomed
input_client_commands fs name c =
    (require (ltb (length (welcome_text name)) buffer_size) out_of_bounds
        >> (send (welcome_text name) >>= welcomed (suc (length c.incoming)) fs))
      c
