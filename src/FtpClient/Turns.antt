-- ===== src/FtpClient/Turns.antt =====
-- A turn of the server of files for a command that moves a file.
use cmy_message.Prelude.{ℕ, suc, List, [], ◌∷◌, ◌++◌, ◌≡◌, arith, ℤ}
use cmy_message.CString.{c_str, text_equal}
use cmy_message.Chat.{Recv, received}
use cmy_message.Ftp.{Connection, value}
use cmy_message.Ftp.Numbers.{codes}
use cmy_message.Ftp.Service.{Files, upload_file, download_file}
use cmy_message.Ftp.Service.Commands.{
  command_of, run_command, is_disconnected, end_turn, turn, prompted, prompt, command_loop,
}
use cmy_message.Ftp.Service.Session.{online, send-online}
use cmy_message.Ftp.Service.Upload.{fill-text}

module _ (fs : Files) (fuel : ℕ) (rs : List Recv) (sent : List (List ℕ))
    (files : List (List ℕ × List ℕ)) (status : ℤ) (c : Connection) where
  -- A turn that is given the text of a command which sends no feedback of its own: what the command
  -- does, and then the next turn.
  pub command_loop-upload :
      upload_file fs (online rs (sent ++ prompt ∷ []) files) ≡ value status c
      → command_loop (suc fuel) fs (online (received (codes "--upload") ∷ rs) sent files)
        ≡ command_loop fuel fs c
  unfolding command_loop prompted turn run_command end_turn is_disconnected command_of text_equal
      c_str
  command_loop-upload h = rw (
    send-online prompt (received (codes "--upload") ∷ rs) sent files,
    fill-text rs (sent ++ prompt ∷ []) files (codes "--upload") (omega arith),
    h,
  )

  pub command_loop-download :
      download_file fs (online rs (sent ++ prompt ∷ []) files) ≡ value status c
      → command_loop (suc fuel) fs (online (received (codes "--download") ∷ rs) sent files)
        ≡ command_loop fuel fs c
  unfolding command_loop prompted turn run_command end_turn is_disconnected command_of text_equal
      c_str
  command_loop-download h = rw (
    send-online prompt (received (codes "--download") ∷ rs) sent files,
    fill-text rs (sent ++ prompt ∷ []) files (codes "--download") (omega arith),
    h,
  )
