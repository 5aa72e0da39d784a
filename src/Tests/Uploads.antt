-- ===== src/Tests/Uploads.antt =====
-- Runs of the client of the service for files, and of both sides.
use cmy_message.Prelude.{
  ℕ, List, [], ◌∷◌, ◌++◌, Option, true, none, some, length, ◌≡◌, ◌<◌, refl, arith, All, ℤ, pos,
  negsuc,
}
use cmy_message.Chat.{Recv, received, failed, closed}
use cmy_message.Ftp.{Connection, Outcome, value}
use cmy_message.Chat.Names.Assigned.{IsText, padded}
use cmy_message.Ftp.Numbers.{codes, decimal}
use cmy_message.Ftp.Transfer.Laws.{pieces}
use cmy_message.Ftp.Service.{newline, strip_newline, upload_path}
use cmy_message.Ftp.Service.Session.{online}
use cmy_message.Ftp.Service.Upload.{strip_newline-append}
use cmy_message.Ftp.Service.Commands.{command_of, prompt, command_loop}
use cmy_message.CString.{c_str, text_equal}
use cmy_message.FtpClient.Sessions.{upload_on_both_sides}
use cmy_message.FtpClient.{
  uploading, Event, typed, from_server, select_failed, start_using_ftp,
  keep_connection_with_server_cli, action_of,
}
use cmy_message.FtpClient.Agreement.{demanded, action_of-command_of}
use cmy_message.FtpClient.Talk.{
  Step, says, hears, nothing, IsTalk, events_of, heard, said, start_using_ftp-talk,
}
use cmy_message.FtpClient.Transfers.{uploaded}
use cmy_message.Tests.Sessions.{hello, disk, note, note-IsText}

action_of-command_of_example :
    action_of (codes "--upload") ≡ demanded (command_of (codes "--upload"))
action_of-command_of_example = action_of-command_of (codes "--upload")

name-IsText : IsText note
name-IsText = search (arith)

name-strips : strip_newline note ≡ note
unfolding strip_newline
name-strips = refl

path-fits : length (upload_path note) < 1000
unfolding upload_path
path-fits = omega arith

abbrev upload_line : List ℕ
upload_line = codes "-u" ++ 10 ∷ 0 ∷ []

abbrev download_line : List ℕ
download_line = codes "-d" ++ 10 ∷ 0 ∷ []

upload_line-text : strip_newline (c_str upload_line) ≡ codes "-u"
unfolding strip_newline c_str
upload_line-text = refl

uploads : action_of (codes "-u") ≡ uploading
unfolding action_of text_equal
uploads = refl

upload_on_both_sides_example :
    (packets : List (List ℕ)) × (keep_connection_with_server_cli disk
        (typed (some upload_line) (some (padded (note ++ newline))) ∷ [])
        (online (received uploaded ∷ []) [] [])
      ≡ keep_connection_with_server_cli disk []
          (online [] ([] ++ (codes "--upload" ∷ note ∷ decimal (length hello) ∷ packets)) []))
    × (command_loop 2 disk (
          online
            (received (codes "--upload")
              ∷ received note
              ∷ received (decimal (length hello))
              ∷ (pieces packets ++ []))
            []
            [])
        ≡ command_loop 1 disk (
            online []
              (([] ++ prompt ∷ []) ++ uploaded ∷ [])
              ([] ++ (upload_path note, hello) ∷ [])))
upload_on_both_sides_example =
    upload_on_both_sides disk disk upload_line (codes "-u") upload_line-text [] 1 [] [] [] [] [] []
      hello (omega arith) (note ++ newline) note uploads note-IsText (omega arith)
      (strip_newline-append note) path-fits refl refl refl name-IsText (omega arith) name-strips
      refl

abbrev list_line : List ℕ
list_line = codes "-l" ++ 10 ∷ 0 ∷ []

abbrev steps : List Step
steps = says list_line none ∷ hears (codes "(0) note") ∷ nothing ∷ says list_line none ∷ []

steps-IsTalk : All IsTalk steps
unfolding action_of text_equal strip_newline c_str
steps-IsTalk = (refl, (omega arith, (tt, (refl, tt))))

start_using_ftp-talk_example :
    let run : List Event → List Recv → Outcome (Option ℤ) = λ then replies.
      start_using_ftp true disk (events_of steps ++ then) (online (heard steps ++ replies) [] []) in
    let ended : Connection = online [] (said steps) [] in
    (run [] [] ≡ value none ended)
    × (run (from_server ∷ []) (closed ∷ []) ≡ value (some (pos 0)) ended)
    × (run (from_server ∷ []) (failed ∷ []) ≡ value (some (negsuc 2)) ended)
    × (run (select_failed ∷ []) [] ≡ value (some (negsuc 0)) ended)
    × (run (typed none none ∷ []) [] ≡ value (some (negsuc 1)) ended)
start_using_ftp-talk_example = start_using_ftp-talk disk [] steps [] none [] [] steps-IsTalk
