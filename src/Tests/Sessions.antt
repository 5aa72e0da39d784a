-- ===== src/Tests/Sessions.antt =====
-- Runs of the service for files.
use mathlib.Core.List.{flatten}
use cmy_message.Prelude.{ℕ, List, [], ◌∷◌, ◌++◌, true, none, some, ◌≡◌, refl, arith, pos, replicate}
use cmy_message.Chat.{closed, received}
use cmy_message.Chat.Names.Assigned.{IsText}
use cmy_message.Ftp.{value, blocked}
use cmy_message.Ftp.Numbers.{codes, decimal}
use cmy_message.Ftp.Transfer.Laws.{pieces}
use cmy_message.Ftp.Service.{Files, newline, upload_path, upload_file}
use cmy_message.Ftp.Service.Commands.{prompt, command_loop}
use cmy_message.Ftp.Service.Session.{online, turns, command_loop-closed}
use cmy_message.Ftp.Service.Upload.{strip_newline-append, upload_file-stores}
use cmy_message.Tests.Transfers.{two_pieces, two_pieces-Delivers}

abbrev pub hello : List ℕ
hello = codes "Hello"

abbrev pub disk : Files
disk = record {
  listing = none;
  access = λ path. true;
  stat = λ path. true;
  read = λ path. some hello;
  can_write = λ path. true;
}

abbrev pub note : List ℕ
note = codes "a.md"

pub note-IsText : IsText (note ++ 10 ∷ [])
note-IsText = search (arith)

command_loop-closed_example :
    command_loop 8 disk (online (replicate 3 closed) [] [])
    ≡ blocked (online [] ([] ++ (turns 3 ++ prompt ∷ [])) [])
command_loop-closed_example = command_loop-closed disk 3 8 [] [] (omega arith)

abbrev message_404 : List ℕ
message_404 = replicate 404 65

upload_file-stores_example :
    upload_file disk (
      online (received (note ++ 10 ∷ []) ∷ received (decimal 11) ∷ (pieces two_pieces ++ [])) [] [])
    ≡ value (pos 0) (
        online []
          ([] ++ (codes "File uploaded!" ++ newline) ∷ [])
          ([] ++ (upload_path note, flatten two_pieces) ∷ []))
upload_file-stores_example =
    upload_file-stores disk (note ++ newline) note (strip_newline-append note) note-IsText
      (omega arith) refl [] [] two_pieces 11 [] two_pieces-Delivers (omega arith)

hello-IsText : IsText hello
hello-IsText = search (arith)
