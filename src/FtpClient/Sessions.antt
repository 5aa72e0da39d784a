-- ===== src/FtpClient/Sessions.antt =====
-- One command on both sides: a turn of the loop of the client and one of the loop of the server.
use cmy_message.Prelude.{
  ℕ, suc, ◌^◌, ◌<◌, List, [], ◌∷◌, ◌++◌, true, some, ◌≡◌, pos, length, ℤ, Option,
}
use cmy_message.CString.{Object, c_str}
use cmy_message.Chat.{Recv, received}
use cmy_message.Chat.Names.Assigned.{IsText, padded}
use cmy_message.Ftp.{Connection, buffer_size, max_len_file_path, value}
use cmy_message.Ftp.Numbers.{codes, decimal}
use cmy_message.Ftp.Transfer.Laws.{pieces}
use cmy_message.Ftp.Service.{Files, strip_newline, upload_path}
use cmy_message.Ftp.Service.Commands.{prompt, command_loop}
use cmy_message.Ftp.Service.Session.{online}
use cmy_message.FtpClient.{
  client_upload_file, uploading, action_of, act, typed, on_event, Event,
  keep_connection_with_server_cli,
}
use cmy_message.FtpClient.Transfers.{uploaded, client_upload_file-upload_file}
use cmy_message.FtpClient.Turns.{command_loop-upload}

-- A turn of the client for a line whose action moves a file.
module _ (fs : Files) (raw : Object) (text : List ℕ) (typed-text : strip_newline (c_str raw) ≡ text)
    (filename : Option (List ℕ)) (events : List Event) (status : ℤ)
    (before after : Connection) where
  keep_connection-upload :
      action_of text ≡ uploading
      → client_upload_file fs filename before ≡ value status after
      → keep_connection_with_server_cli fs (typed (some raw) filename ∷ events) before
        ≡ keep_connection_with_server_cli fs events after
  unfolding keep_connection_with_server_cli on_event act
  keep_connection-upload a h = rw (typed-text, a, h)

module _ (fs server : Files) (raw : Object) (text : List ℕ)
    (typed-text : strip_newline (c_str raw) ≡ text) (events : List Event) (fuel : ℕ)
    (rs others : List Recv) (sent sent' : List (List ℕ)) (files files' : List (List ℕ × List ℕ))
    (content : List ℕ) (small : length content < 2 ^ 31) where
  -- An upload on both sides: the user types one of the commands for it and then the line of a
  -- name that fits and ends in no line end, of a readable file of fewer than 2 ^ 31 bytes. The
  -- client sends the command, the name, the size and packets, and goes on with its loop when it
  -- is told that the file is there; and if each of these, every packet included, reaches the
  -- server as it was sent, and the server can write the path of the name, the server stores
  -- exactly the file under this path, tells the client so, and goes on with its own loop.
  pub upload_on_both_sides :
      (line name : List ℕ)
      → action_of text ≡ uploading
      → IsText line
      → length line < buffer_size
      → strip_newline line ≡ name
      → length (upload_path name) < max_len_file_path
      → fs.access (upload_path name) ≡ true
      → fs.stat (upload_path name) ≡ true
      → fs.read (upload_path name) ≡ some content
      → IsText name
      → length name < buffer_size
      → strip_newline name ≡ name
      → server.can_write (upload_path name) ≡ true
      → (packets : List (List ℕ)) × (keep_connection_with_server_cli fs
            (typed (some raw) (some (padded line)) ∷ events)
            (online (received uploaded ∷ rs) sent files)
          ≡ keep_connection_with_server_cli fs events (
              online rs
                (sent ++ (codes "--upload" ∷ name ∷ decimal (length content) ∷ packets))
                files))
        × (command_loop (suc fuel) server (
              online
                (received (codes "--upload")
                  ∷ received name
                  ∷ received (decimal (length content))
                  ∷ (pieces packets ++ others))
                sent'
                files')
            ≡ command_loop fuel server (
                online others
                  ((sent' ++ prompt ∷ []) ++ uploaded ∷ [])
                  (files' ++ (upload_path name, content) ∷ [])))
  upload_on_both_sides line name action plain short strips fits there known has p l e free =
      let (packets, sends, stores) =
        client_upload_file-upload_file fs line name plain short strips content fits there known has
          small server rs others sent (sent' ++ prompt ∷ []) files files' p l e free in
      (
        packets,
        keep_connection-upload fs raw text typed-text (some (padded line)) events (pos 0) _ _ action
            sends,
        command_loop-upload server fuel _ sent' files' (pos 0) _ stores,
      )
