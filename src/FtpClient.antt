-- ===== src/FtpClient.antt =====
-- clients/src/utils/ftp_client.c and clients/src/utils/ftp_utils.c: the client of the file service,
-- over the connection of Ftp. What `fgets` reads from the standard input is an argument, `none` at its
-- end. The results of the calls of `send` are not looked at. What is only printed is left out.
pub mod Agreement
pub mod Transfers
pub mod Turns
pub mod Sessions
pub mod Talk
pub mod Using
use cmy_message.Prelude.{
  ℕ, zero, suc, ◌+◌, ◌-◌, List, [], ◌∷◌, ◌++◌, Bool, true, false, ◌||◌, Option, none, some,
  out_of_bounds, ltb, leb, if◌then◌else◌, ℤ, pos, negsuc, length, take,
}
use cmy_message.CString.{c_str, text_equal}
use cmy_message.Chat.{Recv, failed, closed, received}
use cmy_message.Ftp.{
  buffer_size, max_len_file_path, max_file_size, Io, pure, fail, ◌>>=◌, ◌>>◌, recv, send, blocked,
  fill_buffer_with_response,
}
use cmy_message.Ftp.Numbers.{codes, decimal, atoi}
use cmy_message.Ftp.Transfer.{Received, complete, broken, starved, receive_file, send_file}
use cmy_message.Ftp.Service.{
  Files, path_assets_folder, max_num_algs_filesize, strip_newline, upload_path, counted, send_all,
}

-- `get_file_size` of the client, and the status of printing the folder.
unfoldable pub file_size : Files → List ℕ → ℤ
file_size fs path =
    if fs.access path
    then (if ltb (max_len_file_path - 1) (length path)
        then negsuc 1
        else if fs.stat path
        then (elim (fs.read path) [ none ↦ negsuc 0 | some content ↦ pos (length content) ])
        else negsuc 2)
    else negsuc 0

unfoldable pub typed_text : Option (List ℕ) → List ℕ
typed_text none = []
typed_text (some line) = c_str line

-- What came is written to the file, also when a `recv` fails.
unfoldable pub keep_received : List ℕ → Received → Io ℤ
keep_received filename (complete file rest) c =
    pure (pos 0) (record c { incoming = rest; files = c.files ++ (filename, file) ∷ [] })
keep_received filename (broken file rest) c =
    pure (negsuc 0) (record c { incoming = rest; files = c.files ++ (filename, file) ∷ [] })
keep_received filename (starved file) c = blocked (record c { incoming = [] })

unfoldable pub receive_sized : List ℕ → ℤ → Io ℤ
unfolding keep_received
receive_sized filename size c = keep_received filename (receive_file (counted size) c.incoming) c

-- The file is stored under the line that was typed, its end included. The status of the response is
-- not looked at.
unfoldable pub receive_named : Files → List ℕ → Io ℤ
unfolding receive_sized
receive_named fs filename =
    if fs.can_write filename
    then (do (_, buffer) ← fill_buffer_with_response; receive_sized filename (atoi (c_str buffer)))
    else pure (pos 0)

unfoldable pub client_download_file : Files → Option (List ℕ) → Io ℤ
unfolding receive_named typed_text
client_download_file fs typed = do
  _ ← send (codes "--download")
  _ ← send (typed_text typed)
  receive_named fs (typed_text typed)

-- The packets of the file, and then the confirmation of the server, which is printed.
unfoldable pub send_packets : Option (Bool × List (List ℕ)) → Io ℤ
unfolding send_all
send_packets none = pure (negsuc 0)
send_packets (some (false, packets)) = do _ ← send_all packets; pure (negsuc 0)
send_packets (some (true, packets)) = do
  _ ← send_all packets
  _ ← fill_buffer_with_response
  pure (pos 0)

unfoldable pub send_opened_file : ℕ → Option (List ℕ) → Io ℤ
unfolding send_packets
send_opened_file size none = pure (negsuc 0)
send_opened_file size (some content) = send_packets (send_file size content)

unfoldable pub send_sized_file : Files → List ℕ → ℤ → Io ℤ
unfolding send_opened_file
send_sized_file fs filename (negsuc _) = pure (pos 0)
send_sized_file fs filename (pos size) = if ltb max_file_size size then pure (pos 0) else (do
  _ ← send filename
  _ ← send (take (max_num_algs_filesize - 1) (decimal size))
  send_opened_file size (fs.read (upload_path filename)))

unfoldable pub send_named : Files → List ℕ → Io ℤ
unfolding file_size send_sized_file upload_path
send_named fs filename = send_sized_file fs filename (file_size fs (upload_path filename))

unfoldable pub client_upload_file : Files → Option (List ℕ) → Io ℤ
unfolding send_named strip_newline
client_upload_file fs none = do _ ← send (codes "--upload"); pure (negsuc 0)
client_upload_file fs (some line) = do
  _ ← send (codes "--upload")
  send_named fs (strip_newline (c_str line))

-- What the client does with a line that it was typed.
pub data Action : Type 0 where
  uploading downloading passing_on : Action

unfoldable pub action_of : List ℕ → Action
action_of text =
    if text_equal text (codes "-u") || text_equal text (codes "--upload")
    then uploading
    else if text_equal text (codes "-d") || text_equal text (codes "--download")
    then downloading
    else passing_on

-- The statuses of the operations are not looked at. `filename` is what `fgets` reads next.
unfoldable pub act : Files → Option (List ℕ) → List ℕ → Action → Io (Unit {0})
unfolding client_upload_file client_download_file
act fs filename text uploading = do _ ← client_upload_file fs filename; pure tt
act fs filename text downloading = do _ ← client_download_file fs filename; pure tt
act fs filename text passing_on = do _ ← send text; pure tt

-- What `select` reports: it fails, the standard input has a line, and perhaps another for a name, the
-- server has sent something, or neither.
pub data Event : Type 0 where
  select_failed from_server idle : Event
  typed : Option (List ℕ) → Option (List ℕ) → Event

-- What the server sent is printed; the byte behind it becomes the terminator.
unfoldable pub print_received : Recv → Io (Option ℤ) → Io (Option ℤ)
print_received failed next = pure (some (negsuc 2))
print_received closed next = pure (some (pos 0))
print_received (received bytes) next =
    if ltb (length bytes) buffer_size then next else fail out_of_bounds

unfoldable pub on_event : Files → Event → Io (Option ℤ) → Io (Option ℤ)
unfolding action_of act print_received
on_event fs select_failed next = pure (some (negsuc 0))
on_event fs from_server next = do r ← recv; print_received r next
on_event fs idle next = next
on_event fs (typed none filename) next = pure (some (negsuc 1))
on_event fs (typed (some line) filename) next = do
  let text = strip_newline (c_str line)
  _ ← act fs filename text (action_of text)
  next

-- `none` is a client that still waits for `select`.
unfoldable pub keep_connection_with_server_cli : Files → List Event → Io (Option ℤ)
unfolding on_event
keep_connection_with_server_cli fs [] = pure none
keep_connection_with_server_cli fs (e ∷ events) =
    let next = keep_connection_with_server_cli fs events in on_event fs e next

unfoldable pub start_status : Option ℤ → Option ℤ
start_status none = none
start_status (some (negsuc n)) = some (negsuc n)
start_status (some (pos n)) = some (pos 0)

-- The first argument says whether there is a client structure.
unfoldable pub start_using_ftp : Bool → Files → List Event → Io (Option ℤ)
unfolding keep_connection_with_server_cli start_status
start_using_ftp false fs events = pure (some (negsuc 0))
start_using_ftp true fs events = do
  connection_status ← keep_connection_with_server_cli fs events
  pure (start_status connection_status)
