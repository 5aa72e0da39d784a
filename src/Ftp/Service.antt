-- ===== src/Ftp/Service.antt =====
-- services/1_FTP/src/ftp_service.c and `get_file_size` of services/1_FTP/src/ftp_utils.c.
-- The file system is the record `Files` of what its calls answer. Memory is taken to be left for
-- the copies of names and paths.
pub mod Commands
pub mod Upload
pub mod Download
pub mod Remaining
pub mod Session
pub mod Details
use cmy_message.Prelude.{
  ℕ, zero, suc, ◌+◌, ◌-◌, List, [], ◌∷◌, ◌++◌, Bool, true, false, Option, none, some, out_of_bounds,
  double_free, ◌==◌, ltb, if◌then◌else◌, ℤ, pos, negsuc, is_neg, length, take,
}
use cmy_message.CString.{c_str}
use cmy_message.Ftp.{
  buffer_size, max_len_file_path, max_file_size, Connection, Outcome, value, blocked, undefined, Io,
  pure, ◌>>=◌, ◌>>◌, require, send, fill_buffer_with_response,
}
use cmy_message.Ftp.Numbers.{codes, decimal, to_int, atoi}
use cmy_message.Ftp.Transfer.{Received, complete, broken, starved, receive_file, send_file}

-- `opendir` with `readdir`, `access`, `stat`, `fopen` for reading with the content, and whether
-- `fopen` for writing gives a file.
pub record Files : Type 0 where
  pub listing : Option (List (List ℕ))
  pub access : List ℕ → Bool
  pub stat : List ℕ → Bool
  pub read : List ℕ → Option (List ℕ)
  pub can_write : List ℕ → Bool

abbrev pub path_assets_folder : List ℕ
path_assets_folder = codes "assets/"

abbrev pub max_num_algs_filesize : ℕ
max_num_algs_filesize = 20

abbrev pub newline : List ℕ
newline = 10 ∷ []

unfoldable pub get_file_size : Files → List ℕ → ℤ
get_file_size fs path =
    if fs.access path
    then (if ltb (max_len_file_path - 1) (length path)
        then negsuc 1
        else if fs.stat path
        then (elim (fs.read path) [ none ↦ negsuc 0 | some content ↦ pos (length content) ])
        else negsuc 2)
    else negsuc 0

-- `send(...) < 0`: the status of a call whose failure ends the function with `bad`.
unfoldable pub send_or : List ℕ → ℤ → Io ℤ → Io ℤ
send_or text bad next = do done ← send text; if done then next else pure bad

unfoldable pub list_loop : ℕ → List (List ℕ) → Io ℤ
unfolding send_or
list_loop idx [] = pure (pos 0)
list_loop idx (name ∷ names) =
    let later = list_loop (idx + 1) names in
    let text = codes "(" ++ decimal idx ++ codes ") " ++ name ++ newline in
    do require (ltb (length text) buffer_size) out_of_bounds; send_or text (negsuc 0) later

unfoldable pub list_files_curr_dir : Files → Io ℤ
unfolding list_loop
list_files_curr_dir fs = elim fs.listing [ none ↦ pure (pos 1) | some names ↦ list_loop 0 names ]

-- The results of the calls of `send` are not looked at.
unfoldable pub send_all : List (List ℕ) → Io (Unit {0})
send_all [] = pure tt
send_all (packet ∷ packets) = let later = send_all packets in do _ ← send packet; later

-- The size is passed on as an `int`: one that does not fit and is negative sends nothing.
unfoldable pub send_content : ℤ → List ℕ → Io (Unit {0})
unfolding send_all
send_content (negsuc n) content = pure tt
send_content (pos n) content = elim (send_file n content) [
  | none ↦ pure tt
  | some (_, packets) ↦ send_all packets
]

abbrev pub not_found_text : List ℕ → List ℕ
not_found_text filename =
    codes "File " ++ filename ++ codes " not found. Please, try again." ++ newline

-- The part of `download_file` after `fopen`, and the part after the size is known.
unfoldable pub send_opened : List ℕ → ℕ → Option (List ℕ) → Io ℤ
unfolding send_content send_or
send_opened filename size none = send_or (not_found_text filename) (negsuc 1) (pure (negsuc 0))
send_opened filename size (some content) = do send_content (to_int size) content; pure (pos 0)

unfoldable pub send_sized : Files → List ℕ → ℤ → Io ℤ
unfolding send_opened
send_sized fs filename (negsuc _) = pure (pos 0)
send_sized fs filename (pos size) =
    send_or (take (max_num_algs_filesize - 1) (decimal size)) (negsuc 0)
      (send_opened filename size (fs.read (path_assets_folder ++ filename)))

unfoldable pub send_named_file : Files → List ℕ → Io ℤ
unfolding get_file_size send_sized
send_named_file fs filename =
    send_sized fs filename (get_file_size fs (path_assets_folder ++ filename))

-- `strcat` fills a path of a fixed size.
unfoldable pub send_from_path : Files → List ℕ → Io ℤ
unfolding send_named_file
send_from_path fs filename =
    require (ltb (length (path_assets_folder ++ filename)) max_len_file_path) out_of_bounds
    >> send_named_file fs filename

-- The last character of the name is cut off: of an empty name it is the byte in front of the string.
unfoldable pub send_requested : Files → List ℕ → Io ℤ
unfolding send_from_path
send_requested fs text =
    require (ltb 0 (length text)) out_of_bounds >> send_from_path fs (take (length text - 1) text)

-- The status of the response is not looked at.
unfoldable pub download_file : Files → Io ℤ
unfolding send_requested
download_file fs = do (_, buffer) ← fill_buffer_with_response; send_requested fs (c_str buffer)

unfoldable pub strip_newline : List ℕ → List ℕ
strip_newline [] = []
strip_newline (c ∷ []) = if c == 10 then [] else c ∷ []
strip_newline (c ∷ d ∷ cs) = c ∷ strip_newline (d ∷ cs)

-- `snprintf` cuts the path.
unfoldable pub upload_path : List ℕ → List ℕ
upload_path filename = take (max_len_file_path - 1) (path_assets_folder ++ filename)

-- `receive_file` frees the name when a `recv` fails, and the caller frees it again. The result of the
-- last `send` is not looked at.
unfoldable pub store_received : List ℕ → Received → Io ℤ
store_received path (complete file rest) c =
    (send (codes "File uploaded!" ++ newline) >>= λ _. pure (pos 0))
      (record c { incoming = rest; files = c.files ++ (path, file) ∷ [] })
store_received path (broken file rest) c = undefined double_free
store_received path (starved file) c = blocked (record c { incoming = [] })

unfoldable pub receive_content : ℕ → List ℕ → Io ℤ
unfolding store_received
receive_content filesize path c = store_received path (receive_file filesize c.incoming) c

-- A loop that counts down from a negative size receives nothing.
abbrev pub counted : ℤ → ℕ
counted (pos n) = n
counted (negsuc n) = 0

abbrev pub may_exist_text : List ℕ → List ℕ
may_exist_text filename =
    take (buffer_size - 1) (codes "File '" ++ filename ++ codes "' may already exist." ++ newline)

-- The part of `upload_file` after the size is read.
unfoldable pub receive_named_file : Files → List ℕ → ℤ → Io ℤ
unfolding receive_content send_or upload_path
receive_named_file fs filename size =
    if ltb max_file_size (counted size)
    then pure (negsuc 2)
    else if fs.can_write (upload_path filename)
    then receive_content (counted size) (upload_path filename)
    else send_or (may_exist_text filename) (negsuc 3) (pure (negsuc 4))

-- The two responses of an upload: the name, and the size.
unfoldable pub receive_size : Files → List ℕ → ℤ → List ℕ → Io ℤ
unfolding receive_named_file
receive_size fs filename (negsuc _) text = pure (negsuc 1)
receive_size fs filename (pos _) text = receive_named_file fs filename (atoi text)

unfoldable pub receive_name : Files → ℤ → List ℕ → Io ℤ
unfolding receive_size strip_newline
receive_name fs (negsuc _) text = pure (negsuc 0)
receive_name fs (pos _) text = do
  (status, buffer) ← fill_buffer_with_response
  receive_size fs (strip_newline text) status (c_str buffer)

unfoldable pub upload_file : Files → Io ℤ
unfolding receive_name
upload_file fs = do
  (status, buffer) ← fill_buffer_with_response
  receive_name fs status (c_str buffer)
