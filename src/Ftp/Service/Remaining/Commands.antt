-- ===== src/Ftp/Service/Remaining/Commands.antt =====
-- What the commands leave of the responses that are still to come.
use cmy_message.Prelude.{
  ℕ, ◌-◌, ◌<◌, List, [], ◌∷◌, ◌++◌, none, some, arith, ltb, ℤ, pos, negsuc, length,
}
use cmy_message.CString.{c_str}
use cmy_message.Chat.{Recv, failed, closed, received}
use cmy_message.Ftp.{Connection, pure, send, fill_buffer_with_response, max_file_size}
use cmy_message.Ftp.Numbers.{atoi}
use cmy_message.Ftp.Transfer.{Received, complete, broken, starved, receive_loop, receive_file}
use cmy_message.Ftp.Service.{
  Files, list_loop, list_files_curr_dir, download_file, strip_newline, upload_path, counted,
  store_received, receive_content, receive_named_file, receive_size, receive_name, upload_file,
}
use cmy_message.Ftp.Service.Commands.{
  Command, help, upload, download, exit, list, invalid, inform_client, run_command,
}
use cmy_message.Ftp.Service.Remaining.{
  Below, Keeps, bind-Keeps, send-Keeps, send_or-Keeps, list_loop-Keeps, fill-Keeps, choice-Keeps,
  download_file-Keeps,
}

-- What a reception leaves is a part of what it was given.
abbrev Leaves : ℕ → Received → Type 0
Leaves n (complete file rest) = length rest < n
Leaves n (broken file rest) = Unit
Leaves n (starved file) = Unit

receive_loop-Leaves :
    (n : ℕ) (rs : List Recv) (remaining : ℕ) (file : List ℕ)
    → length rs < n
    → Leaves n (receive_loop rs remaining file)
unfolding receive_loop
receive_loop-Leaves n [] remaining file l = ground (arith, l)
receive_loop-Leaves n (failed ∷ rs) remaining file l = ground (arith, l)
receive_loop-Leaves n (closed ∷ rs) remaining file l =
    ground (arith, l, receive_loop-Leaves n rs remaining file)
receive_loop-Leaves n (received bytes ∷ rs) remaining file l =
    ground (arith, l, receive_loop-Leaves n rs (remaining - length bytes) (file ++ bytes))

module _ (n : ℕ) where
  store_received-Below :
      (path : List ℕ) (r : Received) (c : Connection)
      → Leaves n r
      → Below n (store_received path r c)
  unfolding store_received
  store_received-Below path (complete file rest) c l =
      bind-Keeps n (send _) (λ _. pure (pos 0)) (send-Keeps n _) (λ _ d k. k) _ l
  store_received-Below path (broken file rest) c l = tt
  store_received-Below path (starved file) c l = tt

  receive_named_file-Keeps :
      (fs : Files) (filename : List ℕ) (size : ℤ) → Keeps n (receive_named_file fs filename size)
  unfolding receive_named_file receive_content receive_file
  receive_named_file-Keeps fs filename size =
      choice-Keeps n (ltb max_file_size (counted size)) (pure (negsuc 2)) _ (λ c l. l)
        (choice-Keeps n (fs.can_write (upload_path filename)) _ _
          (λ c l.
            store_received-Below (upload_path filename) _ c
              (receive_loop-Leaves n c.incoming (counted size) [] l))
          (send_or-Keeps n _ (negsuc 3) (pure (negsuc 4)) (λ c l. l)))

  receive_size-Keeps :
      (fs : Files) (filename : List ℕ) (status : ℤ) (text : List ℕ)
      → Keeps n (receive_size fs filename status text)
  unfolding receive_size
  receive_size-Keeps fs filename (negsuc k) text = λ c l. l
  receive_size-Keeps fs filename (pos k) text = receive_named_file-Keeps fs filename (atoi text)

  receive_name-Keeps :
      (fs : Files) (status : ℤ) (text : List ℕ) → Keeps n (receive_name fs status text)
  unfolding receive_name
  receive_name-Keeps fs (negsuc k) text = λ c l. l
  receive_name-Keeps fs (pos k) text =
      bind-Keeps n fill_buffer_with_response
        (λ (status, buffer). receive_size fs (strip_newline text) status (c_str buffer))
        (fill-Keeps n)
        (λ (status, buffer). receive_size-Keeps fs (strip_newline text) status (c_str buffer))

  upload_file-Keeps : (fs : Files) → Keeps n (upload_file fs)
  unfolding upload_file
  upload_file-Keeps fs =
      bind-Keeps n fill_buffer_with_response
        (λ (status, buffer). receive_name fs status (c_str buffer)) (fill-Keeps n)
        (λ (status, buffer). receive_name-Keeps fs status (c_str buffer))

  list_files-Keeps : (fs : Files) → Keeps n (list_files_curr_dir fs)
  unfolding list_files_curr_dir
  list_files-Keeps fs =
      elim fs.listing
        as (λ o. Keeps n (elim o [ none ↦ pure (pos 1) | some names ↦ list_loop 0 names ])) [
          | none ↦ λ c l. l
          | some names ↦ list_loop-Keeps n 0 names
        ]

  pub run_command-Keeps : (fs : Files) (command : Command) → Keeps n (run_command fs command)
  unfolding run_command inform_client
  run_command-Keeps fs help =
      bind-Keeps n inform_client _ (send_or-Keeps n _ (negsuc 0) (pure (pos 0)) (λ c l. l))
        (λ _ c l. l)
  run_command-Keeps fs upload = bind-Keeps n (upload_file fs) _ (upload_file-Keeps fs) (λ _ c l. l)
  run_command-Keeps fs download =
      bind-Keeps n (download_file fs) _ (download_file-Keeps n fs) (λ _ c l. l)
  run_command-Keeps fs exit = λ c l. l
  run_command-Keeps fs list =
      bind-Keeps n (list_files_curr_dir fs) _ (list_files-Keeps fs) (λ _ c l. l)
  run_command-Keeps fs invalid = λ c l. l
