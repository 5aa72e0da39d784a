-- ===== src/Ftp/Service/Remaining.antt =====
-- What the operations of the service leave of the responses that are still to come.
pub mod Commands
use cmy_message.Prelude.{
  ℕ, suc, ◌+◌, ◌-◌, ◌<◌, List, [], ◌∷◌, ◌++◌, Bool, true, false, Option, none, some, arith, ltb,
  if◌then◌else◌, ℤ, pos, negsuc, length, take, out_of_bounds, Fault,
}
use cmy_message.CString.{c_str}
use cmy_message.Chat.{Recv, failed, closed, received}
use cmy_message.Ftp.{
  Connection, Outcome, value, blocked, undefined, Io, pure, and_then, require, take_recv, recv,
  take_send, send, filled_response, fill_buffer_with_response, ◌>>=◌, ◌>>◌, max_len_file_path,
  max_file_size,
}
use cmy_message.Ftp.Numbers.{to_int, atoi}
use cmy_message.Ftp.Transfer.{
  Received, complete, broken, starved, receive_loop, receive_file, send_file,
}
use cmy_message.Ftp.Service.{
  Files, send_or, list_loop, list_files_curr_dir, send_all, send_content, send_from_path,
  send_requested, send_named_file, send_sized, send_opened, download_file, get_file_size,
  strip_newline, upload_path, counted, store_received, receive_content, receive_named_file,
  receive_size, receive_name, upload_file, path_assets_folder,
}
use cmy_message.Ftp.Service.Commands.{
  Command, help, upload, download, exit, list, invalid, inform_client, run_command,
}

-- Fewer than `n` responses are left after the run.
abbrev pub Below : {A : Type 0} → ℕ → Outcome A → Type 0
Below n (value a c) = length c.incoming < n
Below n (blocked c) = Unit
Below n (undefined e) = Unit

-- The run of a function that leaves no more responses than it had.
abbrev pub Keeps : {A : Type 0} → ℕ → Io A → Type 0
Keeps n m = (c : Connection) → length c.incoming < n → Below n (m c)

module _ {A B : Type 0} (n : ℕ) where
  and_then-Below :
      (o : Outcome A) (f : A → Io B)
      → Below n o
      → ((a : A) → Keeps n (f a))
      → Below n (and_then o f)
  and_then-Below (value a c) f h k = k a c h
  and_then-Below (blocked c) f h k = tt
  and_then-Below (undefined e) f h k = tt

  pub bind-Keeps :
      (m : Io A) (f : A → Io B) → Keeps n m → ((a : A) → Keeps n (f a)) → Keeps n (m >>= f)
  bind-Keeps m f h k c l = and_then-Below (m c) f (h c l) k

module _ (n : ℕ) where
  take_send-Below :
      (rs : List Bool) (bytes : List ℕ) (c : Connection)
      → length c.incoming < n
      → Below n (take_send rs bytes c)
  unfolding take_send
  take_send-Below [] bytes c l = l
  take_send-Below (true ∷ rs) bytes c l = l
  take_send-Below (false ∷ rs) bytes c l = l

  pub send-Keeps : (bytes : List ℕ) → Keeps n (send bytes)
  unfolding send
  send-Keeps bytes c l = take_send-Below c.send_results bytes c l

  take_recv-Below : (rs : List Recv) (c : Connection) → length rs < suc n → Below n (take_recv rs c)
  unfolding take_recv
  take_recv-Below [] c l = tt
  take_recv-Below (r ∷ rs) c l = omega arith

  filled_response-Keeps : (r : Recv) → Keeps n (filled_response r)
  unfolding filled_response
  filled_response-Keeps failed c l = l
  filled_response-Keeps closed c l = l
  filled_response-Keeps (received bytes) c l = ground (arith, l)

  -- A response is used up.
  pub fill-Below :
      (c : Connection) → length c.incoming < suc n → Below n (fill_buffer_with_response c)
  unfolding fill_buffer_with_response recv
  fill-Below c l =
      and_then-Below n (take_recv c.incoming c) filled_response (take_recv-Below c.incoming c l)
        filled_response-Keeps

  pub fill-Keeps : Keeps n fill_buffer_with_response
  fill-Keeps c l = fill-Below c (omega (arith, l))

  pub require-Keeps : (b : Bool) (e : Fault) → Keeps n (require b e)
  require-Keeps true e c l = l
  require-Keeps false e c l = tt

  pub choice-Keeps :
      {A : Type 0} (b : Bool) (m k : Io A) → Keeps n m → Keeps n k → Keeps n (if b then m else k)
  choice-Keeps true m k h g = h
  choice-Keeps false m k h g = g

  pub send_or-Keeps :
      (text : List ℕ) (bad : ℤ) (next : Io ℤ) → Keeps n next → Keeps n (send_or text bad next)
  unfolding send_or
  send_or-Keeps text bad next k =
      bind-Keeps n (send text) (λ done. if done then next else pure bad) (send-Keeps text)
        (λ done. choice-Keeps done next (pure bad) k (λ c l. l))

  require_then-Keeps :
      {A : Type 0} (b : Bool) (e : Fault) (next : Io A)
      → Keeps n next
      → Keeps n (require b e >> next)
  require_then-Keeps true e next k = k
  require_then-Keeps false e next k = λ c l. tt

  pub list_loop-Keeps : (idx : ℕ) (names : List (List ℕ)) → Keeps n (list_loop idx names)
  unfolding list_loop
  list_loop-Keeps idx [] = λ c l. l
  list_loop-Keeps idx (name ∷ names) =
      require_then-Keeps _ out_of_bounds _
        (send_or-Keeps _ (negsuc 0) (list_loop (idx + 1) names) (list_loop-Keeps (idx + 1) names))

  send_all-Keeps : (packets : List (List ℕ)) → Keeps n (send_all packets)
  unfolding send_all
  send_all-Keeps [] = λ c l. l
  send_all-Keeps (packet ∷ packets) =
      bind-Keeps n (send packet) _ (send-Keeps packet) (λ _. send_all-Keeps packets)

  send_content-Keeps : (size : ℤ) (content : List ℕ) → Keeps n (send_content size content)
  unfolding send_content
  send_content-Keeps (negsuc k) content = λ c l. l
  send_content-Keeps (pos k) content =
      elim (send_file k content)
        as (λ o. Keeps n (elim o [ none ↦ pure tt | some (_, packets) ↦ send_all packets ])) [
          | none ↦ λ c l. l
          | some (_, packets) ↦ send_all-Keeps packets
        ]

  send_opened-Keeps :
      (filename : List ℕ) (size : ℕ) (o : Option (List ℕ)) → Keeps n (send_opened filename size o)
  unfolding send_opened
  send_opened-Keeps filename size none = send_or-Keeps _ (negsuc 1) (pure (negsuc 0)) (λ c l. l)
  send_opened-Keeps filename size (some content) =
      bind-Keeps n (send_content (to_int size) content) _ (send_content-Keeps (to_int size) content)
        (λ _ c l. l)

  send_sized-Keeps :
      (fs : Files) (filename : List ℕ) (size : ℤ) → Keeps n (send_sized fs filename size)
  unfolding send_sized
  send_sized-Keeps fs filename (negsuc k) = λ c l. l
  send_sized-Keeps fs filename (pos k) =
      send_or-Keeps _ (negsuc 0) _
        (send_opened-Keeps filename k (fs.read (path_assets_folder ++ filename)))

  send_from_path-Keeps : (fs : Files) (filename : List ℕ) → Keeps n (send_from_path fs filename)
  unfolding send_from_path send_named_file
  send_from_path-Keeps fs filename =
      require_then-Keeps (ltb (length (path_assets_folder ++ filename)) max_len_file_path)
        out_of_bounds (send_named_file fs filename)
        (send_sized-Keeps fs filename (get_file_size fs (path_assets_folder ++ filename)))

  send_requested-Keeps : (fs : Files) (text : List ℕ) → Keeps n (send_requested fs text)
  unfolding send_requested
  send_requested-Keeps fs text =
      require_then-Keeps (ltb 0 (length text)) out_of_bounds
        (send_from_path fs (take (length text - 1) text))
        (send_from_path-Keeps fs (take (length text - 1) text))

  pub download_file-Keeps : (fs : Files) → Keeps n (download_file fs)
  unfolding download_file
  download_file-Keeps fs =
      bind-Keeps n fill_buffer_with_response (λ (_, buffer). send_requested fs (c_str buffer))
        fill-Keeps (λ (_, buffer). send_requested-Keeps fs (c_str buffer))
