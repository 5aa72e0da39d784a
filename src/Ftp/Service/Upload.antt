-- ===== src/Ftp/Service/Upload.antt =====
-- What an upload stores.
use mathlib.Core.List.{flatten}
use cmy_message.Prelude.{
  ℕ, ◌+◌, ◌^◌, ◌<◌, List, [], ◌∷◌, ◌++◌, true, false, ◌≡◌, refl, arith, ltb, pos, length,
  double_free, ◌∙◌,
}
use cmy_message.Chat.{Recv, failed, received}
use cmy_message.Chat.Names.Assigned.{IsText, padded, padded-c_str}
use cmy_message.Ftp.{
  buffer_size, max_file_size, value, undefined, recv, take_recv, send, take_send, filled_response,
  fill_buffer_with_response,
}
use cmy_message.Ftp.Numbers.{codes, decimal}
use cmy_message.Ftp.Numbers.RoundTrip.{atoi-decimal, length-decimal, decimal-All}
use cmy_message.Ftp.Transfer.Laws.{Delivers, pieces, receive_file-pieces, receive_file-failed}
use cmy_message.Ftp.Service.{
  Files, newline, upload_path, strip_newline, upload_file, receive_name, receive_size,
  receive_named_file, receive_content, store_received,
}
use cmy_message.Ftp.Service.Session.{online}

pub strip_newline-append : (name : List ℕ) → strip_newline (name ++ 10 ∷ []) ≡ name
unfolding strip_newline
strip_newline-append [] = refl
strip_newline-append (c ∷ []) = refl
strip_newline-append (c ∷ d ∷ cs) = rw (strip_newline-append (d ∷ cs))

module _ (rs : List Recv) (sent : List (List ℕ)) (files : List (List ℕ × List ℕ)) where
  -- A text that leaves room for the terminator is read whole.
  pub fill-text :
      (text : List ℕ)
      → length text < buffer_size
      → fill_buffer_with_response (online (received text ∷ rs) sent files)
        ≡ value (pos (length text), padded text) (online rs sent files)
  unfolding fill_buffer_with_response recv take_recv filled_response
  fill-text text h = let room : ltb (length text) buffer_size ≡ true = ground arith in rw room

  receive_size-text :
      (fs : Files) (name : List ℕ) (size : ℕ)
      → size < 2 ^ 31
      → fs.can_write (upload_path name) ≡ true
      → receive_size fs name (pos (length (decimal size))) (decimal size) (online rs sent files)
        ≡ receive_content size (upload_path name) (online rs sent files)
  unfolding receive_size receive_named_file
  receive_size-text fs name size small free =
      let below : ltb max_file_size size ≡ false = ground arith in
      rw (atoi-decimal size small, below, free)

module _ (fs : Files) (line name : List ℕ) (strips : strip_newline line ≡ name)
    (plain : IsText line) (short : length line < buffer_size)
    (free : fs.can_write (upload_path name) ≡ true) (sent : List (List ℕ))
    (files : List (List ℕ × List ℕ)) where
  pub upload_file-reads :
      (size : ℕ) (rs : List Recv)
      → size < 2 ^ 31
      → upload_file fs (online (received line ∷ received (decimal size) ∷ rs) sent files)
        ≡ receive_content size (upload_path name) (online rs sent files)
  unfolding upload_file receive_name
  upload_file-reads size rs small =
      let digits : length (decimal size) < buffer_size = omega (arith, length-decimal size small) in
      rw (
        fill-text (received (decimal size) ∷ rs) sent files line short,
        (padded-c_str line plain short).0,
        strips,
        fill-text rs sent files (decimal size) digits,
        (padded-c_str (decimal size) (decimal-All size) digits).0,
        receive_size-text rs sent files fs name size small free,
      )

  -- An upload of a file of fewer than 2 ^ 31 bytes, its short name sent with or without a line end
  -- and its size as a decimal, stores exactly the bytes that arrive, however they are cut into pieces, under the path
  -- of the name; it tells the client so, and leaves what comes behind the file unread.
  pub upload_file-stores :
      (cs : List (List ℕ)) (size : ℕ) (others : List Recv)
      → Delivers size cs
      → size < 2 ^ 31
      → upload_file fs
          (online (received line ∷ received (decimal size) ∷ (pieces cs ++ others)) sent files)
        ≡ value (pos 0) (
            online others
              (sent ++ (codes "File uploaded!" ++ newline) ∷ [])
              (files ++ (upload_path name, flatten cs) ∷ []))
  unfolding receive_content store_received send take_send
  upload_file-stores cs size others d small =
      upload_file-reads size (pieces cs ++ others) small ∙ rw (receive_file-pieces cs size others d)

  -- If a `recv` fails before the file is complete, the name of the file is freed twice.
  pub upload_file-double_free :
      (cs : List (List ℕ)) (size missing : ℕ) (others : List Recv)
      → Delivers size cs
      → 0 < missing
      → size + missing < 2 ^ 31
      → upload_file fs (
          online
            (received line ∷ received (decimal (size + missing)) ∷ (pieces cs ++ failed ∷ others))
            sent
            files)
        ≡ undefined double_free
  unfolding receive_content store_received
  upload_file-double_free cs size missing others d lack small =
      upload_file-reads (size + missing) (pieces cs ++ failed ∷ others) small
      ∙ rw (receive_file-failed cs size missing others d lack)
