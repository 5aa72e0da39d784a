-- ===== src/Ftp/Service/Download.antt =====
-- What a download sends.
use cmy_message.Prelude.{
  ℕ, zero, suc, ◌+◌, ◌-◌, ◌%◌, ◌^◌, ◌<◌, ◌≤◌, List, [], ◌∷◌, ◌++◌, true, false, some, ◌≡◌, refl,
  arith, ltb, pos, length, take, length-append, append_assoc, append-nil, ◌∙◌, ap, out_of_bounds,
  ◌⊎◌, inl, inr,
}
use cmy_message.CString.{c_str}
use cmy_message.Chat.{Recv, failed, closed, received}
use cmy_message.Chat.Names.Assigned.{IsText, padded-c_str}
use cmy_message.Ftp.{
  buffer_size, max_len_file_path, value, undefined, recv, take_recv, send, take_send,
  filled_response, fill_buffer_with_response,
}
use cmy_message.Ftp.Numbers.{decimal, atoi, to_int}
use cmy_message.Ftp.Numbers.RoundTrip.{atoi-decimal, length-decimal}
use cmy_message.Ftp.Transfer.{complete, receive_file, send_file}
use cmy_message.Ftp.Transfer.Laws.{pieces, send_file-receive_file}
use cmy_message.Ftp.Service.{
  Files, path_assets_folder, get_file_size, send_or, send_all, send_content, send_opened,
  send_sized, send_named_file, send_from_path, send_requested, download_file,
}
use cmy_message.Ftp.Service.Session.{online}
use cmy_message.Ftp.Service.Upload.{fill-text}

pub take-short : (n : ℕ) (xs : List ℕ) → length xs ≤ n → take n xs ≡ xs
take-short zero [] h = refl
take-short (suc n) [] h = refl
take-short zero (x ∷ xs) h = absurd (omega arith)
take-short (suc n) (x ∷ xs) h = rw (take-short n xs (omega arith))

take-append : (xs : List ℕ) (y : ℕ) → take (length xs) (xs ++ y ∷ []) ≡ xs
take-append [] y = refl
take-append (x ∷ xs) y = rw (take-append xs y)

to_int-small : (n : ℕ) → n < 2 ^ 31 → to_int n ≡ pos n
unfolding to_int
to_int-small n h =
    let low : n % 2 ^ 32 ≡ n = omega arith in
    let positive : ltb n (2 ^ 31) ≡ true = ground arith in rw (low, positive)

send_content-packets :
    (content : List ℕ) (packets : List (List ℕ))
    → length content < 2 ^ 31
    → send_file (length content) content ≡ some (true, packets)
    → send_content (to_int (length content)) content ≡ send_all packets
unfolding send_content
send_content-packets content packets small run =
    rw (to_int-small (length content) small, send_content, run)

module _ (rs : List Recv) (files : List (List ℕ × List ℕ)) where
  pub send_all-online :
      (packets sent : List (List ℕ))
      → send_all packets (online rs sent files) ≡ value tt (online rs (sent ++ packets) files)
  unfolding send_all send take_send
  send_all-online [] sent = rw (append-nil sent)
  send_all-online (p ∷ packets) sent =
      send_all-online packets (sent ++ p ∷ [])
      ∙ ap (λ s. value tt (online rs s files)) (append_assoc sent (p ∷ []) packets)

module _ (fs : Files) (name : List ℕ) (x : ℕ) (plain : IsText (name ++ x ∷ []))
    (short : length (path_assets_folder ++ name) < max_len_file_path) (content : List ℕ)
    (there : fs.access (path_assets_folder ++ name) ≡ true)
    (known : fs.stat (path_assets_folder ++ name) ≡ true)
    (has : fs.read (path_assets_folder ++ name) ≡ some content) where
  size-content : get_file_size fs (path_assets_folder ++ name) ≡ pos (length content)
  unfolding get_file_size
  size-content =
      let fits : ltb (max_len_file_path - 1) (length (path_assets_folder ++ name)) ≡ false =
        ground arith in
      rw (there, fits, known, has)

  -- A download of a readable file of fewer than 2 ^ 31 bytes sends its size as a decimal and then
  -- packets, such that a client that reads the size and receives that many bytes has the file.
  pub download_file-sends :
      (rs others : List Recv) (sent : List (List ℕ)) (files : List (List ℕ × List ℕ))
      → length content < 2 ^ 31
      → (packets : List (List ℕ)) × (download_file fs
            (online (received (name ++ x ∷ []) ∷ rs) sent files)
          ≡ value (pos 0) (online rs (sent ++ (decimal (length content) ∷ packets)) files))
        × (atoi (decimal (length content)) ≡ pos (length content))
        × (receive_file (length content) (pieces packets ++ others) ≡ complete content others)
  unfolding download_file send_requested send_from_path send_named_file send_sized send_or
      send_opened send take_send
  download_file-sends rs others sent files small =
      let n = length content in
      let line = name ++ x ∷ [] in
      let long : length line ≡ length name + 1 = length-append name (x ∷ []) in
      let path : length (path_assets_folder ++ name) ≡ 7 + length name =
        length-append path_assets_folder name in
      let fits : length line < buffer_size = omega (arith, long, path) in
      let some_name : ltb 0 (length name + 1) ≡ true = ground arith in
      let back : length name + 1 - 1 ≡ length name = omega arith in
      let room : ltb (length (path_assets_folder ++ name)) max_len_file_path ≡ true =
        ground arith in
      let (packets, run, same, got) = send_file-receive_file content others in
      let digits = take-short 19 (decimal n) (omega (arith, length-decimal n small)) in
      (
        packets,
        rw (
          fill-text rs sent files line fits,
          (padded-c_str line plain fits).0,
          long,
          some_name,
          back,
          take-append name x,
          room,
          size-content,
          digits,
          has,
          send_content-packets content packets small run,
          send_all-online rs files packets (sent ++ decimal n ∷ []),
          append_assoc sent (decimal n ∷ []) packets,
        ),
        atoi-decimal n small,
        got,
      )

-- If the name does not come because the connection fails or is closed, the byte in front of the
-- empty name is written.
pub download_file-no_name :
    (fs : Files) (r : Recv) (rs : List Recv) (sent : List (List ℕ)) (files : List (List ℕ × List ℕ))
    → (r ≡ failed) ⊎ (r ≡ closed)
    → download_file fs (online (r ∷ rs) sent files) ≡ undefined out_of_bounds
unfolding download_file send_requested fill_buffer_with_response recv take_recv filled_response
    c_str
download_file-no_name fs r rs sent files (inl e) = rw e
download_file-no_name fs r rs sent files (inr e) = rw e
