-- ===== src/FtpClient/Transfers.antt =====
-- The two sides of a transfer: what the client and the server of files do to one another.
use cmy_message.Prelude.{
  ℕ, ◌+◌, ◌-◌, ◌^◌, ◌<◌, List, [], ◌∷◌, ◌++◌, true, false, some, ◌≡◌, arith, ltb, pos, length,
  append_assoc, length-append, ◌∙◌,
}
use cmy_message.Chat.{Recv, received}
use cmy_message.Chat.Names.Assigned.{IsText, padded, padded-c_str}
use cmy_message.Ftp.{buffer_size, max_len_file_path, max_file_size, value}
use cmy_message.Ftp.Numbers.{codes, decimal}
use cmy_message.Ftp.Numbers.RoundTrip.{atoi-decimal, length-decimal, decimal-All}
use cmy_message.Ftp.Transfer.{complete, receive_file, send_file}
use cmy_message.Ftp.Transfer.Laws.{pieces, send_file-receive_file}
use cmy_message.Ftp.Service.{
  Files, path_assets_folder, download_file, newline, strip_newline, upload_path, upload_file,
  receive_content, store_received,
}
use cmy_message.Ftp.Service.Session.{online, send-online}
use cmy_message.Ftp.Service.Upload.{fill-text, upload_file-reads}
use cmy_message.Ftp.Service.Download.{take-short, send_all-online, download_file-sends}
use cmy_message.FtpClient.{
  file_size, typed_text, keep_received, receive_sized, receive_named, client_download_file,
  send_packets, send_opened_file, send_sized_file, send_named, client_upload_file,
}

module _ (fs : Files) (path content : List ℕ) (fits : length path < max_len_file_path)
    (there : fs.access path ≡ true) (known : fs.stat path ≡ true)
    (has : fs.read path ≡ some content) where
  file_size-content : file_size fs path ≡ pos (length content)
  unfolding file_size
  file_size-content =
      let short : ltb (max_len_file_path - 1) (length path) ≡ false = ground arith in
      rw (there, short, known, has)

append-three :
    (sent : List (List ℕ)) (a b c : List ℕ) (rest : List (List ℕ))
    → (((sent ++ a ∷ []) ++ b ∷ []) ++ c ∷ []) ++ rest ≡ sent ++ (a ∷ b ∷ c ∷ rest)
append-three sent a b c rest =
    append_assoc ((sent ++ a ∷ []) ++ b ∷ []) (c ∷ []) rest
    ∙ append_assoc (sent ++ a ∷ []) (b ∷ []) (c ∷ rest)
    ∙ append_assoc sent (a ∷ []) (b ∷ c ∷ rest)

abbrev pub uploaded : List ℕ
uploaded = codes "File uploaded!" ++ newline

module _ (fs : Files) (line name : List ℕ) (plain : IsText line) (short : length line < buffer_size)
    (strips : strip_newline line ≡ name) (content : List ℕ)
    (fits : length (upload_path name) < max_len_file_path)
    (there : fs.access (upload_path name) ≡ true) (known : fs.stat (upload_path name) ≡ true)
    (has : fs.read (upload_path name) ≡ some content) (small : length content < 2 ^ 31) where
  client_upload_file-sends :
      (rs : List Recv) (sent : List (List ℕ)) (files : List (List ℕ × List ℕ))
      (packets : List (List ℕ))
      → send_file (length content) content ≡ some (true, packets)
      → client_upload_file fs (some (padded line)) (online (received uploaded ∷ rs) sent files)
        ≡ value (pos 0) (
            online rs
              (sent ++ (codes "--upload" ∷ name ∷ decimal (length content) ∷ packets))
              files)
  unfolding client_upload_file send_named send_sized_file send_opened_file send_packets
  client_upload_file-sends rs sent files packets run =
      let n = length content in
      let digits = take-short 19 (decimal n) (omega (arith, length-decimal n small)) in
      let room : ltb max_file_size n ≡ false = ground arith in
      let s₁ = sent ++ codes "--upload" ∷ [] in
      let s₂ = s₁ ++ name ∷ [] in
      let s₃ = s₂ ++ decimal n ∷ [] in
      let waiting = received uploaded ∷ rs in
      rw (
        send-online (codes "--upload") waiting sent files,
        (padded-c_str line plain short).0,
        strips,
        file_size-content fs (upload_path name) content fits there known has,
        room,
        send-online name waiting s₁ files,
        digits,
        send-online (decimal n) waiting s₂ files,
        has,
        run,
        send_all-online waiting files packets s₃,
        fill-text rs (s₃ ++ packets) files uploaded (omega arith),
        append-three sent (codes "--upload") name (decimal n) packets,
      )

  -- An upload on both sides, of a readable file of fewer than 2 ^ 31 bytes with a name that fits and
  -- ends in no line end: the client sends the command, the name, the size and packets, and if each
  -- of the name, the size and the packets reaches the server as it was sent, the server stores exactly the file of the
  -- client under the path of the name, and the client, when it is told so, ends with status 0.
  pub client_upload_file-upload_file :
      (server : Files) (rs others : List Recv) (sent sent' : List (List ℕ))
      (files files' : List (List ℕ × List ℕ))
      → IsText name
      → length name < buffer_size
      → strip_newline name ≡ name
      → server.can_write (upload_path name) ≡ true
      → (packets : List (List ℕ)) × (client_upload_file fs
            (some (padded line))
            (online (received uploaded ∷ rs) sent files)
          ≡ value (pos 0) (
              online rs
                (sent ++ (codes "--upload" ∷ name ∷ decimal (length content) ∷ packets))
                files))
        × (upload_file server (
              online
                (received name ∷ received (decimal (length content)) ∷ (pieces packets ++ others))
                sent'
                files')
            ≡ value (pos 0) (
                online others
                  (sent' ++ uploaded ∷ [])
                  (files' ++ (upload_path name, content) ∷ [])))
  unfolding receive_content store_received
  client_upload_file-upload_file server rs others sent sent' files files' p l e free =
      let (packets, run, same, got) = send_file-receive_file content others in
      (
        packets,
        client_upload_file-sends rs sent files packets run,
        upload_file-reads server name name e p l free sent' files' (length content)
              (pieces packets ++ others) small
            ∙ rw (
              got,
              send-online uploaded others sent' (files' ++ (upload_path name, content) ∷ []),
            ),
      )

module _ (fs : Files) (name : List ℕ) (plain : IsText (name ++ 10 ∷ []))
    (short : length name + 1 < buffer_size) (content : List ℕ) (small : length content < 2 ^ 31)
    (free : fs.can_write (name ++ 10 ∷ []) ≡ true) where
  client_download_file-stores :
      (packets : List (List ℕ)) (others : List Recv) (sent : List (List ℕ))
      (files : List (List ℕ × List ℕ))
      → receive_file (length content) (pieces packets ++ others) ≡ complete content others
      → client_download_file fs
          (some (padded (name ++ 10 ∷ [])))
          (online (received (decimal (length content)) ∷ (pieces packets ++ others)) sent files)
        ≡ value (pos 0) (
            online others
              (sent ++ (codes "--download" ∷ (name ++ 10 ∷ []) ∷ []))
              (files ++ (name ++ 10 ∷ [], content) ∷ []))
  unfolding client_download_file receive_named receive_sized keep_received typed_text
  client_download_file-stores packets others sent files got =
      let line = name ++ 10 ∷ [] in
      let n = length content in
      let fits : length line < buffer_size = omega (arith, length-append name (10 ∷ [])) in
      let digits : length (decimal n) < buffer_size = omega (arith, length-decimal n small) in
      let rs = received (decimal n) ∷ (pieces packets ++ others) in
      let s₁ = sent ++ codes "--download" ∷ [] in
      rw (
        send-online (codes "--download") rs sent files,
        (padded-c_str line plain fits).0,
        send-online line rs s₁ files,
        free,
        fill-text (pieces packets ++ others) (s₁ ++ line ∷ []) files (decimal n) digits,
        (padded-c_str (decimal n) (decimal-All n) digits).0,
        atoi-decimal n small,
        got,
        append_assoc sent (codes "--download" ∷ []) (line ∷ []),
      )

  -- A download on both sides, of a readable file of fewer than 2 ^ 31 bytes under a path that fits, its
  -- name typed as a line: the server sends the size and packets, and if they reach the client as
  -- they were sent, the client stores exactly the file of the server, under the line that was typed,
  -- the line end included.
  pub download_file-client_download_file :
      (server : Files) (rs others : List Recv) (sent sent' : List (List ℕ))
      (files files' : List (List ℕ × List ℕ))
      → length (path_assets_folder ++ name) < max_len_file_path
      → server.access (path_assets_folder ++ name) ≡ true
      → server.stat (path_assets_folder ++ name) ≡ true
      → server.read (path_assets_folder ++ name) ≡ some content
      → (packets : List (List ℕ)) × (download_file server
            (online (received (name ++ 10 ∷ []) ∷ rs) sent' files')
          ≡ value (pos 0) (online rs (sent' ++ (decimal (length content) ∷ packets)) files'))
        × (client_download_file fs
              (some (padded (name ++ 10 ∷ [])))
              (online (received (decimal (length content)) ∷ (pieces packets ++ others)) sent files)
            ≡ value (pos 0) (
                online others
                  (sent ++ (codes "--download" ∷ (name ++ 10 ∷ []) ∷ []))
                  (files ++ (name ++ 10 ∷ [], content) ∷ [])))
  download_file-client_download_file server rs others sent sent' files files' f a k h =
      let (packets, run, same, got) =
        download_file-sends server name 10 plain f content a k h rs others sent' files' small in
      (packets, run, client_download_file-stores packets others sent files got)
