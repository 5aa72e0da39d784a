-- ===== src/Ftp/Transfer/Laws.antt =====
-- What a transfer delivers.
use mathlib.Core.List.{flatten}
use cmy_message.Prelude.{
  ℕ, zero, suc, ◌+◌, ◌-◌, ◌<◌, ◌≤◌, min, List, [], ◌∷◌, ◌++◌, true, false, some, ◌≡◌, refl, ◌∙◌, ap,
  arith, ◌==◌, length, take, drop, append_assoc, append-nil, length-take, length-drop,
  take-append-drop, replicate,
}
use cmy_message.Chat.{Recv, failed, closed, received}
use cmy_message.Ftp.{buffer_size}
use cmy_message.Ftp.Transfer.{
  complete, starved, receive_loop, receive_file, is_empty, send_loop, send_file, broken,
}

-- What `recv` may give while `remaining` bytes are asked for: pieces that are not empty, and no
-- longer than the amount of that call, until all has come.
abbrev pub Delivers : ℕ → List (List ℕ) → Type 0
Delivers remaining [] = remaining ≡ 0
Delivers remaining (c ∷ cs) =
    (0 < length c) × (length c ≤ min remaining buffer_size) × Delivers (remaining - length c) cs

abbrev pub pieces : List (List ℕ) → List Recv
pieces [] = []
pieces (c ∷ cs) = received c ∷ pieces cs

receive_loop-pieces :
    (cs : List (List ℕ)) (remaining : ℕ) (file : List ℕ) (others : List Recv)
    → Delivers remaining cs
    → receive_loop (pieces cs ++ others) remaining file ≡ complete (file ++ flatten cs) others
unfolding receive_loop flatten
receive_loop-pieces [] remaining file [] d = ground (arith, append-nil file)
receive_loop-pieces [] remaining file (r ∷ rs) d = ground (arith, append-nil file)
receive_loop-pieces (c ∷ cs) remaining file others (some_bytes, few, d) =
    let more : (remaining == 0) ≡ false = ground arith in
    rw (
      more,
      receive_loop-pieces cs (remaining - length c) (file ++ c) others d,
      append_assoc file c (flatten cs),
    )

-- However the network cuts the file into pieces, the reception ends with exactly these bytes, and
-- what comes behind the file is left for the next read.
pub receive_file-pieces :
    (cs : List (List ℕ)) (filesize : ℕ) (others : List Recv)
    → Delivers filesize cs
    → receive_file filesize (pieces cs ++ others) ≡ complete (flatten cs) others
unfolding receive_file
receive_file-pieces cs filesize others d = receive_loop-pieces cs filesize [] others d

receive_loop-closed :
    (cs : List (List ℕ)) (remaining missing n : ℕ) (file : List ℕ)
    → Delivers remaining cs
    → 0 < missing
    → receive_loop (pieces cs ++ replicate n closed) (remaining + missing) file
      ≡ starved (file ++ flatten cs)
unfolding receive_loop flatten
receive_loop-closed [] remaining missing zero file d lack =
    let more : (remaining + missing == 0) ≡ false = ground arith in rw (more, append-nil file)
receive_loop-closed [] remaining missing (suc n) file d lack =
    let more : (remaining + missing == 0) ≡ false = ground arith in
    rw more (receive_loop-closed [] remaining missing n file d lack)
receive_loop-closed (c ∷ cs) remaining missing n file (some_bytes, few, d) lack =
    let more : (remaining + missing == 0) ≡ false = ground arith in
    let left : remaining + missing - length c ≡ remaining - length c + missing = omega arith in
    rw (more, left, ← append_assoc file c (flatten cs))
      (receive_loop-closed cs (remaining - length c) missing n (file ++ c) d lack)

-- If the sender closes the connection before the file is complete, `recv` gives nothing however
-- often it is called, and the loop never ends: it is still running after any number of calls.
pub receive_file-closed :
    (cs : List (List ℕ)) (filesize missing n : ℕ)
    → Delivers filesize cs
    → 0 < missing
    → receive_file (filesize + missing) (pieces cs ++ replicate n closed) ≡ starved (flatten cs)
unfolding receive_file
receive_file-closed cs filesize missing n d lack =
    receive_loop-closed cs filesize missing n [] d lack

receive_loop-failed :
    (cs : List (List ℕ)) (remaining missing : ℕ) (file : List ℕ) (others : List Recv)
    → Delivers remaining cs
    → 0 < missing
    → receive_loop (pieces cs ++ failed ∷ others) (remaining + missing) file
      ≡ broken (file ++ flatten cs) others
unfolding receive_loop flatten
receive_loop-failed [] remaining missing file others d lack =
    let more : (remaining + missing == 0) ≡ false = ground arith in rw (more, append-nil file)
receive_loop-failed (c ∷ cs) remaining missing file others (some_bytes, few, d) lack =
    let more : (remaining + missing == 0) ≡ false = ground arith in
    let left : remaining + missing - length c ≡ remaining - length c + missing = omega arith in
    rw (more, left, ← append_assoc file c (flatten cs))
      (receive_loop-failed cs (remaining - length c) missing (file ++ c) others d lack)

pub receive_file-failed :
    (cs : List (List ℕ)) (filesize missing : ℕ) (others : List Recv)
    → Delivers filesize cs
    → 0 < missing
    → receive_file (filesize + missing) (pieces cs ++ failed ∷ others) ≡ broken (flatten cs) others
unfolding receive_file
receive_file-failed cs filesize missing others d lack =
    receive_loop-failed cs filesize missing [] others d lack

is_empty-false : (xs : List ℕ) → 0 < length xs → is_empty xs ≡ false
unfolding is_empty
is_empty-false [] h = absurd (omega arith)
is_empty-false (x ∷ xs) h = refl

send_loop-enough :
    (fuel remaining : ℕ) (file : List ℕ) (sent : List (List ℕ))
    → remaining < fuel
    → length file ≡ remaining
    → (packets : List (List ℕ)) × (send_loop fuel remaining file sent
        ≡ some (true, sent ++ packets))
      × (flatten packets ≡ file)
      × Delivers remaining packets
unfolding send_loop flatten is_empty
send_loop-enough zero remaining file sent h e = absurd (omega arith)
send_loop-enough (suc fuel) zero [] sent h e = ([], rw append-nil, refl, refl)
send_loop-enough (suc fuel) zero (x ∷ file) sent h e = absurd (omega arith)
send_loop-enough (suc fuel) (suc n) file sent h e =
    let k = min (suc n) buffer_size in
    let bytes = take k file in
    let len : length bytes ≡ k = omega (arith, length-take k file) in
    let more : (suc n == 0) ≡ false = ground arith in
    let (packets, run, same, d) =
      send_loop-enough fuel (suc n - length bytes) (drop k file) (sent ++ bytes ∷ []) (omega arith)
        (omega (arith, length-drop k file)) in
    (
      bytes ∷ packets,
      rw (more, is_empty-false bytes (omega arith), ← append_assoc sent (bytes ∷ []) packets) run,
      rw same (take-append-drop k file),
      (omega arith, omega arith, d),
    )

-- Sending a whole file ends within the fuel and with success, in packets of one to `buffer_size`
-- bytes that together are the file; received piece by piece they give the file back.
pub send_file-receive_file :
    (file : List ℕ) (others : List Recv)
    → (packets : List (List ℕ)) × (send_file (length file) file ≡ some (true, packets))
      × (flatten packets ≡ file)
      × (receive_file (length file) (pieces packets ++ others) ≡ complete file others)
unfolding send_file
send_file-receive_file file others =
    let (packets, run, same, d) =
      send_loop-enough (length file + 1) (length file) file [] (omega arith) refl in
    (
      packets,
      run,
      same,
      receive_file-pieces packets (length file) others d ∙ ap (λ f. complete f others) same,
    )
