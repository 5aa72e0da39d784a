-- ===== src/Ftp/Service/Details/Sessions.antt =====
-- What the service for a client does as a whole.
use cmy_message.Prelude.{
  ℕ, suc, ◌<◌, List, [], ◌∷◌, ◌++◌, true, ◌≡◌, arith, ltb, length, append_assoc,
}
use cmy_message.Chat.{Recv, received}
use cmy_message.Chat.Names.{name_memory}
use cmy_message.Chat.Names.Assigned.{IsText, padded-c_str, strncpy-padded}
use cmy_message.Ftp.{pure, and_then, buffer_size, recv, take_recv, send, take_send}
use cmy_message.Ftp.Service.{Files}
use cmy_message.Ftp.Service.Commands.{welcome_text, welcomed, command_loop, input_client_commands}
use cmy_message.Ftp.Service.Session.{online}
use cmy_message.Ftp.Service.Details.{
  how_text, name_of, ask_client_basic_details, served, serve_named, serve_client_with_ftp,
}

-- A client that sends a name for which the welcome fits the buffer is asked for it, welcomed by
-- it, and then served by the command loop on the responses that follow.
pub serve_client-welcomes :
    (fs : Files) (text : List ℕ) (rs : List Recv) (sent : List (List ℕ))
    (files : List (List ℕ × List ℕ))
    → IsText text
    → length (welcome_text text) < buffer_size
    → length text < buffer_size
    → serve_client_with_ftp true fs (online (received text ∷ rs) sent files)
      ≡ and_then
          (command_loop
            (suc (length rs))
            fs
            (online rs (sent ++ (how_text ∷ welcome_text text ∷ [])) files))
          (λ r. pure (served r))
unfolding name_memory serve_client_with_ftp ask_client_basic_details name_of serve_named
    input_client_commands welcomed recv take_recv send take_send
serve_client-welcomes fs text rs sent files plain fits short =
    let room : ltb (length text) buffer_size ≡ true = ground arith in
    let welcome : ltb (length (welcome_text text)) buffer_size ≡ true = ground arith in
    let same = (padded-c_str text plain short).0 in
    rw (
      room,
      same,
      strncpy-padded text plain short,
      same,
      welcome,
      append_assoc sent (how_text ∷ []) (welcome_text text ∷ []),
    )
