-- ===== src/Ftp/Service/Details.antt =====
-- The start of a session in services/1_FTP/src/ftp_service.c: the name of the client, and the
-- function that the server runs for it.
pub mod Sessions
use cmy_message.Prelude.{
  ℕ, zero, suc, ◌+◌, ◌-◌, List, [], ◌∷◌, ◌++◌, Bool, true, false, Option, none, some, ltb, ℤ, pos,
  negsuc, length, replicate, out_of_bounds,
}
use cmy_message.CString.{Object, c_str}
use cmy_message.Chat.{Recv, failed, closed, received}
use cmy_message.Chat.Names.{strncpy}
use cmy_message.Ftp.{buffer_size, Io, pure, ◌>>=◌, ◌>>◌, require, recv, send}
use cmy_message.Ftp.Numbers.{codes}
use cmy_message.Ftp.Service.{Files, newline}
use cmy_message.Ftp.Service.Commands.{input_client_commands}

abbrev pub how_text : List ℕ
how_text = codes "This is the FTP server. How can we call you? "

abbrev pub no_name : Object
no_name = replicate buffer_size 0

-- The byte behind the response becomes the terminator, and the text is copied to the name.
unfoldable pub name_of : Recv → Io (ℤ × Object)
name_of failed = pure (negsuc 0, no_name)
name_of closed = pure (pos 0, no_name)
name_of (received bytes) =
    let buffer = bytes ++ replicate (buffer_size - length bytes) 0 in
    require (ltb (length bytes) buffer_size) out_of_bounds
    >> pure (pos 0, strncpy no_name buffer (length (c_str buffer)))

unfoldable pub ask_client_basic_details : Io (ℤ × Object)
unfolding name_of
ask_client_basic_details = do _ ← send how_text; r ← recv; name_of r

-- How the service for a client ends: the process exits, a status is returned, or the function ends
-- without one. `unfinished` means that the fuel of the commands ran out.
pub data Served : Type 0 where
  exit_failure no_status unfinished : Served
  status : ℕ → Served

-- `status = call < 0` is the comparison, so that a failure is returned as 1.
unfoldable pub served : Option ℤ → Served
served none = unfinished
served (some (negsuc _)) = status 1
served (some (pos _)) = no_status

unfoldable pub serve_named : Files → ℤ → Object → Io Served
unfolding served
serve_named fs (negsuc _) name = pure exit_failure
serve_named fs (pos _) name = input_client_commands fs (c_str name) >>= λ r. pure (served r)

abbrev pub sorry_text : List ℕ
sorry_text =
    codes "There was an error preparing your connection. Sorry. Please, try again." ++ newline

-- The first argument says whether the structures for the client were prepared.
unfoldable pub serve_client_with_ftp : Bool → Files → Io Served
unfolding ask_client_basic_details serve_named
serve_client_with_ftp false fs = do _ ← send sorry_text; pure exit_failure
serve_client_with_ftp true fs = do
  (asked, name) ← ask_client_basic_details
  serve_named fs asked name
