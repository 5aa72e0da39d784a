-- ===== src/Ftp.antt =====
-- The FTP service: services/1_FTP/src/ftp_service.c, services/1_FTP/src/ftp_utils.c and the reading of
-- a response in services/1_FTP/src/utils/service_utils.c.
-- A connection is what the calls of `recv` will answer, what the calls of `send` will answer, what
-- was sent, and the files that the service wrote, by path. A call of `recv` with no answer left
-- blocks. A call of `send` succeeds unless an answer says otherwise.
pub mod Transfer
pub mod Service
pub mod Numbers
use cmy_message.Prelude.{
  ℕ, suc, ◌+◌, ◌-◌, ◌*◌, List, [], ◌∷◌, ◌++◌, Bool, true, false, ◌&&◌, Fault, out_of_bounds, ◌==◌,
  ltb, if◌then◌else◌, ℤ, pos, negsuc, length, replicate,
}
use cmy_message.CString.{Object}
use cmy_message.Chat.{Recv, failed, closed, received}

abbrev pub buffer_size : ℕ
buffer_size = 1500

abbrev pub max_len_file_path : ℕ
max_len_file_path = 1000

abbrev pub client_disconnected : ℕ
client_disconnected = 404

abbrev pub max_file_size : ℕ
max_file_size = 1024 * 1024 * 10 * 1000

pub record Connection : Type 0 where
  pub incoming : List Recv
  pub send_results : List Bool
  pub sent : List (List ℕ)
  pub files : List (List ℕ × List ℕ)

pub data Outcome (A : Type 0) : Type 0 where
  value : A → Connection → Outcome A
  blocked : Connection → Outcome A
  undefined : Fault → Outcome A

abbrev pub Io : Type 0 → Type 0
Io A = Connection → Outcome A

abbrev pub pure : {A : Type 0} → A → Io A
pure a c = value a c

abbrev pub and_then : {A B : Type 0} → Outcome A → (A → Io B) → Outcome B
and_then (value a c) f = f a c
and_then (blocked c) f = blocked c
and_then (undefined e) f = undefined e

infixl 5 ◌>>=◌ ◌>>◌
abbrev pub ◌>>=◌ : {A B : Type 0} → Io A → (A → Io B) → Io B
◌>>=◌ m f c = and_then (m c) f

abbrev pub ◌>>◌ : {B : Type 0} → Io (Unit {0}) → Io B → Io B
m >> k = m >>= λ _. k

abbrev pub fail : {A : Type 0} → Fault → Io A
fail e c = undefined e

abbrev pub require : Bool → Fault → Io (Unit {0})
require true e = pure tt
require false e = fail e

take_recv : List Recv → Connection → Outcome Recv
take_recv [] c = blocked c
take_recv (r ∷ rs) c = value r (record c { incoming = rs })

unfoldable pub recv : Io Recv
unfolding take_recv
recv c = take_recv c.incoming c

take_send : List Bool → List ℕ → Connection → Outcome Bool
take_send [] bytes c = value true (record c { sent = c.sent ++ bytes ∷ [] })
take_send (true ∷ rs) bytes c =
    value true (record c { send_results = rs; sent = c.sent ++ bytes ∷ [] })
take_send (false ∷ rs) bytes c = value false (record c { send_results = rs })

-- Whether the bytes went out.
unfoldable pub send : List ℕ → Io Bool
unfolding take_send
send bytes c = take_send c.send_results bytes c

-- `fill_buffer_with_response`: the buffer is cleared and filled, and the byte behind the last one
-- becomes the terminator. The status and the buffer are returned.
unfoldable pub filled_response : Recv → Io (ℤ × Object)
filled_response failed = pure (negsuc 0, replicate buffer_size 0)
filled_response closed = pure (negsuc 1, replicate buffer_size 0)
filled_response (received bytes) =
    if ltb (length bytes) buffer_size
    then pure (pos (length bytes), bytes ++ replicate (buffer_size - length bytes) 0)
    else fail out_of_bounds

unfoldable pub fill_buffer_with_response : Io (ℤ × Object)
unfolding filled_response recv
fill_buffer_with_response = do r ← recv; filled_response r
