-- ===== src/FtpClient/Using.antt =====
-- clients/src/clients.c: how a client is connected to the service, and what it gives back.
use cmy_message.Prelude.{
  ℕ, List, [], ◌∷◌, ◌++◌, Bool, false, Option, none, some, Run, ok, fault, uninitialised, ◌>>=◌,
  ◌||◌, ◌==◌, if◌then◌else◌, ℤ, pos, negsuc, ◌≡◌, ◌≢◌, arith,
}
use cmy_message.Queue.{Ptr, null}
use cmy_message.Clients.{Client, free_field, free_client_memory, give_up}
use cmy_message.Sockets.{
  af_inet, Store, fresh, is_open, close_descriptor, close_socket_with_ptr_if_open,
}
use cmy_message.Sockets.Peers.{Network, create_socket_struct}

-- `inet_pton(...) == 1`
unfoldable pub is_ipv4 : Network → List ℕ → Bool
is_ipv4 net address = is_one (net.inet_pton af_inet address)
  where
    is_one : ℤ → Bool
    is_one (pos n) = n == 1
    is_one (negsuc n) = false

-- A failure releases the fields of the structure; the pointer of the caller stays as it is.
unfoldable pub released_in_place : Client → Run (Option Client)
unfolding give_up
released_in_place c = do _ ← give_up c; ok (some c)

-- What the structure is for the caller. Its addresses are never assigned here.
unfoldable pub prepare_structs : Ptr → Ptr → Option Client → Run (Option Client)
unfolding released_in_place
prepare_structs name buffer none = ok none
prepare_structs name buffer (some c) =
    let c₁ : Client = record c { name = some name } in
    let c₂ : Client = record c₁ { buffer = some buffer } in
    if name == null
    then released_in_place c₁
    else (if buffer == null then released_in_place c₂ else ok (some c₂))

-- The status, the descriptor for which the service was run, and the socket.
pub record Used : Type 0 where
  pub status : ℤ
  pub served : Option ℤ
  pub store : Store

abbrev pub new_client : Client
new_client = record { p_addr = none; p_addr_len = none; buffer = none; name = none }

-- The service is run for the descriptor of the socket, and the socket is closed.
unfoldable pub serve_prepared : Store → Option Client → Run Used
unfolding close_socket_with_ptr_if_open
serve_prepared s none = ok (record { status = negsuc 0; served = none; store = s })
serve_prepared s (some c) = do
  (_, s') ← close_socket_with_ptr_if_open s
  ok (record { status = pos 0; served = s.socket_t.sock_fd; store = s' })

unfoldable pub use_connected : Ptr → Ptr → Ptr → Ptr × Store → Run Used
unfolding prepare_structs serve_prepared
use_connected struct name buffer (p_socket_t, s) =
    if p_socket_t == null
    then ok (record { status = negsuc 0; served = none; store = s })
    else (prepare_structs name buffer (if struct == null then none else some new_client)
        >>= serve_prepared s)

-- `struct`, `name` and `buffer` are what `malloc` and `calloc` give.
unfoldable pub use_service : Network → Ptr → Ptr → Ptr → ℕ → List ℕ → Run Used
unfolding use_connected is_ipv4
use_service net struct name buffer server_port server_ip =
    create_socket_struct net false server_port (is_ipv4 net server_ip) server_ip fresh
    >>= use_connected struct name buffer

module _ (net : Network) (struct name buffer : Ptr) (port : ℕ) (ip : List ℕ) (p : Ptr) (s : Store)
    (made : create_socket_struct net false port (is_ipv4 net ip) ip fresh ≡ ok (p, s))
    (there : p ≢ null) (n : ℕ) (has_fd : s.socket_t.sock_fd ≡ some (pos n)) where
  abbrev pub closed_after : Store
  closed_after = record s {
    socket_t = record s.socket_t { sock_fd = some (negsuc 0) };
    closed = s.closed ++ pos n ∷ [];
  }

  served-closed :
      (c : Client)
      → serve_prepared s (some c)
        ≡ ok (record { status = pos 0; served = some (pos n); store = closed_after })
  unfolding serve_prepared close_socket_with_ptr_if_open close_descriptor is_open
  served-closed c = rw has_fd

  abbrev pub use_of : Run Used
  use_of =
      if struct == null
      then ok (record { status = negsuc 0; served = none; store = s })
      else (if (name == null) || (buffer == null)
          then fault uninitialised
          else ok (record { status = pos 0; served = some (pos n); store = closed_after }))

  -- A client that is connected runs the service for the descriptor of its socket if there is memory,
  -- then closes the descriptor once and ends with status 0; without memory for its structure it ends
  -- with status -1 and leaves the descriptor open; without memory for its name or its buffer it reads
  -- a field that was never assigned. The memory of the socket is not given back.
  pub use_service-runs : use_service net struct name buffer port ip ≡ use_of
  unfolding use_service use_connected prepare_structs released_in_place give_up free_client_memory
      free_field
  use_service-runs =
      rw made (
        ground
          (arith, served-closed (record new_client { name = some name; buffer = some buffer })))
