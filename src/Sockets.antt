-- ===== src/Sockets.antt =====
-- services/2_Broadcast-chat/src/utils/net_utils_tcp.c: the structure of a server, its socket and
-- their release. What the system answers is the record `Host`: the addresses that `malloc` gives,
-- of which 0 is NULL, and the statuses of the calls.
pub mod Creation
pub mod Outcomes
pub mod Closing
pub mod Peers
use cmy_message.Prelude.{
  ℕ, ◌%◌, ◌^◌, List, [], ◌∷◌, ◌++◌, Bool, true, false, Option, none, some, Run, ok, fault,
  uninitialised, ◌==◌, if◌then◌else◌, ℤ, pos, negsuc, is_neg,
}
use cmy_message.Queue.{Ptr, null}
use cmy_message.Chat.{default_max_num_clients}

pub data Family : Type 0 where
  af_inet af_inet6 : Family

-- `sockaddr_in` and `sockaddr_in6`; no host is the wildcard address.
pub record Address : Type 0 where
  pub family : Family
  pub host : Option (List ℕ)
  pub port : ℕ

-- The fields of `UniSocket_t` that are used here; `none` is a field that was never assigned. The two
-- pointers of the union are one field.
pub record UniSocket : Type 0 where
  pub sock_fd : Option ℤ
  pub is_server : Option Bool
  pub is_ipv4 : Option Bool
  pub addr_u : Option Ptr
  pub p_addr_len : Option Ptr
  pub port : Option ℕ
  pub p_service_func : Option Ptr

-- The structure, what its address and length point to, what was given back to `free`, and the
-- descriptors that were closed.
pub record Store : Type 0 where
  pub socket_t : UniSocket
  pub address : Option Address
  pub addr_len : Option ℕ
  pub freed : List Ptr
  pub closed : List ℤ

pub record Host : Type 0 where
  pub struct_memory : Ptr
  pub address_memory : Ptr
  pub addr_len_memory : Ptr
  pub service_memory : Ptr
  pub htons : ℕ → ℕ
  pub socket : Family → ℤ
  pub set_v6only : ℤ → ℤ
  pub set_reuse : ℤ → ℤ
  pub bind : ℤ → Address → ℕ → ℤ
  pub listen : ℤ → ℕ → ℤ

abbrev pub fresh : Store
fresh = record {
  socket_t = record {
    sock_fd = none;
    is_server = none;
    is_ipv4 = none;
    addr_u = none;
    p_addr_len = none;
    port = none;
    p_service_func = none;
  };
  address = none;
  addr_len = none;
  freed = [];
  closed = [];
}

abbrev pub Sys : Type 0 → Type 0
Sys A = Store → Run (A × Store)

abbrev pub pure : {A : Type 0} → A → Sys A
pure a s = ok (a, s)

abbrev pub run_then : {A B : Type 0} → Run (A × Store) → (A → Sys B) → Run (B × Store)
run_then (fault e) f = fault e
run_then (ok (a, s)) f = f a s

infixl 5 ◌>>=◌ ◌>>◌
abbrev pub ◌>>=◌ : {A B : Type 0} → Sys A → (A → Sys B) → Sys B
◌>>=◌ m f s = run_then (m s) f

abbrev pub ◌>>◌ : {B : Type 0} → Sys (Unit {0}) → Sys B → Sys B
m >> k = m >>= λ _. k

-- A field that must have been assigned.
abbrev pub assigned : {A : Type 0} → Option A → Run A
assigned none = fault uninitialised
assigned (some a) = ok a

abbrev pub given : {A : Type 0} → Run A → Store → Run (A × Store)
given (fault e) s = fault e
given (ok a) s = ok (a, s)

abbrev pub field : {A : Type 0} → (UniSocket → Option A) → Sys A
field f s = given (assigned (f s.socket_t)) s

abbrev pub change : (UniSocket → UniSocket) → Sys (Unit {0})
change f s = ok (tt, record s { socket_t = f s.socket_t })

-- The size of a pointer is what is stored as the length of an address.
abbrev pub sizeof_pointer : ℕ
sizeof_pointer = 8

abbrev pub sizeof_sockaddr : Bool → ℕ
sizeof_sockaddr true = 16
sizeof_sockaddr false = 28

unfoldable pub is_open : ℤ → Bool
is_open (pos n) = true
is_open (negsuc n) = if n == 0 then false else true

-- The status of `close` is only logged.
unfoldable pub close_descriptor : ℤ → Sys (Unit {0})
unfolding is_open
close_descriptor fd s =
    let c : UniSocket = record s.socket_t { sock_fd = some (negsuc 0) } in
    if is_open fd
    then ok (tt, record s { socket_t = c; closed = s.closed ++ fd ∷ [] })
    else ok (tt, s)

unfoldable pub close_socket_with_ptr_if_open : Sys (Unit {0})
unfolding close_descriptor
close_socket_with_ptr_if_open = do fd ← field (λ u. u.sock_fd); close_descriptor fd

-- The address is given back if it is not NULL, and its field becomes NULL.
unfoldable pub free_address : Ptr → Sys (Unit {0})
free_address p s =
    let c : UniSocket = record s.socket_t { addr_u = some null } in
    if p == null then ok (tt, s) else ok (tt, record s { socket_t = c; freed = s.freed ++ p ∷ [] })

-- Whichever pointer of the union the flag selects, it is the same field. The pointer to the structure
-- is set to NULL before it is passed to `free`. The result is that pointer.
unfoldable pub free_server_socket_memory : Ptr → Sys Ptr
unfolding free_address
free_server_socket_memory p_socket_t = if p_socket_t == null then pure null else (do
  is_ipv4 ← field (λ u. u.is_ipv4)
  address ← field (λ u. u.addr_u)
  _ ← free_address address
  pure null)

-- `shutdown` reads the descriptor; its status is not looked at.
unfoldable pub close_server_socket : Ptr → Sys (Unit {0})
unfolding close_socket_with_ptr_if_open free_server_socket_memory
close_server_socket p_socket_t = do
  _ ← field (λ u. u.sock_fd)
  _ ← close_socket_with_ptr_if_open
  _ ← free_server_socket_memory p_socket_t
  pure tt
