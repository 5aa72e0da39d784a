-- ===== src/Sockets/Peers.antt =====
-- services/1_FTP/src/utils/net_utils_tcp.c: sockets with an address that is given as a text, for the
-- server of files and for its clients. The functions that are as in the chat are those of Sockets.
pub mod Connected
use cmy_message.Prelude.{
  ℕ, ◌%◌, ◌^◌, List, [], ◌∷◌, ◌++◌, Bool, true, false, Option, none, some, Run, ok, fault,
  out_of_bounds, null_dereference, Fault, ◌&&◌, ◌==◌, leb, if◌then◌else◌, ℤ, pos, negsuc, is_neg,
  length,
}
use cmy_message.CString.{Object, c_str, is_terminated}
use cmy_message.Chat.Names.{strncpy}
use cmy_message.Queue.{Ptr, null}
use cmy_message.Sockets.{
  Family, af_inet, Address, af_inet6, UniSocket, Store, Host, Sys, pure, ◌>>=◌, field, change,
  sizeof_sockaddr, free_server_socket_memory,
}
use cmy_message.Sockets.Creation.{
  content, family_of, is_zero, allocate_socket_struct, or_null, set_up_server,
  assign_descriptor_to_stream_socket_t,
}

abbrev pub max_address_length : ℕ
max_address_length = 39

abbrev pub max_num_clients : ℕ
max_num_clients = 2

-- The system with the conversion of texts to addresses and `connect`. `ip_memory` is what the memory
-- for the text holds when `malloc` gives it; `none` is the NULL pointer.
pub record Network : Type 0 where
  pub system : Host
  pub inet_pton : Family → List ℕ → ℤ
  pub connect : ℤ → Address → ℕ → ℤ
  pub ip_memory : Option Object

abbrev pub undefined : {A : Type 0} → Fault → Sys A
undefined e s = fault e

-- `inet_pton(...) <= 0` is a failure.
unfoldable pub is_converted : ℤ → Bool
is_converted (pos n) = if n == 0 then false else true
is_converted (negsuc n) = false

abbrev pub store_address : Family → Option (List ℕ) → ℕ → Sys (Unit {0})
store_address family host port s =
    ok (tt, record s { address = some (record { family = family; host = host; port = port }) })

abbrev pub write_addr_len : ℕ → Sys (Unit {0})
write_addr_len n s = ok (tt, record s { addr_len = some n })

-- The address is cleared first, so that it is the wildcard until the text is converted.
unfoldable pub initialize_peer_ipv4 : Network → Bool → ℕ → Option (List ℕ) → Sys ℤ
unfolding is_converted
initialize_peer_ipv4 net is_server port (some text) = do
  _ ← store_address af_inet none port
  (if is_converted (net.inet_pton af_inet text)
      then (store_address af_inet (some text) port >>= λ _. pure (pos 0))
      else pure (negsuc 0))
initialize_peer_ipv4 net is_server port none =
    store_address af_inet none port >>= λ _. if is_server then pure (pos 0) else pure (negsuc 1)

-- A server takes IPv4 connections too.
unfoldable pub set_dual_stack : Network → Bool → Sys ℤ
set_dual_stack net false = pure (pos 0)
set_dual_stack net true = do
  sock_fd ← field (λ u. u.sock_fd)
  (if is_neg (net.system.set_v6only sock_fd) then pure (negsuc 0) else pure (pos 0))

-- Without a text a client goes on with an address that was never assigned.
unfoldable pub initialize_peer_ipv6 : Network → Bool → ℕ → Option (List ℕ) → Sys ℤ
unfolding is_converted set_dual_stack
initialize_peer_ipv6 net is_server port (some text) =
    if is_converted (net.inet_pton af_inet6 text)
    then (store_address af_inet6 (some text) port >>= λ _. set_dual_stack net is_server)
    else pure (negsuc 0)
initialize_peer_ipv6 net true port none =
    store_address af_inet6 none port >>= λ _. set_dual_stack net true
initialize_peer_ipv6 net false port none = set_dual_stack net false

unfoldable pub initialize_socket : Network → Option (List ℕ) → Sys ℤ
unfolding initialize_peer_ipv4 initialize_peer_ipv6
initialize_socket net text = do
  is_ipv4 ← field (λ u. u.is_ipv4)
  _ ← field (λ u. u.addr_u)
  _ ← field (λ u. u.p_addr_len)
  _ ← write_addr_len (sizeof_sockaddr is_ipv4)
  port ← field (λ u. u.port)
  is_server ← field (λ u. u.is_server)
  (if is_ipv4
      then initialize_peer_ipv4 net is_server (net.system.htons port) text
      else initialize_peer_ipv6 net is_server (net.system.htons port) text)

unfoldable pub connect_to_server : Network → Sys ℤ
connect_to_server net = do
  is_ipv4 ← field (λ u. u.is_ipv4)
  _ ← field (λ u. u.addr_u)
  sock_fd ← field (λ u. u.sock_fd)
  address ← content
  let connection_status = net.connect sock_fd address (sizeof_sockaddr is_ipv4)
  (if is_neg connection_status then pure connection_status else pure (pos 0))

-- `strncpy` copies the characters of the text without the terminator; what `inet_pton` reads is what
-- is there up to the first terminator in the memory.
unfoldable pub copied : Object → List ℕ → Sys (List ℕ)
copied memory ip_address =
    let text = strncpy memory (ip_address ++ 0 ∷ []) (length ip_address) in
    if leb (length ip_address) (length memory) && is_terminated text
    then pure (c_str text)
    else undefined out_of_bounds

unfoldable pub copy_address : Network → List ℕ → Sys (List ℕ)
unfolding copied
copy_address net ip_address = elim net.ip_memory [
  | none ↦ undefined null_dereference
  | some memory ↦ copied memory ip_address
]

unfoldable pub start_peer : Network → Ptr → Sys Ptr
unfolding connect_to_server
start_peer net p_socket_t = do
  is_server ← field (λ u. u.is_server)
  (if is_server
      then set_up_server net.system max_num_clients p_socket_t
      else or_null p_socket_t (connect_to_server net) (pure p_socket_t))

unfoldable pub configure_peer : Network → Bool → ℕ → Bool → List ℕ → Ptr → Sys Ptr
unfolding copy_address start_peer initialize_socket
configure_peer net is_server_arg port is_ipv4_arg ip_address p_socket_t =
    if p_socket_t == null then pure null else (do
      _ ← change (λ u. record u {
        is_server = some is_server_arg;
        port = some (port % 2 ^ 16);
        is_ipv4 = some is_ipv4_arg;
      })
      text ← copy_address net ip_address
      or_null p_socket_t (assign_descriptor_to_stream_socket_t net.system)
          (or_null p_socket_t (initialize_socket net (some text)) (start_peer net p_socket_t)))

unfoldable pub create_socket_struct : Network → Bool → ℕ → Bool → List ℕ → Sys Ptr
unfolding configure_peer
create_socket_struct net is_server_arg port is_ipv4_arg ip_address = do
  p_socket_t ← allocate_socket_struct net.system
  configure_peer net is_server_arg port is_ipv4_arg ip_address p_socket_t
