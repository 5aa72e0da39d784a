-- ===== src/Sockets/Creation.antt =====
-- `create_socket_struct` and what it calls, of
-- services/2_Broadcast-chat/src/utils/net_utils_tcp.c.
use cmy_message.Prelude.{
  ℕ, ◌%◌, ◌^◌, Bool, true, false, none, some, ok, ◌==◌, if◌then◌else◌, ℤ, pos, negsuc, is_neg,
}
use cmy_message.Queue.{Ptr, null}
use cmy_message.Chat.{default_max_num_clients}
use cmy_message.Sockets.{
  Sys, pure, assigned, given, field, change, sizeof_pointer, sizeof_sockaddr,
  free_server_socket_memory, close_server_socket, af_inet, af_inet6, Family, Address, Host, ◌>>=◌,
}

abbrev pub content : Sys Address
content s = given (assigned s.address) s

-- A failed call: the memory is given back and the status is returned.
unfoldable pub abandon : Ptr → ℤ → Sys ℤ
unfolding free_server_socket_memory
abandon p_socket_t status = do _ ← free_server_socket_memory p_socket_t; pure status

unfoldable pub listen_service : Host → ℕ → Ptr → ℤ → Sys ℤ
unfolding abandon
listen_service os backlog p_socket_t bind_status =
    let fail_with = abandon p_socket_t in
    if is_neg bind_status then fail_with bind_status else (do
      sock_fd ← field (λ u. u.sock_fd)
      let listen_status = os.listen sock_fd backlog
      if is_neg listen_status then fail_with listen_status else pure (pos 0))

unfoldable pub name_service : Host → ℕ → Ptr → Sys ℤ
unfolding listen_service
name_service os backlog p_socket_t = do
  is_ipv4 ← field (λ u. u.is_ipv4)
  _ ← field (λ u. u.addr_u)
  sock_fd ← field (λ u. u.sock_fd)
  address ← content
  listen_service os backlog p_socket_t (os.bind sock_fd address (sizeof_sockaddr is_ipv4))

-- `if (setsockopt(...))`: every status but 0 is a failure.
unfoldable pub is_zero : ℤ → Bool
is_zero (pos n) = n == 0
is_zero (negsuc n) = false

unfoldable pub setup_service_socket_t : Host → ℕ → Ptr → Sys ℤ
unfolding close_server_socket name_service is_zero
setup_service_socket_t os backlog p_socket_t = do
  sock_fd ← field (λ u. u.sock_fd)
  (if is_zero (os.set_reuse sock_fd)
      then name_service os backlog p_socket_t
      else (close_server_socket p_socket_t >>= λ _. pure (negsuc 0)))

abbrev pub family_of : Bool → Family
family_of true = af_inet
family_of false = af_inet6

unfoldable pub assign_descriptor_to_stream_socket_t : Host → Sys ℤ
assign_descriptor_to_stream_socket_t os = do
  is_ipv4 ← field (λ u. u.is_ipv4)
  let socket_descriptor = os.socket (family_of is_ipv4)
  (if is_neg socket_descriptor
      then pure socket_descriptor
      else (change (λ u. record u { sock_fd = some socket_descriptor }) >>= λ _. pure (pos 0)))

-- The length that is stored is the size of the pointer to the address.
unfoldable pub write_address : Host → Family → Sys ℤ
write_address os family = do
  _ ← field (λ u. u.addr_u)
  _ ← field (λ u. u.p_addr_len)
  port ← field (λ u. u.port)
  λ s. ok (
    pos 0,
    record s {
      address = some (record { family = family; host = none; port = os.htons port });
      addr_len = some sizeof_pointer;
    },
  )

unfoldable pub initialize_ipv6 : Host → Sys ℤ
unfolding write_address
initialize_ipv6 os = do
  sock_fd ← field (λ u. u.sock_fd)
  if is_neg (os.set_v6only sock_fd) then pure (negsuc 0) else write_address os af_inet6

unfoldable pub initialize_socket : Host → Sys ℤ
unfolding write_address initialize_ipv6
initialize_socket os = do
  is_ipv4 ← field (λ u. u.is_ipv4)
  if is_ipv4 then write_address os af_inet else initialize_ipv6 os

-- A field that `malloc` fills: if it gives NULL the structure is given up.
unfoldable pub allocated : Ptr → Ptr → Sys Ptr → Sys Ptr
unfolding free_server_socket_memory
allocated p_socket_t p next = if p == null then free_server_socket_memory p_socket_t else next

unfoldable pub allocate_socket_struct : Host → Sys Ptr
unfolding allocated
allocate_socket_struct os =
    let p_socket_t = os.struct_memory in
    if p_socket_t == null then pure null else (do
      _ ← change (λ u. record u { addr_u = some os.address_memory })
      allocated p_socket_t os.address_memory (do
        _ ← change (λ u. record u { p_addr_len = some os.addr_len_memory })
        allocated p_socket_t os.addr_len_memory (do
          _ ← change (λ u. record u { p_service_func = some os.service_memory })
          allocated p_socket_t os.service_memory (pure p_socket_t))))

-- A step of the creation: a negative status gives the structure up.
unfoldable pub or_null : Ptr → Sys ℤ → Sys Ptr → Sys Ptr
unfolding free_server_socket_memory
or_null p_socket_t step next = do
  status ← step
  if is_neg status then free_server_socket_memory p_socket_t else next

unfoldable pub set_up_server : Host → ℕ → Ptr → Sys Ptr
unfolding or_null setup_service_socket_t
set_up_server os backlog p_socket_t = do
  is_server ← field (λ u. u.is_server)
  (if is_server
      then or_null p_socket_t (setup_service_socket_t os backlog p_socket_t) (pure p_socket_t)
      else pure p_socket_t)

-- The port is kept in a `uint16_t`.
unfoldable pub configure : Host → Bool → ℕ → Bool → Ptr → Sys Ptr
unfolding or_null initialize_socket assign_descriptor_to_stream_socket_t set_up_server
configure os is_server_arg port is_ipv4_arg p_socket_t =
    if p_socket_t == null then pure null else (do
      _ ← change (λ u. record u {
        is_server = some is_server_arg;
        port = some (port % 2 ^ 16);
        is_ipv4 = some is_ipv4_arg;
      })
      or_null p_socket_t (initialize_socket os) (
          or_null p_socket_t (assign_descriptor_to_stream_socket_t os)
            (set_up_server os default_max_num_clients p_socket_t)))

unfoldable pub create_socket_struct : Host → Bool → ℕ → Bool → Sys Ptr
unfolding allocate_socket_struct configure
create_socket_struct os is_server_arg port is_ipv4_arg = do
  p_socket_t ← allocate_socket_struct os
  configure os is_server_arg port is_ipv4_arg p_socket_t
