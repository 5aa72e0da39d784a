-- ===== src/Sockets/Closing.antt =====
-- Closing the socket of a server.
use cmy_message.Prelude.{ℕ, List, Bool, Option, none, some, ℤ, pos, negsuc, ◌≡◌, refl, arith}
use cmy_message.Queue.{Ptr}
use cmy_message.Sockets.{
  Address, Store, ◌>>◌, is_open, close_descriptor, close_socket_with_ptr_if_open, free_address,
  free_server_socket_memory, close_server_socket,
}

module _ (is_server : Option Bool) (len : Option Ptr) (port : Option ℕ) (service : Option Ptr)
    (address : Option Address) (addr_len : Option ℕ) where
  abbrev store_with : Option ℤ → Option Bool → Option Ptr → List Ptr → List ℤ → Store
  store_with fd v4 addr freed closed = record {
    socket_t = record {
      sock_fd = fd;
      is_server = is_server;
      is_ipv4 = v4;
      addr_u = addr;
      p_addr_len = len;
      port = port;
      p_service_func = service;
    };
    address = address;
    addr_len = addr_len;
    freed = freed;
    closed = closed;
  }

  twice-at :
      (p : Ptr) (fd : Option ℤ) (v4 : Option Bool) (addr : Option Ptr) (freed : List Ptr)
      (closed : List ℤ)
      → (close_server_socket p >> close_server_socket p) (store_with fd v4 addr freed closed)
        ≡ close_server_socket p (store_with fd v4 addr freed closed)
  unfolding close_server_socket close_socket_with_ptr_if_open close_descriptor is_open
      free_server_socket_memory free_address
  twice-at p none v4 addr freed closed = refl
  twice-at p (some (pos n)) v4 addr freed closed = ground arith
  twice-at p (some (negsuc n)) v4 addr freed closed = ground arith

-- Closing is idempotent: whatever the structure holds, closing the socket twice does what closing it
-- once does, so that the descriptor is closed and the address given back at most once.
close_server_socket-twice :
    (p : Ptr) (s : Store)
    → (close_server_socket p >> close_server_socket p) s ≡ close_server_socket p s
close_server_socket-twice p s =
    let u = s.socket_t in
    twice-at u.is_server u.p_addr_len u.port u.p_service_func s.address s.addr_len p u.sock_fd
      u.is_ipv4 u.addr_u s.freed s.closed
