-- ===== src/Tests/Sockets.antt =====
-- Runs of the creation of sockets and of the use of the service by a client.
use cmy_message.Prelude.{
  ℕ, List, [], ◌∷◌, true, false, some, ok, fault, uninitialised, pos, negsuc, ◌≡◌, ◌≢◌, refl, arith,
  replicate, length, drop,
}
use cmy_message.CString.{c_str, is_terminated}
use cmy_message.Queue.{null}
use cmy_message.Chat.Names.{strncpy}
use cmy_message.Chat.Names.Assigned.{IsText}
use cmy_message.Ftp.Numbers.{codes}
use cmy_message.Sockets.{af_inet, Store, Host, fresh}
use cmy_message.Sockets.Creation.{
  create_socket_struct, is_zero, allocated, or_null, allocate_socket_struct,
  assign_descriptor_to_stream_socket_t,
}
use cmy_message.Sockets.Outcomes.{view, create_socket_struct-server}
use cmy_message.Sockets.Peers
use cmy_message.Sockets.Peers.{
  Network, is_converted, set_dual_stack, initialize_peer_ipv4, initialize_peer_ipv6,
  initialize_socket, connect_to_server, copied, copy_address, start_peer, configure_peer,
}
use cmy_message.Sockets.Peers.Connected.{create_socket_struct-client}
use cmy_message.FtpClient.Using.{is_ipv4, use_service, use_service-runs}

-- A system whose sockets can be bound but cannot listen, and one whose sockets can.
abbrev deaf : Host
deaf = record {
  struct_memory = 64;
  address_memory = 96;
  addr_len_memory = 128;
  service_memory = 160;
  htons = λ port. port;
  socket = λ family. pos 3;
  set_v6only = λ fd. pos 0;
  set_reuse = λ fd. pos 0;
  bind = λ fd address n. pos 0;
  listen = λ fd n. negsuc 0;
}

abbrev pub listening : Host
listening = record deaf { listen = λ fd n. pos 0 }

sixty_four-ne-null : deaf.struct_memory ≢ null
sixty_four-ne-null e = omega arith

create_socket_struct-server_example :
    view (create_socket_struct deaf true 9034 true fresh)
    ≡ ok (record { p_socket_t = null; freed = 96 ∷ []; closed = [] })
unfolding is_zero
create_socket_struct-server_example =
    create_socket_struct-server deaf 9034 sixty_four-ne-null (λ e. omega arith) (λ e. omega arith)
      (λ e. omega arith)

abbrev opened : Store
opened = record fresh {
  socket_t = record {
    sock_fd = some (pos 3);
    is_server = some true;
    is_ipv4 = some true;
    addr_u = some 96;
    p_addr_len = some 128;
    port = some 9034;
    p_service_func = some 160;
  };
}

abbrev pub home : List ℕ
home = codes "::1"

home-IsText : IsText home
home-IsText = search (arith)

abbrev pub net : Network
net = record {
  system = deaf;
  inet_pton = λ family text. pos 1;
  connect = λ fd address n. pos 0;
  ip_memory = some (replicate 39 0);
}

zeros-terminated : is_terminated (drop (length home) (replicate 39 0)) ≡ true
unfolding is_terminated
zeros-terminated = refl

create_socket_struct-client_example :
    view (Peers.create_socket_struct net false 8021 false home fresh)
    ≡ ok (record { p_socket_t = 64; freed = []; closed = [] })
unfolding is_converted
create_socket_struct-client_example =
    create_socket_struct-client net 8021 (replicate 39 0) home sixty_four-ne-null (λ e. omega arith)
      (λ e. omega arith) (λ e. omega arith) refl home-IsText (omega arith) zeros-terminated false

abbrev connected : Store
connected = record {
  socket_t = record {
    sock_fd = some (pos 3);
    is_server = some false;
    is_ipv4 = some true;
    addr_u = some 96;
    p_addr_len = some 128;
    port = some 8021;
    p_service_func = some 160;
  };
  address = some (record { family = af_inet; host = some home; port = 8021 });
  addr_len = some 16;
  freed = [];
  closed = [];
}

connected-made :
    Peers.create_socket_struct net false 8021 (is_ipv4 net home) home fresh ≡ ok (64, connected)
unfolding Peers.create_socket_struct configure_peer copy_address copied initialize_socket
    initialize_peer_ipv4 start_peer connect_to_server allocate_socket_struct allocated or_null
    assign_descriptor_to_stream_socket_t is_ipv4 is_converted is_terminated c_str strncpy
connected-made = refl

use_service-runs_example : use_service net 192 224 0 8021 home ≡ fault uninitialised
use_service-runs_example =
    use_service-runs net 192 224 0 8021 home 64 connected connected-made (λ e. omega arith) 3 refl
