-- ===== src/Sockets/Peers/Connected.antt =====
-- How the connection of a client to the server of files is made.
use cmy_message.Prelude.{
  ℕ, ◌-◌, ◌≤◌, ◌%◌, ◌^◌, List, [], ◌∷◌, ◌++◌, Bool, true, false, some, ok, ◌==◌, leb, if◌then◌else◌,
  ℤ, pos, negsuc, is_neg, ◌≡◌, ◌≢◌, refl, arith, Bool-cases, inl, inr, length, drop, append-nil,
}
use cmy_message.CString.{Object, c_str, is_terminated}
use cmy_message.Queue.{null}
use cmy_message.Chat.Names.{strncpy}
use cmy_message.Chat.Names.Assigned.{IsText, take-all, c_str-append}
use cmy_message.Sockets.{Address, Store, fresh, sizeof_sockaddr, free_address}
use cmy_message.Sockets.Creation.{
  family_of, assign_descriptor_to_stream_socket_t, allocated, allocate_socket_struct, or_null,
}
use cmy_message.Sockets.Outcomes.{Creation, view}
use cmy_message.Sockets.Peers.{
  Network, is_converted, initialize_peer_ipv4, initialize_peer_ipv6, set_dual_stack,
  initialize_socket, connect_to_server, copied, copy_address, start_peer, configure_peer,
  create_socket_struct,
}

c_str-behind :
    (text : List ℕ) (rest : Object) → IsText text → c_str (text ++ rest) ≡ text ++ c_str rest
unfolding c_str
c_str-behind [] rest h = refl
c_str-behind (x ∷ text) rest h = ground (arith, c_str-behind text rest)

is_terminated-behind :
    (text : List ℕ) (rest : Object)
    → IsText text
    → is_terminated (text ++ rest) ≡ is_terminated rest
unfolding is_terminated
is_terminated-behind [] rest h = refl
is_terminated-behind (x ∷ text) rest h = ground (arith, is_terminated-behind text rest)

module _ (memory : Object) (ip_address : List ℕ) (plain : IsText ip_address)
    (fits : length ip_address ≤ length memory)
    (ends : is_terminated (drop (length ip_address) memory) ≡ true) where
  -- The text that is read: what was copied, and what the memory holds behind it.
  abbrev pub text_read : List ℕ
  text_read = ip_address ++ c_str (drop (length ip_address) memory)

  strncpy-all :
      strncpy memory (ip_address ++ 0 ∷ []) (length ip_address)
      ≡ ip_address ++ drop (length ip_address) memory
  unfolding strncpy
  strncpy-all =
      let none_left : length ip_address - length ip_address ≡ 0 = omega arith in
      rw (c_str-append ip_address [] plain, take-all ip_address, none_left, append-nil ip_address)

  copied-reads : (s : Store) → copied memory ip_address s ≡ ok (text_read, s)
  unfolding copied
  copied-reads s =
      let room : leb (length ip_address) (length memory) ≡ true = ground arith in
      rw (
        strncpy-all,
        room,
        is_terminated-behind ip_address _ plain,
        ends,
        c_str-behind ip_address (drop (length ip_address) memory) plain,
      )

module _ (net : Network) (port : ℕ) (is_ipv4 : Bool) (text : List ℕ) where
  abbrev pub peer_address : Address
  peer_address = record {
    family = family_of is_ipv4;
    host = some text;
    port = net.system.htons (port % 2 ^ 16);
  }

  abbrev pub released : Creation
  released = record { p_socket_t = null; freed = net.system.address_memory ∷ []; closed = [] }

  -- How the creation ends, by the descriptor: only a text that is an address, and a server that
  -- takes the connection, give a socket.
  abbrev pub with_descriptor : ℤ → Creation
  with_descriptor (negsuc n) = released
  with_descriptor (pos n) =
      if is_converted (net.inet_pton (family_of is_ipv4) text)
      then (if is_neg (net.connect (pos n) peer_address (sizeof_sockaddr is_ipv4))
          then released
          else record { p_socket_t = net.system.struct_memory; freed = []; closed = [] })
      else released

module _ (net : Network) (port : ℕ) (memory : Object) (ip_address : List ℕ)
    (a : net.system.struct_memory ≢ null) (b : net.system.address_memory ≢ null)
    (c : net.system.addr_len_memory ≢ null) (d : net.system.service_memory ≢ null)
    (held : net.ip_memory ≡ some memory) (plain : IsText ip_address)
    (fits : length ip_address ≤ length memory)
    (ends : is_terminated (drop (length ip_address) memory) ≡ true) where
  abbrev text : List ℕ
  text = ip_address ++ c_str (drop (length ip_address) memory)

  nulls :
      ((net.system.struct_memory == null) ≡ false)
      × ((net.system.address_memory == null) ≡ false)
      × ((net.system.addr_len_memory == null) ≡ false)
      × ((net.system.service_memory == null) ≡ false)
  nulls = (ground arith, ground arith, ground arith, ground arith)

  client-cases :
      (is_ipv4 : Bool) (fd : ℤ)
      → net.system.socket (family_of is_ipv4) ≡ fd
      → view (create_socket_struct net false port is_ipv4 ip_address fresh)
        ≡ ok (with_descriptor net port is_ipv4 text fd)
  unfolding view create_socket_struct configure_peer allocate_socket_struct allocated or_null
      assign_descriptor_to_stream_socket_t copy_address initialize_socket initialize_peer_ipv4
      initialize_peer_ipv6 set_dual_stack connect_to_server start_peer
  client-cases true (negsuc n) e =
      let (a', b', c', d') = nulls in
      rw (
        a',
        b',
        c',
        d',
        configure_peer,
        a',
        held,
        copied-reads memory ip_address plain fits ends,
        assign_descriptor_to_stream_socket_t,
        e,
        free_address,
        b',
      )
  client-cases true (pos n) e =
      let (a', b', c', d') = nulls in
      rw
        (
          a',
          b',
          c',
          d',
          configure_peer,
          a',
          held,
          copied-reads memory ip_address plain fits ends,
          assign_descriptor_to_stream_socket_t,
          e,
        )
        (elim (Bool-cases (is_converted (net.inet_pton (family_of true) text))) [
          | inr odd ↦ rw (odd, free_address, b')
          | inl converted ↦
              elim (Bool-cases (
                is_neg
                  (net.connect (pos n) (peer_address net port true text) (sizeof_sockaddr true)))) [
                    | inl refused ↦ rw (converted, refused, refused, free_address, b')
                    | inr connected ↦ rw (converted, connected)
                  ]
        ])
  client-cases false (negsuc n) e =
      let (a', b', c', d') = nulls in
      rw (
        a',
        b',
        c',
        d',
        configure_peer,
        a',
        held,
        copied-reads memory ip_address plain fits ends,
        assign_descriptor_to_stream_socket_t,
        e,
        free_address,
        b',
      )
  client-cases false (pos n) e =
      let (a', b', c', d') = nulls in
      rw
        (
          a',
          b',
          c',
          d',
          configure_peer,
          a',
          held,
          copied-reads memory ip_address plain fits ends,
          assign_descriptor_to_stream_socket_t,
          e,
        )
        (elim (Bool-cases (is_converted (net.inet_pton (family_of false) text))) [
          | inr odd ↦ rw (odd, free_address, b')
          | inl converted ↦
              elim (Bool-cases (
                is_neg (
                  net.connect (pos n) (peer_address net port false text)
                    (sizeof_sockaddr false)))) [
                      | inl refused ↦ rw (converted, refused, refused, free_address, b')
                      | inr connected ↦ rw (converted, connected)
                    ]
        ])

  -- For a client whose memory can be allocated and whose address is a text that fits its memory,
  -- with a terminator behind it, whatever the calls answer, the creation gives a socket that is
  -- connected to the address that is read, which is the text followed by what the memory held
  -- behind it, or NULL after the memory of the address was given back once; the descriptor is
  -- never closed.
  pub create_socket_struct-client :
      (is_ipv4 : Bool)
      → view (create_socket_struct net false port is_ipv4 ip_address fresh)
        ≡ ok (with_descriptor net port is_ipv4 text (net.system.socket (family_of is_ipv4)))
  create_socket_struct-client is_ipv4 =
      client-cases is_ipv4 (net.system.socket (family_of is_ipv4)) refl
