-- ===== src/Sockets/Outcomes.antt =====
-- How the creation of a socket ends, and what it leaves open.
use cmy_message.Prelude.{
  ℕ, ◌%◌, ◌^◌, List, [], ◌∷◌, Bool, true, false, none, Run, ok, fault, uninitialised, ◌==◌,
  if◌then◌else◌, ℤ, pos, negsuc, is_neg, ◌≡◌, ◌≢◌, refl, arith, Bool-cases, inl, inr, ◌⊎◌,
}
use cmy_message.Queue.{Ptr, null}
use cmy_message.Chat.{default_max_num_clients}
use cmy_message.Sockets.{
  af_inet, Address, Store, Host, fresh, is_open, close_descriptor, close_socket_with_ptr_if_open,
  free_address, free_server_socket_memory, close_server_socket,
}
use cmy_message.Sockets.Creation.{
  abandon, listen_service, name_service, is_zero, setup_service_socket_t,
  assign_descriptor_to_stream_socket_t, write_address, initialize_ipv6, initialize_socket,
  allocated, allocate_socket_struct, or_null, set_up_server, configure, create_socket_struct,
}

-- The pointer that is returned, what was given back, and the descriptors that were closed.
pub record Creation : Type 0 where
  pub p_socket_t : Ptr
  pub freed : List Ptr
  pub closed : List ℤ

unfoldable pub view : Run (Ptr × Store) → Run Creation
view (fault e) = fault e
view (ok (p, s)) = ok (record { p_socket_t = p; freed = s.freed; closed = s.closed })

module _ (os : Host) (port : ℕ) where
  abbrev pub any_address : Address
  any_address = record { family = af_inet; host = none; port = os.htons (port % 2 ^ 16) }

  abbrev pub given_up : List ℤ → Creation
  given_up closed = record { p_socket_t = null; freed = os.address_memory ∷ []; closed = closed }

  -- Whether the named socket listens.
  abbrev pub listens : ℤ → Bool
  listens fd =
      if is_neg (os.bind fd any_address 16)
      then false
      else (if is_neg (os.listen fd default_max_num_clients) then false else true)

  abbrev pub with_descriptor : ℤ → Creation
  with_descriptor (negsuc n) = given_up []
  with_descriptor (pos n) =
      if is_zero (os.set_reuse (pos n))
      then (if listens (pos n)
          then record { p_socket_t = os.struct_memory; freed = []; closed = [] }
          else given_up [])
      else given_up (pos n ∷ [])

  module _ (a : os.struct_memory ≢ null) (b : os.address_memory ≢ null)
      (c : os.addr_len_memory ≢ null) (d : os.service_memory ≢ null) where
    nulls :
        ((os.struct_memory == null) ≡ false)
        × ((os.address_memory == null) ≡ false)
        × ((os.addr_len_memory == null) ≡ false)
        × ((os.service_memory == null) ≡ false)
    nulls = (ground arith, ground arith, ground arith, ground arith)

    server-cases :
        (fd : ℤ)
        → os.socket af_inet ≡ fd
        → view (create_socket_struct os true port true fresh) ≡ ok (with_descriptor fd)
    unfolding view create_socket_struct configure allocate_socket_struct allocated or_null
        initialize_socket write_address assign_descriptor_to_stream_socket_t set_up_server
        setup_service_socket_t name_service listen_service abandon close_server_socket
        close_socket_with_ptr_if_open close_descriptor is_open free_server_socket_memory
        free_address
    server-cases (negsuc n) e =
        let (a', b', c', d') = nulls in
        rw
          (a', b', c', d', configure, a', assign_descriptor_to_stream_socket_t, e, free_address, b')
    server-cases (pos n) e =
        let (a', b', c', d') = nulls in
        rw (a', b', c', d', configure, a', assign_descriptor_to_stream_socket_t, e)
          (elim (Bool-cases (is_zero (os.set_reuse (pos n)))) [
            | inr unset ↦ rw (unset, free_address, b')
            | inl set ↦ elim (Bool-cases (is_neg (os.bind (pos n) any_address 16))) [
              | inr named ↦ elim (Bool-cases (is_neg (os.listen (pos n) default_max_num_clients))) [
                | inr heard ↦ rw (set, named, heard)
                | inl deaf ↦ rw (set, named, deaf, free_address, b', deaf)
              ]
              | inl unnamed ↦ rw (set, unnamed, free_address, b', unnamed)
            ]
          ])

    -- For an IPv4 server whose memory can be allocated, whatever the calls answer, the creation of
    -- the socket ends as its specification says: with the structure of a socket that listens and
    -- nothing given back, or with NULL after the address, alone, was given back once; the
    -- descriptor is closed if the options cannot be set, and left open if it cannot be bound or
    -- cannot listen.
    pub create_socket_struct-server :
        view (create_socket_struct os true port true fresh)
        ≡ ok (with_descriptor (os.socket af_inet))
    create_socket_struct-server = server-cases (os.socket af_inet) refl

  -- If there is memory for the structure but not for what it points to, or if the socket is to be an
  -- IPv6 socket, a field that was never assigned is read, whatever the calls answer.
  create_socket_struct-uninitialised :
      (is_server is_ipv4 : Bool)
      → os.struct_memory ≢ null
      → (os.address_memory ≡ null)
        ⊎ (os.addr_len_memory ≡ null)
        ⊎ (os.service_memory ≡ null)
        ⊎ (is_ipv4 ≡ false)
      → create_socket_struct os is_server port is_ipv4 fresh ≡ fault uninitialised
  unfolding create_socket_struct configure allocate_socket_struct allocated or_null
      initialize_socket initialize_ipv6 free_server_socket_memory
  create_socket_struct-uninitialised is_server is_ipv4 a h = ground arith
