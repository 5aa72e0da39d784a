-- ===== src/Clients/Lifecycle.antt =====
-- What is given back of the memory of a client.
use cmy_message.Prelude.{
  List, [], ◌∷◌, ◌++◌, Bool, true, false, Option, none, some, Run, ok, fault, uninitialised, ◌>>=◌,
  ◌≡◌, ◌≢◌, arith, ◌==◌, ◌&&◌, ◌⊎◌, inl, inr, refl, Bool-cases,
}
use cmy_message.Queue.{Ptr, null}
use cmy_message.Clients.{
  Client, free_field, free_fields, free_client_memory, give_up, allocate_client_info_struct,
  accept_client, accept_connection, prepare_client_structs_for_data,
}

abbrev has_value : Option Ptr → Bool
has_value none = false
has_value (some p) = true

-- The three fields that are released were assigned, be it NULL.
unfoldable pub is_assigned : Client → Bool
is_assigned c = has_value c.p_addr && (has_value c.p_addr_len && has_value c.buffer)

free_field-cases :
    (f : Option Ptr)
    → ((freed : List Ptr) × (free_field f ≡ ok freed) × (has_value f ≡ true))
      ⊎ ((free_field f ≡ fault uninitialised) × (has_value f ≡ false))
unfolding free_field
free_field-cases none = inr (refl, refl)
free_field-cases (some p) = elim (Bool-cases (p == null)) [
  | inl e ↦ inl ([], rw e, refl)
  | inr e ↦ inl (p ∷ [], rw e, refl)
]

-- A release is undefined exactly if one of the fields was never assigned.
pub free_client_memory-cases :
    (c : Client)
    → ((freed : List Ptr) × (free_client_memory (some c) ≡ ok (freed, none))
        × (is_assigned c ≡ true))
      ⊎ ((free_client_memory (some c) ≡ fault uninitialised) × (is_assigned c ≡ false))
unfolding free_client_memory free_fields is_assigned
free_client_memory-cases c = elim (free_field-cases c.p_addr) [
  | inr (bad, lacks) ↦ inr (rw bad, rw lacks)
  | inl (addr, a, has_a) ↦ elim (free_field-cases c.p_addr_len) [
    | inr (bad, lacks) ↦ inr (rw (a, bad), rw (has_a, lacks))
    | inl (len, l, has_l) ↦ elim (free_field-cases c.buffer) [
      | inr (bad, lacks) ↦ inr (rw (a, l, bad), rw (has_a, has_l, lacks))
      | inl (buffer, b, has_b) ↦ inl (addr ++ len ++ buffer, rw (a, l, b), rw (has_a, has_l, has_b))
    ]
  ]
]

pub free_client_memory-assigned :
    (c : Client)
    → is_assigned c ≡ true
    → (freed : List Ptr) × (free_client_memory (some c) ≡ ok (freed, none))
free_client_memory-assigned c e = elim (free_client_memory-cases c) [
  | inl (freed, run, _) ↦ (freed, run)
  | inr (_, lacks) ↦ absurd (ground (arith, lacks, e))
]

-- The service and the thread that called it have pointers of their own to one structure, and each
-- releases its fields: what is given back by the first and by the second, and the structure.
abbrev release_twice : Option Client → Run (List Ptr × List Ptr × Option Client)
release_twice none = ok ([], [], none)
release_twice (some c) = do
  (freed, c₁) ← free_fields c
  (again, c₂) ← free_fields c₁
  ok (freed, again, some c₂)

-- A client that is accepted, prepared by its service and released by the service and by the thread.
abbrev pub life_of_client : Ptr → Ptr → Ptr → Ptr → Ptr → Run (List Ptr × List Ptr × Option Client)
life_of_client struct addr len name buffer = do
  (_, accepted) ← accept_connection true struct addr len
  (_, prepared) ← prepare_client_structs_for_data true name buffer accepted
  release_twice prepared

module _ (struct addr len : Ptr) (there : struct ≢ null) (has_addr : addr ≢ null)
    (has_len : len ≢ null) where
  -- If the allocations succeed and the connection is accepted, the structure has its two addresses.
  pub accept_connection-accepted :
      accept_connection true struct addr len
      ≡ ok (
        [],
        some (record { p_addr = some addr; p_addr_len = some len; buffer = none; name = none }),
      )
  unfolding accept_connection allocate_client_info_struct accept_client
  accept_connection-accepted = ground arith

  -- If the connection is not accepted, the release of the structure reads a field that was never
  -- assigned.
  pub accept_connection-refused : accept_connection false struct addr len ≡ fault uninitialised
  unfolding accept_connection allocate_client_info_struct accept_client give_up free_client_memory
      free_fields free_field
  accept_connection-refused = ground arith

  -- Once the connection is accepted and the allocations succeed, and with the missing return of
  -- the preparation read as the prepared structure: the two addresses and the buffer are given
  -- back, each once, by the service, and a second release of the same structure, by the thread,
  -- gives nothing back, since the fields are NULL. Neither the structure nor the name is ever
  -- given back.
  pub life_of_client-releases :
      (name buffer : Ptr)
      → name ≢ null
      → buffer ≢ null
      → life_of_client struct addr len name buffer
        ≡ ok (
          addr ∷ len ∷ buffer ∷ [],
          [],
          some (record {
            p_addr = some null;
            p_addr_len = some null;
            buffer = some null;
            name = some name;
          }),
        )
  unfolding accept_connection allocate_client_info_struct accept_client
      prepare_client_structs_for_data free_fields free_field
  life_of_client-releases name buffer n b = ground arith
