-- ===== src/Clients.antt =====
-- services/2_Broadcast-chat/src/utils/net_utils_tcp.c: the memory of the structure of a client, and
-- `prepare_client_structs_for_data` of services/2_Broadcast-chat/src/broadcast_chat_service.c.
-- The results of the calls of `malloc` and `calloc` are arguments, addresses of which 0 is NULL.
pub mod Lifecycle
use cmy_message.Prelude.{
  ℕ, List, [], ◌∷◌, ◌++◌, Bool, true, false, Option, none, some, Run, ok, fault, null_dereference,
  uninitialised, ◌>>=◌, ◌==◌, if◌then◌else◌,
}
use cmy_message.Queue.{Ptr, null}

-- The four fields that hold memory; `none` is a field that was never assigned.
pub record Client : Type 0 where
  pub p_addr : Option Ptr
  pub p_addr_len : Option Ptr
  pub buffer : Option Ptr
  pub name : Option Ptr

-- The test for NULL and the release of one field.
unfoldable pub free_field : Option Ptr → Run (List Ptr)
free_field none = fault uninitialised
free_field (some p) = if p == null then ok [] else ok (p ∷ [])

-- The fields of the structure, each of which is NULL afterwards, with what is freed.
unfoldable pub free_fields : Client → Run (List Ptr × Client)
unfolding free_field
free_fields c = do
  addr ← free_field c.p_addr
  len ← free_field c.p_addr_len
  buffer ← free_field c.buffer
  ok (
    addr ++ len ++ buffer,
    record c { p_addr = some null; p_addr_len = some null; buffer = some null },
  )

-- What is freed, and the pointer that was passed. It is set to NULL before it is passed to `free`, so
-- that the structure is not given back; its name is not freed either.
unfoldable pub free_client_memory : Option Client → Run (List Ptr × Option Client)
unfolding free_fields
free_client_memory none = ok ([], none)
free_client_memory (some c) = do (freed, _) ← free_fields c; ok (freed, none)

-- A failed allocation releases what there is and gives NULL.
unfoldable pub give_up : Client → Run (List Ptr × Option Client)
unfolding free_client_memory
give_up c = free_client_memory (some c)

unfoldable pub allocate_client_info_struct : Ptr → Ptr → Ptr → Run (List Ptr × Option Client)
unfolding give_up
allocate_client_info_struct struct addr len =
    let c₁ : Client = record {
      p_addr = some addr;
      p_addr_len = none;
      buffer = none;
      name = none;
    } in
    let c₂ : Client = record c₁ { p_addr_len = some len } in
    if struct == null
    then ok ([], none)
    else if addr == null
    then give_up c₁
    else if len == null
    then give_up c₂
    else ok ([], some c₂)

-- The address field is read before the structure is tested. `accepted` says whether `accept` gives a
-- descriptor.
unfoldable pub accept_client : Bool → List Ptr × Option Client → Run (List Ptr × Option Client)
unfolding give_up
accept_client accepted (freed, none) = fault null_dereference
accept_client true (freed, some c) = ok (freed, some c)
accept_client false (freed, some c) = do (more, gone) ← give_up c; ok (freed ++ more, gone)

unfoldable pub accept_connection : Bool → Ptr → Ptr → Ptr → Run (List Ptr × Option Client)
unfolding allocate_client_info_struct accept_client
accept_connection accepted struct addr len =
    allocate_client_info_struct struct addr len >>= accept_client accepted

-- `converted` says whether `inet_ntop` gives a text. The result is the returned pointer, NULL after a
-- failure; on success it is the prepared structure, for which the code has no return statement.
unfoldable pub prepare_client_structs_for_data :
    Bool → Ptr → Ptr → Option Client → Run (List Ptr × Option Client)
unfolding give_up
prepare_client_structs_for_data converted name buffer none = ok ([], none)
prepare_client_structs_for_data converted name buffer (some c) =
    let c₁ : Client = record c { name = some name } in
    let c₂ : Client = record c₁ { buffer = some buffer } in
    if name == null
    then give_up c₁
    else if buffer == null
    then give_up c₂
    else if converted
    then ok ([], some c₂)
    else give_up c₂
