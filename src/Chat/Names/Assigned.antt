-- ===== src/Chat/Names/Assigned.antt =====
-- How a client comes by its name: one that is free is stored, and one that is taken is refused.
pub mod Cut
use cmy_message.Prelude.{
  ℕ, zero, suc, ◌+◌, ◌-◌, ◌<◌, ◌≤◌, List, [], ◌∷◌, ◌++◌, Bool, true, none, some, ok, ◌≡◌, ◌≢◌, refl,
  ap, ◌∙◌, arith, leb, length, take, drop, set, replicate, All, append-nil, append_assoc,
  length-append,
}
use cmy_message.CString.{Object, c_str, is_terminated, strlen}
use cmy_message.CString.Laws.{strlen-c_str}
use cmy_message.HashTable.{Table, hash_table_calc_index_with_hash, hash_table_lookup}
use cmy_message.HashTable.Valid.{IsValid, view, hash_table_lookup-view}
use cmy_message.HashTable.Update.{Writes, insert-free, insert-taken}
use cmy_message.Chat.{buffer_size, max_username_length, Shared, Recv, received, filled}
use cmy_message.Chat.Names.{
  Prompt, how_can_we_call_you, username_accepted, username_present, assigned, strncpy, sanitize,
  stored_name, name_memory, insert_name, set_username, accept_and_store_client_username, name_loop,
  ask_and_assign_username,
}

-- Characters, none of them the terminator.
abbrev pub IsText : List ℕ → Type 0
IsText = All (λ x. x ≢ 0)

-- The text at the front of a buffer of zeros.
abbrev pub padded : List ℕ → Object
padded text = text ++ replicate (buffer_size - length text) 0

set-append :
    (xs : List ℕ) (y : ℕ) (ys : List ℕ) (v : ℕ) → set (xs ++ y ∷ ys) (length xs) v ≡ xs ++ v ∷ ys
set-append [] y ys v = refl
set-append (x ∷ xs) y ys v = rw (set-append xs y ys v)

pub take-all : (xs : List ℕ) → take (length xs) xs ≡ xs
take-all [] = refl
take-all (x ∷ xs) = rw (take-all xs)

drop-replicate : (n m a : ℕ) → drop m (replicate n a) ≡ replicate (n - m) a
drop-replicate n zero a = let e : n - 0 ≡ n = omega arith in rw e
drop-replicate zero (suc m) a = let e : 0 - suc m ≡ 0 = omega arith in rw e
drop-replicate (suc n) (suc m) a =
    let e : suc n - suc m ≡ n - m = omega arith in rw e (drop-replicate n m a)

set-zeros :
    (xs : List ℕ) (n i : ℕ) → length xs ≤ i → set (xs ++ replicate n 0) i 0 ≡ xs ++ replicate n 0
set-zeros [] zero i h = refl
set-zeros [] (suc n) zero h = refl
set-zeros [] (suc n) (suc i) h = rw (set-zeros [] n i (omega arith))
set-zeros (x ∷ xs) n zero h = absurd (omega arith)
set-zeros (x ∷ xs) n (suc i) h = rw (set-zeros xs n i (omega arith))

pub c_str-append : (text : List ℕ) (rest : Object) → IsText text → c_str (text ++ 0 ∷ rest) ≡ text
unfolding c_str
c_str-append [] rest h = refl
c_str-append (x ∷ text) rest h = ground (arith, c_str-append text rest)

pub is_terminated-append : (text : List ℕ) (rest : Object) → is_terminated (text ++ 0 ∷ rest) ≡ true
unfolding is_terminated
is_terminated-append [] rest = refl
is_terminated-append (x ∷ text) rest = ground (arith, is_terminated-append text rest)

abbrev pub zeros : ℕ → Object
zeros n = replicate n 0

pub zeros-suc : (n m : ℕ) → n < m → zeros (m - n) ≡ 0 ∷ zeros (m - n - 1)
zeros-suc n m h = let e : m - n ≡ suc (m - n - 1) = omega arith in ap zeros e

module _ (text : List ℕ) (plain : IsText text) where
  pub padded-c_str :
      length text < buffer_size
      → (c_str (padded text) ≡ text) × (is_terminated (padded text) ≡ true)
  padded-c_str h =
      rw (zeros-suc (length text) buffer_size h)
        (c_str-append text _ plain, is_terminated-append text _)

  -- A line is the text without its last byte.
  pub sanitize-padded :
      (x : ℕ) → length text < buffer_size → sanitize (text ++ x ∷ []) ≡ padded text
  unfolding sanitize filled
  sanitize-padded x h =
      let len : length (text ++ x ∷ []) ≡ length text + 1 = length-append text (x ∷ []) in
      let fits : leb (length text + 1) buffer_size ≡ true = ground arith in
      let at_end : length text + 1 - 1 ≡ length text = omega arith in
      let left : buffer_size - (length text + 1) ≡ buffer_size - length text - 1 = omega arith in
      rw
        (
          len,
          fits,
          at_end,
          append_assoc text (x ∷ []) (zeros (buffer_size - (length text + 1))),
          left,
          zeros-suc (length text) buffer_size h,
        )
        (set-append text x (zeros (buffer_size - length text - 1)) 0)

  drop-name_memory : (m : ℕ) → drop m name_memory ≡ zeros (buffer_size - m)
  unfolding name_memory
  drop-name_memory m = drop-replicate buffer_size m 0

  pub strncpy-padded :
      length text < buffer_size → strncpy name_memory (padded text) (length text) ≡ padded text
  unfolding strncpy
  strncpy-padded h =
      let none_left : length text - length text ≡ 0 = omega arith in
      rw (
        (padded-c_str h).0,
        take-all text,
        none_left,
        append-nil text,
        drop-name_memory (length text),
      )

  pub stored_name-padded :
      length text < max_username_length → stored_name (padded text) (length text) ≡ padded text
  unfolding stored_name
  stored_name-padded h =
      rw (strncpy-padded (omega arith))
        (set-zeros text (buffer_size - length text) 19 (omega arith))

-- The shared state after a name is stored under which the table is `t`.
abbrev pub named : ℕ → Object → Table ℕ → Shared → Shared
named fd name t s = set_username fd name (record s { usernames_ht = some t })

module _ {t : Table ℕ} (valid : IsValid t) (s : Shared) (here : s.usernames_ht ≡ some t) (fd : ℕ)
    (text : List ℕ) (plain : IsText text) {i : ℕ}
    (home : hash_table_calc_index_with_hash t (padded text) ≡ ok i) where
  look_up :
      length text < buffer_size
      → hash_table_lookup s.usernames_ht (some (padded text)) ≡ ok (view t i text)
  look_up h =
      let (same, ends) = padded-c_str text plain h in
      rw (here, hash_table_lookup-view valid (padded text) home ends, same)

  accept_free :
      length text < max_username_length
      → view t i text ≡ none
      → (r : Bool × Table ℕ) × (accept_and_store_client_username true fd (padded text) s
          ≡ ok (padded text, named fd (padded text) r.1 s))
        × Writes t i text (some fd) true r
  unfolding accept_and_store_client_username insert_name
  accept_free h free =
      let (same, ends) = padded-c_str text plain (omega arith) in
      let (r, run, w) = insert-free valid (padded text) home ends same fd free in
      let len : strlen (padded text) ≡ ok (length text) =
        strlen-c_str (padded text) ends ∙ ap (λ (c : List ℕ). ok (length c)) same in
      (r, rw (len, stored_name-padded text plain h, here, run), w)

  -- The answer with a free name ends the loop.
  pub name_loop-free :
      (x : ℕ) (sent : List Prompt) (answers : List Recv)
      → length text < max_username_length
      → view t i text ≡ none
      → (r : Bool × Table ℕ) × (name_loop true fd sent (received (text ++ x ∷ []) ∷ answers) s
          ≡ ok (
              assigned
                (sent ++ username_accepted ∷ [])
                (padded text)
                (named fd (padded text) r.1 s)))
        × Writes t i text (some fd) true r
  unfolding name_loop
  name_loop-free x sent answers h free =
      let (r, run, w) = accept_free h free in
      (
        r,
        rw (
          sanitize-padded text plain x (omega arith),
          look_up (omega arith),
          free,
          sanitize-padded text plain x (omega arith),
          run,
        ),
        w,
      )

  -- A free name of fewer than twenty characters is stored as it was sent: the client is told so,
  -- and afterwards the valid table has the client under that name, every other name as before,
  -- and the name stands in the array of names.
  pub ask-free :
      (x : ℕ) (answers : List Recv)
      → length text < max_username_length
      → view t i text ≡ none
      → (r : Bool × Table ℕ) × (ask_and_assign_username true fd
            (received (text ++ x ∷ []) ∷ answers)
            s
          ≡ ok (
              assigned
                (how_can_we_call_you ∷ username_accepted ∷ [])
                (padded text)
                (named fd (padded text) r.1 s)))
        × Writes t i text (some fd) true r
  unfolding ask_and_assign_username
  ask-free x answers h free = name_loop-free x (how_can_we_call_you ∷ []) answers h free

  -- A name that the table has is refused: the client is told so and asked again, and the state
  -- stays as it was.
  pub name_loop-taken :
      (x : ℕ) (sent : List Prompt) (answers : List Recv) {other : ℕ}
      → length text < buffer_size
      → view t i text ≡ some other
      → name_loop true fd sent (received (text ++ x ∷ []) ∷ answers) s
        ≡ name_loop true fd (sent ++ username_present ∷ []) answers s
  unfolding name_loop
  name_loop-taken x sent answers h taken = rw (sanitize-padded text plain x h, look_up h, taken)
