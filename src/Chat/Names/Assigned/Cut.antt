-- ===== src/Chat/Names/Assigned/Cut.antt =====
-- What becomes of a name that is too long.
use cmy_message.Prelude.{
  ℕ, ◌+◌, ◌-◌, ◌<◌, List, [], ◌∷◌, ◌++◌, true, none, some, ok, ◌≡◌, ap, ◌∙◌, arith, length,
  append_assoc, length-append,
}
use cmy_message.CString.{Object, strlen}
use cmy_message.CString.Laws.{strlen-c_str}
use cmy_message.HashTable.{Table, hash_table_calc_index_with_hash}
use cmy_message.HashTable.Valid.{IsValid, view}
use cmy_message.HashTable.Update.{insert-taken}
use cmy_message.Chat.{buffer_size, Shared, Recv, received}
use cmy_message.Chat.Names.{
  how_can_we_call_you, username_accepted, assigned, stored_name, insert_name,
  accept_and_store_client_username, name_loop, ask_and_assign_username,
}
use cmy_message.Chat.Names.Assigned.{
  IsText, padded, set-append, c_str-append, is_terminated-append, zeros, padded-c_str,
  sanitize-padded, strncpy-padded, named, look_up,
}

IsText-append : (xs ys : List ℕ) → IsText (xs ++ ys) → IsText xs
IsText-append [] ys h = tt
IsText-append (x ∷ xs) ys h = (h.0, IsText-append xs ys h.1)

-- The name that is kept of a longer text: its first nineteen characters, and behind the
-- terminator what followed the twentieth.
abbrev pub cut : List ℕ → List ℕ → Object
cut first rest = first ++ 0 ∷ (rest ++ zeros (buffer_size - (20 + length rest)))

module _ (first : List ℕ) (y : ℕ) (rest : List ℕ) (plain : IsText (first ++ y ∷ rest))
    (nineteen : length first ≡ 19) (fits : 20 + length rest < buffer_size) where
  stored_name-cut :
      stored_name (padded (first ++ y ∷ rest)) (length (first ++ y ∷ rest)) ≡ cut first rest
  unfolding stored_name
  stored_name-cut =
      let len : length (first ++ y ∷ rest) ≡ 20 + length rest =
        omega (arith, length-append first (y ∷ rest)) in
      let z = zeros (buffer_size - (20 + length rest)) in
      rw
        (
          strncpy-padded (first ++ y ∷ rest) plain (omega arith),
          len,
          append_assoc first (y ∷ rest) z,
          ← nineteen,
        )
        (set-append first y (rest ++ z) 0)

  -- The check is made with the whole text and the insertion with its first nineteen characters.
  -- Where those are the name of another client, the newcomer is told that its name is accepted,
  -- and the table stays as it was, with no entry for the newcomer.
  pub ask-cut :
      {t : Table ℕ}
      → IsValid t
      → (s : Shared) → s.usernames_ht ≡ some t
      → (fd x : ℕ) (answers : List Recv) {i j other : ℕ}
      → hash_table_calc_index_with_hash t (padded (first ++ y ∷ rest)) ≡ ok i
      → view t i (first ++ y ∷ rest) ≡ none
      → hash_table_calc_index_with_hash t (cut first rest) ≡ ok j
      → view t j first ≡ some other
      → ask_and_assign_username true fd (received ((first ++ y ∷ rest) ++ x ∷ []) ∷ answers) s
        ≡ ok (
            assigned
              (how_can_we_call_you ∷ username_accepted ∷ [])
              (cut first rest)
              (named fd (cut first rest) t s))
  unfolding ask_and_assign_username name_loop accept_and_store_client_username insert_name
  ask-cut {t} valid s here fd x answers home free home' taken =
      let text = first ++ y ∷ rest in
      let len : length text ≡ 20 + length rest = omega (arith, length-append first (y ∷ rest)) in
      let (same, ends) = padded-c_str text plain (omega arith) in
      let strlen_text : strlen (padded text) ≡ ok (length text) =
        strlen-c_str (padded text) ends ∙ ap (λ (c : List ℕ). ok (length c)) same in
      let begin = IsText-append first (y ∷ rest) plain in
      let z = rest ++ zeros (buffer_size - (20 + length rest)) in
      let old =
        insert-taken valid (cut first rest) home' (is_terminated-append first z)
          (c_str-append first z begin) fd taken in
      rw (
        sanitize-padded text plain x (omega arith),
        look_up valid s here fd text plain home (omega arith),
        free,
        sanitize-padded text plain x (omega arith),
        strlen_text,
        stored_name-cut,
        here,
        old,
      )
