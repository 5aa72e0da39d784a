-- ===== src/Chat/Names/Sections/Runs.antt =====
-- Runs of the threads of any number of clients, section by section.
use cmy_message.Prelude.{ℕ, ◌<◌, List, [], ◌∷◌, ◌++◌, Bool, none, some, ok, ◌≡◌, arith, length}
use cmy_message.CString.{Object}
use cmy_message.HashTable.{Table}
use cmy_message.HashTable.Valid.{IsValid, view}
use cmy_message.Chat.{max_username_length}
use cmy_message.Chat.Names.Assigned.{IsText}
use cmy_message.Chat.Names.Sections.{
  choosing, found_free, inserted, named, Hall, look_up_section, insert_section, array_section,
  leave_section, remove_section,
}
use cmy_message.Chat.Names.Sections.Stored.{HasHomes}
use cmy_message.Chat.Names.Sections.Consistent.{IsConsistent}
use cmy_message.Chat.Names.Sections.Kept.{
  look_up-IsConsistent, insert-IsConsistent, array-IsConsistent, leave-IsConsistent,
  remove-IsConsistent,
}

-- The step of one client. The names that are tried have fewer than twenty characters.
pub data Step : Hall → Hall → Type 0 where
  look_up :
      (h h' : Hall) (fd : ℕ) (text : List ℕ) (x : ℕ)
      → h.desk fd ≡ choosing
      → IsText text
      → length text < max_username_length
      → look_up_section fd (text ++ x ∷ []) h ≡ ok h'
      → Step h h'
  insert :
      (h h' : Hall) (fd : ℕ) (buffer : Object)
      → h.desk fd ≡ found_free buffer
      → insert_section fd buffer h ≡ ok h'
      → Step h h'
  store :
      (h : Hall) (fd : ℕ) (name : Object)
      → h.desk fd ≡ inserted name
      → Step h (array_section fd name h)
  leave :
      (h h' : Hall) (fd : ℕ) (name : Object)
      → h.desk fd ≡ named name
      → leave_section fd name h ≡ ok h'
      → Step h h'
  remove :
      (h h' : Hall) (fd : ℕ) (name : Object) (itself : Bool)
      → h.desk fd ≡ named name
      → remove_section itself fd h ≡ ok h'
      → Step h h'

pub data Reach (h : Hall) : Hall → Type 0 where
  here : Reach h h
  next : {g g' : Hall} → Reach h g → Step g g' → Reach h g'

module _ {home : List ℕ → ℕ} where
  Step-IsConsistent : {h h' : Hall} → Step h h' → IsConsistent home h → IsConsistent home h'
  Step-IsConsistent (look_up h h' fd text x turn plain short run) c =
      let (g, run', c', _) = look_up-IsConsistent c fd text x turn plain short in
      let e : g ≡ h' = cc in rw (← e) c'
  Step-IsConsistent (insert h h' fd buffer turn run) c =
      let (g, c', run', _, _) = insert-IsConsistent c fd buffer turn in
      let e : g ≡ h' = cc in rw (← e) c'
  Step-IsConsistent (store h fd name turn) c = array-IsConsistent c fd name turn
  Step-IsConsistent (leave h h' fd name turn run) c =
      let (g, c', run', _, _, _, _) = leave-IsConsistent c fd name turn in
      let e : g ≡ h' = cc in rw (← e) c'
  Step-IsConsistent (remove h h' fd name itself turn run) c =
      let (g, c', run', _, _, _, _) = remove-IsConsistent c fd itself name turn in
      let e : g ≡ h' = cc in rw (← e) c'

  -- However the threads of the clients take turns, if every name that is tried has fewer than
  -- twenty characters and no zero byte: if at first the table is valid, has chains for the names,
  -- has under each name only a client that was told that it has it, and the names in the hands of
  -- the clients are such names too, this is so after every run. So a client that has left is not
  -- in the table.
  pub Reach-IsConsistent : {h h' : Hall} → IsConsistent home h → Reach h h' → IsConsistent home h'
  Reach-IsConsistent c here = c
  Reach-IsConsistent c (next r st) = Step-IsConsistent st (Reach-IsConsistent c r)

  -- It is so at the start, with an empty table and nobody named.
  pub start-IsConsistent :
      {h : Hall} {t : Table ℕ}
      → h.shared.usernames_ht ≡ some t
      → IsValid t
      → HasHomes home t
      → ((i : ℕ) (q : List ℕ) → view t i q ≡ none)
      → ((fd : ℕ) → h.desk fd ≡ choosing)
      → IsConsistent home h
  start-IsConsistent {h} {t} held valid homes empty start = record {
    table = t;
    here = held;
    valid = valid;
    homes = homes;
    owned = λ q fd e. absurd (ground (arith, empty (home q) q));
    fit = λ fd. rw (start fd) tt;
  }
