-- ===== src/Chat/Names/Sections/Ordered.antt =====
-- Clients that take their names one after the other: no client looks a name up between the look-up and
-- the insertion of another.
use mathlib.Core.Path.{subst}
use cmy_message.Prelude.{
  ℕ, ◌<◌, List, [], ◌∷◌, ◌++◌, Bool, true, none, some, ok, ◌≡◌, refl, sym, ◌∙◌, arith, length, All,
  Option-cases, inl, inr,
}
use cmy_message.CString.{Object, c_str}
use cmy_message.HashTable.{Table, hash_table_calc_index_with_hash}
use cmy_message.HashTable.Valid.{view}
use cmy_message.HashTable.Update.{Writes}
use cmy_message.Chat.{Shared, Recv, failed, closed, received, max_username_length}
use cmy_message.Chat.Names.{Prompt, username_present, assigned, name_loop, ask_and_assign_username}
use cmy_message.Chat.Names.Assigned.{IsText, padded, name_loop-free, name_loop-taken}
use cmy_message.Chat.Names.Assigned
use cmy_message.Chat.Names.Sections.{choosing, named, Hall, seat, leave_section, remove_section}
use cmy_message.Chat.Names.Sections.Stored.{IsName, twenty-c_str, twenty-home, name-IsTwenty}
use cmy_message.Chat.Names.Sections.Consistent.{IsConsistent}

-- A line with a text of fewer than twenty characters, and any byte as its end.
pub record IsShort (bytes : List ℕ) : Type 0 where
  pub text : List ℕ
  pub end : ℕ
  pub plain : IsText text
  pub short : length text < max_username_length
  pub line : bytes ≡ text ++ end ∷ []

abbrev pub IsAnswer : Recv → Type 0
IsAnswer failed = Unit
IsAnswer closed = Unit
IsAnswer (received bytes) = IsShort bytes

-- A client takes a name, gives it up at the end of its broadcast, or removes itself.
pub data Turn : Hall → Hall → Type 0 where
  take_name :
      (h : Hall) (fd : ℕ) (answers : List Recv) (prompts : List Prompt) (name : Object) (s : Shared)
      → h.desk fd ≡ choosing
      → All IsAnswer answers
      → ask_and_assign_username true fd answers h.shared ≡ ok (assigned prompts name s)
      → Turn h (record { shared = s; desk = seat fd (named name) h.desk })
  leave :
      (h h' : Hall) (fd : ℕ) (name : Object)
      → h.desk fd ≡ named name
      → leave_section fd name h ≡ ok h'
      → Turn h h'
  remove :
      (h h' : Hall) (fd : ℕ) (name : Object)
      → h.desk fd ≡ named name
      → remove_section true fd h ≡ ok h'
      → Turn h h'

pub data Turns (h : Hall) : Hall → Type 0 where
  none_yet : Turns h h
  then_turn : {g g' : Hall} → Turns h g → Turn g g' → Turns h g'

-- Every client with a name stands in the table under it.
pub record IsListed (home : List ℕ → ℕ) (h : Hall) : Type 0 where
  pub consistent : IsConsistent home h
  pub listed :
      (fd : ℕ) (name : Object)
      → h.desk fd ≡ named name
      → view consistent.table (home (c_str name)) (c_str name) ≡ some fd

-- What a dialogue that ends with a name has done.
pub record HasTaken (home : List ℕ → ℕ) (t : Table ℕ) (fd : ℕ) (s s' : Shared) (name : Object)
    : Type 0 where
  pub is_name : IsName name
  pub free : view t (home (c_str name)) (c_str name) ≡ none
  pub result : Bool × Table ℕ
  pub stored : s' ≡ Assigned.named fd name result.1 s
  pub writes : Writes t (home (c_str name)) (c_str name) (some fd) true result

module _ {home : List ℕ → ℕ} {h : Hall} (c : IsConsistent home h) (fd : ℕ) where
  pub name_loop-HasTaken :
      (sent prompts : List Prompt) (answers : List Recv) (name : Object) (s : Shared)
      → All IsAnswer answers
      → name_loop true fd sent answers h.shared ≡ ok (assigned prompts name s)
      → HasTaken home c.table fd h.shared s name
  unfolding name_loop
  name_loop-HasTaken sent prompts [] name s a e = cc
  name_loop-HasTaken sent prompts (failed ∷ answers) name s a e = cc
  name_loop-HasTaken sent prompts (closed ∷ answers) name s a e = cc
  name_loop-HasTaken sent prompts (received bytes ∷ answers) name s a e =
      let l = a.0 in
      let is_name : IsName (padded l.text) = record {
        text = l.text;
        plain = l.plain;
        short = l.short;
        filled = refl;
      } in
      let m = name-IsTwenty is_name in
      let same = (twenty-c_str m).0 in
      let at_home : hash_table_calc_index_with_hash c.table (padded l.text) ≡ ok (home l.text) =
        rw same at (twenty-home m c.table c.homes) in
      let e' =
        subst
          (λ b.
            name_loop true fd sent (received b ∷ answers) h.shared ≡ ok (assigned prompts name s))
          l.line e in
      elim (Option-cases (view c.table (home l.text) l.text)) [
        | inl free ↦
            let (r, run, w) =
              name_loop-free c.valid h.shared c.here fd l.text l.plain at_home l.end sent answers
                l.short free in
            let base : HasTaken home c.table fd h.shared
                (Assigned.named fd (padded l.text) r.1 h.shared) (padded l.text) =
              record {
                is_name = is_name;
                free = rw same free;
                result = r;
                stored = refl;
                writes = rw same w;
              } in
            let names : padded l.text ≡ name = cc in
            let states : Assigned.named fd (padded l.text) r.1 h.shared ≡ s = cc in
            rw (← states, ← names) base
        | inr (other, taken) ↦
            let again =
              name_loop-taken c.valid h.shared c.here fd l.text l.plain at_home l.end sent answers
                (omega (arith, l.short)) taken in
            name_loop-HasTaken (sent ++ username_present ∷ []) prompts answers name s a.1
              (sym again ∙ e')
      ]
