-- ===== src/Chat/Names/Sections/Settled.antt =====
-- Between two turns no thread is inside the dialogue for a name.
use cmy_message.Prelude.{ℕ, List, Bool, true, false, ◌≡◌, refl, ◌⊎◌, ◌==◌, Bool-cases, inl, inr}
use cmy_message.CString.{Object, c_str}
use cmy_message.Chat.Names.Sections.Kept.{leave-IsConsistent, remove-IsConsistent}
use cmy_message.Chat.Names.Sections.{Desk, choosing, gone, found_free, inserted, named, Hall, seat}
use cmy_message.Chat.Names.Sections.Consistent.{Holds}
use cmy_message.Chat.Names.Sections.Ordered.{
  Turn, take_name, leave, remove, Turns, none_yet, then_turn, IsListed,
}
use cmy_message.Chat.Names.Sections.Unique.{Turns-IsListed}

-- A client between two turns: no thread is inside the dialogue.
abbrev pub IsSettled : Desk → Type 0
IsSettled choosing = Unit
IsSettled gone = Unit
IsSettled (found_free buffer) = ⊥
IsSettled (inserted name) = ⊥
IsSettled (named name) = Unit

abbrev pub has_name : Desk → Bool
has_name choosing = false
has_name gone = false
has_name (found_free buffer) = false
has_name (inserted name) = false
has_name (named name) = true

pub Desk-cases : (d : Desk) → ((name : Object) × (d ≡ named name)) ⊎ (has_name d ≡ false)
Desk-cases choosing = inr refl
Desk-cases gone = inr refl
Desk-cases (found_free buffer) = inr refl
Desk-cases (inserted name) = inr refl
Desk-cases (named name) = inl (name, refl)

pub Holds-HasName :
    (d : Desk) (q : List ℕ)
    → IsSettled d
    → Holds d q
    → (name : Object) × (d ≡ named name) × (c_str name ≡ q)
Holds-HasName choosing q s h = absurd h
Holds-HasName gone q s h = absurd h
Holds-HasName (found_free buffer) q s h = absurd h
Holds-HasName (inserted name) q s h = absurd s
Holds-HasName (named name) q s h = (name, refl, h)

seat-IsSettled :
    (desks : ℕ → Desk) (fd : ℕ) (d : Desk)
    → ((f : ℕ) → IsSettled (desks f))
    → IsSettled d
    → (f : ℕ) → IsSettled (seat fd d desks f)
seat-IsSettled desks fd d others own f = elim (Bool-cases (f == fd)) [
  | inl same ↦ rw same own
  | inr differ ↦ rw differ (others f)
]

module _ {home : List ℕ → ℕ} where
  Turn-IsSettled :
      {h h' : Hall}
      → Turn h h'
      → IsListed home h
      → ((f : ℕ) → IsSettled (h.desk f))
      → (f : ℕ) → IsSettled (h'.desk f)
  Turn-IsSettled (take_name h fd answers prompts name s turn lines run) l settled =
      seat-IsSettled h.desk fd (named name) settled tt
  Turn-IsSettled (leave h h' fd name turn run) l settled =
      let (g, _, run', seated, _, _, _) = leave-IsConsistent l.consistent fd name turn in
      let e : g ≡ h' = cc in rw (← e, seated) (seat-IsSettled h.desk fd gone settled tt)
  Turn-IsSettled (remove h h' fd name turn run) l settled =
      let (g, _, run', seated, _, _, _) = remove-IsConsistent l.consistent fd true name turn in
      let e : g ≡ h' = cc in rw (← e, seated) (seat-IsSettled h.desk fd gone settled tt)

  pub Turns-IsSettled :
      {h h' : Hall}
      → IsListed home h
      → ((f : ℕ) → IsSettled (h.desk f))
      → Turns h h'
      → (f : ℕ) → IsSettled (h'.desk f)
  Turns-IsSettled l settled none_yet = settled
  Turns-IsSettled l settled (then_turn r st) =
      Turn-IsSettled st (Turns-IsListed l r) (Turns-IsSettled l settled r)
