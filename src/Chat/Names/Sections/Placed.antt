-- ===== src/Chat/Names/Sections/Placed.antt =====
-- While clients take and give up their names, every entry of the table has a copy of a name as its key,
-- and stands in the chain of that name.
use cmy_message.Prelude.{
  ℕ, ◌<◌, List, [], ◌∷◌, ◌++◌, Bool, true, some, Option, ◌≡◌, refl, sym, ap, ◌∙◌, arith, length,
  get_or, get_or-set, All, All-imp, All-of_Among, if◌then◌else◌, ◌==◌, Bool-cases, inl, inr,
}
use cmy_message.CString.{Object, c_str}
use cmy_message.HashTable.{Entry, Table}
use cmy_message.HashTable.Valid.{calc_index-lt}
use cmy_message.HashTable.Update.{Writes}
use cmy_message.Chat.{max_username_length}
use cmy_message.Chat.Names.{ask_and_assign_username, set_username}
use cmy_message.Chat.Names.Assigned.{IsText}
use cmy_message.Chat.Names.Sections.{Hall}
use cmy_message.Chat.Names.Sections.Stored.{IsName, twenty-c_str, name-IsTwenty}
use cmy_message.Chat.Names.Sections.Consistent.{IsConsistent}
use cmy_message.Chat.Names.Sections.Kept.{desk-IsFit, leave-IsConsistent, remove-IsConsistent}
use cmy_message.Chat.Names.Sections.Ordered.{
  Turn, take_name, leave, remove, Turns, none_yet, then_turn, IsListed, name_loop-HasTaken,
}
use cmy_message.Chat.Names.Sections.Unique.{Turns-IsListed}

-- An entry with a copy of a name as its key, in the chain of the name.
pub record IsCopy (home : List ℕ → ℕ) (i : ℕ) (e : Entry ℕ) : Type 0 where
  pub text : List ℕ
  pub plain : IsText text
  pub short : length text < max_username_length
  pub key : e.p_key ≡ text ++ (0 ∷ [])
  pub place : home text ≡ i

abbrev pub ArePlaced : (List ℕ → ℕ) → Table ℕ → Type 0
ArePlaced home t = (j : ℕ) → All (IsCopy home j) (get_or t.elements j [])

abbrev pub IsPlaced : (List ℕ → ℕ) → Hall → Type 0
IsPlaced home h = (t : Table ℕ) → h.shared.usernames_ht ≡ some t → ArePlaced home t

module _ {home : List ℕ → ℕ} {h : Hall} (c : IsConsistent home h) where
  -- A write under a name, in the chain of the name.
  Writes-ArePlaced :
      {name : Object} {v : Option ℕ} {done : Bool} {r : Bool × Table ℕ}
      → IsName name
      → Writes c.table (home (c_str name)) (c_str name) v done r
      → ArePlaced home c.table
      → ArePlaced home r.1
  Writes-ArePlaced {name} {r} n w placed j =
      let s = n.text in
      let same : c_str name ≡ s = (twenty-c_str (name-IsTwenty n)).0 in
      let inside : home (c_str name) < length c.table.elements =
        let lt = calc_index-lt c.table _ (c.homes s [] n.plain n.short) in
        omega (arith, c.valid.width, lt, ap home same) in
      let old = get_or c.table.elements (home (c_str name)) [] in
      let written : get_or r.1.elements j []
          ≡ (if home (c_str name) == j then w.chain else get_or c.table.elements j []) =
        rw w.elements (get_or-set c.table.elements (home (c_str name)) j w.chain [] inside) in
      elim (Bool-cases (home (c_str name) == j)) [
        | inl here ↦
            let at_j : home (c_str name) ≡ j = ground arith in
            rw (written, here)
              (All-imp w.chain
                (λ e from. elim from [
                  | inl kept ↦ All-of_Among (IsCopy home j) old e (rw at_j (placed j)) kept
                  | inr fresh ↦ record {
                    text = s;
                    plain = n.plain;
                    short = n.short;
                    key = fresh ∙ ap (λ (x : List ℕ). x ++ (0 ∷ [])) same;
                    place = ap home (sym same) ∙ at_j;
                  }
                ])
                w.entries)
        | inr elsewhere ↦ rw (written, elsewhere) (placed j)
      ]

module _ {home : List ℕ → ℕ} where
  Turn-IsPlaced : {h h' : Hall} → Turn h h' → IsListed home h → IsPlaced home h → IsPlaced home h'
  unfolding ask_and_assign_username set_username
  Turn-IsPlaced (take_name h fd answers prompts name s turn lines run) l placed t here =
      let c = l.consistent in
      let took = name_loop-HasTaken c fd _ prompts answers name s lines run in
      let stored : s.usernames_ht ≡ some took.result.1 = rw took.stored refl in
      let its : took.result.1 ≡ t = cc in
      rw (← its) (Writes-ArePlaced c took.is_name took.writes (placed c.table c.here))
  Turn-IsPlaced (leave h h' fd name turn run) l placed t here =
      let c = l.consistent in
      let (g, c', run', _, _, _, w) = leave-IsConsistent c fd name turn in
      let e : g ≡ h' = cc in
      let its : c'.table ≡ t = cc in
      rw (← its) (Writes-ArePlaced c (desk-IsFit c fd turn).0 w (placed c.table c.here))
  Turn-IsPlaced (remove h h' fd name turn run) l placed t here =
      let c = l.consistent in
      let (g, c', run', _, _, _, w) = remove-IsConsistent c fd true name turn in
      let e : g ≡ h' = cc in
      let its : c'.table ≡ t = cc in
      rw (← its) (Writes-ArePlaced c (desk-IsFit c fd turn).0 w (placed c.table c.here))

  pub Turns-IsPlaced :
      {h h' : Hall} → IsListed home h → IsPlaced home h → Turns h h' → IsPlaced home h'
  Turns-IsPlaced l placed none_yet = placed
  Turns-IsPlaced l placed (then_turn r st) =
      Turn-IsPlaced st (Turns-IsListed l r) (Turns-IsPlaced l placed r)
