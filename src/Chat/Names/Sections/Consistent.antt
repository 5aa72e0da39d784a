-- ===== src/Chat/Names/Sections/Consistent.antt =====
-- While clients take and give up their names in any interleaving: to whom the names in the table
-- belong.
use cmy_message.Prelude.{
  ℕ, List, Bool, Option, none, some, ◌≡◌, ◌≢◌, sym, ◌∙◌, inl, inr, arith, if◌then◌else◌, ◌==◌,
  Bool-cases,
}
use cmy_message.CString.{Object, c_str, text_equal}
use cmy_message.CString.Laws.{text_equal_iff}
use cmy_message.HashTable.{Table}
use cmy_message.HashTable.Chain.{is_some}
use cmy_message.HashTable.Valid.{IsValid, view}
use cmy_message.HashTable.Update.{Writes}
use cmy_message.Chat.Names.Sections.Stored.{IsName, IsTwenty, HasHomes, Writes-view}
use cmy_message.Chat.Names.Sections.{Desk, choosing, gone, found_free, inserted, named, Hall, seat}

-- The name in the hands of a client, and its place in the array once it was stored there.
abbrev pub IsFit : Desk → Object → Type 0
IsFit choosing a = Unit
IsFit gone a = Unit
IsFit (found_free buffer) a = IsName buffer
IsFit (inserted name) a = IsName name
IsFit (named name) a = IsName name × IsTwenty (c_str name) a

-- The client was told that it has the name.
abbrev pub Holds : Desk → List ℕ → Type 0
Holds choosing q = ⊥
Holds gone q = ⊥
Holds (found_free buffer) q = ⊥
Holds (inserted name) q = c_str name ≡ q
Holds (named name) q = c_str name ≡ q

-- The table is valid, hashes names, and has under a name only a client that holds it.
pub record IsConsistent (home : List ℕ → ℕ) (h : Hall) : Type 0 where
  pub table : Table ℕ
  pub here : h.shared.usernames_ht ≡ some table
  pub valid : IsValid table
  pub homes : HasHomes home table
  pub owned : (q : List ℕ) (fd : ℕ) → view table (home q) q ≡ some fd → Holds (h.desk fd) q
  pub fit : (fd : ℕ) → IsFit (h.desk fd) (h.shared.usernames_by_fd_arr fd)

pub seat-Holds :
    (desks : ℕ → Desk) (fd : ℕ) (d : Desk) (f : ℕ) (q : List ℕ)
    → (f ≢ fd → Holds (desks f) q)
    → (f ≡ fd → Holds d q)
    → Holds (seat fd d desks f) q
seat-Holds desks fd d f q others own = elim (Bool-cases (f == fd)) [
  | inl same ↦ rw same (own (ground arith))
  | inr differ ↦ rw differ (others (ground arith))
]

pub seat-IsFit :
    (desks : ℕ → Desk) (names names' : ℕ → Object) (fd : ℕ) (d : Desk)
    → ((f : ℕ) → IsFit (desks f) (names f))
    → ((f : ℕ) → f ≢ fd → names' f ≡ names f)
    → IsFit d (names' fd)
    → (f : ℕ) → IsFit (seat fd d desks f) (names' f)
seat-IsFit desks names names' fd d others same own f = elim (Bool-cases (f == fd)) [
  | inl e ↦ let here : f ≡ fd = ground arith in rw (e, here) own
  | inr e ↦ rw (e, same f (ground arith)) (others f)
]

module _ {home : List ℕ → ℕ} {h : Hall} (c : IsConsistent home h) (fd : ℕ) (name : Object) where
  abbrev pub under : Option ℕ
  under = view c.table (home (c_str name)) (c_str name)

  -- Under a name that was inserted stands the client that was there, or the new one.
  pub insert-owned :
      {done : Bool} {r : Bool × Table ℕ}
      → h.desk fd ≡ found_free name
      → Writes c.table
          (home (c_str name))
          (c_str name)
          (if is_some under then under else some fd)
          done
          r
      → (q : List ℕ) (f : ℕ) → view r.1 (home q) q ≡ some f
      → Holds (seat fd (inserted name) h.desk f) q
  insert-owned turn w q f e =
      let now = sym (Writes-view home w q) ∙ e in
      let iff = text_equal_iff (c_str name) q in
      seat-Holds h.desk fd (inserted name) f q (λ ne. c.owned q f (ground (arith, now, iff)))
        (λ s. elim (Bool-cases (text_equal (c_str name) q)) [
          | inl same ↦ iff.0 same
          | inr differ ↦
              let old : view c.table (home q) q ≡ some f = ground (arith, now) in
              absurd (rw (s, turn) at (c.owned q f old))
        ])

  -- Once the only name that the client may hold is deleted, the client is not in the table.
  pub deleted-owned :
      {done : Bool} {r : Bool × Table ℕ} (d : Desk)
      → ((q : List ℕ) → Holds (h.desk fd) q → c_str name ≡ q)
      → Writes c.table (home (c_str name)) (c_str name) none done r
      → (q : List ℕ) (f : ℕ) → view r.1 (home q) q ≡ some f
      → Holds (seat fd d h.desk f) q
  deleted-owned d only w q f e =
      let now = sym (Writes-view home w q) ∙ e in
      let iff = text_equal_iff (c_str name) q in
      let old : view c.table (home q) q ≡ some f = ground (arith, now) in
      seat-Holds h.desk fd d f q (λ ne. c.owned q f old)
        (λ s. let same = only q (rw s at (c.owned q f old)) in ground (arith, now, iff, same))
