-- ===== src/Chat/Names/Sections/Race.antt =====
-- Two clients that look up the same name before either has inserted it.
use cmy_message.Prelude.{
  ℕ, ◌<◌, false, Option, List, true, none, some, ◌≡◌, ◌≢◌, refl, sym, ap, ◌∙◌, arith, ◌==◌, length,
}
use cmy_message.CString.{c_str}
use cmy_message.CString.Laws.{text_equal_refl}
use cmy_message.HashTable.{Table}
use cmy_message.HashTable.Valid.{view}
use cmy_message.Chat.{max_username_length}
use cmy_message.Chat.Names.Assigned.{IsText, padded, padded-c_str}
use cmy_message.Chat.Names.Sections.{
  Desk, choosing, found_free, inserted, named, Hall, seat, array_section,
}
use cmy_message.Chat.Names.Sections.Consistent.{IsConsistent}
use cmy_message.Chat.Names.Sections.Kept.{
  look_up-IsConsistent, insert-IsConsistent, array-IsConsistent,
}
use cmy_message.Chat.Names.Sections.Runs.{Reach, here, next, look_up, insert, store}

-- The map from names to clients.
abbrev reads : {home : List ℕ → ℕ} {h : Hall} → IsConsistent home h → List ℕ → Option ℕ
reads {home} c q = view c.table (home q) q

table-same :
    {home : List ℕ → ℕ} {h g : Hall} (c : IsConsistent home h) (d : IsConsistent home g)
    → g.shared.usernames_ht ≡ h.shared.usernames_ht
    → d.table ≡ c.table
table-same c d e = let f = sym d.here ∙ e ∙ c.here in cc

seat_self : (desks : ℕ → Desk) (fd : ℕ) (d : Desk) → seat fd d desks fd ≡ d
seat_self desks fd d = let e : (fd == fd) ≡ true = ground arith in rw e

seat_other : (desks : ℕ → Desk) (fd f : ℕ) (d : Desk) → f ≢ fd → seat fd d desks f ≡ desks f
seat_other desks fd f d ne = let e : (f == fd) ≡ false = ground arith in rw e

module _ {home : List ℕ → ℕ} {start h : Hall} (run : Reach start h) (c : IsConsistent home h)
    (a b : ℕ) (differ : b ≢ a) (text : List ℕ) (plain : IsText text)
    (short : length text < max_username_length) where
  -- The state that is reached, in which both clients are at the given desk.
  abbrev pub BothAt : Desk → Option ℕ → Type 0
  BothAt d found =
      (g : Hall) × (e : IsConsistent home g) × Reach start g
      × (g.desk a ≡ d)
      × (g.desk b ≡ d)
      × (reads e text ≡ found)

  both_free :
      (x y : ℕ)
      → h.desk a ≡ choosing
      → h.desk b ≡ choosing
      → reads c text ≡ none
      → BothAt (found_free (padded text)) none
  both_free x y at_a at_b free =
      let d : Desk = found_free (padded text) in
      let (h₁, run₁, c₁, is₁) = look_up-IsConsistent c a text x at_a plain short in
      let seated₁ : h₁.desk ≡ seat a d h.desk = ap (λ (g : Hall). g.desk) is₁ ∙ rw free in
      let same₁ = table-same c c₁ (ap (λ (g : Hall). g.shared.usernames_ht) is₁) in
      let free₁ : reads c₁ text ≡ none = rw same₁ free in
      let at_b₁ : h₁.desk b ≡ choosing = rw (seated₁, seat_other h.desk a b d differ) at_b in
      let (h₂, run₂, c₂, is₂) = look_up-IsConsistent c₁ b text y at_b₁ plain short in
      let seated₂ : h₂.desk ≡ seat b d h₁.desk = ap (λ (g : Hall). g.desk) is₂ ∙ rw free₁ in
      let same₂ = table-same c₁ c₂ (ap (λ (g : Hall). g.shared.usernames_ht) is₂) in
      (
        h₂,
        c₂,
        next (next run (look_up h h₁ a text x at_a plain short run₁))
            (look_up h₁ h₂ b text y at_b₁ plain short run₂),
        rw (seated₂, seat_other h₁.desk b a d (λ e. differ (sym e)), seated₁, seat_self h.desk a d),
        rw (seated₂, seat_self h₁.desk b d),
        rw same₂ free₁,
      )

  both_inserted :
      h.desk a ≡ found_free (padded text)
      → h.desk b ≡ found_free (padded text)
      → reads c text ≡ none
      → BothAt (inserted (padded text)) (some a)
  both_inserted at_a at_b free =
      let d : Desk = inserted (padded text) in
      let same = (padded-c_str text plain (omega arith)).0 in
      let (h₁, c₁, run₁, seated₁, reads₁) = insert-IsConsistent c a (padded text) at_a in
      let taken₁ : reads c₁ text ≡ some a = reads₁ text ∙ rw (same, free, text_equal_refl text) in
      let at_b₁ : h₁.desk b ≡ found_free (padded text) =
        rw (seated₁, seat_other h.desk a b d differ) at_b in
      let (h₂, c₂, run₂, seated₂, reads₂) = insert-IsConsistent c₁ b (padded text) at_b₁ in
      (
        h₂,
        c₂,
        next (next run (insert h h₁ a (padded text) at_a run₁))
            (insert h₁ h₂ b (padded text) at_b₁ run₂),
        rw (seated₂, seat_other h₁.desk b a d (λ e. differ (sym e)), seated₁, seat_self h.desk a d),
        rw (seated₂, seat_self h₁.desk b d),
        reads₂ text ∙ rw (same, taken₁, text_equal_refl text),
      )

  both_named :
      h.desk a ≡ inserted (padded text)
      → h.desk b ≡ inserted (padded text)
      → reads c text ≡ some a
      → BothAt (named (padded text)) (some a)
  unfolding array_section
  both_named at_a at_b taken =
      let d : Desk = named (padded text) in
      let h₁ = array_section a (padded text) h in
      let c₁ = array-IsConsistent c a (padded text) at_a in
      let at_b₁ : h₁.desk b ≡ inserted (padded text) = rw (seat_other h.desk a b d differ) at_b in
      let h₂ = array_section b (padded text) h₁ in
      let c₂ = array-IsConsistent c₁ b (padded text) at_b₁ in
      (
        h₂,
        c₂,
        next (next run (store h a (padded text) at_a)) (store h₁ b (padded text) at_b₁),
        seat_other h₁.desk b a d (λ e. differ (sym e)) ∙ seat_self h.desk a d,
        seat_self h₁.desk b d,
        rw (table-same c c₂ refl) taken,
      )

-- Whenever two clients choose, a name of fewer than twenty characters is free, the table has
-- under each name only a client that holds it, and the names in the hands of the clients have
-- fewer than twenty characters, both can be told that the name is theirs: then it stands in the
-- table for the first, and the second stands in the table under no name.
pub two_named :
    {home : List ℕ → ℕ} {h : Hall} {t : Table ℕ} (c : IsConsistent home h) (a b : ℕ) (text : List ℕ)
    (x y : ℕ)
    → h.shared.usernames_ht ≡ some t
    → b ≢ a
    → IsText text
    → length text < max_username_length
    → h.desk a ≡ choosing
    → h.desk b ≡ choosing
    → view t (home text) text ≡ none
    → (h' : Hall) × (t' : Table ℕ) × Reach h h'
      × (h'.shared.usernames_ht ≡ some t')
      × (h'.desk a ≡ named (padded text))
      × (h'.desk b ≡ named (padded text))
      × (view t' (home text) text ≡ some a)
      × ((q : List ℕ) → view t' (home q) q ≢ some b)
two_named {home} c a b text x y held differ plain short at_a at_b free =
    let its : c.table ≡ _ = let e = sym c.here ∙ held in cc in
    let free' : view c.table (home text) text ≡ none = rw its free in
    let (h₁, c₁, r₁, a₁, b₁, f₁) =
      both_free here c a b differ text plain short x y at_a at_b free' in
    let (h₂, c₂, r₂, a₂, b₂, f₂) = both_inserted r₁ c₁ a b differ text plain short a₁ b₁ f₁ in
    let (h₃, c₃, r₃, a₃, b₃, f₃) = both_named r₂ c₂ a b differ text plain short a₂ b₂ f₂ in
    let same = (padded-c_str text plain (omega arith)).0 in
    (
      h₃,
      c₃.table,
      r₃,
      c₃.here,
      a₃,
      b₃,
      f₃,
      λ q e.
          let holds : c_str (padded text) ≡ q = rw b₃ at (c₃.owned q b e) in
          let its : q ≡ text = sym holds ∙ same in
          ground (arith, ap (λ s. view c₃.table (home s) s) its),
    )
