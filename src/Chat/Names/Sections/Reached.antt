-- ===== src/Chat/Names/Sections/Reached.antt =====
-- Whom a broadcast reaches after clients have taken their names one after the other.
use mathlib.Core.List.{flatten}
use cmy_message.Prelude.{
  ℕ, ◌+◌, ◌-◌, ◌<◌, ◌≤◌, List, [], true, some, ok, ◌≡◌, refl, sym, ap, ◌∙◌, arith, length, set,
  get_or, All, All-imp, Among, leb, All-Among, All-of_Among, if◌then◌else◌, ◌==◌, Bool-cases, inl,
  inr, pos,
}
use cmy_message.CString.{Object, c_str}
use cmy_message.CString.Laws.{text_equal_iff}
use cmy_message.HashTable.{Entry, Table, hash_table_calc_index_with_hash}
use cmy_message.HashTable.Chain.{find}
use cmy_message.HashTable.Valid.{view, chain-count-le}
use cmy_message.Chat.{buffer_size, max_username_length, Sent}
use cmy_message.Chat.Broadcast.{broadcast_message_to_online_clients}
use cmy_message.Chat.Broadcast.Everyone.{AllHomed, message_to_each, broadcast-everyone}
use cmy_message.Chat.Names.Assigned.{c_str-append}
use cmy_message.Chat.Names.Sections.{named, Hall}
use cmy_message.Chat.Names.Sections.Stored.{IsTwenty, twenty-c_str, twenty-home}
use cmy_message.Chat.Names.Sections.Ordered.{Turns, IsListed}
use cmy_message.Chat.Names.Sections.Unique.{Turns-IsListed}
use cmy_message.Chat.Names.Sections.Placed.{IsCopy, IsPlaced, Turns-IsPlaced}
use cmy_message.Chat.Names.Sections.Counted.{
  Among-find, times, find-times, times-count, times-eq-zero, times-flatten, times-nowhere,
  AllHomed-get_or, messages-All,
}
use cmy_message.Chat.Names.Sections.Settled.{
  IsSettled, has_name, Desk-cases, Holds-HasName, Turns-IsSettled,
}

-- Between two turns: every client with a name is in the table under it, every entry is a copy of a
-- name in the chain of that name, and no thread is inside the dialogue.
pub record IsFull (home : List ℕ → ℕ) (h : Hall) : Type 0 where
  pub listed : IsListed home h
  pub placed : IsPlaced home h
  pub settled : (fd : ℕ) → IsSettled (h.desk fd)

module _ {home : List ℕ → ℕ} where
  pub Turns-IsFull : {h h' : Hall} → IsFull home h → Turns h h' → IsFull home h'
  Turns-IsFull f r = record {
    listed = Turns-IsListed f.listed r;
    placed = Turns-IsPlaced f.listed f.placed r;
    settled = Turns-IsSettled f.listed f.settled r;
  }

module _ {home : List ℕ → ℕ} {h : Hall} (f : IsFull home h) where
  abbrev table : Table ℕ
  table = f.listed.consistent.table

  -- The client of an entry has the name of the entry, in whose chain the entry stands.
  entry-HasName :
      (j : ℕ) (e : Entry ℕ)
      → Among e (get_or table.elements j [])
      → (copy : IsCopy home j e) × (c_str e.p_key ≡ copy.text)
        × (name : Object) × (h.desk e.p_object ≡ named name)
        × (c_str name ≡ copy.text)
  unfolding view
  entry-HasName j e m =
      let c = f.listed.consistent in
      let chain = get_or table.elements j [] in
      let copy = All-of_Among (IsCopy home j) chain e (f.placed table c.here j) m in
      let text = copy.text in
      let same : c_str e.p_key ≡ text = rw copy.key (c_str-append text [] copy.plain) in
      let found : view table (home text) text ≡ some e.p_object =
        rw copy.place (Among-find e chain text m same (chain-count-le c.valid j text)) in
      let (name, its, held) =
        Holds-HasName (h.desk e.p_object) text (f.settled e.p_object)
          (c.owned text e.p_object found) in
      (copy, same, name, its, held)

  module _ (message : List ℕ) (fd : ℕ) where
    module _ (name : Object) (its : h.desk fd ≡ named name) (j : ℕ) where
      -- An entry for the client has its name as the key, and stands in the chain of the name.
      own_entry :
          (e : Entry ℕ)
          → Among e (get_or table.elements j [])
          → e.p_object ≡ fd
          → (c_str e.p_key ≡ c_str name) × (home (c_str name) ≡ j)
      own_entry e m own =
          let (copy, key, n, held, same) = entry-HasName j e m in
          let both : named n ≡ named name = sym held ∙ ap h.desk own ∙ its in
          let one : n ≡ name = cc in
          let text : c_str name ≡ copy.text = ap c_str (sym one) ∙ same in
          (key ∙ sym text, ap home text ∙ copy.place)

      chain-times :
          times fd (message_to_each message (get_or table.elements j []))
          ≡ (if home (c_str name) == j then 1 else 0)
      unfolding view
      chain-times =
          let q = c_str name in
          let chain = get_or table.elements j [] in
          elim (Bool-cases (home q == j)) [
            | inl here ↦
                let at_j : home q ≡ j = ground arith in
                let found : find q chain ≡ some fd = rw at_j at (f.listed.listed fd name its) in
                let most = times-count message fd q chain (
                  All-imp chain
                    (λ e m own. (text_equal_iff (c_str e.p_key) q).1 (own_entry e m own).0)
                    (All-Among chain)) in
                let once = chain-count-le f.listed.consistent.valid j q in
                rw here (omega (arith, find-times message fd q chain found, most, once))
            | inr elsewhere ↦ rw elsewhere (
                times-eq-zero message fd chain (
                  All-imp chain
                    (λ e m own.
                      let at_j = (own_entry e m own).1 in absurd (ground (arith, at_j, elsewhere)))
                    (All-Among chain)))
          ]

    full-times :
        times fd (message_to_each message (flatten table.elements))
        ≡ (if has_name (h.desk fd) then 1 else 0)
    full-times = elim (Desk-cases (h.desk fd)) [
      | inl (name, its) ↦
          let at_first : leb 0 (home (c_str name)) ≡ true = ground arith in
          times-flatten message fd (home (c_str name)) 0 table.elements
            (λ j. let here : 0 + j ≡ j = omega arith in rw here (chain-times name its j))
          ∙ rw (at_first, its) refl
      | inr unnamed ↦ rw unnamed (
          times-nowhere message fd table.elements (λ j.
            let chain = get_or table.elements j [] in
            times-eq-zero message fd chain (
              All-imp chain
                (λ e m own.
                  let (copy, key, name, held, same) = entry-HasName j e m in
                  let bad : has_name (h.desk e.p_object) ≡ true = rw held refl in
                  let wrong = rw (own, unnamed) at bad in absurd cc)
                (All-Among chain))))
    ]

  module _
      (long : (fd : ℕ) (name : Object) → h.desk fd ≡ named name → length (c_str name) ≡ 19) where
    -- A copy of a name of nineteen characters is looked up in its own chain.
    entry-IsHomed :
        (j : ℕ) (e : Entry ℕ)
        → Among e (get_or table.elements j [])
        → hash_table_calc_index_with_hash table e.p_key ≡ ok j
    entry-IsHomed j e m =
        let (copy, _, name, its, same) = entry-HasName j e m in
        let width : length copy.text ≡ 19 =
          sym (ap (λ (s : List ℕ). length s) same) ∙ long e.p_object name its in
        let one : max_username_length - length copy.text ≡ 1 = omega (arith, width) in
        let twenty_bytes : IsTwenty copy.text e.p_key = record {
          plain = copy.plain;
          short = copy.short;
          rest = [];
          filled = copy.key ∙ rw one refl;
        } in
        let at_home = twenty-home twenty_bytes table f.listed.consistent.homes in
        at_home ∙ rw ((twenty-c_str twenty_bytes).0, copy.place)

    full-AllHomed : AllHomed table 0 table.elements
    full-AllHomed = AllHomed-get_or table 0 table.elements (λ j.
        let here : 0 + j ≡ j = omega arith in
        rw here (
          All-imp (get_or table.elements j []) (λ e m. entry-IsHomed j e m)
            (All-Among (get_or table.elements j []))))

-- If every answer of a client is a text of fewer than twenty characters without a zero byte,
-- followed by one byte, or none comes, the clients have taken their names one after the other,
-- from a state between two turns in which every client with a name stands in the table under it
-- and every entry is a copy of a name in the chain of this name, and every name that a client has
-- at last is of nineteen characters, then a broadcast of a message of one to `buffer_size` bytes
-- ends normally, and sends the common message, and no other, once to each client that has a name
-- and never to one that has none.
pub Turns-reach :
    {home : List ℕ → ℕ} {h h' : Hall} (buffer common : Object) (tot fd : ℕ)
    → IsFull home h
    → Turns h h'
    → ((f : ℕ) (name : Object) → h'.desk f ≡ named name → length (c_str name) ≡ 19)
    → 0 < tot
    → tot ≤ buffer_size
    → (sent : Sent) × (broadcast_message_to_online_clients (some buffer) tot common h'.shared
        ≡ ok (pos 0, some (set buffer (tot - 1) 0), sent))
      × (times fd sent ≡ (if has_name (h'.desk fd) then 1 else 0))
      × All (λ p. p.1 ≡ c_str common) sent
Turns-reach {h'} buffer common tot fd full r long lo hi =
    let f = Turns-IsFull full r in
    let c = f.listed.consistent in
    let message = c_str common in
    (
      message_to_each message (flatten c.table.elements),
      broadcast-everyone c.valid message buffer common tot h'.shared c.here (full-AllHomed f long)
          refl lo hi,
      full-times f message fd,
      messages-All message (flatten c.table.elements),
    )
