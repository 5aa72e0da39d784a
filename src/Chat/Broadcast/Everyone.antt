-- ===== src/Chat/Broadcast/Everyone.antt =====
-- Whom a broadcast reaches, and when it is undefined.
use mathlib.Core.List.{flatten}
use mathlib.Core.Path.{subst}
use cmy_message.Prelude.{
  ℕ, zero, suc, ◌-◌, ◌<◌, ◌≤◌, List, [], ◌∷◌, ◌++◌, true, false, some, ok, fault, out_of_bounds,
  ◌≡◌, refl, sym, ◌∙◌, arith, ltb, leb, pos, length, set, drop, get_or, append_assoc, All,
  length-append, ◌⊎◌, ◌&&◌,
}
use cmy_message.CString.{Object, c_str, is_terminated, strdup}
use cmy_message.CString.Laws.{text_equal_refl, strdup-c_str}
use cmy_message.HashTable.{
  Entry, Chain, Table, at, hash_table_lookup, lookup_in, hash_table_calc_index_with_hash,
}
use cmy_message.HashTable.Chain.{find, count, IsTerminated}
use cmy_message.HashTable.Valid.{
  IsValid, view, hash_table_lookup-view, chain-IsTerminated, chain-count-le,
}
use cmy_message.HashTable.Murmur.{murmur3_32_hash}
use cmy_message.HashTable.Murmur.Reads.{murmur3_32_hash-short}
use cmy_message.Chat.{buffer_size, Shared, Sent}
use cmy_message.Chat.Broadcast.{
  send_to_entry, send_to_chain, send_to_chains, broadcast_message_to_online_clients,
}

-- The key of every entry hashes to the chain in which the entry stands.
abbrev pub IsHomed : Table ℕ → ℕ → Chain ℕ → Type 0
IsHomed t i c = All (λ e. hash_table_calc_index_with_hash t e.p_key ≡ ok i) c

abbrev pub AllHomed : Table ℕ → ℕ → List (Chain ℕ) → Type 0
AllHomed t i [] = Unit
AllHomed t i (c ∷ cs) = IsHomed t i c × AllHomed t (suc i) cs

abbrev pub message_to_each : List ℕ → Chain ℕ → Sent
message_to_each message [] = []
message_to_each message (e ∷ c) = (e.p_object, message) ∷ message_to_each message c

count-member : (a b : Chain ℕ) (e : Entry ℕ) → 0 < count (c_str e.p_key) (a ++ e ∷ b)
unfolding count
count-member [] b e = ground (arith, text_equal_refl (c_str e.p_key))
count-member (d ∷ a) b e = ground (arith, count-member a b e)

find-member :
    (a b : Chain ℕ) (e : Entry ℕ)
    → count (c_str e.p_key) (a ++ e ∷ b) ≤ 1
    → find (c_str e.p_key) (a ++ e ∷ b) ≡ some e.p_object
unfolding find count
find-member [] b e h = ground (arith, text_equal_refl (c_str e.p_key))
find-member (d ∷ a) b e h = ground (arith, find-member a b e, count-member a b e)

pub message_to_each-append :
    (message : List ℕ) (c d : Chain ℕ)
    → message_to_each message (c ++ d) ≡ message_to_each message c ++ message_to_each message d
message_to_each-append message [] d = refl
message_to_each-append message (e ∷ c) d = rw (message_to_each-append message c d)

-- The element at an index, from what is left of the list there.
module _ {ℓ} {A : Type ℓ} {x : A} {ys : List A} where
  pub at-drop : (i : ℕ) (xs : List A) → drop i xs ≡ x ∷ ys → at xs i ≡ ok x
  unfolding at
  at-drop zero [] h = cc
  at-drop zero (y ∷ xs) h = cc
  at-drop (suc i) [] h = cc
  at-drop (suc i) (y ∷ xs) h = at-drop i xs h

  pub drop-suc : (i : ℕ) (xs : List A) → drop i xs ≡ x ∷ ys → drop (suc i) xs ≡ ys
  drop-suc zero [] h = cc
  drop-suc zero (y ∷ xs) h = cc
  drop-suc (suc i) [] h = cc
  drop-suc (suc i) (y ∷ xs) h = drop-suc i xs h

  get_or-drop : (i : ℕ) (xs : List A) (d : A) → drop i xs ≡ x ∷ ys → get_or xs i d ≡ x
  get_or-drop zero [] d h = cc
  get_or-drop zero (y ∷ xs) d h = cc
  get_or-drop (suc i) [] d h = cc
  get_or-drop (suc i) (y ∷ xs) d h = get_or-drop i xs d h

module _ {t : Table ℕ} (valid : IsValid t) (message : List ℕ) where
  -- A chain at index `i` whose entries before `c` are `a`.
  send_to_chain-each :
      (i : ℕ) (a c : Chain ℕ)
      → get_or t.elements i [] ≡ a ++ c
      → IsTerminated c
      → IsHomed t i c
      → send_to_chain t message c ≡ ok (message_to_each message c)
  unfolding send_to_chain send_to_entry view
  send_to_chain-each i a [] split ends homed = refl
  send_to_chain-each i a (e ∷ c) split ends homed =
      let split' : get_or t.elements i [] ≡ (a ++ e ∷ []) ++ c =
        split ∙ sym (append_assoc a (e ∷ []) c) in
      let once : count (c_str e.p_key) (a ++ e ∷ c) ≤ 1 =
        subst (λ d. count (c_str e.p_key) d ≤ 1) split (chain-count-le valid i (c_str e.p_key)) in
      rw
        (
          hash_table_lookup-view valid e.p_key homed.0 ends.0,
          split,
          find-member a c e once,
          send_to_chain-each i (a ++ e ∷ []) c split' ends.1 homed.1,
        )
        refl

  send_to_chains-each :
      (n i : ℕ) (cs : List (Chain ℕ))
      → drop i t.elements ≡ cs
      → length cs ≡ n
      → AllHomed t i cs
      → send_to_chains t message n i ≡ ok (message_to_each message (flatten cs))
  unfolding send_to_chains flatten
  send_to_chains-each zero i [] left len homed = refl
  send_to_chains-each zero i (c ∷ cs) left len homed = absurd (omega arith)
  send_to_chains-each (suc n) i [] left len homed = absurd (omega arith)
  send_to_chains-each (suc n) i (c ∷ cs) left len homed =
      let here : get_or t.elements i [] ≡ c = get_or-drop i t.elements [] left in
      let first : send_to_chain t message c ≡ ok (message_to_each message c) =
        send_to_chain-each i [] c here
          (subst (λ d. IsTerminated d) here (chain-IsTerminated valid i)) homed.0 in
      let others =
        send_to_chains-each n (suc i) cs (drop-suc i t.elements left) (omega arith) homed.1 in
      rw (at-drop i t.elements left, first, others, message_to_each-append message c (flatten cs))

  -- If the key of every entry hashes to its chain, a broadcast of a message of one to
  -- `buffer_size` bytes ends normally and sends the common message to every client in the table
  -- once, in the order of the chains; it ends the sender's buffer behind the message.
  pub broadcast-everyone :
      (buffer common : Object) (tot : ℕ) (s : Shared)
      → s.usernames_ht ≡ some t
      → AllHomed t 0 t.elements
      → c_str common ≡ message
      → 0 < tot
      → tot ≤ buffer_size
      → broadcast_message_to_online_clients (some buffer) tot common s
        ≡ ok (pos 0, some (set buffer (tot - 1) 0), message_to_each message (flatten t.elements))
  unfolding broadcast_message_to_online_clients
  broadcast-everyone buffer common tot s here homed same lo hi =
      let bounds : (ltb 0 tot && leb tot buffer_size) ≡ true = ground arith in
      rw (bounds, here, same, send_to_chains-each t.size 0 t.elements refl valid.width homed)

-- A round in which no client sent anything, or more than a buffer was received in all, writes
-- outside the buffer, whatever the table is.
pub broadcast-out_of_bounds :
    (buffer common : Object) (tot : ℕ) (s : Shared)
    → (tot ≡ 0) ⊎ (buffer_size < tot)
    → broadcast_message_to_online_clients (some buffer) tot common s ≡ fault out_of_bounds
unfolding broadcast_message_to_online_clients
broadcast-out_of_bounds buffer common tot s h =
    let bounds : (ltb 0 tot && leb tot buffer_size) ≡ false = ground arith in rw bounds

-- With the hash function of the program, the look-up of an entry whose key is a copy of a name of
-- fewer than nineteen characters reads past the end of the copy.
pub send_to_entry-short :
    (t : Table ℕ) (message : List ℕ) (name : Object) (fd : ℕ)
    → t.p_hash_func ≡ murmur3_32_hash
    → is_terminated name ≡ true
    → length (c_str name) < 19
    → (copy : Object) × (strdup name ≡ ok copy)
      × (send_to_entry t message (record { p_key = copy; p_object = fd }) ≡ fault out_of_bounds)
unfolding send_to_entry hash_table_lookup lookup_in hash_table_calc_index_with_hash
send_to_entry-short t message name fd h ends short =
    let copy = c_str name ++ (0 ∷ []) in
    let len : length copy < 20 = omega (arith, length-append (c_str name) (0 ∷ [])) in
    (copy, strdup-c_str name ends, rw (h, murmur3_32_hash-short copy len))
