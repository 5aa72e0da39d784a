-- ===== src/HashTable/Update.antt =====
-- What `hash_table_insert` and `hash_table_delete_element` do to a valid table.
use cmy_message.Prelude.{
  ℕ, ◌≤◌, ◌<◌, List, [], ◌∷◌, ◌++◌, Bool, true, false, ◌&&◌, not, Option, none, some, ok, ◌≡◌, refl,
  ◌∙◌, inl, inr, arith, if◌then◌else◌, ◌==◌, length, get_or, set, length-set, get_or-set,
  set-get_or, All, All-set, All-imp, ◌⊎◌, sym, Among, All-Among, Option-cases,
}
use cmy_message.CString.{Object, c_str, is_terminated, text_equal}
use cmy_message.CString.Laws.{strdup-c_str, c_str-copy, is_terminated-copy, text_equal_iff}
use cmy_message.HashTable.{
  Entry, Chain, Table, hash_table_calc_index_with_hash, push_entry, insert_in, hash_table_insert,
  relink, store_chain, delete_in, hash_table_delete_element,
}
use cmy_message.HashTable.Chain.{
  erase-Among, IsTerminated, find, count, erase, is_some, unlink-erase, count-eq-zero, find-erase,
  count-erase-le, erase-IsTerminated,
}
use cmy_message.HashTable.Valid.{
  IsValid, view, calc_index-lt, chain-IsTerminated, chain-count-le, at-chain, lookup_in-view,
}

-- The run of an update at index `i` and name `s`: it returns `done`, and afterwards the name has
-- the object `v` there, while every other index and name keeps its own. At most the chain at the
-- index is another, and an entry of it was there before or has a copy of the name as its key.
pub record Writes {ℓ} {V : Type ℓ} (t : Table V) (i : ℕ) (s : List ℕ) (v : Option V) (done : Bool)
    (r : Bool × Table V) : Type ℓ where
  pub returned : r.0 ≡ done
  pub valid : IsValid r.1
  pub size : r.1.size ≡ t.size
  pub hash : r.1.p_hash_func ≡ t.p_hash_func
  pub reads :
      (j : ℕ) (q : List ℕ) → view r.1 j q ≡ (if (i == j) && text_equal s q then v else view t j q)
  pub chain : Chain V
  pub elements : r.1.elements ≡ set t.elements i chain
  pub entries : All (λ e. Among e (get_or t.elements i []) ⊎ (e.p_key ≡ s ++ (0 ∷ []))) chain

module _ {ℓ} {V : Type ℓ} {t : Table V} (valid : IsValid t) (k : Object) {i : ℕ}
    (home : hash_table_calc_index_with_hash t k ≡ ok i) (ends : is_terminated k ≡ true) where
  abbrev old_chain : Chain V
  old_chain = get_or t.elements i []

  -- The table with another chain at the index.
  set-Writes :
      (c : Chain V) (v : Option V)
      → IsTerminated c
      → ((q : List ℕ) → count q c ≤ 1)
      → ((q : List ℕ) → find q c ≡ (if text_equal (c_str k) q then v else find q old_chain))
      → All (λ e. Among e old_chain ⊎ (e.p_key ≡ c_str k ++ (0 ∷ []))) c
      → Writes t i (c_str k) v true (true, record t { elements = set t.elements i c })
  unfolding view
  set-Writes c v fine once same from =
      let inside : i < length t.elements = omega (arith, calc_index-lt t k home, valid.width) in
      record {
        returned = refl;
        valid = record {
          width = length-set t.elements i c ∙ valid.width;
          terminated = All-set IsTerminated t.elements i c valid.terminated fine;
          once = λ q. All-set (λ d. count q d ≤ 1) t.elements i c (valid.once q) (once q);
        };
        size = refl;
        hash = refl;
        reads = λ j q. rw (get_or-set t.elements i j c [] inside) (ground (arith, same q));
        chain = c;
        elements = refl;
        entries = from;
      }

  -- A run that changes nothing writes the object that is there.
  same-Writes : (v : Option V) → view t i (c_str k) ≡ v → Writes t i (c_str k) v false (false, t)
  same-Writes v e =
      let inside : i < length t.elements = omega (arith, calc_index-lt t k home, valid.width) in
      record {
        returned = refl;
        valid = valid;
        size = refl;
        hash = refl;
        reads = λ j q. ground (arith, text_equal_iff (c_str k) q);
        chain = old_chain;
        elements = sym (set-get_or t.elements i [] inside);
        entries = All-imp old_chain (λ d. inl) (All-Among old_chain);
      }

  -- On a valid table, for a terminated key whose index is defined, an insertion under a new name adds
  -- the object and returns true, and under a name that is there changes nothing and returns false.
  -- Every other name and index keeps its object, the table stays valid, no other chain changes, and
  -- the chain at the index gets no entry but one with a copy of the name as its key.
  pub hash_table_insert-Writes :
      (v : V)
      → let found = view t i (c_str k) in
        (r : Bool × Table V) × (hash_table_insert true t (some k) (some v) ≡ ok r)
        × Writes t i (c_str k) (if is_some found then found else some v) (not (is_some found)) r
  unfolding hash_table_insert insert_in push_entry view find count
  hash_table_insert-Writes v = elim (Option-cases (find (c_str k) old_chain)) [
    | inl new ↦
        let copy = c_str k ++ (0 ∷ []) in
        let e : Entry V = record { p_key = copy; p_object = v } in
        let c : Chain V = e ∷ old_chain in
        let wrote =
          set-Writes c (some v) (is_terminated-copy k, chain-IsTerminated valid i)
            (λ q. ground (
              arith,
              chain-count-le valid i q,
              c_str-copy k,
              text_equal_iff (c_str k) q,
              count-eq-zero (c_str k) old_chain,
            ))
            (λ q. ground (arith, c_str-copy k))
            (inr refl, All-imp old_chain (λ d. inl) (All-Among old_chain)) in
        (
          (true, record t { elements = set t.elements i c }),
          rw (
            home,
            lookup_in-view valid k home ends,
            view,
            new,
            strdup-c_str k ends,
            at-chain valid k home,
          ),
          rw new wrote,
        )
    | inr (w, old) ↦ (
      (false, t),
      rw (home, lookup_in-view valid k home ends, view, old),
      rw old (same-Writes (some w) old),
    )
  ]

  -- On a valid table, for a terminated key whose index is defined, a deletion removes the object under
  -- the name and returns whether there was one. Every other name and index keeps its object, the table
  -- stays valid, no other chain changes, and the chain at the index gets no entry that was not there,
  -- unless its key is a copy of the name.
  pub hash_table_delete_element-Writes :
      (r : Bool × Table V) × (hash_table_delete_element (some t) (some k) ≡ ok (r.0, some r.1))
      × Writes t i (c_str k) none (is_some (view t i (c_str k))) r
  unfolding hash_table_delete_element delete_in store_chain view relink
  hash_table_delete_element-Writes = elim (Option-cases (find (c_str k) old_chain)) [
    | inl absent ↦ (
      (false, t),
      rw (
        home,
        at-chain valid k home,
        unlink-erase [] old_chain k (chain-IsTerminated valid i) ends,
        absent,
      ),
      rw absent (same-Writes none absent),
    )
    | inr (w, old) ↦
        let c = erase (c_str k) old_chain in
        let wrote =
          set-Writes c none (erase-IsTerminated (c_str k) old_chain (chain-IsTerminated valid i))
            (λ q. omega (arith, count-erase-le (c_str k) q old_chain, chain-count-le valid i q))
            (λ q. find-erase (c_str k) q old_chain (chain-count-le valid i (c_str k)))
            (All-imp c (λ d. inl) (erase-Among (c_str k) old_chain)) in
        (
          (true, record t { elements = set t.elements i c }),
          rw (
            home,
            at-chain valid k home,
            unlink-erase [] old_chain k (chain-IsTerminated valid i) ends,
            old,
          ),
          rw old wrote,
        )
  ]

  -- The two cases of an insertion, for a key whose characters are `name`.
  module _ {name : List ℕ} (same : c_str k ≡ name) where
    pub insert-free :
        (v : V)
        → view t i name ≡ none
        → (r : Bool × Table V) × (hash_table_insert true t (some k) (some v) ≡ ok r)
          × Writes t i name (some v) true r
    insert-free v free = rw (same, free) at (hash_table_insert-Writes v)

    pub insert-taken :
        (v : V) {w : V}
        → view t i name ≡ some w
        → hash_table_insert true t (some k) (some v) ≡ ok (false, t)
    unfolding hash_table_insert insert_in view
    insert-taken v taken = rw (home, lookup_in-view valid k home ends, view, same, taken)
