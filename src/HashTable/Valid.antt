-- ===== src/HashTable/Valid.antt =====
-- The invariant of the table, the map that it stands for, and what `hash_table_create` and
-- `hash_table_lookup` do to them.
use cmy_message.Prelude.{
  ℕ, zero, suc, ◌≤◌, ◌<◌, List, [], ◌∷◌, true, Option, none, some, Run, ok, ◌≡◌, refl, arith,
  length, get_or, replicate, All, All-get_or, All-replicate, length-replicate, get_or-replicate,
  >>=-eq-ok,
}
use cmy_message.CString.{Object, c_str, is_terminated}
use cmy_message.HashTable.{
  Cleanup, Table, at, hash_table_create, remainder, hash_table_calc_index_with_hash, lookup_in,
  hash_table_lookup,
}
use cmy_message.HashTable.Chain.{IsTerminated, find, count, find_entry-find}

pub at-get_or {ℓ} :
    {A : Type ℓ} (xs : List A) (i : ℕ) (d : A) → i < length xs → at xs i ≡ ok (get_or xs i d)
unfolding at
at-get_or [] i d h = absurd (omega arith)
at-get_or (x ∷ xs) zero d h = refl
at-get_or (x ∷ xs) (suc i) d h = at-get_or xs i d (omega arith)

remainder-lt : (h n : ℕ) {i : ℕ} → remainder h n ≡ ok i → i < n
unfolding remainder
remainder-lt h zero e = cc
remainder-lt h (suc n) e = ground arith

module _ {ℓ} {V : Type ℓ} where
  -- One chain for each index, terminated keys, and no name twice in a chain.
  pub record IsValid (t : Table V) : Type ℓ where
    pub width : length t.elements ≡ t.size
    pub terminated : All IsTerminated t.elements
    pub once : (s : List ℕ) → All (λ c. count s c ≤ 1) t.elements

  -- The object under a name in the chain of an index.
  unfoldable pub view : Table V → ℕ → List ℕ → Option V
  view t i s = find s (get_or t.elements i [])

  pub calc_index-lt :
      (t : Table V) (k : Object) {i : ℕ} → hash_table_calc_index_with_hash t k ≡ ok i → i < t.size
  unfolding hash_table_calc_index_with_hash
  calc_index-lt t k e =
      let (h, _, r) = >>=-eq-ok (t.p_hash_func k) (λ h. remainder h t.size) e in
      remainder-lt h t.size r

  module _ {t : Table V} (valid : IsValid t) where
    pub chain-IsTerminated : (i : ℕ) → IsTerminated (get_or t.elements i [])
    chain-IsTerminated i = All-get_or IsTerminated t.elements i [] valid.terminated tt

    pub chain-count-le : (i : ℕ) (s : List ℕ) → count s (get_or t.elements i []) ≤ 1
    unfolding count
    chain-count-le i s =
        All-get_or (λ c. count s c ≤ 1) t.elements i [] (valid.once s) (omega arith)

    module _ (k : Object) {i : ℕ} (home : hash_table_calc_index_with_hash t k ≡ ok i) where
      pub at-chain : at t.elements i ≡ ok (get_or t.elements i [])
      at-chain = at-get_or t.elements i [] (omega (arith, calc_index-lt t k home, valid.width))

      pub lookup_in-view : is_terminated k ≡ true → lookup_in t k ≡ ok (view t i (c_str k))
      unfolding lookup_in view
      lookup_in-view p =
          rw (home, at-chain) (find_entry-find (get_or t.elements i []) k (chain-IsTerminated i) p)

      -- On a valid table a look-up of a terminated key with a defined index returns what the map
      -- that the table stands for has under the name.
      pub hash_table_lookup-view :
          is_terminated k ≡ true → hash_table_lookup (some t) (some k) ≡ ok (view t i (c_str k))
      unfolding hash_table_lookup
      hash_table_lookup-view p = lookup_in-view p

  -- A new table is valid and empty.
  pub hash_table_create-IsValid :
      (size : ℕ) (hash : Object → Run ℕ) (clean : Option Cleanup)
      → (t : Table V) × (hash_table_create true true size hash clean ≡ some t)
        × IsValid t
        × (t.size ≡ size)
        × ((i : ℕ) (s : List ℕ) → view t i s ≡ none)
  unfolding hash_table_create view find count
  hash_table_create-IsValid size hash clean = (
    record { size = size; elements = replicate size []; p_hash_func = hash; p_cleanup_func = _ },
    refl,
    record {
      width = length-replicate size [];
      terminated = All-replicate IsTerminated size [] tt;
      once = λ s. All-replicate (λ c. count s c ≤ 1) size [] (omega arith);
    },
    refl,
    λ i s. rw get_or-replicate,
  )
