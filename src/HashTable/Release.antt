-- ===== src/HashTable/Release.antt =====
-- What `hash_table_clean_fully` and `hash_table_destroy_with_ptr_to_ptr` give back.
use mathlib.Core.List.{flatten}
use cmy_message.Prelude.{
  ℕ, zero, suc, ◌≤◌, List, [], ◌∷◌, ◌++◌, none, some, ok, fault, invalid_free, ◌≡◌, ◌≢◌, refl, ◌∙◌,
  arith, length, All, get_or,
}
use cmy_message.HashTable.{
  Chain, libc_free, given, Table, Released, key, object, entry, clean_chain, clean_chains,
  empty_chains, hash_table_clean_fully, hash_table_destroy,
}
use cmy_message.HashTable.Chain.{IsTerminated, find, count}
use cmy_message.HashTable.Valid.{IsValid, view}

module _ {ℓ} {V : Type ℓ} where
  -- Key, object and entry of each entry, once each and in this order.
  unfoldable pub parts : Chain V → List (Released V)
  parts [] = []
  parts (e ∷ c) = key e.p_key ∷ object e.p_object ∷ entry e.p_key ∷ parts c

  parts-append : (c d : Chain V) → parts (c ++ d) ≡ parts c ++ parts d
  unfolding parts
  parts-append [] d = refl
  parts-append (e ∷ c) d = rw (parts-append c d)

  clean_chain-parts :
      (t : Table V) (c : Chain V) → t.p_cleanup_func ≡ given → clean_chain t c ≡ ok (parts c)
  unfolding clean_chain parts
  clean_chain-parts t [] g = refl
  clean_chain-parts t (e ∷ c) g = rw (clean_chain-parts t c g, g)

  clean_chains-parts :
      (t : Table V) (cs : List (Chain V))
      → t.p_cleanup_func ≡ given
      → clean_chains t cs ≡ ok (parts (flatten cs))
  unfolding clean_chains parts flatten
  clean_chains-parts t [] g = refl
  clean_chains-parts t (c ∷ cs) g =
      rw (clean_chains-parts t cs g, clean_chain-parts t c g, parts-append c (flatten cs))

  length-empty_chains : (cs : List (Chain V)) → length (empty_chains cs) ≡ length cs
  unfolding empty_chains
  length-empty_chains [] = refl
  length-empty_chains (c ∷ cs) = omega (arith, length-empty_chains cs)

  get_or-empty_chains : (cs : List (Chain V)) (i : ℕ) → get_or (empty_chains cs) i [] ≡ []
  unfolding empty_chains
  get_or-empty_chains [] i = refl
  get_or-empty_chains (c ∷ cs) zero = refl
  get_or-empty_chains (c ∷ cs) (suc i) = get_or-empty_chains cs i

  All-empty_chains {κ} :
      (P : Chain V → Type κ) (cs : List (Chain V)) → P [] → All P (empty_chains cs)
  unfolding empty_chains
  All-empty_chains P [] h = tt
  All-empty_chains P (c ∷ cs) h = (h, All-empty_chains P cs h)

  -- With the clean-up function that was given, a full clean-up releases key, object and entry of
  -- every entry once, in the order of the chains, and leaves a valid table that has no entry.
  hash_table_clean_fully-parts :
      {t : Table V}
      → IsValid t
      → t.p_cleanup_func ≡ given
      → (t' : Table V) × (hash_table_clean_fully t ≡ ok (parts (flatten t.elements), t'))
        × IsValid t'
        × (t'.size ≡ t.size)
        × ((i : ℕ) (s : List ℕ) → view t' i s ≡ none)
  unfolding hash_table_clean_fully view find count
  hash_table_clean_fully-parts {t} valid g = (
    record t { elements = empty_chains t.elements },
    rw (clean_chains-parts t t.elements g),
    record {
      width = length-empty_chains t.elements ∙ valid.width;
      terminated = All-empty_chains IsTerminated t.elements tt;
      once = λ s. All-empty_chains (λ c. count s c ≤ 1) t.elements (omega arith);
    },
    refl,
    λ i s. rw (get_or-empty_chains t.elements i),
  )

  -- Destroying a table releases every entry in the same way, and the pointer becomes NULL.
  hash_table_destroy-parts :
      (t : Table V)
      → t.p_cleanup_func ≡ given
      → hash_table_destroy (some t) ≡ ok (parts (flatten t.elements), none)
  unfolding hash_table_destroy hash_table_clean_fully
  hash_table_destroy-parts t g = rw (clean_chains-parts t t.elements g)

  pub clean_chains-libc_free :
      (t : Table V) (cs : List (Chain V))
      → t.p_cleanup_func ≡ libc_free
      → flatten cs ≢ []
      → clean_chains t cs ≡ fault invalid_free
  unfolding clean_chains flatten clean_chain
  clean_chains-libc_free t [] g h = absurd (h refl)
  clean_chains-libc_free t ([] ∷ cs) g h = rw (clean_chains-libc_free t cs g h)
  clean_chains-libc_free t ((e ∷ c) ∷ cs) g h = rw g

  -- With the default clean-up function a table that has an entry cannot be destroyed: `free` is
  -- given a pointer that `malloc` did not return.
  pub hash_table_destroy-libc_free :
      (t : Table V)
      → t.p_cleanup_func ≡ libc_free
      → flatten t.elements ≢ []
      → hash_table_destroy (some t) ≡ fault invalid_free
  unfolding hash_table_destroy hash_table_clean_fully
  hash_table_destroy-libc_free t g h = rw (clean_chains-libc_free t t.elements g h)
