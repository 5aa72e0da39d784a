-- ===== src/HashTable.antt =====
-- services/2_Broadcast-chat/src/utils/hash_table.c: a chained table from C strings to objects.
-- A chain is the list of its entries. A table is passed as the object that the pointer leads to,
-- and `none` is the NULL pointer. What the table hands back for release is listed in order.
pub mod Chain
pub mod Valid
pub mod Update
pub mod Release
pub mod Murmur
use cmy_message.Prelude.{
  ℕ, zero, suc, ◌+◌, ◌%◌, List, [], ◌∷◌, ◌++◌, Bool, true, false, Option, none, some, Run, ok,
  fault, null_dereference, out_of_bounds, division_by_zero, invalid_free, ◌>>=◌, ◌==◌,
  if◌then◌else◌, set, replicate,
}
use cmy_message.CString.{Object, strcmp_equal, strdup}

-- A stored entry. Its key is the copy that `strdup` made, its object is not NULL.
pub record Entry {ℓ} (V : Type ℓ) : Type ℓ where
  pub p_key : Object
  pub p_object : V

abbrev pub Chain {ℓ} : Type ℓ → Type ℓ
Chain V = List (Entry V)

-- The clean-up function of the table: the `free` of the C library, or the one that was given.
pub data Cleanup : Type 0 where
  libc_free given : Cleanup

-- `elements` is the array of chains; the NULL array that a failed `calloc` leaves has no cell.
pub record Table {ℓ} (V : Type ℓ) : Type ℓ where
  pub size : ℕ
  pub elements : List (Chain V)
  pub p_hash_func : Object → Run ℕ
  pub p_cleanup_func : Cleanup

-- What a run gives back to the allocator or hands to the clean-up function.
pub data Released {ℓ} (V : Type ℓ) : Type ℓ where
  key : Object → Released V
  object : V → Released V
  entry : Object → Released V

-- A read of `elements[index]`.
unfoldable pub at {ℓ} : {A : Type ℓ} → List A → ℕ → Run A
at [] i = fault out_of_bounds
at (x ∷ xs) zero = ok x
at (x ∷ xs) (suc i) = at xs i

-- `h % size` of unsigned numbers.
unfoldable pub remainder : ℕ → ℕ → Run ℕ
remainder h zero = fault division_by_zero
remainder h (suc n) = ok (h % suc n)

module _ {ℓ} {V : Type ℓ} where
  -- The two arguments say whether `malloc` and `calloc` have memory left.
  unfoldable pub hash_table_create :
      Bool → Bool → ℕ → (Object → Run ℕ) → Option Cleanup → Option (Table V)
  hash_table_create false calloc_ok size hash clean = none
  hash_table_create true calloc_ok size hash clean = some (record {
    size = size;
    elements = if calloc_ok then replicate size [] else [];
    p_hash_func = hash;
    p_cleanup_func = elim clean [ none ↦ libc_free | some c ↦ c ];
  })

  unfoldable pub hash_table_calc_index_with_hash : Table V → Object → Run ℕ
  unfolding remainder
  hash_table_calc_index_with_hash t k = do h ← t.p_hash_func k; remainder h t.size

  -- The loop of the look-up: the entry at which the walk stops.
  unfoldable pub find_entry : Chain V → Object → Run (Option (Entry V))
  find_entry [] k = ok none
  find_entry (e ∷ c) k =
      let rest = find_entry c k in
      do same ← strcmp_equal e.p_key k; if same then ok (some e) else rest

  unfoldable pub object_of : Option (Entry V) → Option V
  object_of none = none
  object_of (some e) = some e.p_object

  unfoldable pub lookup_in : Table V → Object → Run (Option V)
  lookup_in t k = do
    index ← hash_table_calc_index_with_hash t k
    c ← at t.elements index
    found ← find_entry c k
    ok (object_of found)

  unfoldable pub hash_table_lookup : Option (Table V) → Option Object → Run (Option V)
  unfolding lookup_in
  hash_table_lookup none k = ok none
  hash_table_lookup (some t) none = ok none
  hash_table_lookup (some t) (some k) = lookup_in t k

  -- `memory` says whether `malloc` gives the new entry; without it the code writes through NULL.
  unfoldable pub push_entry : Bool → Table V → ℕ → Object → V → Run (Bool × Table V)
  push_entry false t index k v = fault null_dereference
  push_entry true t index k v = do
    copy ← strdup k
    c ← at t.elements index
    let e : Entry V = record { p_key = copy; p_object = v }
    ok (true, record t { elements = set t.elements index (e ∷ c) })

  unfoldable pub insert_in : Bool → Table V → Object → V → Run (Bool × Table V)
  unfolding push_entry
  insert_in memory t k v = do
    index ← hash_table_calc_index_with_hash t k
    present ← lookup_in t k
    elim present [ some _ ↦ ok (false, t) | none ↦ push_entry memory t index k v ]

  unfoldable pub hash_table_insert :
      Bool → Table V → Option Object → Option V → Run (Bool × Table V)
  unfolding insert_in
  hash_table_insert memory t none v = ok (false, t)
  hash_table_insert memory t (some k) none = ok (false, t)
  hash_table_insert memory t (some k) (some v) = insert_in memory t k v

  -- The walk with `p_prev`: `walked` are the entries up to it, last first.
  unfoldable pub relink : Chain V → Chain V → Chain V
  relink [] next = next
  relink (e ∷ walked) next = relink walked (e ∷ next)

  unfoldable pub unlink : Chain V → Chain V → Object → Run (Option (Chain V))
  unfolding relink
  unlink walked [] k = ok none
  unlink walked (e ∷ c) k =
      let rest = unlink (e ∷ walked) c k in
      do same ← strcmp_equal e.p_key k; if same then ok (some (relink walked c)) else rest

  -- The entry is taken out of its chain and is not given back to the allocator.
  unfoldable pub store_chain : Table V → ℕ → Option (Chain V) → Run (Bool × Table V)
  store_chain t index none = ok (false, t)
  store_chain t index (some c) = ok (true, record t { elements = set t.elements index c })

  unfoldable pub delete_in : Table V → Object → Run (Bool × Table V)
  unfolding store_chain
  delete_in t k = do
    index ← hash_table_calc_index_with_hash t k
    c ← at t.elements index
    rest ← unlink [] c k
    store_chain t index rest

  unfoldable pub hash_table_delete_element :
      Option (Table V) → Option Object → Run (Bool × Option (Table V))
  unfolding delete_in
  hash_table_delete_element none k = ok (false, none)
  hash_table_delete_element (some t) none = ok (false, some t)
  hash_table_delete_element (some t) (some k) = do (done, t') ← delete_in t k; ok (done, some t')

  -- The clean-up function is given the address of the field `p_object`: the default `free` is
  -- handed a pointer into the entry, which is not one that `malloc` returned.
  -- A function that was given is called with that address; what it does with it is its own affair, and
  -- only the call is written down.
  unfoldable pub clean_object : Cleanup → V → Run (List (Released V))
  clean_object libc_free v = fault invalid_free
  clean_object given v = ok (object v ∷ [])

  unfoldable pub hash_table_free_element : Table V → Entry V → Run (List (Released V))
  unfolding clean_object
  hash_table_free_element t e = do
    cleaned ← clean_object t.p_cleanup_func e.p_object
    ok (key e.p_key ∷ cleaned ++ entry e.p_key ∷ [])

  unfoldable pub clean_chain : Table V → Chain V → Run (List (Released V))
  unfolding hash_table_free_element
  clean_chain t [] = ok []
  clean_chain t (e ∷ c) =
      let rest = clean_chain t c in
      do first ← hash_table_free_element t e; others ← rest; ok (first ++ others)

  unfoldable pub clean_chains : Table V → List (Chain V) → Run (List (Released V))
  unfolding clean_chain
  clean_chains t [] = ok []
  clean_chains t (c ∷ cs) =
      let rest = clean_chains t cs in
      do first ← clean_chain t c; others ← rest; ok (first ++ others)

  -- Every chain is emptied from its head; the array keeps its cells.
  unfoldable pub empty_chains : List (Chain V) → List (Chain V)
  empty_chains [] = []
  empty_chains (c ∷ cs) = [] ∷ empty_chains cs

  unfoldable pub hash_table_clean_fully : Table V → Run (List (Released V) × Table V)
  unfolding clean_chains empty_chains
  hash_table_clean_fully t = do
    released ← clean_chains t t.elements
    ok (released, record t { elements = empty_chains t.elements })

  -- The pointer that the caller holds is NULL afterwards.
  unfoldable pub hash_table_destroy : Option (Table V) → Run (List (Released V) × Option (Table V))
  unfolding hash_table_clean_fully
  hash_table_destroy none = ok ([], none)
  hash_table_destroy (some t) = do (released, _) ← hash_table_clean_fully t; ok (released, none)
