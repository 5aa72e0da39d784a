-- ===== src/Tests/Maps.antt =====
-- Runs of the table.
use cmy_message.Prelude.{
  ℕ, ◌<◌, ◌^◌, [], ◌∷◌, Bool, true, not, none, some, ok, ◌≡◌, refl, arith, if◌then◌else◌,
}
use cmy_message.CString.{c_str, is_terminated}
use cmy_message.HashTable.{Table, hash_table_lookup, hash_table_insert, hash_table_delete_element}
use cmy_message.HashTable.Chain.{is_some}
use cmy_message.HashTable.Valid.{view, hash_table_lookup-view}
use cmy_message.HashTable.Update.{
  Writes, hash_table_insert-Writes, hash_table_delete_element-Writes,
}
use cmy_message.HashTable.Murmur.{murmur3_32_hash}
use cmy_message.HashTable.Murmur.Reads.{murmur3_32_hash-take}
use cmy_message.Tests.{
  long_name, stored, empty_table, long_table, empty_table-IsValid, long_table-IsValid,
}
use cmy_message.Tests.Hashes.{alice, long_name-home}

hash_table_insert-Writes_example :
    let found = view empty_table 0 (c_str long_name) in
    (r : Bool × Table ℕ) × (hash_table_insert true empty_table (some long_name) (some 7) ≡ ok r)
    × Writes empty_table 0
        (c_str long_name)
        (if is_some found then found else some 7)
        (not (is_some found))
        r
unfolding is_terminated
hash_table_insert-Writes_example =
    hash_table_insert-Writes empty_table-IsValid long_name (long_name-home [] []) refl 7

hash_table_delete_element-Writes_example :
    (r : Bool × Table ℕ) × (hash_table_delete_element (some long_table) (some long_name)
      ≡ ok (r.0, some r.1))
    × Writes long_table 0 (c_str long_name) none (is_some (view long_table 0 (c_str long_name))) r
unfolding is_terminated
hash_table_delete_element-Writes_example =
    hash_table_delete_element-Writes long_table-IsValid long_name
      (long_name-home (stored long_name ∷ []) []) refl

hash_table_lookup-view_example :
    hash_table_lookup (some long_table) (some long_name) ≡ ok (view long_table 0 (c_str long_name))
unfolding is_terminated
hash_table_lookup-view_example =
    hash_table_lookup-view long_table-IsValid long_name (long_name-home (stored long_name ∷ []) [])
      refl

murmur3_32_hash-take_example :
    (h : ℕ) × (murmur3_32_hash alice ≡ ok h) × (murmur3_32_hash alice ≡ ok h) × (h < 2 ^ 32)
murmur3_32_hash-take_example = murmur3_32_hash-take alice alice (omega arith) refl
