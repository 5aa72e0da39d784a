-- ===== src/Chat/Names/Sections/Homes.antt =====
-- With the hash function of the program every name of fewer than twenty characters has its chain,
-- whatever memory follows its twenty bytes.
use cmy_message.Prelude.{
  ℕ, zero, suc, ◌-◌, ◌<◌, ◌≤◌, ◌%◌, List, [], ◌∷◌, ◌++◌, Run, ok, fault, ◌≡◌, refl, sym, ap, ◌∙◌,
  arith, length, take, append_assoc, append-nil, length-append, length-replicate,
}
use cmy_message.CString.{Object}
use cmy_message.HashTable.{Table, remainder, hash_table_calc_index_with_hash}
use cmy_message.HashTable.Murmur.{murmur3_32_hash}
use cmy_message.HashTable.Murmur.Reads.{murmur3_32_hash-take}
use cmy_message.Chat.{max_username_length}
use cmy_message.Chat.Names.Assigned.{zeros}
use cmy_message.Chat.Names.Sections.Stored.{twenty, HasHomes}

value_of : Run ℕ → ℕ
value_of (fault e) = 0
value_of (ok h) = h

-- The chain of a name in a table of the given size.
pub home_of : ℕ → List ℕ → ℕ
home_of size text = value_of (murmur3_32_hash (twenty text [])) % size

take-append : (n : ℕ) (xs ys : List ℕ) → length xs ≡ n → take n (xs ++ ys) ≡ xs
take-append zero [] ys e = refl
take-append zero (x ∷ xs) ys e = absurd (omega arith)
take-append (suc n) [] ys e = absurd (omega arith)
take-append (suc n) (x ∷ xs) ys e = rw (take-append n xs ys (omega arith))

remainder_lem : (h n : ℕ) → 0 < n → remainder h n ≡ ok (h % n)
unfolding remainder
remainder_lem h zero pos = absurd (omega arith)
remainder_lem h (suc n) pos = refl

module _ (text : List ℕ) (short : length text < max_username_length) where
  abbrev first : Object
  first = text ++ zeros (max_username_length - length text)

  length-first : length first ≡ 20
  length-first =
      let n = max_username_length - length text in
      let some_zeros : length (zeros n) ≡ n = length-replicate n 0 in
      omega (arith, length-append text (zeros n), some_zeros)

  take-twenty : (rest : Object) → take 20 (twenty text rest) ≡ first
  take-twenty rest =
      ap (take 20) (sym (append_assoc text (zeros (max_username_length - length text)) rest))
      ∙ take-append 20 first rest length-first

  length-twenty : 20 ≤ length (twenty text [])
  length-twenty =
      let n = max_username_length - length text in
      let some_zeros : length (zeros n ++ []) ≡ n =
        rw (append-nil (zeros n)) (length-replicate n 0) in
      omega (arith, length-append text (zeros n ++ []), some_zeros)

pub murmur-HasHomes :
    (t : Table ℕ) → t.p_hash_func ≡ murmur3_32_hash → 0 < t.size → HasHomes (home_of t.size) t
unfolding hash_table_calc_index_with_hash home_of value_of
murmur-HasHomes t hash size text rest plain short =
    let (h, run, run', _) =
      murmur3_32_hash-take (twenty text []) (twenty text rest) (length-twenty text short)
        (take-twenty text short rest ∙ sym (take-twenty text short [])) in
    rw (hash, run', run, remainder_lem h t.size size)
