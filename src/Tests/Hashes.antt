-- ===== src/Tests/Hashes.antt =====
-- The hash of the names, and the chains in which they stand.
use cmy_message.Prelude.{ℕ, [], ◌++◌, ok, ◌≡◌, refl, replicate}
use cmy_message.CString.{Object}
use cmy_message.HashTable.{Chain, hash_table_calc_index_with_hash, remainder}
use cmy_message.Words.{rotl32, xorshift}
use cmy_message.HashTable.Murmur.{
  murmur3_32_hash, scramble, mix_block, hash_blocks, tail_case1, tail_case2, tail_case3, hash_tail,
  finish, murmur3_32,
}
use cmy_message.Chat.Names.Assigned.{padded}
use cmy_message.Chat.Names.Assigned.Cut.{cut}
use cmy_message.Ftp.Numbers.{codes}
use cmy_message.Tests.{long_name, table_of}

abbrev pub alice : Object
alice = codes "alice" ++ replicate 15 0

murmur3_32_hash-alice : murmur3_32_hash alice ≡ ok 1499640511
unfolding murmur3_32_hash rotl32 xorshift scramble mix_block hash_blocks tail_case1 tail_case2
    tail_case3 hash_tail finish murmur3_32
murmur3_32_hash-alice = refl

pub long_name-home :
    (c d : Chain ℕ) → hash_table_calc_index_with_hash (table_of c d) long_name ≡ ok 0
unfolding hash_table_calc_index_with_hash remainder murmur3_32_hash rotl32 xorshift scramble
    mix_block hash_blocks tail_case1 tail_case2 tail_case3 hash_tail finish murmur3_32
long_name-home c d = refl

pub padded_bob-home :
    (c d : Chain ℕ) → hash_table_calc_index_with_hash (table_of c d) (padded (codes "bob")) ≡ ok 0
unfolding hash_table_calc_index_with_hash remainder murmur3_32_hash rotl32 xorshift scramble
    mix_block hash_blocks tail_case1 tail_case2 tail_case3 hash_tail finish murmur3_32
padded_bob-home c d = refl

pub padded_long-home :
    (c d : Chain ℕ)
    → hash_table_calc_index_with_hash (table_of c d) (padded (codes "abcdefghijklmnopqrs")) ≡ ok 0
unfolding hash_table_calc_index_with_hash remainder murmur3_32_hash rotl32 xorshift scramble
    mix_block hash_blocks tail_case1 tail_case2 tail_case3 hash_tail finish murmur3_32
padded_long-home c d = refl

pub padded_longer-home :
    (c d : Chain ℕ)
    → hash_table_calc_index_with_hash (table_of c d) (padded (codes "abcdefghijklmnopqrst")) ≡ ok 0
unfolding hash_table_calc_index_with_hash remainder murmur3_32_hash rotl32 xorshift scramble
    mix_block hash_blocks tail_case1 tail_case2 tail_case3 hash_tail finish murmur3_32
padded_longer-home c d = refl

pub cut_long-home :
    (c d : Chain ℕ)
    → hash_table_calc_index_with_hash (table_of c d) (cut (codes "abcdefghijklmnopqrs") []) ≡ ok 0
unfolding hash_table_calc_index_with_hash remainder murmur3_32_hash rotl32 xorshift scramble
    mix_block hash_blocks tail_case1 tail_case2 tail_case3 hash_tail finish murmur3_32
cut_long-home c d = refl
