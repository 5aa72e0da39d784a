-- ===== src/HashTable/Murmur.antt =====
-- `murmur3_32_hash` of services/2_Broadcast-chat/src/utils/hash_table.c, over the bytes that the
-- key's object has from the pointer on. It reads `len` bytes of the key, whatever its length is.
pub mod Reads
use cmy_message.Prelude.{
  ℕ, zero, suc, ◌+◌, ◌*◌, ◌/◌, ◌%◌, ◌^◌, bit_xor, List, [], ◌∷◌, Run, ok, fault, out_of_bounds,
  ◌>>=◌, ◌==◌, if◌then◌else◌,
}
use cmy_message.CString.{Object}
use cmy_message.HashTable.{at}
use cmy_message.Words.{u32, rotl32, xorshift}

-- `k *= c1; k = rotl(k, r1); k *= c2`.
unfoldable pub scramble : ℕ → ℕ
scramble k = u32 (rotl32 (u32 (k * 0xcc9e2d51)) 15 * 0x1b873593)

-- One block mixed into the hash.
unfoldable pub mix_block : ℕ → ℕ → ℕ
unfolding scramble
mix_block hash k = u32 (rotl32 (bit_xor hash (scramble k)) 13 * 5 + 0xe6546b64)

-- Four bytes as a `uint32_t`, lowest first.
abbrev pub block : ℕ → ℕ → ℕ → ℕ → ℕ
block a b c d = u32 (a + b * 2 ^ 8 + c * 2 ^ 16 + d * 2 ^ 24)

-- The loop over the blocks: the hash, and the bytes behind the last block.
unfoldable pub hash_blocks : ℕ → Object → ℕ → Run (ℕ × Object)
unfolding mix_block
hash_blocks zero p hash = ok (hash, p)
hash_blocks (suc n) (a ∷ b ∷ c ∷ d ∷ p) hash = hash_blocks n p (mix_block hash (block a b c d))
hash_blocks (suc n) p hash = fault out_of_bounds

-- The `switch` over the bytes that do not fill a block; each case falls through to the next.
unfoldable pub tail_case1 : Object → ℕ → ℕ → Run ℕ
unfolding scramble at
tail_case1 tail k1 hash = do x ← at tail 0; ok (bit_xor hash (scramble (bit_xor k1 x)))

unfoldable pub tail_case2 : Object → ℕ → ℕ → Run ℕ
unfolding tail_case1
tail_case2 tail k1 hash = do x ← at tail 1; tail_case1 tail (bit_xor k1 (x * 2 ^ 8)) hash

unfoldable pub tail_case3 : Object → ℕ → ℕ → Run ℕ
unfolding tail_case2
tail_case3 tail k1 hash = do x ← at tail 2; tail_case2 tail (bit_xor k1 (x * 2 ^ 16)) hash

unfoldable pub hash_tail : ℕ → Object → ℕ → Run ℕ
unfolding tail_case3
hash_tail rest tail hash =
    if rest == 3
    then tail_case3 tail 0 hash
    else if rest == 2
    then tail_case2 tail 0 hash
    else if rest == 1
    then tail_case1 tail 0 hash
    else ok hash

unfoldable pub finish : ℕ → ℕ → ℕ
unfolding xorshift
finish len hash =
    let a = xorshift (bit_xor hash len) 16 in
    let b = xorshift (u32 (a * 0x85ebca6b)) 13 in xorshift (u32 (b * 0xc2b2ae35)) 16

-- The whole function at a length and a seed.
unfoldable pub murmur3_32 : ℕ → ℕ → Object → Run ℕ
unfolding hash_blocks hash_tail finish
murmur3_32 len seed key = do
  (hash, tail) ← hash_blocks (len / 4) key seed
  hash' ← hash_tail (len % 4) tail hash
  ok (finish len hash')

abbrev pub hash_len : ℕ
hash_len = 20

abbrev pub usernames_hash_seed : ℕ
usernames_hash_seed = 23

unfoldable pub murmur3_32_hash : Object → Run ℕ
unfolding murmur3_32
murmur3_32_hash key = murmur3_32 hash_len usernames_hash_seed key
