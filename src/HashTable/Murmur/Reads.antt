-- ===== src/HashTable/Murmur/Reads.antt =====
-- Which bytes of the key `murmur3_32_hash` reads, and the range of its result.
use mathlib.Core.Path.{subst}
use cmy_message.Prelude.{
  ℕ, zero, suc, ◌*◌, ◌/◌, ◌^◌, ◌<◌, ◌≤◌, bit_xor, [], ◌∷◌, ◌++◌, ok, fault, out_of_bounds, ◌≡◌,
  refl, arith, length, take, drop, take-append-drop, length-take,
}
use cmy_message.CString.{Object}
use cmy_message.HashTable.Murmur.{
  block, mix_block, hash_blocks, hash_tail, finish, murmur3_32, murmur3_32_hash,
}
use cmy_message.Words.{u32, u32-lt, xorshift, bit_xor-lt}

mix_all : ℕ → Object → ℕ → ℕ
mix_all (suc n) (a ∷ b ∷ c ∷ d ∷ p) hash = mix_all n p (mix_block hash (block a b c d))
mix_all n p hash = hash

hash_blocks-append :
    (n : ℕ) (p r : Object) (hash : ℕ)
    → length p ≡ n * 4
    → hash_blocks n (p ++ r) hash ≡ ok (mix_all n p hash, r)
unfolding hash_blocks mix_all
hash_blocks-append zero [] r hash h = refl
hash_blocks-append zero (a ∷ p) r hash h = absurd (omega arith)
hash_blocks-append (suc n) (a ∷ b ∷ c ∷ d ∷ p) r hash h =
    hash_blocks-append n p r (mix_block hash (block a b c d)) (omega arith)
hash_blocks-append (suc n) p r hash h = absurd (omega arith)

hash_blocks-short :
    (n : ℕ) (p : Object) (hash : ℕ) → length p < n * 4 → hash_blocks n p hash ≡ fault out_of_bounds
unfolding hash_blocks
hash_blocks-short zero p hash h = absurd (omega arith)
hash_blocks-short (suc n) (a ∷ b ∷ c ∷ d ∷ p) hash h =
    hash_blocks-short n p (mix_block hash (block a b c d)) (omega arith)
hash_blocks-short (suc n) p hash h = refl

xorshift-lt : (x r : ℕ) → x < 2 ^ 32 → x / 2 ^ r < 2 ^ 32 → xorshift x r < 2 ^ 32
unfolding xorshift
xorshift-lt x r p q = bit_xor-lt 32 x (x / 2 ^ r) p q

finish-lt : (len hash : ℕ) → finish len hash < 2 ^ 32
unfolding finish
finish-lt len hash =
    let a = xorshift (bit_xor hash len) 16 in
    let b = xorshift (u32 (a * 0x85ebca6b)) 13 in
    let c = u32 (b * 0xc2b2ae35) in
    let small : c < 2 ^ 32 = u32-lt (b * 0xc2b2ae35) in
    xorshift-lt c 16 small (omega (arith, small))

murmur3_32_hash-append :
    (p r : Object) → length p ≡ 20 → murmur3_32_hash (p ++ r) ≡ ok (finish 20 (mix_all 5 p 23))
unfolding murmur3_32_hash murmur3_32 hash_tail
murmur3_32_hash-append p r h = rw (hash_blocks-append 5 p r 23 h)

murmur3_32_hash-first :
    (key : Object)
    → length (take 20 key) ≡ 20
    → murmur3_32_hash key ≡ ok (finish 20 (mix_all 5 (take 20 key) 23))
murmur3_32_hash-first key h =
    subst (λ k. murmur3_32_hash k ≡ ok (finish 20 (mix_all 5 (take 20 key) 23)))
      (take-append-drop 20 key) (murmur3_32_hash-append (take 20 key) (drop 20 key) h)

-- The hash of an object of twenty bytes or more is defined, is below 2 ^ 32, and is the hash of
-- every object with the same first twenty bytes.
pub murmur3_32_hash-take :
    (key other : Object)
    → 20 ≤ length key
    → take 20 other ≡ take 20 key
    → (h : ℕ) × (murmur3_32_hash key ≡ ok h) × (murmur3_32_hash other ≡ ok h) × (h < 2 ^ 32)
murmur3_32_hash-take key other enough same =
    let first : length (take 20 key) ≡ 20 = omega (arith, length-take 20 key) in
    (
      finish 20 (mix_all 5 (take 20 key) 23),
      murmur3_32_hash-first key first,
      rw (← same) (murmur3_32_hash-first other (rw same first)),
      finish-lt 20 _,
    )

-- On a shorter object the hash reads past the end.
pub murmur3_32_hash-short :
    (key : Object) → length key < 20 → murmur3_32_hash key ≡ fault out_of_bounds
unfolding murmur3_32_hash murmur3_32
murmur3_32_hash-short key h = rw (hash_blocks-short 5 key 23 h)
