-- ===== src/Words.antt =====
-- The arithmetic of `uint32_t` that the hash function uses: wrap-around products and sums, shifts,
-- rotations and exclusive or, each of which keeps a value below 2 ^ 32.
use Prim.Native.Nat.{digits, differ, max, bit_or-bitwise, bit_xor-bitwise}
use native.Mathlib.Nat.{pow-suc}
use cmy_message.Prelude.{ℕ, zero, suc, ◌-◌, ◌*◌, ◌/◌, ◌%◌, ◌^◌, ◌<◌, bit_or, bit_xor, arith}

abbrev pub u32 : ℕ → ℕ
u32 n = n % 2 ^ 32

-- `(x << r) | (x >> (32 - r))` of a 32-bit value.
unfoldable pub rotl32 : ℕ → ℕ → ℕ
rotl32 x r = bit_or (u32 (x * 2 ^ r)) (x / 2 ^ (32 - r))

-- `x ^= x >> r`.
unfoldable pub xorshift : ℕ → ℕ → ℕ
xorshift x r = bit_xor x (x / 2 ^ r)

digits-lt :
    (f : ℕ → ℕ → ℕ)
    → ((x y : ℕ) → x < 2 → y < 2 → f x y < 2)
    → (n w a b : ℕ) → a < 2 ^ w
    → b < 2 ^ w
    → digits (λ y. y) f n a b < 2 ^ w
digits-lt f small zero w a b p q = q
digits-lt f small (suc n) w zero b p q = q
digits-lt f small (suc n) zero (suc a) b p q = absurd (omega arith)
digits-lt f small (suc n) (suc w) (suc a) b p q =
    let half : digits (λ y. y) f n (suc a / 2) (b / 2) < 2 ^ w =
      digits-lt f small n w (suc a / 2) (b / 2) (omega (arith, pow-suc 2 w))
        (omega (arith, pow-suc 2 w)) in
    omega (arith, half, pow-suc 2 w, small (suc a % 2) (b % 2) (omega arith) (omega arith))

differ-lt : (x y : ℕ) → x < 2 → y < 2 → differ x y < 2
differ-lt zero y p q = q
differ-lt (suc x) zero p q = p
differ-lt (suc x) (suc y) p q = differ-lt x y (omega arith) (omega arith)

pub bit_xor-lt : (w a b : ℕ) → a < 2 ^ w → b < 2 ^ w → bit_xor a b < 2 ^ w
bit_xor-lt w a b p q = rw (bit_xor-bitwise a b) (digits-lt differ differ-lt a w a b p q)

pub bit_or-lt : (w a b : ℕ) → a < 2 ^ w → b < 2 ^ w → bit_or a b < 2 ^ w
bit_or-lt w a b p q = rw (bit_or-bitwise a b) (digits-lt max (λ x y p q. omega arith) a w a b p q)

pub u32-lt : (n : ℕ) → u32 n < 2 ^ 32
u32-lt n = omega arith
