-- ===== src/Ftp/Numbers/RoundTrip.antt =====
-- A size that is printed by `%ld` and read by `atoi`.
use native.Mathlib.Nat.{pow-suc}
use cmy_message.Prelude.{
  length, All, ◌≢◌, ℕ, zero, suc, ◌+◌, ◌-◌, ◌*◌, ◌/◌, ◌%◌, ◌^◌, ◌<◌, ◌≤◌, min, List, [], ◌∷◌, true,
  false, ◌&&◌, ◌||◌, ◌≡◌, refl, ◌∙◌, arith, ◌==◌, ltb, leb, pos, Bool-cases, inl, inr,
}
use cmy_message.Ftp.Numbers.{
  decimal_loop, decimal, is_digit, digits_value, to_int, atoi_signed, is_space, atoi,
}

digits_value-digit :
    (d value : ℕ) (digits : List ℕ)
    → d < 10
    → digits_value ((b'0' + d) ∷ digits) value ≡ digits_value digits (value * 10 + d)
unfolding digits_value is_digit
digits_value-digit d value digits h =
    let digit : (leb b'0' (b'0' + d) && leb (b'0' + d) b'9') ≡ true = ground arith in
    let back : b'0' + d - b'0' ≡ d = omega arith in rw (digit, back)

digits_value-nil : (n : ℕ) → digits_value [] n ≡ n
unfolding digits_value
digits_value-nil n = refl

digits_value-decimal_loop :
    (fuel n : ℕ) (digits : List ℕ)
    → n < fuel
    → digits_value (decimal_loop fuel n digits) 0 ≡ digits_value digits n
unfolding decimal_loop
digits_value-decimal_loop zero n digits h = absurd (omega arith)
digits_value-decimal_loop (suc fuel) n digits h = elim (Bool-cases (ltb n 10)) [
  | inl small ↦
      let same : 0 * 10 + n ≡ n = omega arith in
      rw (small, digits_value-digit n 0 digits (ground arith), same)
  | inr large ↦
      let whole : n / 10 * 10 + n % 10 ≡ n = omega arith in
      let big : 10 ≤ n = ground arith in
      rw (
        large,
        digits_value-decimal_loop fuel (n / 10) ((b'0' + n % 10) ∷ digits) (omega arith),
        digits_value-digit (n % 10) (n / 10) digits (omega arith),
        whole,
      )
]

decimal_loop-first :
    (fuel n : ℕ) (digits : List ℕ)
    → n < fuel
    → (c : ℕ) × (cs : List ℕ) × (decimal_loop fuel n digits ≡ c ∷ cs) × (b'0' ≤ c) × (c ≤ b'9')
unfolding decimal_loop
decimal_loop-first zero n digits h = absurd (omega arith)
decimal_loop-first (suc fuel) n digits h = elim (Bool-cases (ltb n 10)) [
  | inl small ↦ (b'0' + n, digits, rw small, omega arith, ground arith)
  | inr large ↦
      let big : 10 ≤ n = ground arith in
      rw large (decimal_loop-first fuel (n / 10) ((b'0' + n % 10) ∷ digits) (omega arith))
]

atoi-digits :
    (c : ℕ) (cs : List ℕ) → b'0' ≤ c → c ≤ b'9' → atoi (c ∷ cs) ≡ atoi_signed false (c ∷ cs)
unfolding atoi is_space
atoi-digits c cs lo hi =
    let no_space : ((c == b' ') || (leb 9 c && leb c 13)) ≡ false = ground arith in
    let no_minus : (c == b'-') ≡ false = ground arith in
    let no_plus : (c == b'+') ≡ false = ground arith in rw (no_space, no_minus, no_plus)

to_int-small : (n : ℕ) → n < 2 ^ 31 → to_int (min n (2 ^ 63 - 1)) ≡ pos n
unfolding to_int
to_int-small n h =
    let same : min n (2 ^ 63 - 1) % 2 ^ 32 ≡ n = omega arith in
    let low : ltb n (2 ^ 31) ≡ true = ground arith in rw (same, low)

atoi_signed-decimal_loop :
    (n : ℕ) → n < 2 ^ 31 → atoi_signed false (decimal_loop (n + 1) n []) ≡ pos n
unfolding atoi_signed
atoi_signed-decimal_loop n h =
    let value : digits_value (decimal_loop (n + 1) n []) 0 ≡ n =
      digits_value-decimal_loop (n + 1) n [] (omega arith) ∙ digits_value-nil n in
    rw value (to_int-small n h)

-- A size below 2 ^ 31 that is sent as its decimal digits is read back as it was.
pub atoi-decimal : (n : ℕ) → n < 2 ^ 31 → atoi (decimal n) ≡ pos n
unfolding decimal
atoi-decimal n h =
    let (c, cs, e, lo, hi) = decimal_loop-first (n + 1) n [] (omega arith) in
    rw e (atoi-digits c cs lo hi ∙ rw (← e) (atoi_signed-decimal_loop n h))

-- No text is read as a size above the limit of ten thousand megabytes: the check of the limit can
-- never refuse an upload.
pub atoi-bound : (cs : List ℕ) (n : ℕ) → atoi cs ≡ pos n → n < 2 ^ 31
unfolding atoi atoi_signed to_int
atoi-bound [] n h = ground arith
atoi-bound (c ∷ cs) n h = ground (arith, atoi-bound cs n)

length-decimal_loop :
    (k fuel n : ℕ) (digits : List ℕ)
    → n < 10 ^ suc k
    → n < fuel
    → length (decimal_loop fuel n digits) ≤ suc k + length digits
unfolding decimal_loop
length-decimal_loop k zero n digits h e = absurd (omega arith)
length-decimal_loop zero (suc fuel) n digits h e = ground arith
length-decimal_loop (suc k) (suc fuel) n digits h e = elim (Bool-cases (ltb n 10)) [
  | inl small ↦ rw small (omega arith)
  | inr large ↦
      let big : 10 ≤ n = ground arith in
      let fewer : n / 10 < 10 ^ suc k = omega (arith, pow-suc 10 (suc k)) in
      rw large (
        omega (
          arith,
          length-decimal_loop k fuel (n / 10) ((b'0' + n % 10) ∷ digits) fewer (omega arith),
        ))
]

-- A size below 2 ^ 31 has at most ten digits.
pub length-decimal : (n : ℕ) → n < 2 ^ 31 → length (decimal n) ≤ 10
unfolding decimal
length-decimal n h = length-decimal_loop 9 (n + 1) n [] (omega arith) (omega arith)

decimal_loop-All :
    (fuel n : ℕ) (digits : List ℕ)
    → All (λ c. c ≢ 0) digits
    → All (λ c. c ≢ 0) (decimal_loop fuel n digits)
unfolding decimal_loop
decimal_loop-All zero n digits h = h
decimal_loop-All (suc fuel) n digits h = elim (Bool-cases (ltb n 10)) [
  | inl small ↦ rw small (omega arith, h)
  | inr large ↦
      rw large (decimal_loop-All fuel (n / 10) ((b'0' + n % 10) ∷ digits) (omega arith, h))
]

pub decimal-All : (n : ℕ) → All (λ c. c ≢ 0) (decimal n)
unfolding decimal
decimal-All n = decimal_loop-All (n + 1) n [] tt
