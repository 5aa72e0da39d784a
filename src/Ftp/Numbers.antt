-- ===== src/Ftp/Numbers.antt =====
-- Numbers in texts: `%d` and `%ld` of `printf` for a number that is not negative, and `atoi`.
pub mod RoundTrip
use Prim.Native.Char.{code}
use Prim.Native.String.{String}
use cmy_message.Prelude.{
  ℕ, zero, suc, ◌+◌, ◌-◌, ◌*◌, ◌/◌, ◌%◌, ◌^◌, min, List, [], ◌∷◌, Bool, true, false, ◌&&◌, ◌||◌,
  ◌==◌, ltb, leb, if◌then◌else◌, ℤ, pos, negsuc,
}

-- The bytes of an ASCII text.
abbrev pub codes : String → List ℕ
codes String.[] = []
codes (String.◌∷◌ c s) = code c ∷ codes s

unfoldable pub decimal_loop : ℕ → ℕ → List ℕ → List ℕ
decimal_loop zero n digits = digits
decimal_loop (suc fuel) n digits =
    let more = decimal_loop fuel (n / 10) ((b'0' + n % 10) ∷ digits) in
    if ltb n 10 then (b'0' + n) ∷ digits else more

-- A number has at most as many digits as its value and one.
unfoldable pub decimal : ℕ → List ℕ
unfolding decimal_loop
decimal n = decimal_loop (n + 1) n []

unfoldable pub is_digit : ℕ → Bool
is_digit c = leb b'0' c && leb c b'9'

unfoldable pub digits_value : List ℕ → ℕ → ℕ
unfolding is_digit
digits_value [] value = value
digits_value (c ∷ cs) value =
    let more = digits_value cs (value * 10 + (c - b'0')) in if is_digit c then more else value

-- A conversion to `int`.
unfoldable pub to_int : ℕ → ℤ
to_int n = let low = n % 2 ^ 32 in if ltb low (2 ^ 31) then pos low else negsuc (2 ^ 32 - low - 1)

-- `strtol` stops at the bounds of `long`; the conversion to `int` keeps the low 32 bits.
unfoldable pub atoi_signed : Bool → List ℕ → ℤ
unfolding digits_value to_int
atoi_signed negative cs =
    let value = digits_value cs 0 in
    if negative then to_int (2 ^ 64 - min value (2 ^ 63)) else to_int (min value (2 ^ 63 - 1))

unfoldable pub is_space : ℕ → Bool
is_space c = (c == b' ') || (leb 9 c && leb c 13)

unfoldable pub atoi : List ℕ → ℤ
unfolding atoi_signed is_space
atoi [] = pos 0
atoi (c ∷ cs) =
    let rest = atoi cs in
    if is_space c
    then rest
    else if c == b'-'
    then atoi_signed true cs
    else if c == b'+'
    then atoi_signed false cs
    else atoi_signed false (c ∷ cs)
