-- ===== src/Tests/Transfers.antt =====
-- Runs of the transfers.
use cmy_message.Prelude.{ℕ, List, [], ◌∷◌, ◌≡◌, refl, arith, replicate, pos}
use cmy_message.Ftp.Transfer.Laws.{Delivers}
use cmy_message.Ftp.Numbers.{codes, atoi, atoi_signed, digits_value, is_digit, is_space, to_int}

abbrev pub two_pieces : List (List ℕ)
two_pieces = codes "Hello, " ∷ codes "file" ∷ []

pub two_pieces-Delivers : Delivers 11 two_pieces
two_pieces-Delivers = (omega arith, omega arith, (omega arith, omega arith, refl))

abbrev nines : List ℕ
nines = replicate 2000 9

-- A text that is read as another size than it says.
atoi_wraps : atoi (codes "4294967297") ≡ pos 1
unfolding atoi atoi_signed digits_value is_digit is_space to_int
atoi_wraps = refl
