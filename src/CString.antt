-- ===== src/CString.antt =====
-- The string functions of the C library that the services call, over memory objects.
-- An object is the list of its bytes, from the pointer to the end of its allocation, so that a
-- read past the end is a fault.
pub mod Laws
use cmy_message.Prelude.{
  ℕ, suc, List, [], ◌∷◌, Bool, true, false, Run, ok, fault, out_of_bounds, ◌>>=◌, ◌==◌,
  if◌then◌else◌,
}

abbrev pub Object : Type 0
Object = List ℕ

-- The characters before the terminator.
unfoldable pub c_str : Object → List ℕ
c_str [] = []
c_str (x ∷ xs) = if x == 0 then [] else x ∷ c_str xs

unfoldable pub is_terminated : Object → Bool
is_terminated [] = false
is_terminated (x ∷ xs) = if x == 0 then true else is_terminated xs

-- `strcmp(a, b) == 0`: byte by byte, up to the first difference or the terminator of both.
unfoldable pub strcmp_equal : Object → Object → Run Bool
strcmp_equal [] ys = fault out_of_bounds
strcmp_equal (x ∷ xs) [] = fault out_of_bounds
strcmp_equal (x ∷ xs) (y ∷ ys) =
    let rest = strcmp_equal xs ys in if x == y then (if x == 0 then ok true else rest) else ok false

unfoldable pub strlen : Object → Run ℕ
strlen [] = fault out_of_bounds
strlen (x ∷ xs) = let rest = strlen xs in if x == 0 then ok 0 else (rest >>= λ n. ok (suc n))

-- The copy has room for the characters and the terminator, and no more.
unfoldable pub strdup : Object → Run Object
strdup [] = fault out_of_bounds
strdup (x ∷ xs) =
    let rest = strdup xs in if x == 0 then ok (0 ∷ []) else (rest >>= λ ys. ok (x ∷ ys))

-- Equality of two texts.
unfoldable pub text_equal : List ℕ → List ℕ → Bool
text_equal [] [] = true
text_equal [] (y ∷ ys) = false
text_equal (x ∷ xs) [] = false
text_equal (x ∷ xs) (y ∷ ys) = if x == y then text_equal xs ys else false
