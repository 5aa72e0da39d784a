-- ===== src/CString/Laws.antt =====
-- What the string functions compute on terminated objects.
use cmy_message.Prelude.{ℕ, List, [], ◌∷◌, ◌++◌, true, ok, arith, ◌≡◌, ◌↔◌, refl, length}
use cmy_message.CString.{Object, c_str, is_terminated, strcmp_equal, strlen, strdup, text_equal}

pub strcmp_equal-c_str :
    (a b : Object)
    → is_terminated a ≡ true
    → is_terminated b ≡ true
    → strcmp_equal a b ≡ ok (text_equal (c_str a) (c_str b))
unfolding c_str is_terminated strcmp_equal text_equal
strcmp_equal-c_str [] b p q = cc
strcmp_equal-c_str (x ∷ xs) [] p q = cc
strcmp_equal-c_str (x ∷ xs) (y ∷ ys) p q = ground (arith, strcmp_equal-c_str xs ys)

pub strlen-c_str : (a : Object) → is_terminated a ≡ true → strlen a ≡ ok (length (c_str a))
unfolding c_str is_terminated strlen
strlen-c_str [] p = cc
strlen-c_str (x ∷ xs) p = ground (arith, strlen-c_str xs)

pub strdup-c_str : (a : Object) → is_terminated a ≡ true → strdup a ≡ ok (c_str a ++ (0 ∷ []))
unfolding c_str is_terminated strdup
strdup-c_str [] p = cc
strdup-c_str (x ∷ xs) p = ground (arith, strdup-c_str xs)

pub c_str-copy : (a : Object) → c_str (c_str a ++ (0 ∷ [])) ≡ c_str a
unfolding c_str
c_str-copy [] = refl
c_str-copy (x ∷ xs) = ground (arith, c_str-copy xs)

pub is_terminated-copy : (a : Object) → is_terminated (c_str a ++ (0 ∷ [])) ≡ true
unfolding c_str is_terminated
is_terminated-copy [] = refl
is_terminated-copy (x ∷ xs) = ground (arith, is_terminated-copy xs)

pub text_equal_iff : (s t : List ℕ) → (text_equal s t ≡ true) ↔ (s ≡ t)
unfolding text_equal
text_equal_iff [] [] = ground arith
text_equal_iff [] (y ∷ ys) = ground arith
text_equal_iff (x ∷ xs) [] = ground arith
text_equal_iff (x ∷ xs) (y ∷ ys) = ground (arith, text_equal_iff xs ys)

pub text_equal_refl : (s : List ℕ) → text_equal s s ≡ true
text_equal_refl s = (text_equal_iff s s).1 refl
