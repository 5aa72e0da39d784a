-- ===== src/HashTable/Chain.antt =====
-- One chain as a map from names to objects: what the walks of `hash_table_lookup` and
-- `hash_table_delete_element` find and leave.
use cmy_message.Prelude.{
  ℕ, suc, ◌≤◌, List, [], ◌∷◌, Bool, true, false, Option, none, some, ok, ◌>>=◌, ◌≡◌, refl, arith,
  if◌then◌else◌, All, All-imp, Bool-cases, inl, inr, Among, first, later, All-Among,
}
use cmy_message.CString.{Object, c_str, is_terminated, text_equal}
use cmy_message.CString.Laws.{strcmp_equal-c_str, text_equal_iff}
use cmy_message.HashTable.{Chain, find_entry, object_of, relink, unlink}

module _ {ℓ} {V : Type ℓ} where
  abbrev pub IsTerminated : Chain V → Type 0
  IsTerminated c = All (λ e. is_terminated e.p_key ≡ true) c

  unfoldable pub find : List ℕ → Chain V → Option V
  find s [] = none
  find s (e ∷ c) = if text_equal (c_str e.p_key) s then some e.p_object else find s c

  unfoldable pub count : List ℕ → Chain V → ℕ
  count s [] = 0
  count s (e ∷ c) = if text_equal (c_str e.p_key) s then suc (count s c) else count s c

  unfoldable pub erase : List ℕ → Chain V → Chain V
  erase s [] = []
  erase s (e ∷ c) = if text_equal (c_str e.p_key) s then c else e ∷ erase s c

  abbrev pub is_some : Option V → Bool
  is_some none = false
  is_some (some v) = true

  pub erase-Among : (s : List ℕ) (c : Chain V) → All (λ e. Among e c) (erase s c)
  unfolding erase
  erase-Among s [] = tt
  erase-Among s (e ∷ c) = elim (Bool-cases (text_equal (c_str e.p_key) s)) [
    | inl same ↦ rw same (All-imp c (λ d. later) (All-Among c))
    | inr differ ↦ rw differ (first refl, All-imp (erase s c) (λ d. later) (erase-Among s c))
  ]

  pub find_entry-find :
      (c : Chain V) (k : Object)
      → IsTerminated c
      → is_terminated k ≡ true
      → (find_entry c k >>= λ e. ok (object_of e)) ≡ ok (find (c_str k) c)
  unfolding find_entry object_of find
  find_entry-find [] k h p = refl
  find_entry-find (e ∷ c) k h p = ground (arith, strcmp_equal-c_str e.p_key k, find_entry-find c k)

  pub unlink-erase :
      (walked c : Chain V) (k : Object)
      → IsTerminated c
      → is_terminated k ≡ true
      → unlink walked c k
        ≡ ok (if is_some (find (c_str k) c) then some (relink walked (erase (c_str k) c)) else none)
  unfolding unlink relink find erase
  unlink-erase walked [] k h p = refl
  unlink-erase walked (e ∷ c) k h p =
      ground (arith, strcmp_equal-c_str e.p_key k, unlink-erase (e ∷ walked) c k)

  pub find-eq-none : (s : List ℕ) (c : Chain V) → count s c ≡ 0 → find s c ≡ none
  unfolding find count
  find-eq-none s [] h = refl
  find-eq-none s (e ∷ c) h = ground (arith, find-eq-none s c)

  pub count-eq-zero : (s : List ℕ) (c : Chain V) → find s c ≡ none → count s c ≡ 0
  unfolding find count
  count-eq-zero s [] h = refl
  count-eq-zero s (e ∷ c) h = ground (arith, count-eq-zero s c)

  pub find-erase :
      (s r : List ℕ) (c : Chain V)
      → count s c ≤ 1
      → find r (erase s c) ≡ (if text_equal s r then none else find r c)
  unfolding find erase count
  find-erase s r [] h = ground arith
  find-erase s r (e ∷ c) h = ground (
    arith,
    text_equal_iff (c_str e.p_key) s,
    text_equal_iff (c_str e.p_key) r,
    text_equal_iff s r,
    find-erase s r c,
    find-eq-none s c,
  )

  pub count-erase-le : (s r : List ℕ) (c : Chain V) → count r (erase s c) ≤ count r c
  unfolding erase count
  count-erase-le s r [] = omega arith
  count-erase-le s r (e ∷ c) = ground (arith, count-erase-le s r c)

  pub erase-IsTerminated : (s : List ℕ) (c : Chain V) → IsTerminated c → IsTerminated (erase s c)
  unfolding erase
  erase-IsTerminated s [] h = tt
  erase-IsTerminated s (e ∷ c) h = ground (arith, erase-IsTerminated s c)
