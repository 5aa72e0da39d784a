-- ===== src/Chat/Names/Sections/Stored.antt =====
-- What a name of fewer than twenty characters is in memory, and where it is looked up.
use cmy_message.Prelude.{
  ℕ, zero, suc, ◌+◌, ◌-◌, ◌<◌, List, ◌++◌, Bool, true, Option, ok, ◌≡◌, ap, ◌∙◌, inl, inr, arith,
  if◌then◌else◌, length, replicate, drop, take-le, append_assoc, Bool-cases,
}
use cmy_message.CString.{Object, c_str, is_terminated, text_equal, strlen}
use cmy_message.CString.Laws.{text_equal_iff, strlen-c_str}
use cmy_message.HashTable.{Table, hash_table_calc_index_with_hash}
use cmy_message.HashTable.Valid.{view}
use cmy_message.HashTable.Update.{Writes}
use cmy_message.Chat.{buffer_size, max_username_length}
use cmy_message.Chat.Names.{stored_name, strncpy}
use cmy_message.Chat.Names.Assigned.{
  IsText, padded, c_str-append, is_terminated-append, zeros, zeros-suc, stored_name-padded,
}

-- A text with zeros up to the twenty bytes that the hash function of the program reads.
abbrev pub twenty : List ℕ → Object → Object
twenty text rest = text ++ (replicate (max_username_length - length text) 0 ++ rest)

-- A buffer that holds a text of fewer than twenty characters, and zeros behind it.
pub record IsName (buffer : Object) : Type 0 where
  pub text : List ℕ
  pub plain : IsText text
  pub short : length text < max_username_length
  pub filled : buffer ≡ padded text

-- The index of the chain for each name.
abbrev pub HasHomes : (List ℕ → ℕ) → Table ℕ → Type 0
HasHomes home t =
    (text : List ℕ) (rest : Object)
    → IsText text
    → length text < max_username_length
    → hash_table_calc_index_with_hash t (twenty text rest) ≡ ok (home text)

pub HasHomes-same :
    (home : List ℕ → ℕ) (t t' : Table ℕ)
    → t'.size ≡ t.size
    → t'.p_hash_func ≡ t.p_hash_func
    → HasHomes home t
    → HasHomes home t'
unfolding hash_table_calc_index_with_hash
HasHomes-same home t t' size hash homes text rest plain short =
    rw (size, hash) (homes text rest plain short)

-- What a write under a name does to the map from names to clients.
pub Writes-view :
    (home : List ℕ → ℕ) {t : Table ℕ} {s : List ℕ} {v : Option ℕ} {done : Bool} {r : Bool × Table ℕ}
    → Writes t (home s) s v done r
    → (q : List ℕ) → view r.1 (home q) q ≡ (if text_equal s q then v else view t (home q) q)
Writes-view home {s} w q = elim (Bool-cases (text_equal s q)) [
  | inl same ↦
      let e : s ≡ q = (text_equal_iff s q).0 same in
      let homes = ap home e in w.reads (home q) q ∙ ground arith
  | inr differ ↦ w.reads (home q) q ∙ ground arith
]

replicate-add : (n m a : ℕ) → replicate (n + m) a ≡ replicate n a ++ replicate m a
replicate-add zero m a = let e : 0 + m ≡ m = omega arith in rw e
replicate-add (suc n) m a =
    let e : suc n + m ≡ suc (n + m) = omega arith in rw (e, replicate-add n m a)

-- Memory that starts with the text and zeros up to twenty bytes.
pub record IsTwenty (text : List ℕ) (memory : Object) : Type 0 where
  pub plain : IsText text
  pub short : length text < max_username_length
  pub rest : Object
  pub filled : memory ≡ twenty text rest

module _ {text : List ℕ} {memory : Object} (m : IsTwenty text memory) where
  pub twenty-c_str : (c_str memory ≡ text) × (is_terminated memory ≡ true)
  twenty-c_str =
      rw (m.filled, zeros-suc (length text) max_username_length m.short)
        (c_str-append text _ m.plain, is_terminated-append text _)

  pub twenty-home :
      {home : List ℕ → ℕ} (t : Table ℕ)
      → HasHomes home t
      → hash_table_calc_index_with_hash t memory ≡ ok (home (c_str memory))
  twenty-home t homes = rw (twenty-c_str.0, m.filled) (homes text m.rest m.plain m.short)

-- What a buffer with a name means to the code.
module _ {buffer : Object} (name : IsName buffer) where
  pub name-IsTwenty : IsTwenty name.text buffer
  name-IsTwenty =
      let n = max_username_length - length name.text in
      let left : buffer_size - length name.text ≡ n + (buffer_size - max_username_length) =
        omega (arith, name.short) in
      record {
        plain = name.plain;
        short = name.short;
        rest = replicate (buffer_size - max_username_length) 0;
        filled = name.filled ∙ rw left (rw (replicate-add n (buffer_size - max_username_length) 0));
      }

  pub strlen-name : strlen buffer ≡ ok (length name.text)
  strlen-name =
      let (same, ends) = twenty-c_str name-IsTwenty in
      strlen-c_str buffer ends ∙ ap (λ (s : List ℕ). ok (length s)) same

  pub stored_name-name : stored_name buffer (length name.text) ≡ buffer
  stored_name-name = rw name.filled (stored_name-padded name.text name.plain name.short)

  -- The copy in the array of names.
  pub strncpy-name :
      (old : Object) → IsTwenty (c_str buffer) (strncpy old buffer max_username_length)
  unfolding strncpy
  strncpy-name old =
      let (same, _) = twenty-c_str name-IsTwenty in
      rw same (record {
        plain = name.plain;
        short = name.short;
        rest = drop max_username_length old;
        filled = rw (
          take-le max_username_length name.text (omega (arith, name.short)),
          append_assoc name.text (zeros (max_username_length - length name.text))
              (drop max_username_length old),
        );
      })
