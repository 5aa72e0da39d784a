-- ===== src/Tests.antt =====
-- Runs of the development at concrete inputs.
-- The table of the tests has two chains and the hash function of the program.
mod Maps
mod Hashes
mod Queues
mod Threads
mod Turns
mod Naming
mod Reaches
mod Crews
mod Chats
mod Transfers
mod Sessions
mod Releases
mod Sockets
mod Servers
mod Uploads
mod Newcomers
mod Shorts
use cmy_message.Prelude.{
  ℕ, suc, ◌+◌, ◌*◌, ◌≤◌, List, [], ◌∷◌, ◌++◌, Bool, true, false, Option, none, some, Run, ok, ◌≡◌,
  refl, arith, replicate, length, take, All,
}
use cmy_message.CString.{Object, c_str, is_terminated, text_equal}
use cmy_message.HashTable.{
  Entry, Chain, Table, Cleanup, libc_free, given, hash_table_calc_index_with_hash, remainder,
}
use cmy_message.HashTable.Chain.{count}
use cmy_message.HashTable.Valid.{IsValid}
use cmy_message.HashTable.Murmur.{murmur3_32_hash}
use cmy_message.Ftp.Numbers.{codes}

-- A name of nineteen characters with its terminator, and a short one in a long object.
abbrev pub long_name : Object
long_name = codes "abcdefghijklmnopqrs" ++ 0 ∷ []

abbrev pub short_name : Object
short_name = codes "bob" ++ replicate 40 0

abbrev pub stored : Object → Entry ℕ
stored k = record { p_key = k; p_object = 7 }

abbrev pub table_of : Chain ℕ → Chain ℕ → Table ℕ
table_of c d = record {
  size = 2;
  elements = c ∷ d ∷ [];
  p_hash_func = murmur3_32_hash;
  p_cleanup_func = given;
}

abbrev pub empty_table : Table ℕ
empty_table = table_of [] []

abbrev pub long_table : Table ℕ
long_table = table_of (stored long_name ∷ []) []

pub empty_table-IsValid : IsValid empty_table
unfolding count
empty_table-IsValid = record {
  width = refl;
  terminated = (tt, (tt, tt));
  once = λ s. (omega arith, (omega arith, tt));
}

pub long_table-IsValid : IsValid long_table
unfolding count is_terminated
long_table-IsValid = record {
  width = refl;
  terminated = ((refl, tt), (tt, tt));
  once = λ s. (ground arith, (omega arith, tt));
}
