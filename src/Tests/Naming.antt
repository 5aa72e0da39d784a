-- ===== src/Tests/Naming.antt =====
-- Runs of clients that take their names at the same time.
use cmy_message.Prelude.{
  ℕ, zero, suc, List, [], ◌∷◌, ◌++◌, Bool, true, none, some, ok, ◌≡◌, ◌≢◌, refl, arith,
}
use cmy_message.CString.{c_str}
use cmy_message.HashTable.{Table}
use cmy_message.HashTable.Chain.{find}
use cmy_message.HashTable.Valid.{view}
use cmy_message.Chat.{received}
use cmy_message.Chat.Names.{
  how_can_we_call_you, username_accepted, assigned, ask_and_assign_username,
}
use cmy_message.Chat.Names.Assigned
use cmy_message.Chat.Names.Assigned.{padded, ask-free}
use cmy_message.Chat.Names.Sections.{Hall, choosing, named, seat}
use cmy_message.Chat.Names.Sections.Homes.{home_of, murmur-HasHomes}
use cmy_message.Chat.Names.Sections.Consistent.{IsConsistent}
use cmy_message.Chat.Names.Sections.Runs.{Reach, Reach-IsConsistent, start-IsConsistent}
use cmy_message.Chat.Names.Sections.Race.{two_named}
use cmy_message.Chat.Names.Sections.Ordered.{Turns, none_yet, then_turn, take_name, IsListed}
use cmy_message.Chat.Names.Sections.Unique.{Turns-unique}
use cmy_message.Tests.{empty_table, empty_table-IsValid}
use cmy_message.Tests.Hashes.{padded_bob-home}
use cmy_message.Tests.Chats.{shared_of, bob, bob-IsText, nothing_there}

-- Nobody has a name yet.
abbrev pub hall : Hall
hall = record { shared = shared_of empty_table; desk = λ fd. choosing }

no_names : (i : ℕ) (q : List ℕ) → view empty_table i q ≡ none
unfolding view find
no_names zero q = refl
no_names (suc zero) q = refl
no_names (suc (suc i)) q = refl

hall-IsConsistent : IsConsistent (home_of 2) hall
hall-IsConsistent =
    start-IsConsistent refl empty_table-IsValid (murmur-HasHomes empty_table refl (omega arith))
      no_names (λ fd. refl)

hall-free : view empty_table (home_of 2 bob) bob ≡ none
hall-free = no_names (home_of 2 bob) bob

two_named_example :
    (h : Hall) × (t : Table ℕ) × Reach hall h
    × (h.shared.usernames_ht ≡ some t)
    × (h.desk 5 ≡ named (padded bob))
    × (h.desk 6 ≡ named (padded bob))
    × (view t (home_of 2 bob) bob ≡ some 5)
    × ((q : List ℕ) → view t (home_of 2 q) q ≢ some 6)
two_named_example =
    two_named hall-IsConsistent 5 6 bob 10 13 refl (λ e. omega arith) bob-IsText (omega arith) refl
      refl hall-free

Reach-IsConsistent_example : IsConsistent (home_of 2) two_named_example.0
Reach-IsConsistent_example = Reach-IsConsistent hall-IsConsistent two_named_example.2

pub hall-IsListed : IsListed (home_of 2) hall
hall-IsListed = record { consistent = hall-IsConsistent; listed = λ fd name e. cc }

bob_asks :
    (r : Bool × Table ℕ) × (ask_and_assign_username true 5
        (received (bob ++ 10 ∷ []) ∷ [])
        hall.shared
      ≡ ok (
          assigned
            (how_can_we_call_you ∷ username_accepted ∷ [])
            (padded bob)
            (Assigned.named 5 (padded bob) r.1 hall.shared)))
bob_asks =
    let (r, run, _) =
      ask-free empty_table-IsValid hall.shared refl 5 bob bob-IsText (padded_bob-home [] []) 10 []
        (omega arith) (nothing_there bob) in
    (r, run)

abbrev hall_with_bob : Hall
hall_with_bob = record {
  shared = Assigned.named 5 (padded bob) bob_asks.0.1 hall.shared;
  desk = seat 5 (named (padded bob)) hall.desk;
}

bob-Turns : Turns hall hall_with_bob
bob-Turns = then_turn none_yet (
    take_name hall 5 (received (bob ++ 10 ∷ []) ∷ []) _ (padded bob) _ refl
      (record { text = bob; end = 10; plain = bob-IsText; short = omega arith; line = refl }, tt)
      bob_asks.1)

Turns-unique_example :
    (◌≡◌ {A = ℕ} 5 5)
    × (t : Table ℕ) × (hall_with_bob.shared.usernames_ht ≡ some t)
    × (view t (home_of 2 (c_str (padded bob))) (c_str (padded bob)) ≡ some 5)
Turns-unique_example =
    Turns-unique 5 5 (padded bob) (padded bob) hall-IsListed bob-Turns refl refl refl
