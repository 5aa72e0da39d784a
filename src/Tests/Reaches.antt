-- ===== src/Tests/Reaches.antt =====
-- A client takes a name of nineteen characters, and a broadcast reaches it.
use cmy_message.Prelude.{
  ℕ, List, [], ◌∷◌, ◌++◌, Bool, true, ok, ◌≡◌, refl, ap, ◌∙◌, sym, arith, length, set, pos, All,
  ◌==◌, Bool-cases, inl, inr, some, zero, suc,
}
use cmy_message.CString.{Object, c_str}
use cmy_message.HashTable.{Table}
use cmy_message.Chat.{received, Sent}
use cmy_message.Chat.Broadcast.{broadcast_message_to_online_clients}
use cmy_message.Chat.Names.{
  how_can_we_call_you, username_accepted, assigned, ask_and_assign_username,
}
use cmy_message.Chat.Names.Assigned
use cmy_message.Chat.Names.Assigned.{padded, padded-c_str, ask-free}
use cmy_message.Chat.Names.Sections.{Hall, named, seat}
use cmy_message.Chat.Names.Sections.Homes.{home_of}
use cmy_message.Chat.Names.Sections.Ordered.{Turns, none_yet, then_turn, take_name}
use cmy_message.Chat.Names.Sections.Placed.{IsPlaced}
use cmy_message.Chat.Names.Sections.Counted.{times}
use cmy_message.Chat.Names.Sections.Reached.{IsFull, Turns-reach}
use cmy_message.Tests.{empty_table, empty_table-IsValid}
use cmy_message.Tests.Hashes.{padded_long-home}
use cmy_message.Tests.Chats.{nineteen, nineteen-IsText, common, nothing_there}
use cmy_message.Tests.Naming.{hall, hall-IsListed}

hall-IsPlaced : IsPlaced (home_of 2) hall
hall-IsPlaced t here zero = let e : empty_table ≡ t = cc in rw (← e) tt
hall-IsPlaced t here (suc zero) = let e : empty_table ≡ t = cc in rw (← e) tt
hall-IsPlaced t here (suc (suc i)) = let e : empty_table ≡ t = cc in rw (← e) tt

hall-IsFull : IsFull (home_of 2) hall
hall-IsFull = record { listed = hall-IsListed; placed = hall-IsPlaced; settled = λ fd. tt }

long_asks :
    (r : Bool × Table ℕ) × (ask_and_assign_username true 5
        (received (nineteen ++ 10 ∷ []) ∷ [])
        hall.shared
      ≡ ok (
          assigned
            (how_can_we_call_you ∷ username_accepted ∷ [])
            (padded nineteen)
            (Assigned.named 5 (padded nineteen) r.1 hall.shared)))
long_asks =
    let (r, run, _) =
      ask-free empty_table-IsValid hall.shared refl 5 nineteen nineteen-IsText
        (padded_long-home [] []) 10 [] (omega arith) (nothing_there nineteen) in
    (r, run)

abbrev hall_with_long : Hall
hall_with_long = record {
  shared = Assigned.named 5 (padded nineteen) long_asks.0.1 hall.shared;
  desk = seat 5 (named (padded nineteen)) hall.desk;
}

long-Turns : Turns hall hall_with_long
long-Turns = then_turn none_yet (
    take_name hall 5 (received (nineteen ++ 10 ∷ []) ∷ []) _ (padded nineteen) _ refl
      (
        record {
          text = nineteen;
          end = 10;
          plain = nineteen-IsText;
          short = omega arith;
          line = refl;
        },
        tt,
      )
      long_asks.1)

names_are_long :
    (f : ℕ) (name : Object) → hall_with_long.desk f ≡ named name → length (c_str name) ≡ 19
names_are_long f name e = elim (Bool-cases (f == 5)) [
  | inl here ↦
      let its : named (padded nineteen) ≡ named name = sym (rw here refl) ∙ e in
      let one : padded nineteen ≡ name = cc in
      ap (λ (x : Object). length (c_str x)) (sym one)
      ∙ ap (λ (x : List ℕ). length x) (padded-c_str nineteen nineteen-IsText (omega arith)).0
  | inr elsewhere ↦ let none_here = rw elsewhere at e in absurd cc
]

Turns-reach_example :
    (sent : Sent) × (broadcast_message_to_online_clients (some []) 2 common hall_with_long.shared
      ≡ ok (pos 0, some (set [] 1 0), sent))
    × (times 5 sent ≡ 1)
    × All (λ p. p.1 ≡ c_str common) sent
Turns-reach_example =
    Turns-reach [] common 2 5 hall-IsFull long-Turns names_are_long (omega arith) (omega arith)
