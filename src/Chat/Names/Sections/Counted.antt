-- ===== src/Chat/Names/Sections/Counted.antt =====
-- How many messages of a broadcast go to one client.
use mathlib.Core.List.{flatten}
use cmy_message.Prelude.{
  ℕ, suc, ◌+◌, ◌-◌, ◌<◌, ◌≤◌, List, [], ◌∷◌, ◌++◌, true, some, ◌≡◌, refl, arith, get_or, All, Among,
  ◌≢◌, leb, first, later, if◌then◌else◌, ◌==◌,
}
use cmy_message.CString.{c_str, text_equal}
use cmy_message.CString.Laws.{text_equal_refl}
use cmy_message.HashTable.{Entry, Chain, Table}
use cmy_message.HashTable.Chain.{find, count}
use cmy_message.Chat.{Sent}
use cmy_message.Chat.Broadcast.Everyone.{IsHomed, AllHomed, message_to_each, message_to_each-append}

Among-count :
    (e : Entry ℕ) (c : Chain ℕ) (q : List ℕ) → Among e c → c_str e.p_key ≡ q → 0 < count q c
unfolding count
Among-count e [] q m same = elim m [ ]
Among-count e (d ∷ c) q (first here) same = ground (arith, text_equal_refl q, rw here at same)
Among-count e (d ∷ c) q (later m) same = ground (arith, Among-count e c q m same)

pub Among-find :
    (e : Entry ℕ) (c : Chain ℕ) (q : List ℕ)
    → Among e c
    → c_str e.p_key ≡ q
    → count q c ≤ 1
    → find q c ≡ some e.p_object
unfolding count find
Among-find e [] q m same once = elim m [ ]
Among-find e (d ∷ c) q (first here) same once =
    rw here (ground (arith, text_equal_refl q, rw here at same))
Among-find e (d ∷ c) q (later m) same once =
    ground (arith, Among-find e c q m same, Among-count e c q m same)

-- How many messages are sent to a client.
pub times : ℕ → Sent → ℕ
times fd [] = 0
times fd (p ∷ ps) = if p.0 == fd then suc (times fd ps) else times fd ps

times-append : (fd : ℕ) (ps qs : Sent) → times fd (ps ++ qs) ≡ times fd ps + times fd qs
unfolding times
times-append fd [] qs = omega arith
times-append fd (p ∷ ps) qs = ground (arith, times-append fd ps qs)

module _ (message : List ℕ) where
  pub messages-All : (c : Chain ℕ) → All (λ p. p.1 ≡ message) (message_to_each message c)
  messages-All [] = tt
  messages-All (e ∷ c) = (refl, messages-All c)

  module _ (fd : ℕ) where
    pub find-times :
        (q : List ℕ) (c : Chain ℕ) → find q c ≡ some fd → 0 < times fd (message_to_each message c)
    unfolding find times
    find-times q [] e = cc
    find-times q (d ∷ c) e = ground (arith, e, find-times q c)

    pub times-count :
        (q : List ℕ) (c : Chain ℕ)
        → All (λ e. e.p_object ≡ fd → text_equal (c_str e.p_key) q ≡ true) c
        → times fd (message_to_each message c) ≤ count q c
    unfolding times count
    times-count q [] h = omega arith
    times-count q (d ∷ c) h = ground (arith, h.0, times-count q c h.1)

    pub times-eq-zero :
        (c : Chain ℕ) → All (λ e. e.p_object ≢ fd) c → times fd (message_to_each message c) ≡ 0
    unfolding times
    times-eq-zero [] h = refl
    times-eq-zero (d ∷ c) h = ground (arith, h.0, times-eq-zero c h.1)

    -- A client that is in the chain of one index, once.
    pub times-flatten :
        (i k : ℕ) (cs : List (Chain ℕ))
        → ((j : ℕ)
            → times fd (message_to_each message (get_or cs j [])) ≡ (if i == k + j then 1 else 0))
        → times fd (message_to_each message (flatten cs)) ≡ (if leb k i then 1 else 0)
    unfolding times flatten
    times-flatten i k [] h = let at_i = h (i - k) in ground (arith, at_i)
    times-flatten i k (c ∷ cs) h =
        let rest =
          times-flatten i (suc k) cs
            (λ j. let next : k + suc j ≡ suc k + j = omega arith in rw next at (h (suc j))) in
        rw (message_to_each-append message c (flatten cs)) (
          ground (
            arith,
            times-append fd (message_to_each message c) (message_to_each message (flatten cs)),
            rest,
            h 0,
          ))

    pub times-nowhere :
        (cs : List (Chain ℕ))
        → ((j : ℕ) → times fd (message_to_each message (get_or cs j [])) ≡ 0)
        → times fd (message_to_each message (flatten cs)) ≡ 0
    unfolding times flatten
    times-nowhere [] h = refl
    times-nowhere (c ∷ cs) h = rw (message_to_each-append message c (flatten cs)) (
        omega (
          arith,
          times-append fd (message_to_each message c) (message_to_each message (flatten cs)),
          times-nowhere cs (λ j. h (suc j)),
          h 0,
        ))

pub AllHomed-get_or :
    (t : Table ℕ) (i : ℕ) (cs : List (Chain ℕ))
    → ((j : ℕ) → IsHomed t (i + j) (get_or cs j []))
    → AllHomed t i cs
AllHomed-get_or t i [] h = tt
AllHomed-get_or t i (c ∷ cs) h =
    let zeroth : i + 0 ≡ i = omega arith in
    (
      rw zeroth at (h 0),
      AllHomed-get_or t (suc i) cs
          (λ j. let next : i + suc j ≡ suc i + j = omega arith in rw next at (h (suc j))),
    )
