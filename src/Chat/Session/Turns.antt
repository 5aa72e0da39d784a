-- ===== src/Chat/Session/Turns.antt =====
-- What a session of `get_messages_from_active_clients` does in any number of rounds.
use mathlib.Core.List.{flatten}
use cmy_message.Prelude.{
  ℕ, ◌<◌, ◌≤◌, List, [], ◌∷◌, ◌++◌, map, Bool, true, false, none, some, Run, ok, ◌≡◌, refl, length,
  All, append-nil, append_assoc,
}
use cmy_message.CString.{Object, c_str, is_terminated}
use cmy_message.HashTable.{Chain, Table, hash_table_calc_index_with_hash}
use cmy_message.HashTable.Chain.{is_some}
use cmy_message.HashTable.Valid.{IsValid, view}
use cmy_message.HashTable.Update.{Writes, hash_table_delete_element-Writes}
use cmy_message.Chat.{buffer_size, Shared, Recv, Sent}
use cmy_message.Chat.Broadcast.Everyone.{AllHomed, message_to_each}
use cmy_message.Chat.Gather.{common_size}
use cmy_message.Chat.Gather.Messages.{
  Messages, answers, lines, total, Fits, IsReady, round-messages,
}
use cmy_message.Chat.Session.{
  welcome_msg, Round, Finished, returned, awaiting, exit_failure, leave_table, after_round,
  selected, rounds_loop, get_messages_from_active_clients,
}
use cmy_message.Chat.Session.Rounds.{
  broadcasting, lines-broadcasting, Fits-broadcasting, get_messages-start,
}

-- A round of messages: which descriptors are ready, and what their clients send.
pub record Exchange : Type 0 where
  pub ready : ℕ → Bool
  pub messages : Messages

abbrev pub turn_of : Bool → Exchange → Round
turn_of quit e = record { ready = some e.ready; answers = answers e.messages; quit_signal = quit }

-- The messages are those of the ready clients and fit the buffers.
pub record IsGathered (s : Shared) (e : Exchange) : Type 0 where
  pub all_ready : IsReady e.ready 0 e.messages
  pub all_fit : Fits s e.messages
  pub common : length (lines s e.messages) < common_size
  pub some_bytes : 0 < total e.messages
  pub few_bytes : total e.messages ≤ buffer_size

-- The text of each round, to every client, round by round.
unfoldable pub texts : Shared → Chain ℕ → List Exchange → Sent
texts s clients [] = []
texts s clients (e ∷ es) = message_to_each (lines s e.messages) clients ++ texts s clients es

texts-broadcasting :
    (own : ℕ) (s : Shared) (clients : Chain ℕ) (es : List Exchange)
    → texts (broadcasting own s) clients es ≡ texts s clients es
unfolding texts
texts-broadcasting own s clients [] = refl
texts-broadcasting own s clients (e ∷ es) =
    rw (lines-broadcasting own s e.messages, texts-broadcasting own s clients es)

IsGathered-broadcasting :
    (own : ℕ) (s : Shared) (e : Exchange) → IsGathered s e → IsGathered (broadcasting own s) e
IsGathered-broadcasting own s e g = record {
  all_ready = g.all_ready;
  all_fit = Fits-broadcasting own s e.messages g.all_fit;
  common = rw (lines-broadcasting own s e.messages) g.common;
  some_bytes = g.some_bytes;
  few_bytes = g.few_bytes;
}

All-broadcasting :
    (own : ℕ) (s : Shared) (es : List Exchange)
    → All (IsGathered s) es
    → All (IsGathered (broadcasting own s)) es
All-broadcasting own s [] h = tt
All-broadcasting own s (e ∷ es) h =
    (IsGathered-broadcasting own s e h.0, All-broadcasting own s es h.1)

module _ (own : ℕ) (name buffer : Object) {t : Table ℕ} (valid : IsValid t)
    (homed : AllHomed t 0 t.elements) where
  -- Rounds of messages change nothing but what was sent.
  rounds_loop-turns :
      (s : Shared) (es : List Exchange) (rounds : List Round) (sent : Sent)
      → s.usernames_ht ≡ some t
      → All (IsGathered s) es
      → rounds_loop own name buffer (map (turn_of false) es ++ rounds) sent s
        ≡ rounds_loop own name buffer rounds (sent ++ texts s (flatten t.elements) es) s
  unfolding rounds_loop selected after_round texts
  rounds_loop-turns s [] rounds sent here h = rw (append-nil sent)
  rounds_loop-turns s (e ∷ es) rounds sent here h =
      let g = h.0 in
      let m = message_to_each (lines s e.messages) (flatten t.elements) in
      rw (
        round-messages own e.ready e.messages buffer s g.all_ready g.all_fit g.common g.some_bytes
            g.few_bytes here valid homed,
        rounds_loop-turns s es rounds (sent ++ m) here h.1,
        append_assoc sent m (texts s (flatten t.elements) es),
      )

  -- A session of a client that no other thread broadcasts for: after any number of rounds in which
  -- every ready client sends a text that fits, in a valid table whose keys hash to their chains, the
  -- client was welcomed and every client in the table was sent the text of each round once, in the
  -- order of the rounds. If then `select` is still waiting, so does the function; if `select` fails, the
  -- process exits; and if one more such round sees the quit signal, its text is sent, the name of the
  -- client leaves the table and no other does, the function returns, and the flag stays up.
  pub get_messages-turns :
      (s : Shared) (es : List Exchange) (last : Exchange) (rest : List Recv) (quit : Bool)
      (rounds : List Round) {i : ℕ}
      → is_terminated name ≡ true
      → length (welcome_msg (c_str name)) < buffer_size
      → s.is_broadcasting ≡ false
      → s.usernames_ht ≡ some t
      → All (IsGathered s) es
      → IsGathered s last
      → hash_table_calc_index_with_hash t name ≡ ok i
      → let sent = (own, welcome_msg (c_str name)) ∷ texts s (flatten t.elements) es in
        let run : List Round → Run Finished = λ next.
          get_messages_from_active_clients own name buffer (map (turn_of false) es ++ next) s in
        (run [] ≡ ok (awaiting sent))
        × (run (record { ready = none; answers = rest; quit_signal = quit } ∷ rounds)
            ≡ ok (exit_failure sent))
        × (s' : Shared) × (r : Bool × Table ℕ) × (run (turn_of true last ∷ rounds)
            ≡ ok (
                returned (sent ++ message_to_each (lines s last.messages) (flatten t.elements)) s'))
        × (s'.usernames_ht ≡ some r.1)
        × Writes t i (c_str name) none (is_some (view t i (c_str name))) r
        × (s'.is_broadcasting ≡ true)
  unfolding rounds_loop selected after_round leave_table
  get_messages-turns s es last rest quit rounds ends fits free here h g home =
      let b = broadcasting own s in
      let loop = λ (next : List Round).
        rounds_loop-turns b es next ((own, welcome_msg (c_str name)) ∷ []) here
          (All-broadcasting own s es h) in
      let start = λ (next : List Round).
        get_messages-start own name buffer (map (turn_of false) es ++ next) s ends fits free in
      let same = texts-broadcasting own s (flatten t.elements) es in
      let g' = IsGathered-broadcasting own s last g in
      let (r, deleted, w) = hash_table_delete_element-Writes valid name home ends in
      (
        rw (start [], loop [], same),
        rw (start _, loop _, same),
        record b { usernames_ht = some r.1 },
        r,
        rw (
          start (turn_of true last ∷ rounds),
          loop (turn_of true last ∷ rounds),
          same,
          round-messages own last.ready last.messages buffer b g'.all_ready g'.all_fit g'.common
              g'.some_bytes g'.few_bytes here valid homed,
          lines-broadcasting own s last.messages,
          here,
          deleted,
        ),
        refl,
        w,
        refl,
      )
