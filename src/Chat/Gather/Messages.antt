-- ===== src/Chat/Gather/Messages.antt =====
-- What a round gathers and sends.
use mathlib.Core.List.{flatten}
use cmy_message.Prelude.{
  ℕ, suc, ◌+◌, ◌<◌, ◌≤◌, List, [], ◌∷◌, ◌++◌, Bool, true, none, some, ok, fault, out_of_bounds, ◌≡◌,
  refl, arith, leb, length, append-nil, append_assoc, length-append, inl,
}
use cmy_message.CString.{Object, c_str, is_terminated}
use cmy_message.Chat.{buffer_size, Shared, Recv, received, filled}
use cmy_message.Chat.Broadcast.Everyone.{
  broadcast-out_of_bounds, broadcast-everyone, AllHomed, message_to_each,
}
use cmy_message.HashTable.{Table}
use cmy_message.HashTable.Valid.{IsValid}
use cmy_message.Chat.Names.Assigned.{IsText, padded-c_str, c_str-append}
use cmy_message.Chat.Gather.{
  edited_size, common_size, add_message, next_ready, Gathered, complete, receive_message, gather,
  start_of, round_sent, send_round, round,
}

filled-c_str :
    (body : List ℕ)
    → IsText body
    → length body < buffer_size
    → (c_str (filled body) ≡ body) × (is_terminated (filled body) ≡ true)
unfolding filled
filled-c_str body plain short = padded-c_str body plain short

gather-quiet :
    (own : ℕ) (ready : ℕ → Bool) (rs : List Recv) (i : ℕ) (g : Gathered)
    → next_ready ready i ≡ none
    → gather own ready rs i g ≡ ok (complete g)
unfolding gather
gather-quiet own ready [] i g quiet = rw (quiet, gather)
gather-quiet own ready (r ∷ rs) i g quiet = rw (quiet, gather)

-- A round in which no descriptor is ready, such as every time-out of `select`, writes in front of
-- the client's buffer.
pub round-quiet :
    (own : ℕ) (ready : ℕ → Bool) (rs : List Recv) (buffer : Object) (s : Shared)
    → next_ready ready 0 ≡ none
    → round own ready rs buffer s ≡ fault out_of_bounds
unfolding round send_round
round-quiet own ready rs buffer s quiet = rw (
  gather-quiet own ready rs 0 (start_of buffer s) quiet,
  broadcast-out_of_bounds buffer (0 ∷ []) 0 s (inl refl),
)

-- Messages of a round: the descriptor and the text that it sends.
abbrev pub Messages : Type 0
Messages = List (ℕ × List ℕ)

abbrev pub line : Shared → ℕ → List ℕ → List ℕ
line s fd body = c_str (s.usernames_by_fd_arr fd) ++ b'>' ∷ b' ' ∷ body

unfoldable pub lines : Shared → Messages → List ℕ
lines s [] = []
lines s ((fd, body) ∷ ms) = line s fd body ++ lines s ms

unfoldable pub total : Messages → ℕ
total [] = 0
total ((fd, body) ∷ ms) = length body + total ms

abbrev pub answers : Messages → List Recv
answers [] = []
answers ((fd, body) ∷ ms) = received body ∷ answers ms

-- From index `i` on the ready descriptors are those of the messages, in this order.
abbrev pub IsReady : (ℕ → Bool) → ℕ → Messages → Type 0
IsReady ready i [] = next_ready ready i ≡ none
IsReady ready i ((fd, body) ∷ ms) = (next_ready ready i ≡ some fd) × IsReady ready (suc fd) ms

-- Each text is shorter than the buffer, has no terminator in it, and fits the buffer for one edited
-- message together with the name of its sender.
abbrev pub Fits : Shared → Messages → Type 0
Fits s [] = Unit
Fits s ((fd, body) ∷ ms) =
    IsText body
    × (length body < buffer_size)
    × (is_terminated (s.usernames_by_fd_arr fd) ≡ true)
    × (length (line s fd body) < edited_size)
    × Fits s ms

abbrev pub last_buffer : Messages → Object → Object
last_buffer [] buffer = buffer
last_buffer ((fd, body) ∷ ms) buffer = last_buffer ms (filled body)

add_message-line :
    (s : Shared) (fd : ℕ) (body common : List ℕ)
    → IsText body
    → length body < buffer_size
    → is_terminated (s.usernames_by_fd_arr fd) ≡ true
    → length (line s fd body) < edited_size
    → length common + length (line s fd body) < common_size
    → add_message (s.usernames_by_fd_arr fd) (filled body) common ≡ ok (common ++ line s fd body)
unfolding add_message
add_message-line s fd body common plain short ends one all =
    let (same, closes) = filled-c_str body plain short in
    let fits : leb (length (line s fd body) + 1) edited_size ≡ true = ground arith in
    let room : leb (length common + length (line s fd body) + 1) common_size ≡ true =
      ground arith in
    rw (ends, closes, same, fits, room)

pub gather-messages :
    (own : ℕ) (ready : ℕ → Bool) (ms : Messages) (i : ℕ) (g : Gathered)
    → IsReady ready i ms
    → Fits g.shared ms
    → length g.common + length (lines g.shared ms) < common_size
    → gather own ready (answers ms) i g
      ≡ ok (
          complete (record {
            tot_num_bytes_recv = g.tot_num_bytes_recv + total ms;
            common = g.common ++ lines g.shared ms;
            buffer = last_buffer ms g.buffer;
            shared = g.shared;
          }))
unfolding gather receive_message lines total
gather-messages own ready [] i g r f room =
    let none_more : g.tot_num_bytes_recv + 0 ≡ g.tot_num_bytes_recv = omega arith in
    rw (gather-quiet own ready [] i g r, append-nil g.common, none_more)
gather-messages own ready ((fd, body) ∷ ms) i g (r, rs) (plain, short, ends, one, f) room =
    let s = g.shared in
    let fits : length g.common + (length (line s fd body) + length (lines s ms)) < common_size =
      omega (arith, room, length-append (line s fd body) (lines s ms)) in
    let g' : Gathered = record g {
      tot_num_bytes_recv = g.tot_num_bytes_recv + length body;
      common = g.common ++ line s fd body;
      buffer = filled body;
    } in
    let later =
      gather-messages own ready ms (suc fd) g' rs f
        (omega (arith, fits, length-append g.common (line s fd body))) in
    let sums : g.tot_num_bytes_recv + length body + total ms
        ≡ g.tot_num_bytes_recv + (length body + total ms) =
      omega arith in
    rw (r, gather, add_message-line s fd body g.common plain short ends one (omega (arith, fits)))
      (rw (← sums, ← append_assoc g.common (line s fd body) (lines s ms)) later)

c_str-IsText : (p : Object) → IsText (c_str p)
unfolding c_str
c_str-IsText [] = tt
c_str-IsText (x ∷ p) = ground (arith, c_str-IsText p)

IsText-both : (xs ys : List ℕ) → IsText xs → IsText ys → IsText (xs ++ ys)
IsText-both [] ys h k = k
IsText-both (x ∷ xs) ys h k = (h.0, IsText-both xs ys h.1 k)

pub lines-IsText : (s : Shared) (ms : Messages) → Fits s ms → IsText (lines s ms)
unfolding lines
lines-IsText s [] f = tt
lines-IsText s ((fd, body) ∷ ms) (plain, short, ends, one, f) =
    IsText-both (line s fd body) (lines s ms)
      (IsText-both (c_str (s.usernames_by_fd_arr fd)) (b'>' ∷ b' ' ∷ body)
        (c_str-IsText (s.usernames_by_fd_arr fd)) (omega arith, (omega arith, plain)))
      (lines-IsText s ms f)

-- A round in which every ready client sends a text gathers all of them, each behind the name of its
-- sender, in the order of the descriptors, and sends the one text that they make to every client
-- of the table once. It needs a valid table whose keys hash to their chains, texts that fit the
-- buffers with the names, and at most a buffer of bytes in all.
pub round-messages :
    (own : ℕ) (ready : ℕ → Bool) (ms : Messages) (buffer : Object) (s : Shared) {t : Table ℕ}
    → IsReady ready 0 ms
    → Fits s ms
    → length (lines s ms) < common_size
    → 0 < total ms
    → total ms ≤ buffer_size
    → s.usernames_ht ≡ some t
    → IsValid t
    → AllHomed t 0 t.elements
    → round own ready (answers ms) buffer s
      ≡ ok (round_sent (message_to_each (lines s ms) (flatten t.elements)) s)
unfolding round send_round
round-messages own ready ms buffer s r f room lo hi here valid homed =
    let turn = gather-messages own ready ms 0 (start_of buffer s) r f (omega arith) in
    let all : 0 + total ms ≡ total ms = omega arith in
    let sent =
      broadcast-everyone valid (lines s ms) (last_buffer ms buffer) (lines s ms ++ 0 ∷ [])
        (total ms) s here homed (c_str-append (lines s ms) [] (lines-IsText s ms f)) lo hi in
    rw (turn, all, sent)
