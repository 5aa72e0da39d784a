-- ===== src/Chat/Names/Sections/Unique.antt =====
-- Clients that take their names one after the other have different names.
use cmy_message.Prelude.{
  ℕ, List, Bool, true, false, none, some, ok, ◌≡◌, ◌≢◌, refl, sym, ap, ◌∙◌, arith, ◌==◌, Option,
  if◌then◌else◌, Bool-cases, inl, inr,
}
use cmy_message.CString.{Object, c_str, text_equal}
use cmy_message.CString.Laws.{text_equal_iff}
use cmy_message.HashTable.{Table}
use cmy_message.HashTable.Valid.{view}
use cmy_message.HashTable.Update.{Writes}
use cmy_message.Chat.{Shared}
use cmy_message.Chat.Names.{ask_and_assign_username, set_username}
use cmy_message.Chat.Names.Assigned.{IsText, padded, name_loop-free, name_loop-taken}
use cmy_message.Chat.Names.Assigned
use cmy_message.Chat.Names.Sections.{
  Desk, choosing, gone, named, Hall, seat, leave_section, remove_section,
}
use cmy_message.Chat.Names.Sections.Stored.{IsName, HasHomes-same, Writes-view, strncpy-name}
use cmy_message.Chat.Names.Sections.Consistent.{IsConsistent, Holds, seat-Holds, seat-IsFit}
use cmy_message.Chat.Names.Sections.Ordered.{
  Turn, take_name, leave, remove, Turns, none_yet, then_turn, IsListed, HasTaken,
  name_loop-HasTaken,
}
use cmy_message.Chat.Names.Sections.Kept.{leave-IsConsistent, remove-IsConsistent}

-- Who has which name, when the desk of one client and the entry of one name change.
relisted :
    {home : List ℕ → ℕ} {h h' : Hall} (l : IsListed home h) (c' : IsConsistent home h') (fd : ℕ)
    (d : Desk) (s : List ℕ) (v : Option ℕ)
    → h'.desk ≡ seat fd d h.desk
    → ((q : List ℕ)
        → view c'.table (home q) q
          ≡ (if text_equal s q then v else view l.consistent.table (home q) q))
    → ((f : ℕ) → f ≢ fd → view l.consistent.table (home s) s ≢ some f)
    → ((name : Object) → d ≡ named name → (c_str name ≡ s) × (v ≡ some fd))
    → IsListed home h'
relisted {home} {h} {h'} l c' fd d s v seated reads others own = record {
  consistent = c';
  listed = λ f name e.
      let iff = text_equal_iff s (c_str name) in
      let at_name = reads (c_str name) in
      elim (Bool-cases (f == fd)) [
        | inl same ↦
            let here : f ≡ fd = ground arith in
            let its : d ≡ named name = rw (seated, same) at e in
            let (n, w) = own name its in ground (arith, at_name, iff, n, w, here)
        | inr differ ↦
            let ne : f ≢ fd = ground arith in
            let before : h.desk f ≡ named name = rw (seated, differ) at e in
            let old = l.listed f name before in
            let apart = λ (p : s ≡ c_str name). others f ne (rw p old) in
            elim (Bool-cases (text_equal s (c_str name))) [
              | inl equal ↦ absurd (apart (iff.0 equal))
              | inr unequal ↦ ground (arith, at_name, old)
            ]
      ];
}

module _ {home : List ℕ → ℕ} {h : Hall} (l : IsListed home h) (fd : ℕ) (name : Object) where
  named-owned :
      {r : Bool × Table ℕ}
      → h.desk fd ≡ choosing
      → Writes l.consistent.table (home (c_str name)) (c_str name) (some fd) true r
      → (q : List ℕ) (f : ℕ) → view r.1 (home q) q ≡ some f
      → Holds (seat fd (named name) h.desk f) q
  named-owned turn w q f e =
      let now = sym (Writes-view home w q) ∙ e in
      let iff = text_equal_iff (c_str name) q in
      let old =
        λ (ne : text_equal (c_str name) q ≡ false). l.consistent.owned q f (ground (arith, now)) in
      elim (Bool-cases (text_equal (c_str name) q)) [
        | inl same ↦
            let its : f ≡ fd = ground (arith, now) in
            seat-Holds h.desk fd (named name) f q (λ ne. absurd (ne its)) (λ _. iff.0 same)
        | inr differ ↦
            seat-Holds h.desk fd (named name) f q (λ _. old differ)
              (λ s. absurd (rw (s, turn) at (old differ)))
      ]

  named-IsConsistent :
      {r : Bool × Table ℕ}
      → IsName name
      → h.desk fd ≡ choosing
      → Writes l.consistent.table (home (c_str name)) (c_str name) (some fd) true r
      → IsConsistent home (record {
        shared = Assigned.named fd name r.1 h.shared;
        desk = seat fd (named name) h.desk;
      })
  unfolding set_username
  named-IsConsistent {r} n turn w =
      let c = l.consistent in
      let own : fd == fd ≡ true = ground arith in
      record {
        table = r.1;
        here = refl;
        valid = w.valid;
        homes = HasHomes-same home c.table r.1 w.size w.hash c.homes;
        owned = named-owned turn w;
        fit =
            seat-IsFit h.desk h.shared.usernames_by_fd_arr _ fd (named name) c.fit
              (λ f ne. ground arith) (n, rw own (strncpy-name n (h.shared.usernames_by_fd_arr fd)));
      }

  take_name-IsListed :
      (s : Shared)
      → h.desk fd ≡ choosing
      → HasTaken home l.consistent.table fd h.shared s name
      → IsListed home (record { shared = s; desk = seat fd (named name) h.desk })
  unfolding set_username
  take_name-IsListed s turn took =
      let c' = named-IsConsistent took.is_name turn took.writes in
      let held = c'.here in
      let its : c'.table ≡ took.result.1 = cc in
      rw took.stored (
        relisted l c' fd (named name) (c_str name) (some fd) refl
          (λ q. rw its (Writes-view home took.writes q)) (λ f ne e. ground (arith, e, took.free))
          (λ n e. let same : name ≡ n = cc in (ap c_str (sym same), refl)))

  leave-IsListed :
      {h' : Hall} → h.desk fd ≡ named name → leave_section fd name h ≡ ok h' → IsListed home h'
  leave-IsListed {h'} turn run =
      let (g, c', run', seated, _, _, w) = leave-IsConsistent l.consistent fd name turn in
      let e : g ≡ h' = cc in
      rw (← e) (
        relisted l c' fd gone (c_str name) none seated (Writes-view home w)
          (λ f ne held. ground (arith, held, l.listed fd name turn)) (λ n bad. absurd cc))

  remove-IsListed :
      {h' : Hall} → h.desk fd ≡ named name → remove_section true fd h ≡ ok h' → IsListed home h'
  remove-IsListed {h'} turn run =
      let (g, c', run', seated, _, _, w) = remove-IsConsistent l.consistent fd true name turn in
      let e : g ≡ h' = cc in
      rw (← e) (
        relisted l c' fd gone (c_str name) none seated (Writes-view home w)
          (λ f ne held. ground (arith, held, l.listed fd name turn)) (λ n bad. absurd cc))

module _ {home : List ℕ → ℕ} where
  Turn-IsListed : {h h' : Hall} → Turn h h' → IsListed home h → IsListed home h'
  unfolding ask_and_assign_username
  Turn-IsListed (take_name h fd answers prompts name s turn lines run) l =
      take_name-IsListed l fd name s turn
        (name_loop-HasTaken l.consistent fd _ prompts answers name s lines run)
  Turn-IsListed (leave h h' fd name turn run) l = leave-IsListed l fd name turn run
  Turn-IsListed (remove h h' fd name turn run) l = remove-IsListed l fd name turn run

  pub Turns-IsListed : {h h' : Hall} → IsListed home h → Turns h h' → IsListed home h'
  Turns-IsListed l none_yet = l
  Turns-IsListed l (then_turn r st) = Turn-IsListed st (Turns-IsListed l r)

  -- If every answer of a client is a text of fewer than twenty characters without a zero byte,
  -- followed by one byte, or none comes, and the clients take their names one after the other,
  -- from the whole dialogue of one to that of the next, and leave or remove themselves, then,
  -- from a state in which every client with a name stands in the table under it, two clients that
  -- have the same name are the same one, and the client stands in the table under it.
  pub Turns-unique :
      {h h' : Hall} (a b : ℕ) (name other : Object)
      → IsListed home h
      → Turns h h'
      → h'.desk a ≡ named name
      → h'.desk b ≡ named other
      → c_str name ≡ c_str other
      → (a ≡ b)
        × (t : Table ℕ) × (h'.shared.usernames_ht ≡ some t)
        × (view t (home (c_str name)) (c_str name) ≡ some a)
  Turns-unique a b name other l r p q e =
      let l' = Turns-IsListed l r in
      let c = l'.consistent in
      (
        ground
            (arith, l'.listed a name p, l'.listed b other q, ap (λ s. view c.table (home s) s) e),
        c.table,
        c.here,
        l'.listed a name p,
      )
