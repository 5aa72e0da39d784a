-- ===== src/Chat/Names/Sections/Kept.antt =====
-- Each section of the dialogue ends normally and keeps the invariant of the hall.
use cmy_message.Prelude.{
  ℕ, ◌<◌, List, [], ◌∷◌, ◌++◌, Bool, true, false, Option, none, some, ok, ◌≡◌, refl, ◌∙◌, arith,
  if◌then◌else◌, ◌==◌, length,
}
use cmy_message.CString.{Object, c_str, text_equal}
use cmy_message.HashTable.Chain.{is_some}
use cmy_message.HashTable.Valid.{view, hash_table_lookup-view}
use cmy_message.HashTable.Update.{
  Writes, hash_table_insert-Writes, hash_table_delete_element-Writes,
}
use cmy_message.Chat.{
  max_username_length, fd_update, remove_socket_from_sets, start_removing_client_from_broadcast,
}
use cmy_message.Chat.Names.{insert_name, set_username}
use cmy_message.Chat.Names.Assigned.{IsText, padded, sanitize-padded}
use cmy_message.Chat.Names.Sections.Stored.{
  IsName, HasHomes-same, Writes-view, twenty-c_str, twenty-home, name-IsTwenty, strlen-name,
  stored_name-name, strncpy-name,
}
use cmy_message.Chat.Names.Sections.Consistent.{
  IsFit, IsConsistent, seat-Holds, seat-IsFit, under, insert-owned, deleted-owned,
}
use cmy_message.Chat.Names.Sections.{
  remove_section, Desk, choosing, gone, found_free, inserted, named, Hall, seat, after_look_up,
  look_up_section, insert_section, array_section, leave_section,
}

after_look_up-IsFit :
    (buffer a : Object) (present : Option ℕ)
    → IsName buffer
    → IsFit (after_look_up buffer present) a
after_look_up-IsFit buffer a none name = name
after_look_up-IsFit buffer a (some other) name = tt

leaving-IsFit :
    (itself : Bool) (name a : Object)
    → IsFit (named name) a
    → IsFit (if itself then gone else named name) a
leaving-IsFit true name a fine = tt
leaving-IsFit false name a fine = fine

-- What is at a desk whose state is known.
pub desk-IsFit :
    {home : List ℕ → ℕ} {h : Hall} (c : IsConsistent home h) (fd : ℕ) {d : Desk}
    → h.desk fd ≡ d
    → IsFit d (h.shared.usernames_by_fd_arr fd)
desk-IsFit c fd e = rw (← e) (c.fit fd)

module _ {home : List ℕ → ℕ} {h : Hall} (c : IsConsistent home h) (fd : ℕ) where
  own : fd == fd ≡ true
  own = ground arith

  reseat-IsFit :
      (d : Desk)
      → IsFit d (h.shared.usernames_by_fd_arr fd)
      → (f : ℕ) → IsFit (seat fd d h.desk f) (h.shared.usernames_by_fd_arr f)
  reseat-IsFit d fine =
      seat-IsFit h.desk h.shared.usernames_by_fd_arr h.shared.usernames_by_fd_arr fd d c.fit
        (λ f _. refl) fine

  -- An answer is looked up: the table stays, and the client has no name yet.
  pub look_up-IsConsistent :
      (text : List ℕ) (x : ℕ)
      → h.desk fd ≡ choosing
      → IsText text
      → length text < max_username_length
      → (h' : Hall) × (look_up_section fd (text ++ x ∷ []) h ≡ ok h')
        × IsConsistent home h'
        × (h' ≡ record h {
          desk = seat fd (after_look_up (padded text) (view c.table (home text) text)) h.desk;
        })
  unfolding look_up_section
  look_up-IsConsistent text x turn plain short =
      let name : IsName (padded text) = record {
        text = text;
        plain = plain;
        short = short;
        filled = refl;
      } in
      let (same, ends) = twenty-c_str (name-IsTwenty name) in
      let d = after_look_up (padded text) (view c.table (home text) text) in
      (
        record h { desk = seat fd d h.desk },
        rw (
          sanitize-padded text plain x (omega arith),
          c.here,
          hash_table_lookup-view c.valid (padded text)
              (twenty-home (name-IsTwenty name) c.table c.homes) ends,
          same,
        ),
        record {
          table = c.table;
          here = c.here;
          valid = c.valid;
          homes = c.homes;
          owned = λ q f e.
              seat-Holds h.desk fd d f q (λ _. c.owned q f e)
                (λ s. absurd (rw (s, turn) at (c.owned q f e)));
          fit = reseat-IsFit d (after_look_up-IsFit (padded text) _ _ name);
        },
        refl,
      )

  -- The name that was found free is inserted, whatever happened in between: under it stands the client
  -- that was there, or else the new one.
  pub insert-IsConsistent :
      (buffer : Object)
      → h.desk fd ≡ found_free buffer
      → (h' : Hall) × (c' : IsConsistent home h') × (insert_section fd buffer h ≡ ok h')
        × (h'.desk ≡ seat fd (inserted buffer) h.desk)
        × ((q : List ℕ)
            → view c'.table (home q) q ≡ (
                if text_equal (c_str buffer) q
                then (let u = under c fd buffer in if is_some u then u else some fd)
                else view c.table (home q) q))
  unfolding insert_section insert_name
  insert-IsConsistent buffer turn =
      let name = desk-IsFit c fd turn in
      let m = name-IsTwenty name in
      let (r, run, w) =
        hash_table_insert-Writes c.valid buffer (twenty-home m c.table c.homes) (twenty-c_str m).1
          fd in
      (
        record {
          shared = record h.shared { usernames_ht = some r.1 };
          desk = seat fd (inserted buffer) h.desk;
        },
        record {
          table = r.1;
          here = refl;
          valid = w.valid;
          homes = HasHomes-same home c.table r.1 w.size w.hash c.homes;
          owned = λ q f e. insert-owned c fd buffer turn w q f e;
          fit = reseat-IsFit (inserted buffer) name;
        },
        rw (strlen-name name, stored_name-name name, c.here, run),
        refl,
        Writes-view home w,
      )

  -- The name of the client is stored in the array.
  pub array-IsConsistent :
      (name : Object) → h.desk fd ≡ inserted name → IsConsistent home (array_section fd name h)
  unfolding array_section set_username
  array-IsConsistent name turn =
      let n = desk-IsFit c fd turn in
      record {
        table = c.table;
        here = c.here;
        valid = c.valid;
        homes = c.homes;
        owned = λ q f e.
            seat-Holds h.desk fd (named name) f q (λ _. c.owned q f e)
              (λ s. rw (s, turn) at (c.owned q f e));
        fit =
            seat-IsFit h.desk h.shared.usernames_by_fd_arr _ fd (named name) c.fit
              (λ f ne. ground arith) (n, rw own (strncpy-name n (h.shared.usernames_by_fd_arr fd)));
      }

  -- The client leaves with its name.
  pub leave-IsConsistent :
      (name : Object)
      → h.desk fd ≡ named name
      → (h' : Hall) × (c' : IsConsistent home h') × (leave_section fd name h ≡ ok h')
        × (h'.desk ≡ seat fd gone h.desk)
        × (done : Bool) × (b : Bool) × Writes c.table
            (home (c_str name))
            (c_str name)
            none
            done
            (b, c'.table)
  unfolding leave_section
  leave-IsConsistent name turn =
      let m = name-IsTwenty (desk-IsFit c fd turn).0 in
      let (r, run, w) =
        hash_table_delete_element-Writes c.valid name (twenty-home m c.table c.homes)
          (twenty-c_str m).1 in
      (
        record { shared = record h.shared { usernames_ht = some r.1 }; desk = seat fd gone h.desk },
        record {
          table = r.1;
          here = refl;
          valid = w.valid;
          homes = HasHomes-same home c.table r.1 w.size w.hash c.homes;
          owned = λ q f e. deleted-owned c fd name gone (λ p holds. rw turn at holds) w q f e;
          fit = reseat-IsFit gone tt;
        },
        rw (c.here, run),
        refl,
        _,
        r.0,
        w,
      )

  -- The broadcasting thread removes the client by the name in the array.
  pub remove-IsConsistent :
      (itself : Bool) (name : Object)
      → h.desk fd ≡ named name
      → (h' : Hall) × (c' : IsConsistent home h') × (remove_section itself fd h ≡ ok h')
        × (h'.desk ≡ seat fd (if itself then gone else named name) h.desk)
        × (done : Bool) × (b : Bool) × Writes c.table
            (home (c_str name))
            (c_str name)
            none
            done
            (b, c'.table)
  unfolding remove_section start_removing_client_from_broadcast remove_socket_from_sets
  remove-IsConsistent itself name turn =
      let (n, m) = desk-IsFit c fd turn in
      let (same, ends) = twenty-c_str m in
      let a = h.shared.usernames_by_fd_arr fd in
      let d : Desk = if itself then gone else named name in
      let (r, run, w) =
        hash_table_delete_element-Writes c.valid a (twenty-home m c.table c.homes) ends in
      (
        record {
          shared = record h.shared {
            online_clients_set = fd_update false fd h.shared.online_clients_set;
            usernames_ht = some r.1;
            is_broadcasting = false;
          };
          desk = seat fd d h.desk;
        },
        record {
          table = r.1;
          here = refl;
          valid = w.valid;
          homes = HasHomes-same home c.table r.1 w.size w.hash c.homes;
          owned = λ q f e. deleted-owned c fd a d (λ p holds. same ∙ (rw turn at holds)) w q f e;
          fit = reseat-IsFit d (leaving-IsFit itself name a (n, m));
        },
        rw (c.here, run, turn),
        refl,
        _,
        r.0,
        rw same at w,
      )
