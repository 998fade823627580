-- ===== src/Migrate/Tallies.antt =====
-- What a migration run does to each row, and what a second run does.
use knives.Prelude.{
  ℕ, ◌+◌, ◌≡◌, Text, List, [], ◌∷◌, length, find, text_eq, Option, none, some, arith,
}
use knives.World.{World}
use knives.World.Effects.{Result, ok, err, already_exists}
use knives.World.Rows.{User}
use knives.Storage.Links.{insert_migrated_short_url}
use knives.Migrate.{
  Target, YourlsRow, OwnerEntry, UserEntry, Tally, book_clicks, after_grant, after_insert,
  insert_row, migrated_row, normalize_email, owner_email_of, after_owner, with_owner, migrate_row,
  migrate_rows,
}

abbrev pub tallied : Tally → ℕ
tallied s = s.migrated + s.skipped + s.failed

book_clicks_tally :
    (t : Target) (row : YourlsRow) (id : ℕ) (s : Tally) (w : World)
    → tallied (book_clicks t row id s w).0 ≡ tallied s + 1
unfolding book_clicks
book_clicks_tally t row id s w = ground arith

after_grant_tally :
    (t : Target) (row : YourlsRow) (id : ℕ) (s : Tally) (r : Result (Unit {0}) × World)
    → tallied (after_grant t row id s r).0 ≡ tallied s + 1
after_grant_tally t row id s (ok _, w) = book_clicks_tally t row id s w
after_grant_tally t row id s (err e, w) = omega arith

after_insert_tally :
    (t : Target) (row : YourlsRow) (id : ℕ) (s : Tally) (r : Result ℕ × World)
    → tallied (after_insert t row id s r).0 ≡ tallied s + 1
after_insert_tally t row id s (ok i, w) = after_grant_tally t row i s _
after_insert_tally t row id s (err already_exists, w) = omega arith
after_insert_tally t row id s (err _, w) = omega arith

insert_row_tally :
    (t : Target) (row : YourlsRow) (id : ℕ) (s : Tally) (w : World)
    → tallied (insert_row t row id s w).0 ≡ tallied s + 1
unfolding insert_row
insert_row_tally t row id s w =
    ground (arith, after_insert_tally t row id s (insert_migrated_short_url (migrated_row t row) w))

after_owner_tally :
    (t : Target) (row : YourlsRow) (key : Text) (s : Tally) (r : Result User × World)
    → tallied (after_owner t row key s r).0 ≡ tallied s + 1
after_owner_tally t row key s (ok owner, w) = insert_row_tally t row owner.id _ w
after_owner_tally t row key s (err e, w) = omega arith

with_owner_tally :
    (t : Target) (row : YourlsRow) (email : Text) (s : Tally) (o : Option UserEntry) (w : World)
    → tallied (with_owner t row email s o w).0 ≡ tallied s + 1
with_owner_tally t row email s (some e) w = insert_row_tally t row e.id s w
with_owner_tally t row email s none w = after_owner_tally t row (normalize_email email) s _

-- The migrated, skipped and failed rows of a run add up to the rows that it was given, whatever
-- calls fail: each row is tallied once.
pub migrate_rows_tally :
    (t : Target) (owners : List OwnerEntry) (rows : List YourlsRow) (s : Tally) (w : World)
    → tallied (migrate_rows t owners rows s w).0 ≡ tallied s + length rows
unfolding migrate_rows migrate_row
migrate_rows_tally t owners [] s w = omega arith
migrate_rows_tally t owners (row ∷ rows) s w = omega (
  arith,
  migrate_rows_tally t owners rows (migrate_row t owners row s w).0
      (migrate_row t owners row s w).1,
  with_owner_tally t row (owner_email_of owners t.system_email row.keyword) s
      (find
        (λ e. text_eq e.email (normalize_email (owner_email_of owners t.system_email row.keyword)))
        s.user_cache)
      w,
)
