-- ===== src/Migrate.antt =====
-- cmd/migrate-yourls/migration.go: the import of YOURLS rows, over migration_store.go.
pub mod Tallies
use knives.Prelude.{
  false, ℕ, ◌+◌, ◌/◌, Text, Bool, ◌&&◌, ◌==◌, ltb, if◌then◌else◌, text_eq, to_lower, trim_space,
  not, List, [], ◌∷◌, Option, none, some, find, any, update,
}
use knives.World.{World, statement}
use knives.World.Effects.{
  Exec, Result, ok, err, Err, pure, raise, gets, attempt, ◌>>=◌, not_found, already_exists,
}
use knives.World.Rows.{User, ShortUrl, Status, Source, DailyRow}
use knives.Storage.Accounts.{find_user_by_email, create_user}
use knives.Storage.Links.{insert_migrated_short_url, grant_owner}
use knives.ShortUrls.Codes.{is_reserved_short_code}

pub record YourlsRow : Type 0 where
  pub keyword : Text
  pub url : Text
  pub title : Text
  pub created_at : ℕ
  pub clicks : ℕ

-- One entry of the owners' map, and one of the map from normalized emails to users.
pub record OwnerEntry : Type 0 where
  pub keyword : Text
  pub email : Text

pub record UserEntry : Type 0 where
  pub email : Text
  pub id : ℕ

-- `summary`, with the users resolved so far.
pub record Tally : Type 0 where
  pub migrated : ℕ
  pub skipped : ℕ
  pub failed : ℕ
  pub user_cache : List UserEntry

unfoldable pub normalize_email : Text → Text
normalize_email email = to_lower (trim_space email)

abbrev pub or_placeholder : Text → Result User → Exec World User
or_placeholder email (ok user) = pure user
or_placeholder email (err not_found) = create_user email false
or_placeholder email (err e) = raise e

unfoldable pub find_or_create_user : Text → Exec World User
find_or_create_user email = do
  found ← attempt (find_user_by_email email)
  or_placeholder email found

abbrev pub email_or : Text → Option OwnerEntry → Text
email_or fallback none = fallback
email_or fallback (some o) = if text_eq o.email [] then fallback else o.email

-- The owner's email of a row: the mapped one, if it is there and not empty.
unfoldable pub owner_email_of : List OwnerEntry → Text → Text → Text
owner_email_of owners system_email keyword =
    email_or system_email (find (λ o. text_eq o.keyword keyword) owners)

-- INSERT ... ON CONFLICT (short_url_id, date) DO UPDATE SET click_count = EXCLUDED.click_count
unfoldable pub set_click_stats_total : ℕ → ℕ → ℕ → Exec World (Unit {0})
set_click_stats_total short_url_id date total = statement λ w.
    let row : DailyRow = record { short_url_id = short_url_id; date = date; click_count = total } in
    let is_row = λ (d : DailyRow). d.short_url_id == short_url_id && d.date == date in
    let rows = if any is_row w.daily then update is_row (λ _. row) w.daily else row ∷ w.daily in
    (ok tt, record w { daily = rows })

abbrev pub Tallied : Type 0
Tallied = World → Tally × World

abbrev pub fail : Tally → Tallied
fail s w = (record s { failed = s.failed + 1 }, w)

abbrev pub skip : Tally → Tallied
skip s w = (record s { skipped = s.skipped + 1 }, w)

-- The migration's own settings: its domain, its user, and the day that the counts are booked on.
pub record Target : Type 0 where
  pub domain_id : ℕ
  pub system_user_id : ℕ
  pub system_email : Text
  pub migrated_at : ℕ

abbrev pub migrated_row : Target → YourlsRow → ShortUrl
migrated_row t row = record {
  id = 0;
  domain_id = t.domain_id;
  short_code = row.keyword;
  long_url = row.url;
  title = row.title;
  description = [];
  created_by = t.system_user_id;
  status = Status.active;
  expires_at = none;
  source = Source.yourls_import;
  created_at = row.created_at;
}

-- A failure to set the clicks is logged, and the row counts as migrated.
unfoldable pub book_clicks : Target → YourlsRow → ℕ → Tally → Tallied
book_clicks t row id s w =
    let done = record s { migrated = s.migrated + 1 } in
    if ltb 0 row.clicks
    then (done, (set_click_stats_total id t.migrated_at row.clicks w).1)
    else (done, w)

abbrev pub after_grant : Target → YourlsRow → ℕ → Tally → Result (Unit {0}) × World → Tally × World
after_grant t row id s (ok _, w) = book_clicks t row id s w
after_grant t row id s (err e, w) = fail s w

abbrev pub after_insert : Target → YourlsRow → ℕ → Tally → Result ℕ × World → Tally × World
after_insert t row owner_id s (ok id, w) =
    after_grant t row id s (grant_owner id owner_id t.system_user_id w)
after_insert t row owner_id s (err already_exists, w) = skip s w
after_insert t row owner_id s (err e, w) = fail s w

unfoldable pub insert_row : Target → YourlsRow → ℕ → Tally → Tallied
insert_row t row owner_id s w =
    if is_reserved_short_code row.keyword
    then skip s w
    else after_insert t row owner_id s (insert_migrated_short_url (migrated_row t row) w)

abbrev pub after_owner : Target → YourlsRow → Text → Tally → Result User × World → Tally × World
after_owner t row key s (ok owner, w) =
    let entry : UserEntry = record { email = key; id = owner.id } in
    insert_row t row owner.id (record s { user_cache = entry ∷ s.user_cache }) w
after_owner t row key s (err e, w) = fail s w

abbrev pub with_owner : Target → YourlsRow → Text → Tally → Option UserEntry → Tallied
with_owner t row email s (some entry) w = insert_row t row entry.id s w
with_owner t row email s none w =
    after_owner t row (normalize_email email) s (find_or_create_user email w)

-- One round of the loop of `runMigration`.
unfoldable pub migrate_row : Target → List OwnerEntry → YourlsRow → Tally → Tallied
migrate_row t owners row s =
    let email = owner_email_of owners t.system_email row.keyword in
    with_owner t row email s (find (λ e. text_eq e.email (normalize_email email)) s.user_cache)

unfoldable pub migrate_rows : Target → List OwnerEntry → List YourlsRow → Tally → Tallied
migrate_rows t owners [] s w = (s, w)
migrate_rows t owners (row ∷ rows) s w =
    let (s', w') = migrate_row t owners row s w in migrate_rows t owners rows s' w'

-- 24 hours, in nanoseconds
abbrev pub truncate_day : ℕ → ℕ
truncate_day t = t / 86400000000000

unfoldable pub run_migration : ℕ → Text → List YourlsRow → List OwnerEntry → Exec World Tally
run_migration domain_id system_email rows owners w =
    (do
      system_user ← find_or_create_user system_email
      now ← gets (λ (v : World). v.clock)
      (λ (v : World).
          let t : Target = record {
            domain_id = domain_id;
            system_user_id = system_user.id;
            system_email = system_email;
            migrated_at = truncate_day now;
          } in
          let entry : UserEntry = record {
            email = normalize_email system_email;
            id = system_user.id;
          } in
          let (s, v') =
            migrate_rows t owners rows
              (record { migrated = 0; skipped = 0; failed = 0; user_cache = entry ∷ [] }) v in
          (ok s, v')))
      w
