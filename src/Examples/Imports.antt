-- ===== src/Examples/Imports.antt =====
-- A migration of a few YOURLS rows.
use knives.Prelude.{codes, ◌≡◌, [], ◌∷◌}
use knives.Migrate.{Target, YourlsRow, Tally, migrate_rows}
use knives.Migrate.Tallies.{tallied, migrate_rows_tally}
use knives.Examples.Data.{world}

abbrev target : Target
target = record {
  domain_id = 5;
  system_user_id = 1;
  system_email = codes "alice@x.org";
  migrated_at = 0;
}

abbrev row : YourlsRow
row = record {
  keyword = codes "old";
  url = codes "https://o.example/";
  title = [];
  created_at = 1;
  clicks = 4;
}

abbrev reserved : YourlsRow
reserved = record row { keyword = codes "API" }

abbrev taken : YourlsRow
taken = record row { keyword = codes "abc" }

abbrev start_tally : Tally
start_tally = record { migrated = 0; skipped = 0; failed = 0; user_cache = [] }

migrate_rows_tally_example :
    tallied (migrate_rows target [] (row ∷ reserved ∷ taken ∷ []) start_tally world).0 ≡ 3
migrate_rows_tally_example =
    migrate_rows_tally target [] (row ∷ reserved ∷ taken ∷ []) start_tally world
