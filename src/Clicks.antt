-- ===== src/Clicks.antt =====
-- internal/stats/click_recorder.go over internal/storage/click_event_store.go and
-- click_events.sql.go: click events become rows once each, and a daily count of them.
pub mod Counting
pub mod Recording
pub mod Success
use knives.Prelude.{
  ℕ, ◌+◌, ◌/◌, Text, String, Bool, true, false, ◌&&◌, ◌||◌, ◌==◌, if◌then◌else◌, List, [], ◌∷◌, any,
  update,
}
use knives.World.{failing, later}
pub use knives.World.Rows.{ClickEvent, DailyRow}
use knives.World.Rows.{ShortUrl}
use knives.Storage.Links.{url_has_id}
use knives.World.Effects.{Exec, ok, err, pure, ◌>>=◌, ◌>>◌, db_error, fk_violation}

-- click_events and click_stats_daily, the rows of short_urls that both refer to, and which of the
-- coming calls fail.
pub record ClickDb : Type 0 where
  pub events : List ClickEvent
  pub daily : List DailyRow
  pub short_urls : List ShortUrl
  pub faults : List Bool

-- 24 hours, in nanoseconds
abbrev pub day_length : ℕ
day_length = 86400000000000

-- ev.ClickedAt.UTC().Truncate(24 * time.Hour), for times counted from a midnight.
abbrev pub day_of : ℕ → ℕ
day_of t = t / day_length

unfoldable pub click_statement : {A : Type 0} → Exec ClickDb A → Exec ClickDb A
click_statement op w =
    let w' : ClickDb = record w { faults = later w.faults } in
    if failing w.faults then (err db_error, w') else op w'

abbrev pub same_event : ClickEvent → ClickEvent → Bool
same_event ev row = row.clicked_at == ev.clicked_at && row.stream_id == ev.stream_id

-- The foreign key to short_urls.
abbrev pub is_known : ClickDb → ℕ → Bool
is_known w short_url_id = any (url_has_id short_url_id) w.short_urls

-- INSERT ... ON CONFLICT (clicked_at, stream_id) DO NOTHING; whether a row was inserted. Only a row
-- that is inserted is tested by the foreign key.
unfoldable pub insert_click_event : ClickEvent → Exec ClickDb Bool
insert_click_event ev = click_statement λ w.
    if any (same_event ev) w.events
    then (ok false, w)
    else if is_known w ev.short_url_id
    then (ok true, record w { events = ev ∷ w.events })
    else (err fk_violation, w)

abbrev pub is_daily : ℕ → ℕ → DailyRow → Bool
is_daily short_url_id date row = row.short_url_id == short_url_id && row.date == date

-- Adding to the row of a key, or making it: the map of a batch and the table's upsert alike.
unfoldable pub add_count : ℕ → ℕ → ℕ → List DailyRow → List DailyRow
add_count short_url_id date delta [] =
    record { short_url_id = short_url_id; date = date; click_count = delta } ∷ []
add_count short_url_id date delta (row ∷ rows) =
    let rest = add_count short_url_id date delta rows in
    if is_daily short_url_id date row
    then record row { click_count = row.click_count + delta } ∷ rows
    else row ∷ rest

-- INSERT ... ON CONFLICT (short_url_id, date) DO UPDATE: a row that is there refers to a short URL.
unfoldable pub upsert_daily_count : DailyRow → Exec ClickDb (Unit {0})
upsert_daily_count d = click_statement λ w.
    if any (is_daily d.short_url_id d.date) w.daily || is_known w d.short_url_id
    then (ok tt, record w { daily = add_count d.short_url_id d.date d.click_count w.daily })
    else (err fk_violation, w)

abbrev pub bump : Bool → ClickEvent → List DailyRow → List DailyRow
bump true ev deltas = add_count ev.short_url_id (day_of ev.clicked_at) 1 deltas
bump false ev deltas = deltas

-- The first loop of `RecordBatch`: the deltas of the events that this call inserted.
unfoldable pub insert_events : List ClickEvent → List DailyRow → Exec ClickDb (List DailyRow)
insert_events [] deltas w = (ok deltas, w)
insert_events (ev ∷ evs) deltas w =
    (insert_click_event ev >>= λ inserted.
    λ (w' : ClickDb). insert_events evs (bump inserted ev deltas) w')
      w

-- The second loop: Go visits the map's entries in some order, here that of their first events.
unfoldable pub upsert_deltas : List DailyRow → Exec ClickDb (Unit {0})
upsert_deltas [] w = (ok tt, w)
upsert_deltas (d ∷ ds) w = (upsert_daily_count d >> λ (w' : ClickDb). upsert_deltas ds w') w

unfoldable pub record_batch : List ClickEvent → Exec ClickDb (Unit {0})
record_batch events = do deltas ← insert_events events []; upsert_deltas deltas
