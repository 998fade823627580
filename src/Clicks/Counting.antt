-- ===== src/Clicks/Counting.antt =====
-- The daily counts against the recorded events.
use knives.Prelude.{
  ℕ, ◌+◌, ◌≤◌, ◌≡◌, ◌⊎◌, ◌∙◌, refl, Bool, true, false, ◌==◌, ◌&&◌, List, [], ◌∷◌, any, count,
  if◌then◌else◌, arith,
}
use knives.World.Effects.{Result, ok, err, db_error, fk_violation, next}
use knives.Clicks.{
  ClickEvent, DailyRow, ClickDb, day_of, is_daily, add_count, bump, insert_click_event,
  upsert_daily_count, insert_events, upsert_deltas, record_batch, click_statement, same_event,
  is_known,
}

-- What the rows count for a short URL on a day.
unfoldable pub total : ℕ → ℕ → List DailyRow → ℕ
total url date [] = 0
total url date (row ∷ rows) =
    let rest = total url date rows in if is_daily url date row then row.click_count + rest else rest

abbrev pub is_click : ℕ → ℕ → ClickEvent → Bool
is_click url date ev = ev.short_url_id == url && day_of ev.clicked_at == date

-- The recorded clicks of a short URL on a day.
abbrev pub clicks : ℕ → ℕ → List ClickEvent → ℕ
clicks url date = count (is_click url date)

abbrev on_key : ℕ → ℕ → ℕ → ℕ → ℕ → ℕ
on_key url date u d n = if u == url && d == date then n else 0

total-add_count :
    (url date u d n : ℕ) (rows : List DailyRow)
    → total url date (add_count u d n rows) ≡ total url date rows + on_key url date u d n
unfolding total add_count
total-add_count url date u d n [] = ground arith
total-add_count url date u d n (row ∷ rows) = ground (arith, total-add_count url date u d n rows)

module _ (url date : ℕ) where
  abbrev pub counted : ClickDb → ℕ
  counted w = total url date w.daily

  abbrev pub recorded : ClickDb → ℕ
  recorded w = clicks url date w.events

  insert_step :
      (ev : ClickEvent) (w : ClickDb)
      → ((insert_click_event ev w).1.daily ≡ w.daily)
        × (((insert_click_event ev w).0 ≡ ok true)
              × (recorded (insert_click_event ev w).1
                  ≡ recorded w + on_key url date ev.short_url_id (day_of ev.clicked_at) 1)
            ⊎ ((insert_click_event ev w).0 ≡ ok false)
              × (recorded (insert_click_event ev w).1 ≡ recorded w)
            ⊎ ((insert_click_event ev w).0 ≡ err db_error)
              × (recorded (insert_click_event ev w).1 ≡ recorded w)
            ⊎ ((insert_click_event ev w).0 ≡ err fk_violation)
              × (recorded (insert_click_event ev w).1 ≡ recorded w))
  unfolding insert_click_event click_statement count
  insert_step ev w = ground arith

  -- The events that a batch adds are those that its deltas count.
  abbrev Inserted : List DailyRow → ClickDb → Result (List DailyRow) × ClickDb → Type 0
  Inserted deltas w (ok ds, w') =
      (w'.daily ≡ w.daily) × (recorded w' + total url date deltas ≡ recorded w + total url date ds)
  Inserted deltas w (err e, w') = (w'.daily ≡ w.daily) × (recorded w ≤ recorded w')

  -- One more event in front of a batch.
  Inserted-bump :
      (b : Bool) (ev : ClickEvent) (deltas : List DailyRow) (w v : ClickDb)
      (r : Result (List DailyRow) × ClickDb)
      → v.daily ≡ w.daily
      → recorded v
        ≡ recorded w + (if b then on_key url date ev.short_url_id (day_of ev.clicked_at) 1 else 0)
      → Inserted (bump b ev deltas) v r
      → Inserted deltas w r
  Inserted-bump true ev deltas w v (ok ds, v') same more (e, f) = (
    e ∙ same,
    omega (arith, total-add_count url date ev.short_url_id (day_of ev.clicked_at) 1 deltas),
  )
  Inserted-bump false ev deltas w v (ok ds, v') same more (e, f) = (e ∙ same, omega arith)
  Inserted-bump true ev deltas w v (err x, v') same more (e, f) = (e ∙ same, omega arith)
  Inserted-bump false ev deltas w v (err x, v') same more (e, f) = (e ∙ same, omega arith)

  abbrev Step : ClickEvent → ClickDb → Result Bool × ClickDb → Type 0
  Step ev w r =
      (r.1.daily ≡ w.daily)
      × ((r.0 ≡ ok true)
            × (recorded r.1 ≡ recorded w + on_key url date ev.short_url_id (day_of ev.clicked_at) 1)
          ⊎ (r.0 ≡ ok false) × (recorded r.1 ≡ recorded w)
          ⊎ (r.0 ≡ err db_error) × (recorded r.1 ≡ recorded w)
          ⊎ (r.0 ≡ err fk_violation) × (recorded r.1 ≡ recorded w))

  next-Inserted :
      (ev : ClickEvent) (deltas : List DailyRow) (w : ClickDb)
      (k : Bool → ClickDb → Result (List DailyRow) × ClickDb) (r : Result Bool × ClickDb)
      → Step ev w r
      → ((b : Bool) (v : ClickDb) → Inserted (bump b ev deltas) v (k b v))
      → Inserted deltas w (next k r)
  next-Inserted ev deltas w k (ok true, v) step go =
      Inserted-bump true ev deltas w v (k true v) step.0 (ground (arith, step.1)) (go true v)
  next-Inserted ev deltas w k (ok false, v) step go =
      Inserted-bump false ev deltas w v (k false v) step.0 (ground (arith, step.1)) (go false v)
  next-Inserted ev deltas w k (err e, v) step go = (step.0, ground (arith, step.1))

  insert_events_lem :
      (evs : List ClickEvent) (deltas : List DailyRow) (w : ClickDb)
      → Inserted deltas w (insert_events evs deltas w)
  unfolding insert_events
  insert_events_lem [] deltas w = (refl, refl)
  insert_events_lem (ev ∷ evs) deltas w =
      next-Inserted ev deltas w (λ b v. insert_events evs (bump b ev deltas) v)
        (insert_click_event ev w) (insert_step ev w)
        (λ b v. insert_events_lem evs (bump b ev deltas) v)

  -- The upserts of a batch add its deltas: all of them, or some where a call fails.
  abbrev Upserted : List DailyRow → ClickDb → Result (Unit {0}) × ClickDb → Type 0
  Upserted ds w (ok _, w') = (w'.events ≡ w.events) × (counted w' ≡ counted w + total url date ds)
  Upserted ds w (err e, w') = (w'.events ≡ w.events) × (counted w' ≤ counted w + total url date ds)

  abbrev UpsertStep : DailyRow → ClickDb → Result (Unit {0}) × ClickDb → Type 0
  UpsertStep d w r =
      (r.1.events ≡ w.events)
      × ((r.0 ≡ ok tt)
            × (counted r.1 ≡ counted w + on_key url date d.short_url_id d.date d.click_count)
          ⊎ (r.0 ≡ err db_error) × (counted r.1 ≡ counted w)
          ⊎ (r.0 ≡ err fk_violation) × (counted r.1 ≡ counted w))

  upsert_step : (d : DailyRow) (w : ClickDb) → UpsertStep d w (upsert_daily_count d w)
  unfolding upsert_daily_count click_statement
  upsert_step d w =
      ground (arith, total-add_count url date d.short_url_id d.date d.click_count w.daily)

  Upserted-cons :
      (d : DailyRow) (ds : List DailyRow) (w v : ClickDb) (r : Result (Unit {0}) × ClickDb)
      → v.events ≡ w.events
      → counted v ≡ counted w + on_key url date d.short_url_id d.date d.click_count
      → Upserted ds v r
      → Upserted (d ∷ ds) w r
  unfolding total
  Upserted-cons d ds w v (ok tt, v') same more (e, f) = (e ∙ same, ground arith)
  Upserted-cons d ds w v (err x, v') same more (e, f) = (e ∙ same, ground arith)

  next-Upserted :
      (d : DailyRow) (ds : List DailyRow) (w : ClickDb) (k : ClickDb → Result (Unit {0}) × ClickDb)
      (r : Result (Unit {0}) × ClickDb)
      → UpsertStep d w r
      → ((v : ClickDb) → Upserted ds v (k v))
      → Upserted (d ∷ ds) w (next (λ _. k) r)
  next-Upserted d ds w k (ok tt, v) step go =
      Upserted-cons d ds w v (k v) step.0 (ground (arith, step.1)) (go v)
  next-Upserted d ds w k (err e, v) step go = (step.0, ground (arith, step.1))

  upsert_deltas_lem : (ds : List DailyRow) (w : ClickDb) → Upserted ds w (upsert_deltas ds w)
  unfolding upsert_deltas total
  upsert_deltas_lem [] w = (refl, omega arith)
  upsert_deltas_lem (d ∷ ds) w =
      next-Upserted d ds w (upsert_deltas ds) (upsert_daily_count d w) (upsert_step d w)
        (upsert_deltas_lem ds)

  -- What a batch does to the count of one short URL on one day.
  abbrev pub Batched : ClickDb → Result (Unit {0}) × ClickDb → Type 0
  Batched w (ok _, w') = counted w' + recorded w ≡ counted w + recorded w'
  Batched w (err e, w') = counted w' + recorded w ≤ counted w + recorded w'

  upserts-Batched :
      (w v : ClickDb) (ds : List DailyRow) (r : Result (Unit {0}) × ClickDb)
      → Inserted [] w (ok ds, v)
      → Upserted ds v r
      → Batched w r
  unfolding total
  upserts-Batched w v ds (ok _, v') (e, f) (g, h) = ground arith
  upserts-Batched w v ds (err x, v') (e, f) (g, h) = ground arith

  inserts-Batched :
      (w : ClickDb) (r : Result (List DailyRow) × ClickDb)
      → Inserted [] w r
      → Batched w (next upsert_deltas r)
  inserts-Batched w (ok ds, v) i =
      upserts-Batched w v ds (upsert_deltas ds v) i (upsert_deltas_lem ds v)
  inserts-Batched w (err x, v) (e, f) = ground arith

  -- For each short URL and day, a batch that succeeds raises the daily count by as many clicks as
  -- it added to the recorded events, so redelivered and repeated events are not counted; one that
  -- fails raises it by at most as many. It holds whatever calls fail.
  pub record_batch_counts : (evs : List ClickEvent) (w : ClickDb) → Batched w (record_batch evs w)
  unfolding record_batch
  record_batch_counts evs w =
      inserts-Batched w (insert_events evs [] w) (insert_events_lem evs [] w)

-- An event of a short URL whose daily count could not be written is not counted later: where the call after its
-- insertion fails, the delivery is an error, the event is recorded, and its redelivery, with no
-- call failing, succeeds and leaves the daily counts as they were before the first delivery.
failed_upsert_undercounts :
    (ev : ClickEvent) (w : ClickDb)
    → w.faults ≡ false ∷ true ∷ []
    → any (same_event ev) w.events ≡ false
    → is_known w ev.short_url_id ≡ true
    → let first = record_batch (ev ∷ []) w in
      let second = record_batch (ev ∷ []) first.1 in
      (first.0 ≡ err db_error)
      × (first.1.events ≡ ev ∷ w.events)
      × (second.0 ≡ ok tt)
      × (second.1.daily ≡ w.daily)
unfolding record_batch insert_events insert_click_event upsert_deltas upsert_daily_count add_count
    click_statement any
failed_upsert_undercounts ev w clear new known = ground arith

-- The second loop leaves the events alone.
pub upsert_deltas_events :
    (ds : List DailyRow) (w : ClickDb) → (upsert_deltas ds w).1.events ≡ w.events
upsert_deltas_events ds w = events_of (upsert_deltas ds w) (upsert_deltas_lem 0 0 ds w)
  where
    events_of : (r : Result (Unit {0}) × ClickDb) → Upserted 0 0 ds w r → r.1.events ≡ w.events
    events_of (ok _, v) u = u.0
    events_of (err e, v) u = u.0
