-- ===== src/Worker/Delivery.antt =====
-- At-least-once delivery: what an acknowledged entry stands for.
use knives.Prelude.{
  true, ◌≡◌, ◌⊎◌, inl, inr, refl, not, ◌==◌, any, List, [], ◌∷◌, select, All, Bool-cases,
}
use knives.World.{failing}
use knives.World.Effects.{Result, ok, err}
use knives.World.Rows.{ShortUrl}
use knives.Clicks.{ClickEvent, ClickDb, is_known, record_batch}
use knives.Clicks.Success.{IsClear, record_batch-IsClear}
use knives.Clicks.Recording.{IsRecorded, record_batch_records}
use knives.Worker.{
  in_batch, Message, Parsers, Worker, parsed_events, acknowledge, acknowledge_recorded,
  record_events, process_batch,
}

-- Nothing was acknowledged; or the batch's entries were, and every event that they hold is recorded.
abbrev pub IsDelivered : List Message → List ClickEvent → Worker → Worker → Type 0
IsDelivered msgs evs w w' =
    (w'.pending ≡ w.pending)
    ⊎ (w'.pending ≡ select (λ m. not (any (λ (n : Message). n.id == m.id) msgs)) w.pending)
      × All (IsRecorded w'.db) evs

module _ (p : Parsers) where
  acknowledge_delivers :
      (msgs : List Message) (evs : List ClickEvent) (w : Worker)
      → All (IsRecorded w.db) evs
      → IsDelivered msgs evs w (acknowledge p msgs w)
  unfolding acknowledge
  acknowledge_delivers msgs evs w h = elim (Bool-cases (failing w.db.faults)) [
    | inl f ↦ inl (rw f)
    | inr f ↦ inr (rw f (refl, h))
  ]

  recorded_delivers :
      (msgs : List Message) (evs : List ClickEvent) (w : Worker) (r : Result (Unit {0}) × ClickDb)
      → (r.0 ≡ ok tt → All (IsRecorded r.1) evs)
      → IsDelivered msgs evs w (acknowledge_recorded p msgs w r)
  recorded_delivers msgs evs w (ok tt, db') h =
      acknowledge_delivers msgs evs (record w { db = db' }) (h refl)
  recorded_delivers msgs evs w (err e, db') h = inl refl

  events-IsDelivered :
      (msgs : List Message) (evs : List ClickEvent) (w : Worker)
      → IsDelivered msgs evs w (record_events p msgs evs w)
  events-IsDelivered msgs [] w = acknowledge_delivers msgs [] w tt
  events-IsDelivered msgs (ev ∷ evs) w =
      recorded_delivers msgs (ev ∷ evs) w (record_batch (ev ∷ evs) w.db)
        (record_batch_records (ev ∷ evs) w.db)

  -- Whatever calls fail, processing a batch either leaves every pending entry pending, or
  -- acknowledges the batch's entries with every event that could be parsed from them recorded.
  pub process_batch_delivers :
      (msgs : List Message) (w : Worker)
      → IsDelivered msgs (parsed_events p msgs) w (process_batch p msgs w)
  unfolding process_batch
  process_batch_delivers [] w = inl refl
  process_batch_delivers (msg ∷ msgs) w =
      events-IsDelivered (msg ∷ msgs) (parsed_events p (msg ∷ msgs)) w

  -- What is left pending of a batch's entries once they are acknowledged.
  abbrev pub unacknowledged : List Message → Worker → List Message
  unacknowledged msgs w = select (λ m. not (in_batch p msgs m)) w.pending

  acknowledged_clear :
      (urls : List ShortUrl) (msgs : List Message) (evs : List ClickEvent) (w : Worker)
      (r : Result (Unit {0}) × ClickDb)
      → (r.0 ≡ ok tt → All (IsRecorded r.1) evs)
      → IsClear urls (λ _. Unit {0}) r
      → ((acknowledge_recorded p msgs w r).pending ≡ unacknowledged msgs w)
        × All (IsRecorded (acknowledge_recorded p msgs w r).db) evs
  unfolding acknowledge
  acknowledged_clear urls msgs evs w (ok _, db') h clear = rw clear.0.0 (refl, h refl)
  acknowledged_clear urls msgs evs w (err e, db') h clear = cc

  events_acknowledged :
      (msgs : List Message) (evs : List ClickEvent) (w : Worker)
      → w.db.faults ≡ []
      → All (λ (ev : ClickEvent). is_known w.db ev.short_url_id ≡ true) evs
      → ((record_events p msgs evs w).pending ≡ unacknowledged msgs w)
        × All (IsRecorded (record_events p msgs evs w).db) evs
  unfolding acknowledge
  events_acknowledged msgs [] w clear known = rw clear (refl, tt)
  events_acknowledged msgs (ev ∷ evs) w clear known =
      acknowledged_clear w.db.short_urls msgs (ev ∷ evs) w (record_batch (ev ∷ evs) w.db)
        (record_batch_records (ev ∷ evs) w.db)
        (record_batch-IsClear w.db.short_urls (ev ∷ evs) w.db known (clear, refl))

  -- Where no call fails and every event that can be parsed from the batch is of a short URL of the
  -- table, a batch with an entry is processed to its end: its entries, those that cannot be parsed
  -- included, are pending no longer, other entries are as they were, and every event that could be
  -- parsed is recorded.
  pub process_batch_completes :
      (msg : Message) (msgs : List Message) (w : Worker)
      → w.db.faults ≡ []
      → All
          (λ (ev : ClickEvent). is_known w.db ev.short_url_id ≡ true)
          (parsed_events p (msg ∷ msgs))
      → let w' = process_batch p (msg ∷ msgs) w in
        (w'.pending ≡ unacknowledged (msg ∷ msgs) w)
        × All (IsRecorded w'.db) (parsed_events p (msg ∷ msgs))
  unfolding process_batch
  process_batch_completes msg msgs w =
      events_acknowledged (msg ∷ msgs) (parsed_events p (msg ∷ msgs)) w
