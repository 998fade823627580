-- ===== src/Clicks/Success.antt =====
-- A batch of clicks of known short URLs, whose calls all succeed.
use knives.Prelude.{ℕ, ◌≡◌, Bool, true, false, List, [], ◌∷◌, any, All, Bool-cases, inl, inr, arith}
use knives.World.Effects.{Result, ok, err, next}
use knives.World.Rows.{ShortUrl}
use knives.Storage.Links.{url_has_id}
use knives.Clicks.{
  ClickEvent, DailyRow, ClickDb, is_daily, add_count, day_of, bump, insert_click_event,
  upsert_daily_count, insert_events, upsert_deltas, record_batch, click_statement,
}

module _ (urls : List ShortUrl) where
  abbrev pub IsUrl : ℕ → Type 0
  IsUrl id = any (url_has_id id) urls ≡ true

  -- No later call is going to fail, and those are the short URLs.
  abbrev pub IsReady : ClickDb → Type 0
  IsReady w = (w.faults ≡ []) × (w.short_urls ≡ urls)

  -- An action returned a value of which `P` holds.
  abbrev pub IsClear : {A : Type 0} → (A → Type 0) → Result A × ClickDb → Type 0
  IsClear P (ok a, w) = IsReady w × P a
  IsClear P (err e, w) = true ≡ false

  next-IsClear :
      {A B : Type 0} (P : A → Type 0) (Q : B → Type 0) (k : A → ClickDb → Result B × ClickDb)
      (r : Result A × ClickDb)
      → IsClear P r
      → ((a : A) (w : ClickDb) → P a → IsReady w → IsClear Q (k a w))
      → IsClear Q (next k r)
  next-IsClear P Q k (ok a, w) h go = go a w h.1 h.0
  next-IsClear P Q k (err e, w) h go = cc

  insert-IsClear :
      (ev : ClickEvent) (w : ClickDb)
      → IsUrl ev.short_url_id
      → IsReady w
      → IsClear (λ _. Unit {0}) (insert_click_event ev w)
  unfolding insert_click_event click_statement
  insert-IsClear ev w known (f, u) = ground arith

  -- The rows of a batch are of known short URLs.
  abbrev Counts : List DailyRow → Type 0
  Counts = All (λ (d : DailyRow). IsUrl d.short_url_id)

  add_count-Counts :
      (id date n : ℕ) (rows : List DailyRow)
      → IsUrl id
      → Counts rows
      → Counts (add_count id date n rows)
  unfolding add_count
  add_count-Counts id date n [] known h = (known, tt)
  add_count-Counts id date n (row ∷ rows) known h = elim (Bool-cases (is_daily id date row)) [
    | inl e ↦ rw e h
    | inr e ↦ rw e (h.0, add_count-Counts id date n rows known h.1)
  ]

  bump-Counts :
      (b : Bool) (ev : ClickEvent) (deltas : List DailyRow)
      → IsUrl ev.short_url_id
      → Counts deltas
      → Counts (bump b ev deltas)
  bump-Counts true ev deltas known h =
      add_count-Counts ev.short_url_id (day_of ev.clicked_at) 1 deltas known h
  bump-Counts false ev deltas known h = h

  insert_events-IsClear :
      (evs : List ClickEvent) (deltas : List DailyRow) (w : ClickDb)
      → All (λ (ev : ClickEvent). IsUrl ev.short_url_id) evs
      → Counts deltas
      → IsReady w
      → IsClear Counts (insert_events evs deltas w)
  unfolding insert_events
  insert_events-IsClear [] deltas w known h ready = (ready, h)
  insert_events-IsClear (ev ∷ evs) deltas w known h ready =
      next-IsClear (λ _. Unit {0}) Counts _ (insert_click_event ev w)
        (insert-IsClear ev w known.0 ready)
        (λ b v _.
          insert_events-IsClear evs (bump b ev deltas) v known.1
            (bump-Counts b ev deltas known.0 h))

  upsert-IsClear :
      (d : DailyRow) (w : ClickDb)
      → IsUrl d.short_url_id
      → IsReady w
      → IsClear (λ _. Unit {0}) (upsert_daily_count d w)
  unfolding upsert_daily_count click_statement
  upsert-IsClear d w known (f, u) = ground arith

  upsert_deltas-IsClear :
      (ds : List DailyRow) (w : ClickDb)
      → Counts ds
      → IsReady w
      → IsClear (λ _. Unit {0}) (upsert_deltas ds w)
  unfolding upsert_deltas
  upsert_deltas-IsClear [] w h ready = (ready, tt)
  upsert_deltas-IsClear (d ∷ ds) w h ready =
      next-IsClear (λ _. Unit {0}) (λ _. Unit {0}) _ (upsert_daily_count d w)
        (upsert-IsClear d w h.0 ready) (λ _ v _. upsert_deltas-IsClear ds v h.1)

  -- Where no call fails a batch of clicks of known short URLs is recorded.
  pub record_batch-IsClear :
      (evs : List ClickEvent) (w : ClickDb)
      → All (λ (ev : ClickEvent). IsUrl ev.short_url_id) evs
      → IsReady w
      → IsClear (λ _. Unit {0}) (record_batch evs w)
  unfolding record_batch
  record_batch-IsClear evs w known ready =
      next-IsClear Counts (λ _. Unit {0}) upsert_deltas (insert_events evs [] w)
        (insert_events-IsClear evs [] w known tt ready) (λ ds v. upsert_deltas-IsClear ds v)
