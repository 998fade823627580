-- ===== src/Clicks/Recording.antt =====
-- A batch that succeeds has recorded every event of it.
use knives.Prelude.{◌≡◌, refl, sym, subst, Bool, true, List, [], ◌∷◌, any, All, arith, ==_refl}
use knives.World.Effects.{Result, ok, err, next}
use knives.Clicks.{
  ClickEvent, DailyRow, ClickDb, bump, insert_click_event, insert_events, upsert_deltas,
  record_batch, click_statement, same_event,
}
use knives.Clicks.Counting.{upsert_deltas_events}

-- The event is among the rows.
abbrev pub IsRecorded : ClickDb → ClickEvent → Type 0
IsRecorded w ev = any (same_event ev) w.events ≡ true

insert_keeps :
    (other ev : ClickEvent) (w : ClickDb)
    → IsRecorded w other
    → IsRecorded (insert_click_event ev w).1 other
unfolding insert_click_event click_statement any
insert_keeps other ev w h = ground arith

insert_records :
    (ev : ClickEvent) (w : ClickDb) (b : Bool)
    → (insert_click_event ev w).0 ≡ ok b
    → IsRecorded (insert_click_event ev w).1 ev
unfolding insert_click_event click_statement any
insert_records ev w b h = ground (arith, ==_refl ev.clicked_at, ==_refl ev.stream_id)

next_keeps_event :
    (other : ClickEvent) (k : Bool → ClickDb → Result (List DailyRow) × ClickDb)
    (r : Result Bool × ClickDb)
    → IsRecorded r.1 other
    → ((b : Bool) (v : ClickDb) → IsRecorded v other → IsRecorded (k b v).1 other)
    → IsRecorded (next k r).1 other
next_keeps_event other k (ok b, v) h go = go b v h
next_keeps_event other k (err e, v) h go = h

insert_events_keeps :
    (other : ClickEvent) (evs : List ClickEvent) (deltas : List DailyRow) (w : ClickDb)
    → IsRecorded w other
    → IsRecorded (insert_events evs deltas w).1 other
unfolding insert_events
insert_events_keeps other [] deltas w h = h
insert_events_keeps other (ev ∷ evs) deltas w h =
    next_keeps_event other (λ b v. insert_events evs (bump b ev deltas) v) (insert_click_event ev w)
      (insert_keeps other ev w h) (λ b v. insert_events_keeps other evs (bump b ev deltas) v)

abbrev AllIn : List ClickEvent → Result (List DailyRow) × ClickDb → Type 0
AllIn evs (ok ds, v) = All (IsRecorded v) evs
AllIn evs (err e, v) = Unit

AllIn-cons :
    (ev : ClickEvent) (evs : List ClickEvent) (r : Result (List DailyRow) × ClickDb)
    → IsRecorded r.1 ev
    → AllIn evs r
    → AllIn (ev ∷ evs) r
AllIn-cons ev evs (ok ds, v) h a = (h, a)
AllIn-cons ev evs (err e, v) h a = tt

next-AllIn :
    (ev : ClickEvent) (evs : List ClickEvent)
    (k : Bool → ClickDb → Result (List DailyRow) × ClickDb) (r : Result Bool × ClickDb)
    → ((b : Bool) → r.0 ≡ ok b → IsRecorded r.1 ev)
    → ((b : Bool) (v : ClickDb) → IsRecorded v ev → IsRecorded (k b v).1 ev)
    → ((b : Bool) (v : ClickDb) → AllIn evs (k b v))
    → AllIn (ev ∷ evs) (next k r)
next-AllIn ev evs k (ok b, v) new keep rest =
    AllIn-cons ev evs (k b v) (keep b v (new b refl)) (rest b v)
next-AllIn ev evs k (err e, v) new keep rest = tt

insert_events_records :
    (evs : List ClickEvent) (deltas : List DailyRow) (w : ClickDb)
    → AllIn evs (insert_events evs deltas w)
unfolding insert_events
insert_events_records [] deltas w = tt
insert_events_records (ev ∷ evs) deltas w =
    next-AllIn ev evs (λ b v. insert_events evs (bump b ev deltas) v) (insert_click_event ev w)
      (insert_records ev w) (λ b v. insert_events_keeps ev evs (bump b ev deltas) v)
      (λ b v. insert_events_records evs (bump b ev deltas) v)

upserts-AllIn :
    (evs : List ClickEvent) (r : Result (List DailyRow) × ClickDb)
    → AllIn evs r
    → (next upsert_deltas r).0 ≡ ok tt
    → All (IsRecorded (next upsert_deltas r).1) evs
upserts-AllIn evs (ok ds, v) a h =
    subst
      (λ (rows : List ClickEvent). All (λ (ev : ClickEvent). any (same_event ev) rows ≡ true) evs)
      (sym (upsert_deltas_events ds v)) a
upserts-AllIn evs (err e, v) a h = cc

-- Where `RecordBatch` succeeds every event of the batch is among the recorded ones.
pub record_batch_records :
    (evs : List ClickEvent) (w : ClickDb)
    → (record_batch evs w).0 ≡ ok tt
    → All (IsRecorded (record_batch evs w).1) evs
unfolding record_batch
record_batch_records evs w h =
    upserts-AllIn evs (insert_events evs [] w) (insert_events_records evs [] w) h

upserts_keep :
    (other : ClickEvent) (r : Result (List DailyRow) × ClickDb)
    → IsRecorded r.1 other
    → IsRecorded (next upsert_deltas r).1 other
upserts_keep other (ok ds, v) h = rw (upsert_deltas_events ds v) h
upserts_keep other (err e, v) h = h

-- An event that is recorded stays so, whatever batch comes and whatever calls fail.
pub record_batch_keeps :
    (other : ClickEvent) (evs : List ClickEvent) (w : ClickDb)
    → IsRecorded w other
    → IsRecorded (record_batch evs w).1 other
unfolding record_batch
record_batch_keeps other evs w h =
    upserts_keep other (insert_events evs [] w) (insert_events_keeps other evs [] w h)
