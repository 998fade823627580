-- ===== src/Worker/Reclaim.antt =====
-- `reclaimStaleEntries` of cmd/worker/consumer.go: the sweep over the entries that were read and
-- not acknowledged, and what it leaves.
use knives.Prelude.{
  ℕ, zero, suc, ◌+◌, ◌≤◌, ◌<◌, ◌≡◌, ◌≢◌, ◌⊎◌, inl, inr, refl, sym, subst, Bool, true, false, not,
  ◌||◌, ◌==◌, ==_iff, if◌then◌else◌, List, [], ◌∷◌, Option, none, some, any, any-select, All,
  Bool-cases, arith,
}
use knives.World.Effects.{Result, ok, err}
use knives.Clicks.{ClickEvent, ClickDb, record_batch}
use knives.Clicks.Recording.{IsRecorded, record_batch_keeps}
use knives.Worker.{
  Message, Parsers, Worker, parsed_events, parse_click_event, cons_event, acknowledge,
  acknowledge_recorded, record_events, process_batch,
}
use knives.Worker.Delivery.{process_batch_delivers}

-- What Redis answers XAUTOCLAIM with, by the rounds that are left and the cursor: the entries that
-- it claims and the next cursor, where 0 stands for "0-0". `none` is a failed call.
abbrev pub AutoClaim : Type 0
AutoClaim = ℕ → ℕ → Option (List Message × ℕ)

abbrev pub is_empty_batch : List Message → Bool
is_empty_batch [] = true
is_empty_batch (m ∷ ms) = false

module _ (p : Parsers) where
  abbrev pub claimed :
      (ℕ → Worker → Option Worker) → Option (List Message × ℕ) → Worker → Option Worker
  claimed again none w = some w
  claimed again (some (msgs, next)) w =
      let w' = process_batch p msgs w in
      if next == 0 || is_empty_batch msgs then some w' else again next w'

  module _ (claim : AutoClaim) where
    -- `none` is a sweep that runs for more rounds than are left.
    unfoldable pub reclaim_stale_entries : ℕ → ℕ → Worker → Option Worker
    reclaim_stale_entries zero start w = none
    reclaim_stale_entries (suc rounds) start w =
        claimed (reclaim_stale_entries rounds) (claim rounds start) w

-- What Redis documents: the cursor moves on along the stream's ids, up to the last one, and the
-- entries that are claimed are those of the stream.
pub record IsScan (entry : ℕ → Message) (last : ℕ) (claim : AutoClaim) : Type 0 where
  pub advances :
      (rounds start : ℕ) (msgs : List Message) (next : ℕ)
      → claim rounds start ≡ some (msgs, next)
      → next ≢ 0
      → (start < next) × (next ≤ last)
  pub entries :
      (rounds start : ℕ) (msgs : List Message) (next : ℕ)
      → claim rounds start ≡ some (msgs, next)
      → All (λ (m : Message). m ≡ entry m.id) msgs

module _ (p : Parsers) (entry : ℕ → Message) where
  -- The entry waits to be acknowledged, or the event that it holds is recorded.
  abbrev pub IsKept : ℕ → Worker → Type 0
  IsKept id w =
      (any (λ (m : Message). m.id == id) w.pending ≡ true)
      ⊎ All (IsRecorded w.db) (parsed_events p (entry id ∷ []))

  acknowledge_events :
      (msgs : List Message) (w : Worker) → (acknowledge p msgs w).db.events ≡ w.db.events
  unfolding acknowledge
  acknowledge_events msgs w = ground arith

  acknowledge_keeps :
      (ev : ClickEvent) (msgs : List Message) (w : Worker) (r : Result (Unit {0}) × ClickDb)
      → IsRecorded r.1 ev
      → IsRecorded (acknowledge_recorded p msgs w r).db ev
  acknowledge_keeps ev msgs w (ok _, db') h = rw (acknowledge_events msgs (record w { db = db' })) h
  acknowledge_keeps ev msgs w (err e, db') h = h

  events_keep :
      (ev : ClickEvent) (msgs : List Message) (evs : List ClickEvent) (w : Worker)
      → IsRecorded w.db ev
      → IsRecorded (record_events p msgs evs w).db ev
  events_keep ev msgs [] w h = rw (acknowledge_events msgs w) h
  events_keep ev msgs (e ∷ evs) w h =
      acknowledge_keeps ev msgs w (record_batch (e ∷ evs) w.db)
        (record_batch_keeps ev (e ∷ evs) w.db h)

  process_batch_keeps :
      (ev : ClickEvent) (msgs : List Message) (w : Worker)
      → IsRecorded w.db ev
      → IsRecorded (process_batch p msgs w).db ev
  unfolding process_batch
  process_batch_keeps ev [] w h = h
  process_batch_keeps ev (m ∷ ms) w h = events_keep ev (m ∷ ms) (parsed_events p (m ∷ ms)) w h

  one-All :
      (R : ClickEvent → Type 0) (o : Option ClickEvent) (evs : List ClickEvent)
      → All R (cons_event p o evs)
      → All R (cons_event p o []) × All R evs
  one-All R none evs h = (tt, h)
  one-All R (some ev) evs h = ((h.0, tt), h.1)

  -- The event of an entry is among those of a batch that holds it.
  parsed_one :
      (R : ClickEvent → Type 0) (id : ℕ) (msgs : List Message)
      → All (λ (m : Message). m ≡ entry m.id) msgs
      → any (λ (m : Message). m.id == id) msgs ≡ true
      → All R (parsed_events p msgs)
      → All R (parsed_events p (entry id ∷ []))
  unfolding any parsed_events
  parsed_one R id [] known here h = cc
  parsed_one R id (m ∷ ms) known here h =
      let (one, rest) = one-All R (parse_click_event p m) (parsed_events p ms) h in
      elim (Bool-cases (m.id == id)) [
        | inl it ↦
            let same : m ≡ entry id = cc (known.0, (==_iff m.id id).0 it) in
            subst (λ n. All R (cons_event p (parse_click_event p n) [])) same one
        | inr other ↦ parsed_one R id ms known.1 (ground (arith, other, here)) rest
      ]

  other_id :
      (id : ℕ) (msgs : List Message) (m : Message)
      → any (λ (n : Message). n.id == id) msgs ≡ false
      → (m.id == id) ≡ true
      → not (any (λ (n : Message). n.id == m.id) msgs) ≡ true
  other_id id msgs m absent it =
      subst (λ k. not (any (λ (n : Message). n.id == k) msgs) ≡ true) (sym ((==_iff m.id id).0 it))
        (rw absent refl)

  pub process_batch-IsKept :
      (id : ℕ) (msgs : List Message) (w : Worker)
      → All (λ (m : Message). m ≡ entry m.id) msgs
      → IsKept id w
      → IsKept id (process_batch p msgs w)
  unfolding parse_click_event parsed_events
  process_batch-IsKept id msgs w known (inr h) = inr (one_keeps (parse_click_event p (entry id)) h)
    where
      one_keeps :
          (o : Option ClickEvent)
          → All (IsRecorded w.db) (cons_event p o [])
          → All (IsRecorded (process_batch p msgs w).db) (cons_event p o [])
      one_keeps none h = tt
      one_keeps (some ev) h = (process_batch_keeps ev msgs w h.0, tt)
  process_batch-IsKept id msgs w known (inl h) = elim (process_batch_delivers p msgs w) [
    | inl same ↦ inl (rw same h)
    | inr (rest, recorded) ↦ elim (Bool-cases (any (λ (n : Message). n.id == id) msgs)) [
      | inl here ↦
          inr (parsed_one (IsRecorded (process_batch p msgs w).db) id msgs known here recorded)
      | inr absent ↦ inl (
          rw rest (
            any-select (λ (m : Message). m.id == id) _ (λ m it. other_id id msgs m absent it)
              w.pending h))
    ]
  ]

  module _ (last : ℕ) (claim : AutoClaim) (scan : IsScan entry last claim) (id : ℕ) where
    -- The sweep has ended, and the entry is kept.
    abbrev Ends : Option Worker → Type 0
    Ends o = (w : Worker) × (o ≡ some w) × IsKept id w

    claimed_stops :
        (rounds start : ℕ) (w : Worker)
        → ((next : ℕ) (v : Worker)
            → start < next
            → next ≤ last
            → IsKept id v
            → Ends (reclaim_stale_entries p claim rounds next v))
        → (o : Option (List Message × ℕ)) → claim rounds start ≡ o
        → IsKept id w
        → Ends (claimed p (reclaim_stale_entries p claim rounds) o w)
    claimed_stops rounds start w again none e h = (w, refl, h)
    claimed_stops rounds start w again (some (msgs, next)) e h =
        let v = process_batch p msgs w in
        let kept = process_batch-IsKept id msgs w (scan.entries rounds start msgs next e) h in
        elim (Bool-cases (next == 0 || is_empty_batch msgs)) [
          | inl over ↦ rw over (v, refl, kept)
          | inr more ↦
              let moved = scan.advances rounds start msgs next e (ground arith) in
              rw more (again next v moved.0 moved.1 kept)
        ]

    sweep_stops :
        (rounds start : ℕ) (w : Worker)
        → last < start + rounds
        → start ≤ last
        → IsKept id w
        → Ends (reclaim_stale_entries p claim rounds start w)
    unfolding reclaim_stale_entries
    sweep_stops zero start w enough le h = absurd (omega arith)
    sweep_stops (suc rounds) start w enough le h =
        claimed_stops rounds start w
          (λ next v lt bound. sweep_stops rounds next v (omega arith) bound) (claim rounds start)
          refl h

    -- A sweep ends within as many rounds as the stream has ids up to its last one, and one more,
    -- whatever calls fail; and an entry that waited to be acknowledged, or whose event was recorded,
    -- waits or is recorded at its end.
    pub reclaim_ends :
        (w : Worker)
        → IsKept id w
        → (w' : Worker) × (reclaim_stale_entries p claim (suc last) 0 w ≡ some w') × IsKept id w'
    reclaim_ends w h = sweep_stops (suc last) 0 w (omega arith) (omega arith) h
