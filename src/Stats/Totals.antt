-- ===== src/Stats/Totals.antt =====
-- What the breakdowns of the statistics add up to.
use knives.Prelude.{
  ℕ, ◌+◌, ◌≤◌, ◌≡◌, refl, ap, ◌∙◌, map, ◌==◌, text_eq, Text, Bool, List, [], ◌∷◌, length, take,
  drop, sum_by, sum_by-order_by, sum_by-take-drop, sum_by_append, length-take-bound, length_append,
  length-select, count, select, Bool-cases, leb, not, inl, inr, arith, String,
}
use knives.World.{World, statement, failing}
use knives.World.Effects.{ok, Exec, ◌>>=◌, invalid_range}
use knives.World.Effects.Inversion.{bind-ok, guard-ok}
use knives.World.Rows.{ClickEvent, DailyRow}
use knives.Storage.Stats.{
  Count, count_one, count_by, is_click_of, is_more, is_earlier, is_day_of, hour_of, to_daily_count,
  string_eq, ranked_counts, referrer_counts, country_counts, os_counts, browser_counts,
  hourly_counts, daily_counts,
}
use knives.Stats.{
  Summary, Granularity, day, hour, unknown, clicks_of, bucket_top_browsers, other_browsers,
  browser_top_n, in_time, summary_of, is_invalid_range, get_stats,
}

ok_injective : {A : Type 0} {a b : A} → ok a ≡ ok b → a ≡ b
ok_injective h = cc

abbrev SameClicks : World → World → Type 0
SameClicks w w' = (w'.clicks ≡ w.clicks) × (w'.daily ≡ w.daily)

abbrev SameRankings : Summary → Summary → Type 0
SameRankings t s =
    (s.by_referrer ≡ t.by_referrer)
    × (s.by_country ≡ t.by_country)
    × (s.by_os ≡ t.by_os)
    × (s.by_browser ≡ t.by_browser)

module _ {K : Type 0} (same : K → K → Bool) where
  total-count_one :
      (k : K) (cs : List (Count K))
      → sum_by clicks_of (count_one same k cs) ≡ sum_by clicks_of cs + 1
  unfolding count_one sum_by
  total-count_one k [] = ground arith
  total-count_one k (c ∷ cs) = ground (arith, total-count_one k cs)

  total-count_by :
      (key : ClickEvent → K) (es : List ClickEvent)
      → sum_by clicks_of (count_by same key es) ≡ length es
  unfolding count_by sum_by
  total-count_by key [] = refl
  total-count_by key (e ∷ es) =
      ground (arith, total-count_one (key e) (count_by same key es), total-count_by key es)

  -- A breakdown counts the clicks of the range, and leaves the tables alone.
  ranked_ok :
      (key : ClickEvent → K) (id from to : ℕ) (w : World) {cs : List (Count K)}
      → (ranked_counts same key id from to w).0 ≡ ok cs
      → (sum_by clicks_of cs ≡ count (is_click_of id from to) w.clicks)
        × SameClicks w (ranked_counts same key id from to w).1
  unfolding ranked_counts statement
  ranked_ok key id from to w {cs} h = elim (Bool-cases (failing w.faults)) [
    | inl f ↦ cc (rw f at h)
    | inr f ↦
        let rows = select (is_click_of id from to) w.clicks in
        rw (f, ← ok_injective (rw f at h))
          (
            sum_by-order_by clicks_of is_more (count_by same key rows)
                ∙ total-count_by key rows
                ∙ length-select (is_click_of id from to) w.clicks,
            (refl, refl),
          )
  ]

total-bucket :
    (all : List (Count String)) → sum_by clicks_of (bucket_top_browsers all) ≡ sum_by clicks_of all
unfolding bucket_top_browsers
total-bucket all =
    let rest = sum_by clicks_of (drop browser_top_n all) in
    let appended = sum_by_append clicks_of (take browser_top_n all) (other_browsers rest) in
    let split = sum_by-take-drop clicks_of browser_top_n all in
    elim (Bool-cases (leb (length all) browser_top_n)) [
      | inl few ↦ rw few refl
      | inr many ↦ rw (many, appended) (unfold sum_by in ground arith)
    ]

bucket_bound : (all : List (Count String)) → length (bucket_top_browsers all) ≤ 11
unfolding bucket_top_browsers
bucket_bound all =
    let rest = sum_by clicks_of (drop browser_top_n all) in
    let appended = length_append (take browser_top_n all) (other_browsers rest) in
    let taken = length-take-bound browser_top_n all in
    elim (Bool-cases (leb (length all) browser_top_n)) [
      | inl few ↦ rw few (ground arith)
      | inr many ↦ rw (many, appended) (ground arith)
    ]

-- The counts over time: the clicks of the range by hour, or the daily counts of its days.
abbrev pub TimeTotal : Granularity → ℕ → ℕ → ℕ → World → Summary → Type 0
TimeTotal day id from to w s =
    sum_by clicks_of s.daily
    ≡ sum_by (λ row. row.click_count) (select (is_day_of id from to) w.daily)
TimeTotal hour id from to w s = sum_by clicks_of s.hourly ≡ count (is_click_of id from to) w.clicks
TimeTotal (unknown _) id from to w s = ⊥

total-daily :
    (rows : List DailyRow)
    → sum_by clicks_of (map to_daily_count rows) ≡ sum_by (λ row. row.click_count) rows
unfolding sum_by
total-daily [] = refl
total-daily (row ∷ rows) = ground (arith, total-daily rows)

in_time_ok :
    (g : Granularity) (id from to : ℕ) (t : Summary) (w : World) {s : Summary}
    → (in_time g id from to t w).0 ≡ ok s
    → SameRankings t s × TimeTotal g id from to w s
unfolding in_time daily_counts hourly_counts statement
in_time_ok day id from to t w h = elim (Bool-cases (failing w.faults)) [
  | inl f ↦ cc (rw f at h)
  | inr f ↦
      let rows = select (is_day_of id from to) w.daily in
      rw (← ok_injective (rw f at h)) (
        (refl, refl, refl, refl),
        sum_by-order_by clicks_of is_earlier (map to_daily_count rows) ∙ total-daily rows,
      )
]
in_time_ok hour id from to t w h = elim (Bool-cases (failing w.faults)) [
  | inl f ↦ cc (rw f at h)
  | inr f ↦
      let rows = select (is_click_of id from to) w.clicks in
      let by_hour = count_by (λ a b. a == b) (λ e. hour_of e.clicked_at) rows in
      rw (← ok_injective (rw f at h)) (
        (refl, refl, refl, refl),
        sum_by-order_by clicks_of is_earlier by_hour
            ∙ total-count_by (λ a b. a == b) (λ e. hour_of e.clicked_at) rows
            ∙ length-select (is_click_of id from to) w.clicks,
      )
]
in_time_ok (unknown _) id from to t w h = cc

-- A breakdown that was read, and the rest of the run.
module _ {K : Type 0} (same : K → K → Bool) (key : ClickEvent → K) (id from to : ℕ) where
  after_ranked :
      (rest : List (Count K) → Exec World Summary) (w : World) {s : Summary}
      → ((ranked_counts same key id from to >>= rest) w).0 ≡ ok s
      → (cs : List (Count K)) × (w' : World) × (sum_by clicks_of cs
          ≡ count (is_click_of id from to) w.clicks)
        × SameClicks w w'
        × ((rest cs w').0 ≡ ok s)
  after_ranked rest w {s} h =
      let (cs, read, e) = bind-ok (ranked_counts same key id from to) rest w {b = s} h in
      let (total, kept) = ranked_ok same key id from to w {cs = cs} read in
      (cs, (ranked_counts same key id from to w).1, total, kept, rw e at h)

moved_back :
    (g : Granularity) (id from to : ℕ) (w w' : World)
    → SameClicks w w'
    → (s : Summary) → TimeTotal g id from to w' s
    → TimeTotal g id from to w s
moved_back day id from to w w' (c, d) s h = rw (← d) h
moved_back hour id from to w w' (c, d) s h = rw (← c) h
moved_back (unknown _) id from to w w' e s h = h

same_after : (w w' w'' : World) → SameClicks w w' → SameClicks w' w'' → SameClicks w w''
same_after w w' w'' (c, d) (c', d') = (c' ∙ c, d' ∙ d)

-- The four breakdowns of a summary count every one of `n` clicks once.
abbrev pub RankingsTotal : ℕ → Summary → Type 0
RankingsTotal n s =
    (sum_by clicks_of s.by_referrer ≡ n)
    × (sum_by clicks_of s.by_country ≡ n)
    × (sum_by clicks_of s.by_os ≡ n)
    × (sum_by clicks_of s.by_browser ≡ n)
    × (length s.by_browser ≤ 11)

-- Statistics that are returned add up: by referrer, by country, by operating system and by browser
-- alike they count each click of the short URL in the half-open range once, and no more than eleven
-- browsers are listed; by hour they count the same clicks, and by day what the daily table holds for
-- the days of the range. A granularity that is neither is never answered.
pub breakdowns_agree :
    (id from to : ℕ) (g : Granularity) (w : World) (s : Summary)
    → (get_stats id from to g w).0 ≡ ok s
    → RankingsTotal (count (is_click_of id from to) w.clicks) s × TimeTotal g id from to w s
unfolding get_stats referrer_counts country_counts os_counts browser_counts
breakdowns_agree id from to g w s h =
    let finish =
      λ (rs : List (Count Text)) (cs : List (Count Text)) (os : List (Count String))
          (bs : List (Count String)).
        in_time g id from to (summary_of from to g rs cs os bs) in
    let f3 = λ (rs : List (Count Text)) (cs : List (Count Text)) (os : List (Count String)).
      browser_counts id from to >>= finish rs cs os in
    let f2 =
      λ (rs : List (Count Text)) (cs : List (Count Text)). os_counts id from to >>= f3 rs cs in
    let f1 = λ (rs : List (Count Text)). country_counts id from to >>= f2 rs in
    let (passed, e) =
      guard-ok (not (is_invalid_range from to)) invalid_range (referrer_counts id from to >>= f1) w
        {a = s} h in
    let (rs, w1, t1, s1, h1) =
      after_ranked text_eq (λ e. e.referrer_host) id from to f1 w {s = s} (rw e at h) in
    let (cs, w2, t2, s2, h2) =
      after_ranked text_eq (λ e. e.country_code) id from to (f2 rs) w1 {s = s} h1 in
    let (os, w3, t3, s3, h3) =
      after_ranked string_eq (λ e. e.os) id from to (f3 rs cs) w2 {s = s} h2 in
    let (bs, w4, t4, s4, h4) =
      after_ranked string_eq (λ e. e.browser) id from to (finish rs cs os) w3 {s = s} h3 in
    let (r, totals) = in_time_ok g id from to (summary_of from to g rs cs os bs) w4 {s = s} h4 in
    let same = λ (v : List ClickEvent). count (is_click_of id from to) v in
    (
      (
        rw r.0 t1,
        rw r.1 (t2 ∙ ap same s1.0),
        rw r.2 (t3 ∙ ap same (s2.0 ∙ s1.0)),
        rw r.3 (total-bucket bs ∙ t4 ∙ ap same (s3.0 ∙ s2.0 ∙ s1.0)),
        rw r.3 (bucket_bound bs),
      ),
      moved_back g id from to w w4
          (same_after w w3 w4 (same_after w w2 w3 (same_after w w1 w2 s1 s2) s3) s4) s totals,
    )
