-- ===== src/Storage/Stats.antt =====
-- internal/storage/stats_store.go over stats.sql.go: the click counts of a short URL by a key of its
-- clicks. Times are in nanoseconds from a midnight in UTC. Keys of equal count stand in some order.
use knives.Prelude.{
  ℕ, ◌+◌, ◌*◌, ◌/◌, Text, text_eq, codes, String, Bool, ◌&&◌, ◌==◌, leb, ltb, if◌then◌else◌, List,
  [], ◌∷◌, map, select, order_by,
}
use knives.World.{World, statement}
use knives.World.Effects.{Exec, ok}
use knives.World.Rows.{ClickEvent, DailyRow}
use knives.Clicks.{day_of}

-- DailyCount, HourlyCount, ReferrerCount, CountryCount, OSCount and BrowserCount, by their keys.
pub record Count (K : Type 0) : Type 0 where
  pub key : K
  pub click_count : ℕ

module _ {K : Type 0} (same : K → K → Bool) where
  unfoldable pub count_one : K → List (Count K) → List (Count K)
  count_one k [] = record { key = k; click_count = 1 } ∷ []
  count_one k (c ∷ cs) =
      let rest = count_one k cs in
      if same c.key k then record c { click_count = c.click_count + 1 } ∷ cs else c ∷ rest

  -- SELECT key, COUNT(*) ... GROUP BY key
  unfoldable pub count_by : (ClickEvent → K) → List ClickEvent → List (Count K)
  count_by key [] = []
  count_by key (e ∷ es) = count_one (key e) (count_by key es)

abbrev pub is_more : {K : Type 0} → Count K → Count K → Bool
is_more a b = ltb b.click_count a.click_count

-- clicked_at >= from AND clicked_at < to
abbrev pub is_click_of : ℕ → ℕ → ℕ → ClickEvent → Bool
is_click_of short_url_id from to e =
    e.short_url_id == short_url_id && leb from e.clicked_at && ltb e.clicked_at to

-- ORDER BY click_count DESC
unfoldable pub ranked_counts :
    {K : Type 0} → (K → K → Bool) → (ClickEvent → K) → ℕ → ℕ → ℕ → Exec World (List (Count K))
ranked_counts same key short_url_id from to = statement λ w. (
  ok (order_by is_more (count_by same key (select (is_click_of short_url_id from to) w.clicks))),
  w,
)

unfoldable pub referrer_counts : ℕ → ℕ → ℕ → Exec World (List (Count Text))
referrer_counts = ranked_counts text_eq (λ e. e.referrer_host)

unfoldable pub country_counts : ℕ → ℕ → ℕ → Exec World (List (Count Text))
country_counts = ranked_counts text_eq (λ e. e.country_code)

abbrev pub string_eq : String → String → Bool
string_eq a b = text_eq (codes a) (codes b)

unfoldable pub os_counts : ℕ → ℕ → ℕ → Exec World (List (Count String))
os_counts = ranked_counts string_eq (λ e. e.os)

unfoldable pub browser_counts : ℕ → ℕ → ℕ → Exec World (List (Count String))
browser_counts = ranked_counts string_eq (λ e. e.browser)

abbrev pub hour_length : ℕ
hour_length = 3600000000000

-- date_trunc('hour', clicked_at)
abbrev pub hour_of : ℕ → ℕ
hour_of t = t / hour_length * hour_length

abbrev pub is_earlier : Count ℕ → Count ℕ → Bool
is_earlier a b = ltb a.key b.key

-- ORDER BY hour
unfoldable pub hourly_counts : ℕ → ℕ → ℕ → Exec World (List (Count ℕ))
hourly_counts short_url_id from to = statement λ w.
    let rows = select (is_click_of short_url_id from to) w.clicks in
    (ok (order_by is_earlier (count_by (λ a b. a == b) (λ e. hour_of e.clicked_at) rows)), w)

-- date >= from AND date < to, for the dates of the two times.
abbrev pub is_day_of : ℕ → ℕ → ℕ → DailyRow → Bool
is_day_of short_url_id from to row =
    row.short_url_id == short_url_id && leb (day_of from) row.date && ltb row.date (day_of to)

abbrev pub to_daily_count : DailyRow → Count ℕ
to_daily_count row = record { key = row.date; click_count = row.click_count }

-- ORDER BY date
unfoldable pub daily_counts : ℕ → ℕ → ℕ → Exec World (List (Count ℕ))
daily_counts short_url_id from to = statement λ w. (
  ok (order_by is_earlier (map to_daily_count (select (is_day_of short_url_id from to) w.daily))),
  w,
)
