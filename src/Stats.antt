-- ===== src/Stats.antt =====
-- internal/stats/reader.go: the click statistics of a short URL over a range of time.
pub mod Totals
use knives.Prelude.{
  ℕ, ◌+◌, ◌-◌, ◌*◌, Text, String, Bool, ◌||◌, not, leb, ltb, if◌then◌else◌, List, [], ◌∷◌, ◌++◌,
  length, take, drop, sum_by,
}
use knives.World.{World}
use knives.World.Effects.{Exec, pure, raise, guard, ◌>>=◌, ◌>>◌, invalid_range, invalid_granularity}
use knives.Clicks.{day_length}
use knives.Storage.Stats.{
  Count, referrer_counts, country_counts, os_counts, browser_counts, hourly_counts, daily_counts,
}

abbrev pub max_range_days : ℕ
max_range_days = 366

pub data Granularity : Type 0 where
  day hour : Granularity
  unknown : Text → Granularity

pub record Summary : Type 0 where
  pub from : ℕ
  pub to : ℕ
  pub granularity : Granularity
  pub daily : List (Count ℕ)
  pub hourly : List (Count ℕ)
  pub by_referrer : List (Count Text)
  pub by_country : List (Count Text)
  pub by_os : List (Count String)
  pub by_browser : List (Count String)

abbrev pub browser_other : String
browser_other = "other"

abbrev pub browser_top_n : ℕ
browser_top_n = 10

abbrev pub clicks_of : {K : Type 0} → Count K → ℕ
clicks_of c = c.click_count

-- The entry of the browsers that are folded, unless they have no click.
abbrev pub other_browsers : ℕ → List (Count String)
other_browsers total =
    if ltb 0 total then record { key = browser_other; click_count = total } ∷ [] else []

unfoldable pub bucket_top_browsers : List (Count String) → List (Count String)
bucket_top_browsers all =
    if leb (length all) browser_top_n
    then all
    else take browser_top_n all ++ other_browsers (sum_by clicks_of (drop browser_top_n all))

unfoldable pub in_time : Granularity → ℕ → ℕ → ℕ → Summary → Exec World Summary
in_time day short_url_id from to summary = do
  counts ← daily_counts short_url_id from to
  pure (record summary { daily = counts })
in_time hour short_url_id from to summary = do
  counts ← hourly_counts short_url_id from to
  pure (record summary { hourly = counts })
in_time (unknown _) short_url_id from to summary = raise invalid_granularity

-- to.Before(from) || to.Sub(from) > maxRangeDays*24*time.Hour
abbrev pub is_invalid_range : ℕ → ℕ → Bool
is_invalid_range from to = ltb to from || ltb (max_range_days * day_length) (to - from)

abbrev pub summary_of :
    ℕ
    → ℕ
    → Granularity
    → List (Count Text)
    → List (Count Text)
    → List (Count String)
    → List (Count String)
    → Summary
summary_of from to granularity referrers countries oses browsers = record {
  from = from;
  to = to;
  granularity = granularity;
  daily = [];
  hourly = [];
  by_referrer = referrers;
  by_country = countries;
  by_os = oses;
  by_browser = bucket_top_browsers browsers;
}

unfoldable pub get_stats : ℕ → ℕ → ℕ → Granularity → Exec World Summary
get_stats short_url_id from to granularity = do
  guard (not (is_invalid_range from to)) invalid_range
  referrers ← referrer_counts short_url_id from to
  countries ← country_counts short_url_id from to
  oses ← os_counts short_url_id from to
  browsers ← browser_counts short_url_id from to
  in_time granularity short_url_id from to
      (summary_of from to granularity referrers countries oses browsers)
