-- ===== src/Api/Stats.antt =====
-- cmd/api/handlers_stats.go: the statistics of one short URL.
use knives.Prelude.{
  ℕ, ◌+◌, ◌-◌, ◌*◌, ◌/◌, Text, text_eq, codes, String, if◌then◌else◌, List, [], Option, none, some,
}
use knives.Permission.{Subject}
use knives.World.{World}
use knives.World.Effects.{Err, invalid_range}
use knives.Storage.Links.{find_by_id}
use knives.Storage.Stats.{Count}
use knives.Clicks.{day_length}
use knives.Stats.{Granularity, day, hour, Summary, get_stats}
use knives.Api.{Reply, reply, error, Handler, internal_error, send, try}
use knives.Api.Access.{Resolved, resolve_access, access_error}
use knives.Api.ShortUrls.{read_error, audit_override}

-- `from` and `to` are the days that the client asked for.
pub record ShortUrlStatsResponse : Type 0 where
  pub from : ℕ
  pub to : ℕ
  pub granularity : Granularity
  pub daily : List (Count ℕ)
  pub hourly : List (Count ℕ)
  pub by_referrer : List (Count Text)
  pub by_country : List (Count Text)
  pub by_os : List (Count String)
  pub by_browser : List (Count String)

unfoldable pub to_short_url_stats_response : Summary → ℕ → ℕ → ShortUrlStatsResponse
to_short_url_stats_response s from to = record {
  from = from;
  to = to;
  granularity = s.granularity;
  daily = s.daily;
  hourly = s.hourly;
  by_referrer = s.by_referrer;
  by_country = s.by_country;
  by_os = s.by_os;
  by_browser = s.by_browser;
}

abbrev pub parse_stats_granularity : Text → Option Granularity
parse_stats_granularity raw =
    if text_eq raw []
    then some day
    else if text_eq raw (codes "day")
    then some day
    else if text_eq raw (codes "hour")
    then some hour
    else none

-- The query's `from`, `to` and `granularity`, each empty if it is left out.
pub record StatsQuery : Type 0 where
  pub from : Text
  pub to : Text
  pub granularity : Text

-- time.Now().UTC().Truncate(24 * time.Hour)
abbrev pub today : ℕ → ℕ
today now = now / day_length * day_length

abbrev pub stats_error : Err → Reply ShortUrlStatsResponse
stats_error invalid_range = error 400 "stats: invalid from/to range"
stats_error _ = internal_error

abbrev pub or_bad_request : {A B : Type 0} → String → Option A → (A → Handler B) → Handler B
or_bad_request message none k = send (error 400 message)
or_bad_request message (some a) k = k a

unfoldable pub stats_between : Resolved → ℕ → ℕ → Granularity → Handler ShortUrlStatsResponse
stats_between r from to granularity =
    try (get_stats r.id from (to + day_length) granularity) stats_error
      λ summary. audit_override r (send (reply 200 (to_short_url_stats_response summary from to)))

-- `parse_date` is time.Parse with the layout of a date: the midnight in which it begins.
module _ (parse_date : Text → Option ℕ) where
  abbrev pub date_or : ℕ → Text → Option ℕ
  date_or default raw = if text_eq raw [] then some default else parse_date raw

  unfoldable pub stats_queried : Resolved → StatsQuery → ℕ → Handler ShortUrlStatsResponse
  stats_queried r q now =
      or_bad_request "invalid from (expected YYYY-MM-DD)"
        (date_or (today now - 29 * day_length) q.from)
        λ from. or_bad_request "invalid to (expected YYYY-MM-DD)" (date_or (today now) q.to) λ to.
          or_bad_request "invalid granularity (expected day or hour)"
            (parse_stats_granularity q.granularity) (stats_between r from to)

  unfoldable pub handle_get_short_url_stats :
      Option Subject → Option ℕ → StatsQuery → Handler ShortUrlStatsResponse
  handle_get_short_url_stats subject id q =
      try (resolve_access subject id) access_error
        λ r. try (find_by_id r.id) read_error λ _. λ (w : World). stats_queried r q w.clock w
