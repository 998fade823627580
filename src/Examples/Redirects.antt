-- ===== src/Examples/Redirects.antt =====
-- Redirects through the two tiers of the cache, the limiter of an address, and the statistics.
use knives.Prelude.{
  ℕ, ◌+◌, ◌≤◌, ◌<◌, ◌≡◌, ◌≢◌, refl, sym, subst, text_eq_refl, inl, inr, Text, codes, text_eq,
  text_eq_iff, Bool, true, false, ◌&&◌, ◌==◌, ==_iff, ltb, if◌then◌else◌, List, [], ◌∷◌, Option,
  none, some, find, Bool-cases, ◌↔◌, count, arith, order_by, select,
}
use knives.World.{World, statement}
use knives.World.Rows.{ShortUrl, Status, Cached, target, CacheKey, ClickEvent}
use knives.Storage.Links.{is_target, has_code}
use knives.Storage.Stats.{
  referrer_counts, ranked_counts, country_counts, os_counts, browser_counts, hourly_counts,
  count_by, count_one,
}
use knives.Cache.{invalidate, redis_del, publish, has_cache_key}
use knives.Cache.Tiers.{LocalTier, IsLossy, Node, subscribe}
use knives.Worker.{Message, Parsers, parse_click_event}
use knives.UserAgent.{ParsedOs}
use knives.Redirect.{Request, Formats, Config, found, redirect}
use knives.Redirect.Coherence.{answer_of, current, IsCurrent, IsCoherent}
use knives.Redirect.Refinement.{redirect_refines}
use knives.Redirect.Purge.{published_since, purge_restores}
use knives.Redirect.Clicks.{IsEventOf, redirect_click}
use knives.Redirect.Limiter.{Bucket, idle_timeout}
use knives.Redirect.Limiter.Events.{
  Event, request, tick, IsUsed, never, again, Refills, answers, answers_alone,
}
use knives.Redirect.Limiter.Isolation.{limiter_isolated}
use knives.Stats.{Summary, hour, get_stats, in_time, bucket_top_browsers}
use knives.Stats.Totals.{RankingsTotal, TimeTotal, breakdowns_agree}
use knives.Examples.Data.{world, short_url}

some_injective : {A : Type 0} {a b : A} → some a ≡ some b → a ≡ b
some_injective h = cc

abbrev key_eq : CacheKey → CacheKey → Bool
key_eq a b = a.domain_id == b.domain_id && text_eq a.short_code b.short_code

key_path : (a b : CacheKey) → a.domain_id ≡ b.domain_id → a.short_code ≡ b.short_code → a ≡ b
key_path a b d c = cc

key_eq_iff : (a b : CacheKey) → (key_eq a b ≡ true) ↔ (a ≡ b)
key_eq_iff a b = (
  λ h.
      key_path a b ((==_iff a.domain_id b.domain_id).0 (ground (arith, h)))
        ((text_eq_iff a.short_code b.short_code).0 (ground (arith, h))),
  λ e. rw e (ground (arith, text_eq_refl b.short_code)),
)

-- A tier that keeps all it is given.
abbrev keeping : LocalTier
keeping = record {
  Store = CacheKey → Option Cached;
  get = λ now key s. s key;
  set = λ key v dies_at s other. if key_eq other key then some v else s other;
  del = λ key s other. if key_eq other key then none else s other;
}

keeping-IsLossy : IsLossy keeping
keeping-IsLossy = record {
  get-set = λ now dies_at key other v x s k. elim (Bool-cases (key_eq other key)) [
    | inl same ↦ inl ((key_eq_iff other key).0 same, some_injective (sym (rw same at k)))
    | inr differ ↦ inr (rw differ at k)
  ];
  get-del = λ now key other x s k. elim (Bool-cases (key_eq other key)) [
    | inl same ↦ cc (rw same at k)
    | inr differ ↦ (λ e. cc (rw ((key_eq_iff other key).1 e) at differ), rw differ at k)
  ];
}

-- A tier that keeps nothing.
abbrev forgetful : LocalTier
forgetful = record {
  Store = Unit;
  get = λ now key s. none;
  set = λ key v dies_at s. s;
  del = λ key s. s;
}

abbrev plain_formats : Formats
plain_formats = record {
  split_host_port = λ s. none;
  url_host = λ s. none;
  hash_hex = λ s. s;
  country = λ ip. [];
  format_uuid = λ id. id ∷ [];
  format_time = λ now. now ∷ [];
}

abbrev config : Config
config = record { domain_id = 5; ip_hash_salt = [] }

abbrev visit : Request
visit = record { code = codes "abc"; remote_addr = codes "a"; referer = []; user_agent = [] }

abbrev node : Node keeping
node = record { world = world; local = λ key. none; stream = [] }

node-IsCoherent : IsCoherent 5 node
unfolding find
node-IsCoherent = (λ code v k. cc, λ code v k. cc)

redirect_refines_example :
    let (r, n') = redirect plain_formats config visit node in
    let wanted = answer_of (current 5 (codes "abc") world) in
    (world.faults ≡ [] → r ≡ wanted)
    × ((url : Text) → r ≡ found url → wanted ≡ found url)
    × IsCoherent 5 n'
redirect_refines_example =
    redirect_refines plain_formats config keeping keeping-IsLossy visit node node-IsCoherent

-- A process whose cache in Redis holds the short URL, and a state in which that has been disabled.
abbrev warm : Node keeping
warm = record node {
  world = record world {
    cache =
        record { domain_id = 5; short_code = codes "abc"; value = target 31 short_url.long_url }
        ∷ [];
  };
}

warm-IsCoherent : IsCoherent 5 warm
unfolding find has_cache_key is_target has_code text_eq
warm-IsCoherent = (
  λ code v k. cc,
  λ code v k. elim (Bool-cases (text_eq (codes "abc") code)) [
    | inl same ↦
        subst (λ c. IsCurrent 5 warm.world c v) ((text_eq_iff (codes "abc") code).0 same)
          (subst (IsCurrent 5 warm.world (codes "abc")) (some_injective (rw same at k))
            (short_url, refl, refl, refl))
    | inr differ ↦ cc (rw differ at k)
  ],
)

abbrev disabled : World
disabled = record warm.world { short_urls = record short_url { status = Status.disabled } ∷ [] }

others_same :
    (other : Text) → other ≢ codes "abc" → current 5 other disabled ≡ current 5 other warm.world
unfolding find is_target has_code
others_same other differ = elim (Bool-cases (text_eq (codes "abc") other)) [
  | inl same ↦ absurd (differ (sym ((text_eq_iff (codes "abc") other).0 same)))
  | inr apart ↦ rw apart refl
]

purge_restores_example : IsCoherent 5 (
    subscribe
      (published_since disabled (invalidate 5 (codes "abc") disabled).1)
      (record warm { world = (invalidate 5 (codes "abc") disabled).1 }))
unfolding invalidate redis_del publish statement
purge_restores_example =
    purge_restores keeping keeping-IsLossy 5 (codes "abc") warm disabled warm-IsCoherent refl refl
      others_same refl

abbrev head_number : Text → Option ℕ
head_number [] = none
head_number (x ∷ s) = some x

abbrev plain_parsers : Parsers
plain_parsers = record {
  parse_uuid = head_number;
  parse_time = head_number;
  parse_agent = λ s. record { os = ParsedOs.unlisted; name = "Other" };
}

redirect_click_example :
    (m : Message) × ((redirect plain_formats config visit node).1.stream ≡ m ∷ [])
    × IsEventOf short_url 1000 (parse_click_event plain_parsers m)
unfolding find is_target has_code text_eq
redirect_click_example =
    redirect_click plain_formats config plain_parsers keeping keeping-IsLossy visit node short_url
      node-IsCoherent refl refl refl refl

abbrev until_later : ShortUrl
until_later = record short_url { expires_at = some 2000 }

-- One request a second.
abbrev if_rested : ℕ → Option ℕ → Bool × Option ℕ
if_rested now none = (true, some now)
if_rested now (some last) =
    if ltb now (last + 1000000000) then (false, some last) else (true, some now)

abbrev slow : Bucket
slow = record { Limiter = Option ℕ; new_limiter = none; allow = if_rested }

-- The last request that was let in.
abbrev LetInBy : ℕ → Option ℕ → Type 0
LetInBy t none = Unit
LetInBy t (some last) = last ≤ t

rested : (now : ℕ) (l : Option ℕ) → LetInBy now l → LetInBy now (if_rested now l).1
rested now none h = ground arith
rested now (some last) h = ground arith

later_on : (t now : ℕ) (l : Option ℕ) → t ≤ now → LetInBy t l → LetInBy now l
later_on t now none le h = tt
later_on t now (some last) le h = ground arith

used_LetInBy : {t : ℕ} {l : Option ℕ} → IsUsed slow t l → LetInBy t l
used_LetInBy never = tt
used_LetInBy (again {t} {now} {l} u le) = rested now l (later_on t now l le (used_LetInBy u))

rested_new :
    (t now : ℕ) (l : Option ℕ)
    → LetInBy t l
    → t + idle_timeout < now
    → if_rested now l ≡ if_rested now none
rested_new t now none h le = refl
rested_new t now (some last) h le = ground arith

slow-Refills : Refills slow
slow-Refills t now l u le = rested_new t now l (used_LetInBy u) le

-- Two addresses, and a tick once the timeout of both is over.
abbrev traffic : List Event
traffic =
    request (codes "a") 10
    ∷ request (codes "b") 20
    ∷ request (codes "a") 30
    ∷ tick 700000000000
    ∷ request (codes "a") 700000000001
    ∷ []

limiter_isolated_example :
    answers slow (codes "a") traffic [] ≡ answers_alone slow (codes "a") traffic none
limiter_isolated_example = limiter_isolated slow (codes "a") 0 traffic slow-Refills (ground arith)

-- In the traffic the second request is refused, and the one after the tick is not.
traffic_answers : answers_alone slow (codes "a") traffic none ≡ true ∷ false ∷ true ∷ []
unfolding answers_alone text_eq
traffic_answers = refl

abbrev clicked : ℕ → ℕ → ClickEvent
clicked id at = record {
  stream_id = id;
  short_url_id = 31;
  clicked_at = at;
  referrer_host = [];
  user_agent_raw = [];
  ip_hash = [];
  country_code = [];
  os = "Other";
  browser = "Other";
}

abbrev visited : World
visited = record world { clicks = clicked 1 5 ∷ clicked 2 6 ∷ clicked 3 4000000000000 ∷ [] }

abbrev hourly_summary : Summary
hourly_summary = record {
  from = 0;
  to = 86400000000000;
  granularity = hour;
  daily = [];
  hourly =
      record { key = 0; click_count = 2 } ∷ record { key = 3600000000000; click_count = 1 } ∷ [];
  by_referrer = record { key = []; click_count = 3 } ∷ [];
  by_country = record { key = []; click_count = 3 } ∷ [];
  by_os = record { key = "Other"; click_count = 3 } ∷ [];
  by_browser = record { key = "Other"; click_count = 3 } ∷ [];
}

breakdowns_agree_example :
    RankingsTotal 3 hourly_summary × TimeTotal hour 31 0 86400000000000 visited hourly_summary
unfolding get_stats referrer_counts ranked_counts statement country_counts os_counts browser_counts
    in_time hourly_counts order_by bucket_top_browsers count_by select count_one text_eq count
breakdowns_agree_example = breakdowns_agree 31 0 86400000000000 hour visited hourly_summary refl
