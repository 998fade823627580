-- ===== src/Redirect.antt =====
-- cmd/redirect/server.go: a short code becomes a redirect, from the cache or from the database, and
-- a click on the Redis stream.
pub mod Limiter
pub mod Coherence
pub mod Refinement
pub mod Purge
pub mod Expiry
pub mod Clicks
use knives.Prelude.{
  ℕ, Text, Bool, true, false, if◌then◌else◌, List, [], ◌∷◌, ◌++◌, Option, none, some,
}
use knives.World.{World, statement, fresh}
use knives.World.Effects.{Exec, Result, ok, err, ◌>>=◌, ◌>>◌, modify}
use knives.World.Rows.{ShortUrl, Cached, target, corrupt}
use knives.Storage.Links.{find_redirect_target}
use knives.Worker.{Message}
use knives.Cache.Tiers.{LocalTier, Node, on_world, cache_get, cache_set}
use Limiter.{Bucket, LimiterEntry, allow_ip}

-- What the handler reads of a request, its address after chi's RealIP.
pub record Request : Type 0 where
  pub code : Text
  pub remote_addr : Text
  pub referer : Text
  pub user_agent : Text

-- net.SplitHostPort, url.Parse's Host, hex(sha256(...)), the GeoIP lookup, and the printing of UUIDs
-- and of times with RFC3339Nano.
pub record Formats : Type 0 where
  pub split_host_port : Text → Option Text
  pub url_host : Text → Option Text
  pub hash_hex : Text → Text
  pub country : Text → Text
  pub format_uuid : ℕ → Text
  pub format_time : ℕ → Text

pub record Config : Type 0 where
  pub domain_id : ℕ
  pub ip_hash_salt : Text

pub data RedirectReply : Type 0 where
  too_many_requests not_found_page : RedirectReply
  found : Text → RedirectReply

abbrev pub text_or : Text → Option Text → Text
text_or default none = default
text_or default (some s) = s

module _ (f : Formats) where
  unfoldable pub client_ip : Request → Text
  client_ip req = text_or req.remote_addr (f.split_host_port req.remote_addr)

  unfoldable pub referer_host : Text → Text
  referer_host [] = []
  referer_host (c ∷ s) = text_or [] (f.url_host (c ∷ s))

  unfoldable pub hash_ip : Text → Text → Text
  hash_ip ip salt = f.hash_hex (salt ++ ip)

  -- The stream entry of a click, with the id that Redis gives it.
  unfoldable pub build_click_values : Config → Request → ℕ → ℕ → ℕ → Message
  build_click_values c req short_url_id now id = record {
    id = id;
    short_url_id = f.format_uuid short_url_id;
    clicked_at = f.format_time now;
    referrer_host = referer_host req.referer;
    user_agent = req.user_agent;
    ip_hash = hash_ip (client_ip req) c.ip_hash_salt;
    country_code = f.country (client_ip req);
  }

  module _ (c : Config) {t : LocalTier} where
    -- XADD. The goroutine's failure is logged.
    unfoldable pub push_click : ℕ → Request → Exec (Node t) (Unit {0})
    push_click short_url_id req = do
      id ← on_world (statement λ w. (ok w.next_id, fresh w))
      modify λ n. record n {
        stream = build_click_values c req short_url_id n.world.clock id ∷ n.stream;
      }

    unfoldable pub record_click : ℕ → Request → RedirectReply → Node t → RedirectReply × Node t
    record_click short_url_id req r n = (r, (push_click short_url_id req n).1)

    -- A failure to fill the cache is logged, and the request goes on.
    unfoldable pub serve_stored : Request → Result ShortUrl × Node t → RedirectReply × Node t
    serve_stored req (err e, n) = (not_found_page, n)
    serve_stored req (ok su, n) =
        record_click su.id req (found su.long_url)
          (cache_set c.domain_id req.code (target su.id su.long_url) n).1

    unfoldable pub from_storage : Request → Node t → RedirectReply × Node t
    from_storage req n = serve_stored req (on_world (find_redirect_target c.domain_id req.code) n)

    unfoldable pub serve_cached : Request → Result (Option Cached) × Node t → RedirectReply × Node t
    serve_cached req (ok (some (target id long_url)), n) = record_click id req (found long_url) n
    serve_cached req (ok (some corrupt), n) = from_storage req n
    serve_cached req (ok none, n) = from_storage req n
    serve_cached req (err e, n) = from_storage req n

    unfoldable pub redirect : Request → Node t → RedirectReply × Node t
    redirect req n = serve_cached req (cache_get c.domain_id req.code n)

    -- The handler, with the limiters of the process beside it.
    unfoldable pub handle_redirect :
        {b : Bucket}
        → Request
        → List (LimiterEntry b) × Node t
        → RedirectReply × (List (LimiterEntry b) × Node t)
    handle_redirect req (entries, n) =
        let (allowed, entries') = allow_ip n.world.clock (client_ip req) entries in
        let (r, n') = redirect req n in
        if allowed then (r, (entries', n')) else (too_many_requests, (entries', n))
