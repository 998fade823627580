-- ===== src/Cache.antt =====
-- internal/cache/cache.go: the Redis tier that all processes share, in front of PostgreSQL.
pub mod Tiers
use knives.Prelude.{
  ℕ, Text, Bool, ◌&&◌, ◌==◌, text_eq, not, List, ◌∷◌, Option, none, some, find, select,
}
use knives.World.{World, statement}
use knives.World.Effects.{Exec, ok, ◌>>◌}
use knives.World.Rows.{Cached, CacheEntry, CacheKey}

unfoldable pub has_cache_key : ℕ → Text → CacheEntry → Bool
has_cache_key domain_id code e = e.domain_id == domain_id && text_eq e.short_code code

abbrev pub cached_value : Option CacheEntry → Option Cached
cached_value none = none
cached_value (some e) = some e.value

-- GET
unfoldable pub redis_get : ℕ → Text → Exec World (Option Cached)
redis_get domain_id code =
    statement λ w. (ok (cached_value (find (has_cache_key domain_id code) w.cache)), w)

unfoldable pub without_key : ℕ → Text → List CacheEntry → List CacheEntry
without_key domain_id code = select (λ e. not (has_cache_key domain_id code e))

-- SET with no expiration
unfoldable pub redis_set : ℕ → Text → Cached → Exec World (Unit {0})
redis_set domain_id code value = statement λ w.
    let entry : CacheEntry = record { domain_id = domain_id; short_code = code; value = value } in
    (ok tt, record w { cache = entry ∷ without_key domain_id code w.cache })

-- DEL
unfoldable pub redis_del : ℕ → Text → Exec World (Unit {0})
redis_del domain_id code =
    statement λ w. (ok tt, record w { cache = without_key domain_id code w.cache })

-- PUBLISH
unfoldable pub publish : ℕ → Text → Exec World (Unit {0})
publish domain_id code = statement λ w.
    let key : CacheKey = record { domain_id = domain_id; short_code = code } in
    (ok tt, record w { published = key ∷ w.published })

-- `Invalidate` of the API process, whose own in-process tier is never filled.
unfoldable pub invalidate : ℕ → Text → Exec World (Unit {0})
invalidate domain_id code = do redis_del domain_id code; publish domain_id code
