-- ===== src/Cache/Tiers.antt =====
-- internal/cache/cache.go: the two tiers of a redirect process, its own in front of Redis.
use knives.Prelude.{ℕ, ◌+◌, ◌≡◌, ◌≢◌, ◌⊎◌, Text, List, [], ◌∷◌, Option, none, some}
use knives.World.{World}
use knives.World.Effects.{Exec, Result, pure, modify, ◌>>=◌, ◌>>◌}
use knives.World.Rows.{Cached, CacheKey}
use knives.Worker.{Message}
use knives.Cache.{redis_get, redis_set}

-- What the code uses of dgraph-io/ristretto: an entry has the time at which it dies.
pub record LocalTier : Type 1 where
  pub Store : Type 0
  pub get : ℕ → CacheKey → Store → Option Cached
  pub set : CacheKey → Cached → ℕ → Store → Store
  pub del : CacheKey → Store → Store

-- What ristretto documents: it may drop what is set, and forgets nothing else than it may. A value that is
-- found was set for that key and has not died, and is gone once it is deleted.
pub record IsLossy (t : LocalTier) : Type 0 where
  pub get-set :
      (now dies_at : ℕ) (key other : CacheKey) (value found : Cached) (s : t.Store)
      → t.get now other (t.set key value dies_at s) ≡ some found
      → ((other ≡ key) × (found ≡ value)) ⊎ (t.get now other s ≡ some found)
  pub get-del :
      (now : ℕ) (key other : CacheKey) (found : Cached) (s : t.Store)
      → t.get now other (t.del key s) ≡ some found
      → (other ≢ key) × (t.get now other s ≡ some found)

-- A redirect process: the services, its own tier, and the Redis stream that it writes.
pub record Node (t : LocalTier) : Type 0 where
  pub world : World
  pub local : t.Store
  pub stream : List Message

-- 30 seconds, in nanoseconds
abbrev pub local_ttl : ℕ
local_ttl = 30000000000

abbrev pub cache_key : ℕ → Text → CacheKey
cache_key domain_id code = record { domain_id = domain_id; short_code = code }

module _ {t : LocalTier} where
  abbrev pub back_in : {A : Type 0} → Node t → Result A × World → Result A × Node t
  back_in n (r, w) = (r, record n { world = w })

  abbrev pub on_world : {A : Type 0} → Exec World A → Exec (Node t) A
  on_world m n = back_in n (m n.world)

  -- SetWithTTL
  unfoldable pub set_local : ℕ → Text → Cached → Exec (Node t) (Unit {0})
  set_local domain_id code value = modify λ n. record n {
    local = t.set (cache_key domain_id code) value (n.world.clock + local_ttl) n.local;
  }

  unfoldable pub fill_local : ℕ → Text → Option Cached → Exec (Node t) (Option Cached)
  fill_local domain_id code none = pure none
  fill_local domain_id code (some value) = do set_local domain_id code value; pure (some value)

  unfoldable pub local_or_redis : ℕ → Text → Option Cached → Exec (Node t) (Option Cached)
  local_or_redis domain_id code (some value) = pure (some value)
  local_or_redis domain_id code none = do
    found ← on_world (redis_get domain_id code)
    fill_local domain_id code found

  unfoldable pub cache_get : ℕ → Text → Exec (Node t) (Option Cached)
  cache_get domain_id code n =
      local_or_redis domain_id code (t.get n.world.clock (cache_key domain_id code) n.local) n

  unfoldable pub cache_set : ℕ → Text → Cached → Exec (Node t) (Unit {0})
  cache_set domain_id code value = do
    on_world (redis_set domain_id code value)
    set_local domain_id code value

  -- A message of the channel: the key that it carries is deleted.
  unfoldable pub evict : CacheKey → Node t → Node t
  evict key n = record n { local = t.del key n.local }

  -- `Subscribe`, for the messages that come, the last one first.
  unfoldable pub subscribe : List CacheKey → Node t → Node t
  subscribe [] n = n
  subscribe (key ∷ keys) n = evict key (subscribe keys n)
