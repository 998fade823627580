-- ===== src/Redirect/Expiry.antt =====
-- What a cached redirect does when its short URL has expired.
use knives.Prelude.{ℕ, ◌+◌, ◌≡◌, refl, Text, text_eq_refl, ==_refl, [], ◌∷◌, none, some, find}
use knives.World.{World, statement}
use knives.World.Rows.{ShortUrl, target, CacheEntry}
use knives.Storage.Links.{find_redirect_target}
use knives.Cache.{has_cache_key, cached_value, redis_get, redis_set, without_key}
use knives.Cache.Tiers.{
  LocalTier, Node, cache_key, set_local, fill_local, local_or_redis, cache_get, cache_set,
}
use knives.Redirect.{
  Request, Formats, Config, found, push_click, record_click, serve_stored, from_storage,
  serve_cached, redirect,
}
use knives.Redirect.Coherence.{current}

abbrev cached_entry : ℕ → Text → ShortUrl → CacheEntry
cached_entry d code su = record {
  domain_id = d;
  short_code = code;
  value = target su.id su.long_url;
}

module _ (f : Formats) (c : Config) (t : LocalTier) where
  -- The first redirect fills Redis.
  filled :
      (req : Request) (n : Node t) (su : ShortUrl)
      → n.world.faults ≡ []
      → t.get n.world.clock (cache_key c.domain_id req.code) n.local ≡ none
      → find (has_cache_key c.domain_id req.code) n.world.cache ≡ none
      → current c.domain_id req.code n.world ≡ some su
      → let w = (redirect f c req n).1.world in
        (w.faults ≡ [])
        × (w.cache
            ≡ cached_entry c.domain_id req.code su ∷ without_key c.domain_id req.code n.world.cache)
  unfolding redirect serve_cached from_storage serve_stored record_click push_click cache_get
      local_or_redis fill_local set_local cache_set redis_get redis_set find_redirect_target
      statement
  filled req n su clear unseen uncached now = rw (unseen, clear, uncached, now) (refl, refl)

  served :
      (req : Request) (n : Node t) (id : ℕ) (url : Text)
      → n.world.faults ≡ []
      → t.get n.world.clock (cache_key c.domain_id req.code) n.local ≡ none
      → cached_value (find (has_cache_key c.domain_id req.code) n.world.cache)
        ≡ some (target id url)
      → (redirect f c req n).0 ≡ found url
  unfolding redirect serve_cached record_click cache_get local_or_redis fill_local set_local
      redis_get statement
  served req n id url clear unseen cached = rw (unseen, clear, cached) refl

-- A short URL that is in neither tier is asked for once, with no call failing. Any time later, when
-- the database's query finds no target for the code any more because the short URL has expired, and the process's
-- own tier has forgotten it, the code still redirects to it.
expired_still_redirects :
    (f : Formats) (c : Config) (t : LocalTier) (req : Request) (n : Node t) (su : ShortUrl)
    (time : ℕ)
    → n.world.faults ≡ []
    → t.get n.world.clock (cache_key c.domain_id req.code) n.local ≡ none
    → find (has_cache_key c.domain_id req.code) n.world.cache ≡ none
    → current c.domain_id req.code n.world ≡ some su
    → let n1 = (redirect f c req n).1 in
      let w2 : World = record n1.world { clock = n1.world.clock + time } in
      let n2 : Node t = record n1 { world = w2 } in
      t.get w2.clock (cache_key c.domain_id req.code) n2.local ≡ none
      → current c.domain_id req.code w2 ≡ none
      → (redirect f c req n2).0 ≡ found su.long_url
unfolding find has_cache_key
expired_still_redirects f c t req n su time clear unseen uncached now forgotten gone =
    let (clear', stored) = filled f c t req n su clear unseen uncached now in
    let n1 = (redirect f c req n).1 in
    let w2 : World = record n1.world { clock = n1.world.clock + time } in
    let n2 : Node t = record n1 { world = w2 } in
    served f c t req n2 su.id su.long_url clear' forgotten
      (rw (stored, text_eq_refl req.code, ==_refl c.domain_id) refl)
