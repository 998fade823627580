-- ===== src/Redirect/Purge.antt =====
-- A change of a short URL, and the purge that follows it, against a redirect process's cache.
use knives.Prelude.{
  ℕ, suc, ◌-◌, List, [], ◌∷◌, take, length, arith, ◌≡◌, ◌≢◌, refl, ap, ◌∙◌, inl, inr, Text, text_eq,
  text_eq_iff, Bool-cases,
}
use knives.World.{World, statement, failing, later}
use knives.World.Effects.{ok}
use knives.World.Rows.{Cached, CacheKey, target, corrupt}
use knives.Cache.{invalidate, redis_del, publish, without_key}
use knives.Cache.Tiers.{LocalTier, IsLossy, Node, cache_key, evict, subscribe}
use knives.Redirect.Coherence.{current, IsCurrent, IsCoherent, find-other}
use knives.Api.ShortUrls.Deletion.{find-without_key}

invalidated :
    (d : ℕ) (code : Text) (w : World)
    → (invalidate d code w).0 ≡ ok tt
    → let w' = (invalidate d code w).1 in
      (w'.cache ≡ without_key d code w.cache)
      × (w'.clock ≡ w.clock)
      × (w'.short_urls ≡ w.short_urls)
      × (w'.published ≡ cache_key d code ∷ w.published)
unfolding invalidate redis_del publish statement
invalidated d code w done = elim (Bool-cases (failing w.faults)) [
  | inl e ↦ cc (rw e at done)
  | inr e ↦ rw e (elim (Bool-cases (failing (later w.faults))) [
    | inl e' ↦ cc (rw (e, e') at done)
    | inr e' ↦ rw e' (refl, refl, refl, refl)
  ])
]

moved :
    (d : ℕ) (other : Text) (w w' : World)
    → current d other w' ≡ current d other w
    → (v : Cached) → IsCurrent d w other v
    → IsCurrent d w' other v
moved d other w w' same corrupt h = tt
moved d other w w' same (target id url) (su, hit, is_id, is_url) = (su, same ∙ hit, is_id, is_url)

-- What was published in `w'` and not yet in `w`, the last message first.
abbrev pub published_since : World → World → List CacheKey
published_since w w' = take (length w'.published - length w.published) w'.published

-- What an invalidation publishes is the message with its key.
one_message :
    (key : CacheKey) (w w' : World)
    → w'.published ≡ key ∷ w.published
    → published_since w w' ≡ key ∷ []
unfolding take
one_message key w w' more =
    let one : suc (length w.published) - length w.published ≡ 1 = omega arith in rw (more, one) refl

-- A redirect process whose tiers hold only current targets is coherent again after a change of one
-- short code's row, at the same time, that leaves what the other codes redirect to, once
-- the cache has been invalidated for the code and the process has received the messages that were
-- published by that.
pub purge_restores :
    (t : LocalTier)
    → IsLossy t
    → (d : ℕ) (code : Text) (n : Node t) (w : World) → IsCoherent d n
    → w.clock ≡ n.world.clock
    → w.cache ≡ n.world.cache
    → ((other : Text) → other ≢ code → current d other w ≡ current d other n.world)
    → (invalidate d code w).0 ≡ ok tt
    → let w' = (invalidate d code w).1 in
      IsCoherent d (subscribe (published_since w w') (record n { world = w' }))
unfolding subscribe evict
purge_restores t lossy d code n w (l, r) time same others done =
    let w' = (invalidate d code w).1 in
    let (purged, clock, urls, sent) = invalidated d code w done in
    let now : (other : Text) → other ≢ code → current d other w' ≡ current d other n.world =
      λ other x. (rw (clock, urls) refl) ∙ others other x in
    rw (one_message (cache_key d code) w w' sent) (
      λ other v k.
          let (differ, kept) =
            lossy.get-del w'.clock (cache_key d code) (cache_key d other) v n.local k in
          moved d other n.world w' (now other (λ e. differ (ap (cache_key d) e))) v
            (l other v (rw (clock, time) at kept)),
      λ other v k. elim (Bool-cases (text_eq other code)) [
        | inl mine ↦
            let found =
              rw (purged, (text_eq_iff other code).0 mine, find-without_key d code w.cache) at k in
            cc
        | inr differ ↦
            let kept = find-other d code other w.cache differ in
            moved d other n.world w'
              (now other (λ e. cc (rw ((text_eq_iff other code).1 e) at differ))) v
              (r other v (rw (purged, kept, same) at k))
      ],
    )
