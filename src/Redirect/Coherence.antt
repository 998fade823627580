-- ===== src/Redirect/Coherence.antt =====
-- What the two tiers of the cache hold while a request is served.
use knives.Prelude.{
  ℕ, ◌≡◌, refl, ap, sym, ◌∙◌, subst, inl, inr, Text, text_eq, text_eq_iff, text_eq_refl, ==_refl,
  true, false, List, [], ◌∷◌, Option, none, some, find, select, Bool-cases, arith,
}
use knives.World.{World, statement, failing, called}
use knives.World.Effects.{Result, ok, err, next}
use knives.World.Effects.Keeps.{Keeps, next_after}
use knives.World.Rows.{ShortUrl, Cached, target, corrupt, CacheEntry}
use knives.Storage.Links.{is_target}
use knives.Cache.{has_cache_key, cached_value, redis_get, redis_set, without_key}
use knives.Cache.Tiers.{
  LocalTier, IsLossy, Node, cache_key, back_in, set_local, fill_local, local_or_redis, cache_get,
  cache_set,
}
use knives.Redirect.{RedirectReply, not_found_page, found}

-- The answer that the database's query of a short code calls for.
abbrev pub answer_of : Option ShortUrl → RedirectReply
answer_of none = not_found_page
answer_of (some su) = found su.long_url

abbrev pub current : ℕ → Text → World → Option ShortUrl
current domain_id code w = find (is_target domain_id code w.clock) w.short_urls

-- What is cached for a code is its target of now, or does not decode.
abbrev pub IsCurrent : ℕ → World → Text → Cached → Type 0
IsCurrent d w code corrupt = Unit
IsCurrent d w code (target id long_url) =
    (su : ShortUrl) × (current d code w ≡ some su) × (su.id ≡ id) × (su.long_url ≡ long_url)

-- Both tiers hold only what is current.
abbrev pub IsLocalCurrent : (t : LocalTier) → ℕ → World → t.Store → Type 0
IsLocalCurrent t d w s =
    (code : Text) (v : Cached) → t.get w.clock (cache_key d code) s ≡ some v → IsCurrent d w code v

abbrev pub IsRedisCurrent : ℕ → World → List CacheEntry → Type 0
IsRedisCurrent d w rows =
    (code : Text) (v : Cached)
    → cached_value (find (has_cache_key d code) rows) ≡ some v
    → IsCurrent d w code v

abbrev pub IsCoherent : {t : LocalTier} → ℕ → Node t → Type 0
IsCoherent {t} d n = IsLocalCurrent t d n.world n.local × IsRedisCurrent d n.world n.world.cache

ok_injective : {A : Type 0} {a b : A} → ok a ≡ ok b → a ≡ b
ok_injective h = cc

some_injective : {A : Type 0} {a b : A} → some a ≡ some b → a ≡ b
some_injective h = cc

differ_back : (s t : Text) → text_eq s t ≡ false → text_eq t s ≡ false
differ_back s t h = ground (arith, text_eq_iff s t, text_eq_iff t s, text_eq_refl s)

pub find-other :
    (d : ℕ) (code other : Text) (rows : List CacheEntry)
    → text_eq other code ≡ false
    → find (has_cache_key d other) (without_key d code rows) ≡ find (has_cache_key d other) rows
unfolding find without_key select has_cache_key
find-other d code other [] h = refl
find-other d code other (e ∷ rows) h = ground (
  arith,
  find-other d code other rows,
  text_eq_iff e.short_code code,
  text_eq_iff e.short_code other,
  text_eq_refl other,
)

module _ (w0 : World) where
  -- A later state of the same request.
  abbrev pub Follows : World → Type 0
  Follows w =
      (w.clock ≡ w0.clock) × (w.short_urls ≡ w0.short_urls) × (w0.faults ≡ [] → w.faults ≡ [])

  called-Follows : (w : World) → Follows w → Follows (called w)
  called-Follows w (c, u, f) = (c, u, λ clear. rw (f clear) refl)

module _ (d : ℕ) (w0 : World) where
  abbrev pub IsSafe : World → Type 0
  IsSafe w = Follows w0 w × IsRedisCurrent d w0 w.cache

  pub called-IsSafe : (w : World) → IsSafe w → IsSafe (called w)
  called-IsSafe w (f, r) = (called-Follows w0 w f, r)

  entry_first :
      (code other : Text) (v : Cached) (rows : List CacheEntry)
      → text_eq code other ≡ true
      → cached_value (
          find
            (has_cache_key d other)
            (record { domain_id = d; short_code = code; value = v } ∷ rows))
        ≡ some v
  unfolding find has_cache_key
  entry_first code other v rows same = ground (arith, ==_refl d)

  entry_skipped :
      (code other : Text) (v : Cached) (rows : List CacheEntry)
      → text_eq code other ≡ false
      → find (has_cache_key d other) (record { domain_id = d; short_code = code; value = v } ∷ rows)
        ≡ find (has_cache_key d other) rows
  unfolding find has_cache_key
  entry_skipped code other v rows differ = ground arith

  stored-IsRedisCurrent :
      (code : Text) (v : Cached) (rows : List CacheEntry)
      → IsCurrent d w0 code v
      → IsRedisCurrent d w0 rows
      → IsRedisCurrent d w0
          (record { domain_id = d; short_code = code; value = v } ∷ without_key d code rows)
  stored-IsRedisCurrent code v rows now r other x k = elim (Bool-cases (text_eq code other)) [
    | inl same ↦
        subst (λ c. IsCurrent d w0 c x) ((text_eq_iff code other).0 same)
          (subst (IsCurrent d w0 code)
            (some_injective (sym (entry_first code other v (without_key d code rows) same) ∙ k))
            now)
    | inr differ ↦ r other x (
        ap cached_value (
          sym (
            entry_skipped code other v (without_key d code rows) differ
            ∙ find-other d code other rows (differ_back code other differ)))
        ∙ k)
  ]

  redis_set-IsSafe :
      (code : Text) (v : Cached) → IsCurrent d w0 code v → Keeps IsSafe (redis_set d code v)
  unfolding redis_set statement
  redis_set-IsSafe code v now w (f, r) = elim (Bool-cases (failing w.faults)) [
    | inl e ↦ rw e (called-IsSafe w (f, r))
    | inr e ↦ rw e (called-Follows w0 w f, stored-IsRedisCurrent code v w.cache now r)
  ]

  redis_get_ok :
      (code : Text) (w : World)
      → IsSafe w
      → IsSafe (redis_get d code w).1
        × ((v : Cached) → (redis_get d code w).0 ≡ ok (some v) → IsCurrent d w0 code v)
  unfolding redis_get statement
  redis_get_ok code w h = elim (Bool-cases (failing w.faults)) [
    | inl e ↦ rw e (called-IsSafe w h, λ v k. cc)
    | inr e ↦ rw e (called-IsSafe w h, λ v k. h.1 code v (ok_injective k))
  ]

module _ (t : LocalTier) (lossy : IsLossy t) (d : ℕ) (w0 : World) where
  -- A state of the process during the request: nothing but current targets is cached.
  abbrev pub IsServing : Node t → Type 0
  IsServing n = IsSafe d w0 n.world × IsLocalCurrent t d w0 n.local

  set_local-IsServing :
      (code : Text) (v : Cached)
      → IsCurrent d w0 code v
      → Keeps IsServing (set_local {t = t} d code v)
  unfolding set_local
  set_local-IsServing code v now n (h, l) = (
    h,
    λ other x k.
        elim (lossy.get-set w0.clock _ (cache_key d code) (cache_key d other) v x n.local k) [
          | inl (same, is_v) ↦
              subst (λ c. IsCurrent d w0 c x) (sym (ap (λ c. c.short_code) same))
                (subst (IsCurrent d w0 code) (sym is_v) now)
          | inr before ↦ l other x before
        ],
  )

  fill_local_ok :
      (code : Text) (o : Option Cached)
      → ((v : Cached) → o ≡ some v → IsCurrent d w0 code v)
      → Keeps IsServing (fill_local {t = t} d code o)
  unfolding fill_local set_local
  fill_local_ok code none now n h = h
  fill_local_ok code (some v) now n h = set_local-IsServing code v (now v refl) n h

  -- A lookup in the two tiers, and what came of it.
  abbrev pub IsLookup : Text → Result (Option Cached) × Node t → Type 0
  IsLookup code out = IsServing out.1 × ((v : Cached) → out.0 ≡ ok (some v) → IsCurrent d w0 code v)

  filled_ok :
      (code : Text) (o : Option Cached)
      → ((v : Cached) → o ≡ some v → IsCurrent d w0 code v)
      → (n : Node t) → IsServing n
      → IsLookup code (fill_local {t = t} d code o n)
  unfolding fill_local set_local
  filled_ok code none now n h = (h, λ v k. cc)
  filled_ok code (some v) now n h =
      (fill_local_ok code (some v) now n h, λ x k. now x (ok_injective k))

  redis-IsLookup :
      (code : Text) (n : Node t) (r : Result (Option Cached) × World)
      → IsSafe d w0 r.1
      → IsLocalCurrent t d w0 n.local
      → ((v : Cached) → r.0 ≡ ok (some v) → IsCurrent d w0 code v)
      → IsLookup code (next (fill_local {t = t} d code) (back_in n r))
  redis-IsLookup code n (ok o, w) h l now =
      filled_ok code o (λ v k. now v (ap ok k)) (record n { world = w }) (h, l)
  redis-IsLookup code n (err e, w) h l now = ((h, l), λ v k. cc)

  looked_up :
      (code : Text) (o : Option Cached)
      → ((v : Cached) → o ≡ some v → IsCurrent d w0 code v)
      → (n : Node t) → IsServing n
      → IsLookup code (local_or_redis {t = t} d code o n)
  unfolding local_or_redis
  looked_up code (some v) now n h = (h, λ x k. now x (ok_injective k))
  looked_up code none now n (h, l) =
      let (safe, found_now) = redis_get_ok d w0 code n.world h in
      redis-IsLookup code n (redis_get d code n.world) safe l found_now

  pub cache_get_ok :
      (code : Text) (n : Node t) → IsServing n → IsLookup code (cache_get {t = t} d code n)
  unfolding cache_get
  cache_get_ok code n h =
      looked_up code (t.get n.world.clock (cache_key d code) n.local)
        (λ v k. h.1 code v (rw h.0.0.0 at k)) n h

  pub cache_set_ok :
      (code : Text) (v : Cached)
      → IsCurrent d w0 code v
      → Keeps IsServing (cache_set {t = t} d code v)
  unfolding cache_set
  cache_set_ok code v now n (h, l) =
      next_after IsServing IsServing (λ (_ : Unit {0}). set_local {t = t} d code v) (λ _ x. x)
        (λ _. set_local-IsServing code v now) (back_in n (redis_set d code v n.world))
        (redis_set-IsSafe d w0 code v now n.world h, l)
