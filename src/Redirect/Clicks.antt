-- ===== src/Redirect/Clicks.antt =====
-- The clicks that the redirect server writes on the stream, as the worker reads them.
use knives.Prelude.{
  ℕ, ◌≡◌, refl, ap, sym, ◌∙◌, Text, List, [], ◌∷◌, Option, none, some, find, Bool-cases,
  Option-cases, inl, inr,
}
use knives.World.{World, statement, failing}
use knives.World.Effects.{Result, ok, err}
use knives.World.Rows.{ShortUrl, Cached, target, corrupt, ClickEvent}
use knives.Storage.Links.{find_redirect_target}
use knives.Cache.{redis_get, redis_set, has_cache_key}
use knives.Cache.Tiers.{
  LocalTier, IsLossy, Node, cache_key, set_local, fill_local, local_or_redis, cache_get, cache_set,
}
use knives.Worker.{Message, Parsers, parse_click_event, parse_with}
use knives.Redirect.{
  Request, Formats, Config, build_click_values, push_click, record_click, serve_stored,
  from_storage, serve_cached, redirect,
}
use knives.Redirect.Coherence.{current, IsCoherent, IsServing, IsLookup, cache_get_ok}

some_injective : {A : Type 0} {a b : A} → some a ≡ some b → a ≡ b
some_injective h = cc

module _ {t : LocalTier} (d : ℕ) (code : Text) where
  cache_get_stream : (n : Node t) → (cache_get d code n).1.stream ≡ n.stream
  unfolding cache_get local_or_redis fill_local set_local redis_get statement
  cache_get_stream n = elim (Option-cases (t.get n.world.clock (cache_key d code) n.local)) [
    | inr (v, k) ↦ rw k refl
    | inl k ↦ elim (Bool-cases (failing n.world.faults)) [
      | inl e ↦ rw (k, e) refl
      | inr e ↦ elim (Option-cases (find (has_cache_key d code) n.world.cache)) [
        | inl gone ↦ rw (k, e, gone) refl
        | inr (x, hit) ↦ rw (k, e, hit) refl
      ]
    ]
  ]

module _ (f : Formats) (c : Config) (t : LocalTier) (lossy : IsLossy t) (w0 : World)
    (su : ShortUrl) where
  -- One click of the short URL is on the stream.
  abbrev IsClicked : Request → List Message → List Message → Type 0
  IsClicked req before after =
      (id : ℕ) × (after ≡ build_click_values f c req su.id w0.clock id ∷ before)

  pushed :
      (id : ℕ) (req : Request) (n : Node t)
      → n.world.faults ≡ []
      → n.world.clock ≡ w0.clock
      → id ≡ su.id
      → IsClicked req n.stream (push_click f c {t = t} id req n).1.stream
  unfolding push_click statement
  pushed id req n clear time same = (n.world.next_id, rw (clear, time, same) refl)

  stored_click :
      (req : Request) (n : Node t)
      → n.world.faults ≡ []
      → n.world.clock ≡ w0.clock
      → current c.domain_id req.code n.world ≡ some su
      → IsClicked req n.stream (from_storage f c req n).1.stream
  unfolding from_storage serve_stored record_click push_click cache_set set_local redis_set
      find_redirect_target statement
  stored_click req n clear time hit = (n.world.next_id, rw (clear, hit, time) refl)

  cached_click :
      (req : Request) (out : Result (Option Cached) × Node t)
      → w0.faults ≡ []
      → current c.domain_id req.code w0 ≡ some su
      → IsLookup t lossy c.domain_id w0 req.code out
      → IsClicked req out.1.stream (serve_cached f c req out).1.stream
  unfolding serve_cached record_click
  cached_click req (ok (some (target id url)), n) clear hit (h, now) =
      let (row, cur, is_id, _) = now (target id url) refl in
      pushed id req n (h.0.0.2 clear) h.0.0.0
        (sym is_id ∙ ap (λ (u : ShortUrl). u.id) (some_injective (sym cur ∙ hit)))
  cached_click req (ok (some corrupt), n) clear hit (h, now) =
      stored_click req n (h.0.0.2 clear) h.0.0.0 (rw (h.0.0.0, h.0.0.1) hit)
  cached_click req (ok none, n) clear hit (h, now) =
      stored_click req n (h.0.0.2 clear) h.0.0.0 (rw (h.0.0.0, h.0.0.1) hit)
  cached_click req (err e, n) clear hit (h, now) =
      stored_click req n (h.0.0.2 clear) h.0.0.0 (rw (h.0.0.0, h.0.0.1) hit)

-- A click event of a short URL at a time.
abbrev pub IsEventOf : ShortUrl → ℕ → Option ClickEvent → Type 0
IsEventOf su now none = ⊥
IsEventOf su now (some ev) = (ev.short_url_id ≡ su.id) × (ev.clicked_at ≡ now)

parsed_click :
    (f : Formats) (c : Config) (p : Parsers) (req : Request) (su : ShortUrl) (now id : ℕ)
    → p.parse_uuid (f.format_uuid su.id) ≡ some su.id
    → p.parse_time (f.format_time now) ≡ some now
    → IsEventOf su now (parse_click_event p (build_click_values f c req su.id now id))
unfolding parse_click_event parse_with build_click_values
parsed_click f c p req su now id ids times = rw (ids, times) (refl, refl)

-- Where both tiers of the cache hold only targets that are current and no call fails, a request for a
-- code that has a target puts one message on the stream, from which the worker reads a click of
-- that short URL at the time of the request, if what prints UUIDs and times is what the worker's
-- parsers read.
pub redirect_click :
    (f : Formats) (c : Config) (p : Parsers) (t : LocalTier)
    → IsLossy t
    → (req : Request) (n : Node t) (su : ShortUrl) → IsCoherent c.domain_id n
    → n.world.faults ≡ []
    → current c.domain_id req.code n.world ≡ some su
    → p.parse_uuid (f.format_uuid su.id) ≡ some su.id
    → p.parse_time (f.format_time n.world.clock) ≡ some n.world.clock
    → (m : Message) × ((redirect f c req n).1.stream ≡ m ∷ n.stream)
      × IsEventOf su n.world.clock (parse_click_event p m)
unfolding redirect
redirect_click f c p t lossy req n su (l, r) clear hit ids times =
    let start : IsServing t lossy c.domain_id n.world n = (((refl, refl, λ e. e), r), l) in
    let (id, grown) =
      cached_click f c t lossy n.world su req (cache_get c.domain_id req.code n) clear hit
        (cache_get_ok t lossy c.domain_id n.world req.code n start) in
    let click = build_click_values f c req su.id n.world.clock id in
    (
      click,
      grown ∙ ap (λ (s : List Message). click ∷ s) (cache_get_stream c.domain_id req.code n),
      parsed_click f c p req su n.world.clock id ids times,
    )
