-- ===== src/Redirect/Refinement.antt =====
-- The cached redirects against the query that they stand for.
use knives.Prelude.{ℕ, ◌≡◌, refl, ap, sym, ◌∙◌, inl, inr, Text, [], Option, none, some, Bool-cases}
use knives.World.{World, statement, failing, called}
use knives.World.Effects.{Result, ok, err, some_or, not_found}
use knives.World.Effects.Keeps.{Keeps}
use knives.World.Rows.{ShortUrl, Cached, target, corrupt}
use knives.Storage.Links.{find_redirect_target}
use knives.Cache.Tiers.{LocalTier, IsLossy, Node, back_in, cache_get}
use knives.Redirect.{
  Request, Formats, Config, RedirectReply, found, push_click, record_click, serve_stored,
  from_storage, serve_cached, redirect,
}
use knives.Redirect.Coherence.{
  answer_of, current, IsCurrent, IsLocalCurrent, IsCoherent, IsSafe, IsServing, IsLookup,
  called-IsSafe, cache_get_ok, cache_set_ok,
}

module _ (f : Formats) (c : Config) (t : LocalTier) (lossy : IsLossy t) (w0 : World) where
  abbrev IsServingNow : Node t → Type 0
  IsServingNow = IsServing t lossy c.domain_id w0

  -- A reply for a code: with no call failing the one that the query calls for, and never another redirect.
  abbrev IsReply : Text → RedirectReply → Type 0
  IsReply code r =
      (w0.faults ≡ [] → r ≡ answer_of (current c.domain_id code w0))
      × ((url : Text) → r ≡ found url → answer_of (current c.domain_id code w0) ≡ found url)

  abbrev IsServed : Text → RedirectReply × Node t → Type 0
  IsServed code out = IsReply code out.0 × IsServingNow out.1

  push_click-IsServing :
      (id : ℕ) (req : Request) → Keeps IsServingNow (push_click f c {t = t} id req)
  unfolding push_click statement
  push_click-IsServing id req n (h, l) = elim (Bool-cases (failing n.world.faults)) [
    | inl e ↦ rw e (called-IsSafe c.domain_id w0 n.world h, l)
    | inr e ↦ rw e (called-IsSafe c.domain_id w0 n.world h, l)
  ]

  right-IsReply :
      (code url : Text)
      → answer_of (current c.domain_id code w0) ≡ found url
      → IsReply code (found url)
  right-IsReply code url e = (λ _. sym e, λ other k. e ∙ k)

  -- The database's answer for a code.
  abbrev IsQueried : Text → Result ShortUrl × World → Type 0
  IsQueried code (ok su, w) = (current c.domain_id code w0 ≡ some su) × IsSafe c.domain_id w0 w
  IsQueried code (err e, w) =
      (w0.faults ≡ [] → current c.domain_id code w0 ≡ none) × IsSafe c.domain_id w0 w

  some_or_ok :
      (code : Text) (o : Option ShortUrl) (w : World)
      → current c.domain_id code w0 ≡ o
      → IsSafe c.domain_id w0 w
      → IsQueried code (some_or not_found o, w)
  some_or_ok code none w e h = (λ _. e, h)
  some_or_ok code (some su) w e h = (e, h)

  query_ok :
      (code : Text) (w : World)
      → IsSafe c.domain_id w0 w
      → IsQueried code (find_redirect_target c.domain_id code w)
  unfolding find_redirect_target statement
  query_ok code w h = elim (Bool-cases (failing w.faults)) [
    | inl e ↦ rw e (λ clear. cc (rw (h.0.2 clear) at e), called-IsSafe c.domain_id w0 w h)
    | inr e ↦ rw e (
        some_or_ok code (current c.domain_id code w) (called w) (rw (h.0.0, h.0.1) refl)
          (called-IsSafe c.domain_id w0 w h))
  ]

  stored_ok :
      (req : Request) (n : Node t) (r : Result ShortUrl × World)
      → IsLocalCurrent t c.domain_id w0 n.local
      → IsQueried req.code r
      → IsServed req.code (serve_stored f c req (back_in n r))
  unfolding serve_stored record_click
  stored_ok req n (err e, w) l (gone, h) = ((λ clear. rw (gone clear) refl, λ url k. cc), (h, l))
  stored_ok req n (ok su, w) l (hit, h) =
      let served =
        cache_set_ok t lossy c.domain_id w0 req.code (target su.id su.long_url)
          (su, hit, refl, refl) (record n { world = w }) (h, l) in
      (
        right-IsReply req.code su.long_url (ap answer_of hit),
        push_click-IsServing su.id req _ served,
      )

  from_storage_ok :
      (req : Request) (n : Node t) → IsServingNow n → IsServed req.code (from_storage f c req n)
  unfolding from_storage
  from_storage_ok req n (h, l) =
      stored_ok req n (find_redirect_target c.domain_id req.code n.world) l
        (query_ok req.code n.world h)

  cached_ok :
      (req : Request) (out : Result (Option Cached) × Node t)
      → IsLookup t lossy c.domain_id w0 req.code out
      → IsServed req.code (serve_cached f c req out)
  unfolding serve_cached record_click
  cached_ok req (ok (some (target id url)), n) (h, now) =
      let (su, hit, _, same) = now (target id url) refl in
      (
        right-IsReply req.code url (ap answer_of hit ∙ ap found same),
        push_click-IsServing id req n h,
      )
  cached_ok req (ok (some corrupt), n) (h, now) = from_storage_ok req n h
  cached_ok req (ok none, n) (h, now) = from_storage_ok req n h
  cached_ok req (err e, n) (h, now) = from_storage_ok req n h

moved-IsCurrent :
    (d : ℕ) (w0 w : World)
    → w.clock ≡ w0.clock
    → w.short_urls ≡ w0.short_urls
    → (code : Text) (v : Cached) → IsCurrent d w0 code v
    → IsCurrent d w code v
moved-IsCurrent d w0 w time urls code corrupt h = tt
moved-IsCurrent d w0 w time urls code (target id url) (su, hit, is_id, is_url) =
    (su, rw (time, urls) hit, is_id, is_url)

-- The two tiers stay coherent.
moved-IsCoherent :
    (t : LocalTier) (d : ℕ) (w0 : World) (n : Node t)
    → IsSafe d w0 n.world
    → IsLocalCurrent t d w0 n.local
    → IsCoherent d n
moved-IsCoherent t d w0 n h l =
    let moved = moved-IsCurrent d w0 n.world h.0.0 h.0.1 in
    (λ code v k. moved code v (l code v (rw h.0.0 at k)), λ code v k. moved code v (h.1 code v k))

-- Where both tiers of the cache hold only targets that are current, a redirect of a code is the one that the
-- database's query calls for, whatever calls fail; with no call failing the reply is always the
-- query's; and both tiers hold only current targets afterwards.
pub redirect_refines :
    (f : Formats) (c : Config) (t : LocalTier)
    → IsLossy t
    → (req : Request) (n : Node t) → IsCoherent c.domain_id n
    → let (r, n') = redirect f c req n in
      let wanted = answer_of (current c.domain_id req.code n.world) in
      (n.world.faults ≡ [] → r ≡ wanted)
      × ((url : Text) → r ≡ found url → wanted ≡ found url)
      × IsCoherent c.domain_id n'
unfolding redirect
redirect_refines f c t lossy req n (l, r) =
    let start : IsServing t lossy c.domain_id n.world n = (((refl, refl, λ e. e), r), l) in
    let (reply, (h, l')) =
      cached_ok f c t lossy n.world req (cache_get c.domain_id req.code n)
        (cache_get_ok t lossy c.domain_id n.world req.code n start) in
    (reply.0, reply.1, moved-IsCoherent t c.domain_id n.world (redirect f c req n).1 h l')
