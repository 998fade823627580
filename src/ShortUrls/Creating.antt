-- ===== src/ShortUrls/Creating.antt =====
-- What `Service.Create` promises: a stored, owned short URL under a free and usable code, or no
-- change at all.
use knives.Prelude.{
  ℕ, ◌≡◌, refl, sym, ◌∙◌, ap, Text, text_eq, Bool, true, false, not, [], ◌∷◌, Option, trim_space,
  arith, any, if◌then◌else◌,
}
use knives.World.{World}
use knives.World.Effects.{Result, ok, err, ◌>>=◌, lift}
use knives.World.Rows.{ShortUrl}
use knives.Storage.Links.{has_code}
use knives.Storage.Links.Creation.{SameLinks, owner_row}
use knives.ShortUrls.Codes.{is_reserved_short_code}
use knives.ShortUrls.{
  new_row, CreateInput, Url, create_random, create_with_alias, create, normalize_long_url,
  is_http_url, short_code_settings,
}
use knives.ShortUrls.Attempts.{Created, create_with_alias-Created, settings-Created}

module _ (parse_url : Text → Option Url) where
  -- An accepted long URL is the trimmed input, and parses as an http(s) URL with a host.
  normalize_long_url_ok :
      (raw long_url : Text)
      → normalize_long_url parse_url raw ≡ ok long_url
      → (trim_space raw ≡ long_url) × (is_http_url (parse_url long_url) ≡ true)
  unfolding normalize_long_url
  normalize_long_url_ok raw long_url h = ground arith

  -- What the caller of `Create` gets: a stored row with its owner's grant, or unchanged tables.
  abbrev pub Outcome : CreateInput → World → Result ShortUrl × World → Type 0
  Outcome input w (ok su, w') =
      (su.long_url ≡ trim_space input.long_url)
      × (is_http_url (parse_url su.long_url) ≡ true)
      × (is_reserved_short_code su.short_code ≡ false)
      × (any (has_code input.domain_id su.short_code) w.short_urls ≡ false)
      × (w'.short_urls ≡ su ∷ w.short_urls)
      × (w'.permissions ≡ owner_row su w ∷ w.permissions)
      × (su ≡ record (new_row input su.long_url su.short_code) { id = su.id; created_at = w.clock })
  Outcome input w (err e, w') = SameLinks w w'

  to_outcome :
      (input : CreateInput) (long_url : Text) (w : World) (r : Result ShortUrl × World)
      → normalize_long_url parse_url input.long_url ≡ ok long_url
      → Created input long_url w r
      → Outcome input w r
  to_outcome input long_url w (ok su, v) e (code, usable, c) =
      let (trimmed, http) = normalize_long_url_ok input.long_url long_url e in
      let url : su.long_url ≡ long_url = ap (λ (s : ShortUrl). s.long_url) c.stored in
      let row : Text → Text → ShortUrl =
        λ l k. record (new_row input l k) { id = su.id; created_at = w.clock } in
      let key : su.short_code ≡ code = ap (λ (s : ShortUrl). s.short_code) c.stored in
      (
        url ∙ sym trimmed,
        rw url http,
        rw key usable,
        rw key c.free,
        c.added,
        c.owned,
        c.stored ∙ ap (λ (l : Text). row l code) (sym url) ∙ ap (row su.long_url) (sym key),
      )
  to_outcome input long_url w (err x, v) e c = c

  either-Created :
      (input : CreateInput) (long_url : Text) (b : Bool) (w : World)
      → Created input long_url w (
          (if b
              then create_with_alias input long_url
              else (short_code_settings >>= λ (s : Text × ℕ).
                  create_random input long_url s.0 s.1 5))
            w)
  either-Created input long_url true w = create_with_alias-Created input long_url w
  either-Created input long_url false w = settings-Created input long_url w

  create_from :
      (input : CreateInput) (w : World) (r : Result Text)
      → normalize_long_url parse_url input.long_url ≡ r
      → Outcome input w (
          (lift r >>= λ long_url.
          if not (text_eq input.custom_alias [])
          then create_with_alias input long_url
          else (short_code_settings >>= λ (s : Text × ℕ). create_random input long_url s.0 s.1 5))
            w)
  create_from input w (err x) e = (refl, refl)
  create_from input w (ok long_url) e =
      to_outcome input long_url w _ e
        (either-Created input long_url (not (text_eq input.custom_alias [])) w)

  -- `Create` either returns a short URL or an error. In the first case the long URL is the trimmed
  -- input, an http(s) URL with a host; the code is not reserved and was free in the domain; the row,
  -- made from the input and the clock, was added together with the grant that makes the creator its owner. In the second case no short
  -- URL and no grant was changed. It holds whatever calls fail and whatever codes are drawn.
  pub create_outcome :
      (input : CreateInput) (w : World) → Outcome input w (create parse_url input w)
  unfolding create
  create_outcome input w = create_from input w (normalize_long_url parse_url input.long_url) refl
