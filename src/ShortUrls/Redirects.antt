-- ===== src/ShortUrls/Redirects.antt =====
-- A created short URL against the redirect server's query.
use knives.Prelude.{◌≡◌, Text, text_eq_refl, ==_refl, true, false, Option, find, arith}
use knives.World.{World, failing, statement}
use knives.World.Effects.{Result, ok, err}
use knives.World.Rows.{ShortUrl}
use knives.Storage.Links.{find_redirect_target, is_target, has_code, unexpired}
use knives.ShortUrls.{CreateInput, Url, create}
use knives.ShortUrls.Creating.{Outcome, create_outcome}

module _ (parse_url : Text → Option Url) where
  redirects_to_created :
      (input : CreateInput) (w : World) (r : Result ShortUrl × World) (su : ShortUrl)
      → Outcome parse_url input w r
      → r.0 ≡ ok su
      → unexpired r.1.clock input.expires_at ≡ true
      → failing r.1.faults ≡ false
      → (find_redirect_target input.domain_id su.short_code r.1).0 ≡ ok su
  unfolding find_redirect_target is_target has_code find statement
  redirects_to_created input w (ok new, w') su made e live clear =
      ground (arith, made, text_eq_refl su.short_code, ==_refl input.domain_id)
  redirects_to_created input w (err x, w') su made e live clear = cc

  -- Where `Create` returns a short URL, the redirect server's query for its domain and code finds
  -- that short URL, unless it has expired by then or the query fails.
  pub create_then_redirect :
      (input : CreateInput) (w : World) (su : ShortUrl)
      → (create parse_url input w).0 ≡ ok su
      → unexpired (create parse_url input w).1.clock input.expires_at ≡ true
      → failing (create parse_url input w).1.faults ≡ false
      → (find_redirect_target input.domain_id su.short_code (create parse_url input w).1).0 ≡ ok su
  create_then_redirect input w su =
      redirects_to_created input w (create parse_url input w) su (create_outcome parse_url input w)
