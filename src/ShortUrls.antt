-- ===== src/ShortUrls.antt =====
-- internal/shorturl/shorturl.go: the service that creates, updates and disables short URLs.
pub mod Listing
pub mod Codes
pub mod Paging
pub mod Attempts
pub mod Creating
pub mod Redirects
pub mod Bounds
use knives.Prelude.{
  ℕ, zero, suc, Text, text_eq, trim_space, if◌then◌else◌, [], Option, none, some, Bool, true, false,
  not, ◌||◌, ◌&&◌, codes,
}
use knives.World.{World, statement}
use knives.World.Effects.{
  Exec, Result, ok, err, Err, pure, raise, gets, attempt, lift, ◌>>=◌, ◌>>◌, invalid_long_url,
  alias_taken, code_collision, attempts_exhausted,
}
use knives.World.Rows.{ShortUrl, Status, Source}
use knives.Storage.Links.{create_short_url, update_fields, set_status}
use Codes.{is_reserved_short_code, normalize_alias, random_code}

pub record CreateInput : Type 0 where
  pub domain_id : ℕ
  pub custom_alias : Text
  pub long_url : Text
  pub title : Text
  pub description : Text
  pub created_by : ℕ
  pub expires_at : Option ℕ

pub record UpdateInput : Type 0 where
  pub long_url : Text
  pub title : Text
  pub description : Text
  pub expires_at : Option ℕ

-- What the service reads of a `url.URL`.
pub record Url : Type 0 where
  pub scheme : Text
  pub host : Text

abbrev pub max_random_code_attempts : ℕ
max_random_code_attempts = 5

unfoldable pub is_http_url : Option Url → Bool
is_http_url none = false
is_http_url (some u) =
    (text_eq u.scheme (codes "http") || text_eq u.scheme (codes "https")) && not (text_eq u.host [])

-- `parse_url` is net/url's Parse; `none` is its error.
module _ (parse_url : Text → Option Url) where
  unfoldable pub normalize_long_url : Text → Result Text
  normalize_long_url raw =
      let trimmed = trim_space raw in
      if text_eq trimmed []
      then err invalid_long_url
      else if is_http_url (parse_url trimmed)
      then ok trimmed
      else err invalid_long_url

-- The row that is inserted; the database sets its id and its time.
abbrev pub new_row : CreateInput → Text → Text → ShortUrl
new_row input long_url code = record {
  id = 0;
  domain_id = input.domain_id;
  short_code = code;
  long_url = long_url;
  title = input.title;
  description = input.description;
  created_by = input.created_by;
  status = Status.active;
  expires_at = input.expires_at;
  source = Source.native;
  created_at = 0;
}

unfoldable pub insert : CreateInput → Text → Text → Exec World ShortUrl
insert input long_url code = create_short_url (new_row input long_url code)

abbrev pub or_alias_taken : Result ShortUrl → Exec World ShortUrl
or_alias_taken (ok su) = pure su
or_alias_taken (err code_collision) = raise alias_taken
or_alias_taken (err e) = raise e

unfoldable pub create_with_alias : CreateInput → Text → Exec World ShortUrl
create_with_alias input long_url = do
  alias ← lift (normalize_alias input.custom_alias)
  r ← attempt (insert input long_url alias)
  or_alias_taken r

-- What a round of the loop does with the store's answer: a collision goes on to `again`.
abbrev pub or_again : Exec World ShortUrl → Result ShortUrl → Exec World ShortUrl
or_again again (ok su) = pure su
or_again again (err code_collision) = again
or_again again (err e) = raise e

unfoldable pub try_code : CreateInput → Text → Exec World ShortUrl → Text → Exec World ShortUrl
try_code input long_url again code w =
    if is_reserved_short_code code
    then again w
    else (do r ← attempt (insert input long_url code); or_again again r) w

-- The loop of `Create`, over the attempts left.
unfoldable pub create_random : CreateInput → Text → Text → ℕ → ℕ → Exec World ShortUrl
create_random input long_url charset length zero w = (err attempts_exhausted, w)
create_random input long_url charset length (suc left) w =
    let again = λ (w' : World). create_random input long_url charset length left w' in
    (random_code charset length >>= try_code input long_url again) w

unfoldable pub short_code_settings : Exec World (Text × ℕ)
short_code_settings = statement (gets (λ w. (w.charset, w.code_length)))

module _ (parse_url : Text → Option Url) where
  unfoldable pub create : CreateInput → Exec World ShortUrl
  create input = do
    long_url ← lift (normalize_long_url parse_url input.long_url)
    if not (text_eq input.custom_alias []) then create_with_alias input long_url else (do
      (charset, length) ← short_code_settings
      create_random input long_url charset length max_random_code_attempts)

  unfoldable pub update : ℕ → UpdateInput → Exec World ShortUrl
  update id input = do
    long_url ← lift (normalize_long_url parse_url input.long_url)
    update_fields id long_url input.title input.description input.expires_at

unfoldable pub disable : ℕ → Exec World (Unit {0})
disable id = set_status id Status.disabled
