-- ===== src/Auth/Providers/Secrets.antt =====
-- The client secrets of the configurations, which are stored encrypted.
use knives.Prelude.{
  codes, trim_space, text_eq_iff, any, select, map, not, Bool, ◌≢◌, ℕ, ◌≡◌, refl, ◌∙◌, ◌++◌, Text,
  text_eq, true, false, ==_refl, List, [], ◌∷◌, Option, some, find, update, find-update, find_test,
  arith,
}
use knives.World.{World, statement, fresh, raw_token}
use knives.World.Effects.{ok}
use knives.World.Logins.{OidcConfigRow, OidcConfig, OidcConfigInput}
use knives.Storage.Cipher.{Aead, IsAead, encrypt, decrypt, decrypt-sealed}
use knives.Storage.Providers.{
  has_oidc_id, to_domain, oidc_fields, insert_oidc_config, update_oidc_row, find_oidc_row,
  find_oidc_config, create_oidc_config, update_oidc_config, with_oidc, new_oidc_row,
}
use knives.Auth.Providers.{
  is_empty, clean_scopes, normalize_oidc, add_oidc_config, change_oidc_config,
}
use knives.ShortUrls.{Url, is_http_url}

abbrev pub config_of : OidcConfigInput → ℕ → Text → OidcConfig
config_of input id secret = record {
  id = id;
  name = input.name;
  issuer = input.issuer;
  client_id = input.client_id;
  client_secret = secret;
  scopes = input.scopes;
  require_email_verified_claim = input.require_email_verified_claim;
  enabled = input.enabled;
}

-- The scopes that a request gives: without white space around them, and without empty ones.
abbrev pub given_scopes : OidcConfigInput → List Text
given_scopes raw = select (λ s. not (text_eq s [])) (map trim_space raw.scopes)

-- What a request gives: name, issuer and client id without white space around them, those scopes,
-- and the secret and the switches as they are.
abbrev pub given_input : OidcConfigInput → OidcConfigInput
given_input raw = record {
  name = trim_space raw.name;
  issuer = trim_space raw.issuer;
  client_id = trim_space raw.client_id;
  client_secret = raw.client_secret;
  scopes = given_scopes raw;
  require_email_verified_claim = raw.require_email_verified_claim;
  enabled = raw.enabled;
}

accepted :
    (parse_url : Text → Option Url) (require_secret : Bool) (raw : OidcConfigInput)
    → trim_space raw.name ≢ []
    → trim_space raw.client_id ≢ []
    → (require_secret ≡ true → raw.client_secret ≢ [])
    → is_http_url (parse_url (trim_space raw.issuer)) ≡ true
    → any (text_eq (codes "openid")) (given_scopes raw) ≡ true
    → normalize_oidc parse_url require_secret raw ≡ ok (given_input raw)
unfolding normalize_oidc is_empty clean_scopes
accepted parse_url require_secret raw named client secret issuer scoped = ground (
  arith,
  text_eq_iff (trim_space raw.name) [],
  text_eq_iff (trim_space raw.client_id) [],
  text_eq_iff raw.client_secret [],
)

module _ (c : Aead) where
  encrypted :
      (secret draw : Text) (rest : List Text) (w : World)
      → w.tokens ≡ draw ∷ rest
      → encrypt c secret w
        ≡ (ok (c.encode (c.nonce draw ++ c.seal (c.nonce draw) secret)), record w { tokens = rest })
  unfolding encrypt raw_token
  encrypted secret draw rest w drawn = ground arith

  inserted :
      (input : OidcConfigInput) (secret : Text) (w : World)
      → w.faults ≡ []
      → insert_oidc_config input secret w ≡ (
        ok (new_oidc_row input secret w),
        with_oidc (fresh w) (new_oidc_row input secret w ∷ w.providers.oidc_configs),
      )
  unfolding insert_oidc_config statement
  inserted input secret w clear = ground arith

  row_found :
      (id : ℕ) (row : OidcConfigRow) (w : World)
      → w.faults ≡ []
      → find (has_oidc_id id) w.providers.oidc_configs ≡ some row
      → find_oidc_config c id w ≡ (to_domain c row, w)
  unfolding find_oidc_config find_oidc_row statement
  row_found id row w clear stored = ground arith

  row_updated :
      (id : ℕ) (f : OidcConfigRow → OidcConfigRow) (row : OidcConfigRow) (w : World)
      → w.faults ≡ []
      → find (has_oidc_id id) (update (has_oidc_id id) f w.providers.oidc_configs) ≡ some row
      → update_oidc_row id f w
        ≡ (ok row, with_oidc w (update (has_oidc_id id) f w.providers.oidc_configs))
  unfolding update_oidc_row statement
  row_updated id f row w clear stored = ground arith

  head_found :
      (input : OidcConfigInput) (secret : Text) (w : World) (rows : List OidcConfigRow)
      → find (has_oidc_id w.next_id) (new_oidc_row input secret w ∷ rows)
        ≡ some (new_oidc_row input secret w)
  unfolding find
  head_found input secret w rows = ground (arith, ==_refl w.next_id)

module _ (c : Aead) (parse_url : Text → Option Url) where
  -- Where no call fails: a configuration that is added with a name, a client id, a secret, an
  -- http(s) URL as its issuer and "openid" among its scopes is returned under its new id and found
  -- again under it: with the name, issuer and client id that were given, without white space
  -- around them, the scopes likewise and without empty ones, and the secret and the two switches
  -- exactly as they were given.
  pub add_then_find :
      (correct : IsAead c) (raw : OidcConfigInput) (draw : Text) (rest : List Text) (w : World)
      → w.faults ≡ []
      → w.tokens ≡ draw ∷ rest
      → trim_space raw.name ≢ []
      → trim_space raw.client_id ≢ []
      → raw.client_secret ≢ []
      → is_http_url (parse_url (trim_space raw.issuer)) ≡ true
      → any (text_eq (codes "openid")) (given_scopes raw) ≡ true
      → let (r, v) = add_oidc_config parse_url c raw w in
        let cfg = config_of (given_input raw) w.next_id raw.client_secret in
        (r ≡ ok cfg) × (find_oidc_config c w.next_id v ≡ (ok cfg, v))
  unfolding add_oidc_config create_oidc_config
  add_then_find correct raw draw rest w clear drawn named client secret_given issuer scoped =
      let input = given_input raw in
      let checked = accepted parse_url true raw named client (λ _. secret_given) issuer scoped in
      let v : World = record w { tokens = rest } in
      let secret = c.encode (c.nonce draw ++ c.seal (c.nonce draw) input.client_secret) in
      let plain = decrypt-sealed c correct draw input.client_secret in
      rw
        (
          checked,
          encrypted c input.client_secret draw rest w drawn,
          inserted c input secret v clear,
          plain,
        )
        (
          refl,
          rw
              (
                row_found c w.next_id (new_oidc_row input secret v)
                    (with_oidc (fresh v) (new_oidc_row input secret v ∷ w.providers.oidc_configs))
                    clear (head_found c input secret v w.providers.oidc_configs),
                plain,
              )
              refl,
        )

  -- Where no call fails: a change that gives no secret, and else what an addition asks for, keeps
  -- the secret that is stored, and the configuration is found again with what was given and that
  -- secret.
  pub change_keeps_secret :
      (raw : OidcConfigInput) (id : ℕ) (row : OidcConfigRow) (secret : Text) (w : World)
      → w.faults ≡ []
      → find (has_oidc_id id) w.providers.oidc_configs ≡ some row
      → decrypt c row.client_secret_encrypted ≡ ok secret
      → raw.client_secret ≡ []
      → trim_space raw.name ≢ []
      → trim_space raw.client_id ≢ []
      → is_http_url (parse_url (trim_space raw.issuer)) ≡ true
      → any (text_eq (codes "openid")) (given_scopes raw) ≡ true
      → let (r, v) = change_oidc_config parse_url c id raw w in
        let cfg = config_of (given_input raw) row.id secret in
        (r ≡ ok cfg) × (find_oidc_config c id v ≡ (ok cfg, v))
  unfolding change_oidc_config update_oidc_config
  change_keeps_secret raw id row secret w clear stored plain none_given named client issuer scoped =
      let input = given_input raw in
      let checked = accepted parse_url false raw named client (λ e. cc) issuer scoped in
      let no_secret : text_eq raw.client_secret [] ≡ true =
        (text_eq_iff raw.client_secret []).1 none_given in
      let test = find_test (has_oidc_id id) w.providers.oidc_configs stored in
      let f = oidc_fields input in
      let there : find (has_oidc_id id) (update (has_oidc_id id) f w.providers.oidc_configs)
          ≡ some (f row) =
        find-update (has_oidc_id id) (has_oidc_id id) f (λ x. refl) w.providers.oidc_configs stored
        ∙ rw test refl in
      rw (checked, no_secret, row_updated c id f (f row) w clear there, plain)
        (
          refl,
          rw
              (
                row_found c id (f row)
                    (with_oidc w (update (has_oidc_id id) f w.providers.oidc_configs)) clear there,
                plain,
              )
              refl,
        )
