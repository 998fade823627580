-- ===== src/Storage/Providers.antt =====
-- internal/storage/oidc_config_store.go and saml_config_store.go over idp_oidc_configs.sql.go and
-- idp_saml_configs.sql.go.
use knives.Prelude.{
  ℕ, Text, text_eq, Bool, ◌&&◌, ◌==◌, not, opt_eq, if◌then◌else◌, List, [], ◌∷◌, some, find, count,
  select, update, order_by,
}
use knives.World.{World, statement, fresh}
use knives.World.Effects.{Exec, Result, ok, err, or_raise, lift, ◌>>=◌, not_found}
use knives.World.Rows.{ProviderType, AuthIdentity}
use knives.World.Logins.{OidcConfigRow, OidcConfig, OidcConfigInput, SamlConfig, SamlConfigInput}
use knives.Storage.Accounts.{provider_eq}
use knives.Storage.Cipher.{Aead, encrypt, decrypt}

-- provider_type = t AND provider_config_id = id
unfoldable pub is_of_config : ProviderType → ℕ → AuthIdentity → Bool
is_of_config t id i = provider_eq i.provider_type t && opt_eq i.provider_config_id (some id)

abbrev pub has_oidc_id : ℕ → OidcConfigRow → Bool
has_oidc_id id c = c.id == id

abbrev pub has_saml_id : ℕ → SamlConfig → Bool
has_saml_id id c = c.id == id

abbrev pub with_oidc : World → List OidcConfigRow → World
with_oidc w rows = record w { providers = record w.providers { oidc_configs = rows } }

abbrev pub with_saml : World → List SamlConfig → World
with_saml w rows = record w { providers = record w.providers { saml_configs = rows } }

-- UPDATE ... WHERE id = $1 RETURNING: the row as it is afterwards, or no row.
unfoldable pub update_oidc_row : ℕ → (OidcConfigRow → OidcConfigRow) → Exec World OidcConfigRow
update_oidc_row id f = statement λ w.
    let rows = update (has_oidc_id id) f w.providers.oidc_configs in
    or_raise not_found (find (has_oidc_id id) rows) (with_oidc w rows)

abbrev pub oidc_fields : OidcConfigInput → OidcConfigRow → OidcConfigRow
oidc_fields input c = record c {
  name = input.name;
  issuer = input.issuer;
  client_id = input.client_id;
  scopes = input.scopes;
  require_email_verified_claim = input.require_email_verified_claim;
  enabled = input.enabled;
}

unfoldable pub delete_oidc_config : ℕ → Exec World (Unit {0})
delete_oidc_config id = statement λ w.
    let rows = w.providers.oidc_configs in
    if count (has_oidc_id id) rows == 0
    then (err not_found, w)
    else (ok tt, with_oidc w (select (λ c. not (has_oidc_id id c)) rows))

unfoldable pub count_auth_identities_for_config : ProviderType → ℕ → Exec World ℕ
count_auth_identities_for_config t id =
    statement λ w. (ok (count (is_of_config t id) w.identities), w)

abbrev pub new_oidc_row : OidcConfigInput → Text → World → OidcConfigRow
new_oidc_row input encrypted w = record {
  id = w.next_id;
  name = input.name;
  issuer = input.issuer;
  client_id = input.client_id;
  client_secret_encrypted = encrypted;
  scopes = input.scopes;
  require_email_verified_claim = input.require_email_verified_claim;
  enabled = input.enabled;
}

unfoldable pub insert_oidc_config : OidcConfigInput → Text → Exec World OidcConfigRow
insert_oidc_config input encrypted = statement λ w.
    let row = new_oidc_row input encrypted w in
    (ok row, with_oidc (fresh w) (row ∷ w.providers.oidc_configs))

unfoldable pub find_oidc_row : ℕ → Exec World OidcConfigRow
find_oidc_row id =
    statement λ w. or_raise not_found (find (has_oidc_id id) w.providers.oidc_configs) w

module _ (before_text : Text → Text → Bool) where
  -- ORDER BY name
  unfoldable pub list_oidc_rows : Exec World (List OidcConfigRow)
  list_oidc_rows =
      statement λ w. (ok (order_by (λ c d. before_text c.name d.name) w.providers.oidc_configs), w)

  unfoldable pub list_saml_configs : Exec World (List SamlConfig)
  list_saml_configs =
      statement λ w. (ok (order_by (λ c d. before_text c.name d.name) w.providers.saml_configs), w)

abbrev pub with_secret : OidcConfigRow → Result Text → Result OidcConfig
with_secret row (err e) = err e
with_secret row (ok secret) = ok (record {
  id = row.id;
  name = row.name;
  issuer = row.issuer;
  client_id = row.client_id;
  client_secret = secret;
  scopes = row.scopes;
  require_email_verified_claim = row.require_email_verified_claim;
  enabled = row.enabled;
})

module _ (c : Aead) where
  abbrev pub to_domain : OidcConfigRow → Result OidcConfig
  to_domain row = with_secret row (decrypt c row.client_secret_encrypted)

  abbrev pub cons_config : Result OidcConfig → Result (List OidcConfig) → Result (List OidcConfig)
  cons_config (err e) rest = err e
  cons_config (ok cfg) (err e) = err e
  cons_config (ok cfg) (ok cfgs) = ok (cfg ∷ cfgs)

  -- The loop over the rows, which stops at the first secret that does not decrypt.
  unfoldable pub to_domains : List OidcConfigRow → Result (List OidcConfig)
  to_domains [] = ok []
  to_domains (row ∷ rows) = cons_config (to_domain row) (to_domains rows)

  unfoldable pub list_oidc_configs : (Text → Text → Bool) → Exec World (List OidcConfig)
  list_oidc_configs before_text = do rows ← list_oidc_rows before_text; lift (to_domains rows)

  unfoldable pub find_oidc_config : ℕ → Exec World OidcConfig
  find_oidc_config id = do row ← find_oidc_row id; lift (to_domain row)

  unfoldable pub create_oidc_config : OidcConfigInput → Exec World OidcConfig
  create_oidc_config input = do
    encrypted ← encrypt c input.client_secret
    row ← insert_oidc_config input encrypted
    lift (to_domain row)

  -- An empty secret keeps the one that is stored.
  unfoldable pub update_oidc_config : ℕ → OidcConfigInput → Exec World OidcConfig
  update_oidc_config id input =
      if text_eq input.client_secret []
      then (do row ← update_oidc_row id (oidc_fields input); lift (to_domain row))
      else (do
        encrypted ← encrypt c input.client_secret
        row ←
            update_oidc_row id
              (λ r. record (oidc_fields input r) { client_secret_encrypted = encrypted })
        lift (to_domain row))

unfoldable pub find_saml_config : ℕ → Exec World SamlConfig
find_saml_config id =
    statement λ w. or_raise not_found (find (has_saml_id id) w.providers.saml_configs) w

abbrev pub saml_row : ℕ → SamlConfigInput → SamlConfig
saml_row id input = record {
  id = id;
  name = input.name;
  idp_entity_id = input.idp_entity_id;
  idp_sso_url = input.idp_sso_url;
  idp_certificate = input.idp_certificate;
  email_attribute = input.email_attribute;
  trusted = input.trusted;
  enabled = input.enabled;
}

unfoldable pub create_saml_config : SamlConfigInput → Exec World SamlConfig
create_saml_config input = statement λ w.
    let row = saml_row w.next_id input in
    (ok row, with_saml (fresh w) (row ∷ w.providers.saml_configs))

unfoldable pub update_saml_config : ℕ → SamlConfigInput → Exec World SamlConfig
update_saml_config id input = statement λ w.
    let rows = update (has_saml_id id) (λ c. saml_row c.id input) w.providers.saml_configs in
    or_raise not_found (find (has_saml_id id) rows) (with_saml w rows)

unfoldable pub delete_saml_config : ℕ → Exec World (Unit {0})
delete_saml_config id = statement λ w.
    let rows = w.providers.saml_configs in
    if count (has_saml_id id) rows == 0
    then (err not_found, w)
    else (ok tt, with_saml w (select (λ c. not (has_saml_id id c)) rows))
