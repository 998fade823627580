-- ===== src/Auth/Providers.antt =====
-- internal/auth/oidc_config.go and saml_config.go: the providers that administrators configure.
pub mod Linked
pub mod Preserved
pub mod Runs
pub mod Secrets
pub mod Dangling
use knives.Prelude.{
  ℕ, Text, codes, text_eq, trim_space, Bool, true, false, ◌&&◌, ◌||◌, not, ltb, if◌then◌else◌, List,
  [], ◌∷◌, map, any, select, Option, none, some,
}
use knives.World.{World}
use knives.World.Effects.{
  Exec, Result, ok, err, guard, lift, ◌>>=◌, ◌>>◌, invalid_oidc_config, invalid_saml_config,
  config_in_use,
}
use knives.World.Rows.{saml, oidc}
use knives.World.Logins.{OidcConfig, OidcConfigInput, SamlConfig, SamlConfigInput}
use knives.Storage.Cipher.{Aead}
use knives.Storage.Providers.{
  create_oidc_config, update_oidc_config, delete_oidc_config, count_auth_identities_for_config,
  create_saml_config, update_saml_config, delete_saml_config,
}
use knives.ShortUrls.{Url, is_http_url}

unfoldable pub is_empty : Text → Bool
is_empty s = text_eq s []

-- The trimmed scopes that are not empty.
unfoldable pub clean_scopes : List Text → List Text
clean_scopes scopes = select (λ s. not (is_empty s)) (map trim_space scopes)

abbrev pub trimmed_oidc : OidcConfigInput → OidcConfigInput
trimmed_oidc input = record input {
  name = trim_space input.name;
  issuer = trim_space input.issuer;
  client_id = trim_space input.client_id;
}

abbrev pub trimmed_saml : SamlConfigInput → SamlConfigInput
trimmed_saml input = record input {
  name = trim_space input.name;
  idp_entity_id = trim_space input.idp_entity_id;
  idp_certificate = trim_space input.idp_certificate;
  email_attribute = trim_space input.email_attribute;
}

-- `parse_url` is net/url's Parse.
module _ (parse_url : Text → Option Url) where
  unfoldable pub normalize_oidc : Bool → OidcConfigInput → Result OidcConfigInput
  normalize_oidc require_secret raw =
      let input = trimmed_oidc raw in
      let scopes = clean_scopes input.scopes in
      if is_empty input.name
      then err invalid_oidc_config
      else if is_empty input.client_id
      then err invalid_oidc_config
      else if require_secret && is_empty input.client_secret
      then err invalid_oidc_config
      else if not (is_http_url (parse_url input.issuer))
      then err invalid_oidc_config
      else if not (any (text_eq (codes "openid")) scopes)
      then err invalid_oidc_config
      else ok (record input { scopes = scopes })

  -- `is_certificate` says that pem's Decode finds a block that x509's ParseCertificate takes.
  unfoldable pub normalize_saml : (Text → Bool) → SamlConfigInput → Result SamlConfigInput
  normalize_saml is_certificate raw =
      let input = trimmed_saml raw in
      if is_empty input.name
      then err invalid_saml_config
      else if is_empty input.idp_entity_id
      then err invalid_saml_config
      else if is_empty input.email_attribute
      then err invalid_saml_config
      else if not (is_http_url (parse_url input.idp_sso_url))
      then err invalid_saml_config
      else if not (is_certificate input.idp_certificate)
      then err invalid_saml_config
      else ok input

  module _ (c : Aead) where
    unfoldable pub add_oidc_config : OidcConfigInput → Exec World OidcConfig
    add_oidc_config raw = do input ← lift (normalize_oidc true raw); create_oidc_config c input

    unfoldable pub change_oidc_config : ℕ → OidcConfigInput → Exec World OidcConfig
    change_oidc_config id raw = do
      input ← lift (normalize_oidc false raw)
      update_oidc_config c id input

  module _ (is_certificate : Text → Bool) where
    unfoldable pub add_saml_config : SamlConfigInput → Exec World SamlConfig
    add_saml_config raw = do
      input ← lift (normalize_saml is_certificate raw)
      create_saml_config input

    unfoldable pub change_saml_config : ℕ → SamlConfigInput → Exec World SamlConfig
    change_saml_config id raw = do
      input ← lift (normalize_saml is_certificate raw)
      update_saml_config id input

-- A configuration that an identity refers to stays.
unfoldable pub remove_oidc_config : ℕ → Exec World (Unit {0})
remove_oidc_config id = do
  uses ← count_auth_identities_for_config oidc id
  guard (not (ltb 0 uses)) config_in_use
  delete_oidc_config id

unfoldable pub remove_saml_config : ℕ → Exec World (Unit {0})
remove_saml_config id = do
  uses ← count_auth_identities_for_config saml id
  guard (not (ltb 0 uses)) config_in_use
  delete_saml_config id
