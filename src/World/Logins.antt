-- ===== src/World/Logins.antt =====
-- What the logins at other providers and by passkey keep: the rows of idp_oidc_configs,
-- idp_saml_configs and webauthn_credentials (internal/storage/models.go), and the keys in Redis of
-- the logins that are under way.
use knives.Prelude.{ℕ, Text, Bool, List, Option}

-- idp_oidc_configs: the client secret is stored encrypted.
pub record OidcConfigRow : Type 0 where
  pub id : ℕ
  pub name : Text
  pub issuer : Text
  pub client_id : Text
  pub client_secret_encrypted : Text
  pub scopes : List Text
  pub require_email_verified_claim : Bool
  pub enabled : Bool

-- `OIDCConfig` of internal/auth/oidc_config.go, with the secret in the clear.
pub record OidcConfig : Type 0 where
  pub id : ℕ
  pub name : Text
  pub issuer : Text
  pub client_id : Text
  pub client_secret : Text
  pub scopes : List Text
  pub require_email_verified_claim : Bool
  pub enabled : Bool

pub record OidcConfigInput : Type 0 where
  pub name : Text
  pub issuer : Text
  pub client_id : Text
  pub client_secret : Text
  pub scopes : List Text
  pub require_email_verified_claim : Bool
  pub enabled : Bool

-- idp_saml_configs, which is also `SAMLConfig` of internal/auth/saml_config.go.
pub record SamlConfig : Type 0 where
  pub id : ℕ
  pub name : Text
  pub idp_entity_id : Text
  pub idp_sso_url : Text
  pub idp_certificate : Text
  pub email_attribute : Text
  pub trusted : Bool
  pub enabled : Bool

pub record SamlConfigInput : Type 0 where
  pub name : Text
  pub idp_entity_id : Text
  pub idp_sso_url : Text
  pub idp_certificate : Text
  pub email_attribute : Text
  pub trusted : Bool
  pub enabled : Bool

pub record Providers : Type 0 where
  pub oidc_configs : List OidcConfigRow
  pub saml_configs : List SamlConfig

-- webauthn_credentials: a NULL name is the empty text.
pub record Passkey : Type 0 where
  pub id : ℕ
  pub user_id : ℕ
  pub credential_id : Text
  pub public_key : Text
  pub sign_count : ℕ
  pub transports : List Text
  pub name : Text
  pub created_at : ℕ
  pub last_used_at : Option ℕ
  pub user_present : Bool
  pub user_verified : Bool
  pub backup_eligible : Bool
  pub backup_state : Bool

-- internal/auth/oidc_nonce.go
pub record OidcPendingLogin : Type 0 where
  pub config_id : ℕ
  pub nonce : Text
  pub code_verifier : Text

-- One key of Redis, without its prefix, with the time at which Redis drops it.
pub record Timed (A : Type 0) : Type 0 where
  pub key : Text
  pub value : A
  pub dies_at : ℕ

-- The prefixes `oidc_state:`, `saml_request:`, `saml_assertion:` and `webauthn_session:`.
pub record Ceremonies : Type 0 where
  pub oidc_states : List (Timed OidcPendingLogin)
  pub saml_requests : List (Timed ℕ)
  pub saml_assertions : List (Timed (Unit {0}))
  pub passkey_sessions : List (Timed Text)
