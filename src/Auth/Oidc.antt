-- ===== src/Auth/Oidc.antt =====
-- internal/auth/oidc_login.go: logins at an OpenID provider by authorization code and PKCE.
pub mod Claims
pub mod Vouched
pub mod Accepted
pub mod Trust
pub mod SingleUse
pub mod RoundTrip
use knives.Prelude.{
  ℕ, Text, codes, text_eq, Bool, true, false, ◌==◌, ltb, not, if◌then◌else◌, List, ◌++◌, Option,
  none, some,
}
use knives.World.{World, raw_token}
use knives.World.Effects.{
  Exec, Result, ok, err, pure, guard, or_raise, raise, lift, ◌>>=◌, ◌>>◌, not_found,
  oidc_response_invalid,
}
use knives.World.Logins.{OidcConfig, OidcPendingLogin}
use knives.Storage.Cipher.{Aead}
use knives.Storage.Providers.{find_oidc_config}
use knives.Auth.Crypto.{Crypto}
use knives.Auth.Identity.{Outcome, Resolver, generate_token, resolve}
use knives.Auth.Providers.{is_empty}
use knives.Auth.Nonces.{create_state, consume_state}
use Claims.{OauthConfig, OidcLibrary, oidc_attempt}

pub record OidcLogin : Type 0 where
  pub public_base_url : Text
  pub request_ttl : ℕ

-- 10 minutes, in nanoseconds
abbrev pub default_request_ttl : ℕ
default_request_ttl = 600000000000

abbrev pub request_ttl_of : ℕ → ℕ
request_ttl_of ttl = if ltb 0 ttl then ttl else default_request_ttl

-- The query of the callback; `""` is a parameter that is missing.
pub record CallbackQuery : Type 0 where
  pub error : Text
  pub code : Text
  pub state : Text

module _ (lib : OidcLibrary) (s : OidcLogin) where
  abbrev pub callback_url : ℕ → Text
  callback_url config_id =
      s.public_base_url ++ codes "/api/auth/oidc/" ++ lib.show_uuid config_id ++ codes "/callback"

  abbrev pub oauth2_config : OidcConfig → OauthConfig
  oauth2_config cfg = record {
    client_id = cfg.client_id;
    client_secret = cfg.client_secret;
    issuer = cfg.issuer;
    redirect_url = callback_url cfg.id;
    scopes = cfg.scopes;
  }

-- A configuration that is disabled counts as missing.
unfoldable pub enabled_oidc_config : Aead → ℕ → Exec World OidcConfig
enabled_oidc_config c config_id = do
  cfg ← find_oidc_config c config_id
  guard cfg.enabled not_found
  pure cfg

-- The pending login of the state, if it was begun at this provider.
abbrev pub for_config : ℕ → Option OidcPendingLogin → Result OidcPendingLogin
for_config config_id none = err oidc_response_invalid
for_config config_id (some pending) =
    if pending.config_id == config_id then ok pending else err oidc_response_invalid

module _ (crypto : Crypto) (c : Aead) (s : OidcLogin) where
  -- The URL that the browser is sent to.
  unfoldable pub begin_oidc_login : OidcLibrary → ℕ → Exec World Text
  begin_oidc_login lib config_id = do
    cfg ← enabled_oidc_config c config_id
    guard (lib.discover cfg.issuer) oidc_response_invalid
    (state, state_hash) ← generate_token crypto
    (nonce, nonce_hash) ← generate_token crypto
    verifier ← raw_token
    create_state state (record { config_id = config_id; nonce = nonce; code_verifier = verifier })
        (request_ttl_of s.request_ttl)
    pure (lib.auth_code_url (oauth2_config lib s cfg) state nonce verifier)

  module _ (r : Resolver) where
    unfoldable pub handle_callback : OidcLibrary → ℕ → CallbackQuery → Exec World Outcome
    handle_callback lib config_id query = do
      cfg ← enabled_oidc_config c config_id
      guard (is_empty query.error) oidc_response_invalid
      guard (not (is_empty query.code)) oidc_response_invalid
      guard (not (is_empty query.state)) oidc_response_invalid
      found ← consume_state query.state
      pending ← lift (for_config config_id found)
      attempt ← lift (oidc_attempt lib (oauth2_config lib s cfg) config_id cfg query.code pending)
      resolve crypto r attempt
