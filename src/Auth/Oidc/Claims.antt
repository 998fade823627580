-- ===== src/Auth/Oidc/Claims.antt =====
-- `HandleCallback` of internal/auth/oidc_login.go, from the code to the login attempt.
use knives.Prelude.{ℕ, Text, text_eq, Bool, ◌&&◌, not, if◌then◌else◌, List, Option, none, some}
use knives.World.Effects.{Result, ok, err, oidc_response_invalid}
use knives.World.Rows.{oidc}
use knives.World.Logins.{OidcConfig, OidcPendingLogin}
use knives.Auth.Identity.{LoginAttempt}
use knives.Auth.Providers.{is_empty}

pub record OauthConfig : Type 0 where
  pub client_id : Text
  pub client_secret : Text
  pub issuer : Text
  pub redirect_url : Text
  pub scopes : List Text

pub record Claims : Type 0 where
  pub email : Text
  pub email_verified : Bool

-- An ID token whose signature, issuer, audience and expiry were verified; `none` are claims that do
-- not decode.
pub record IdToken : Type 0 where
  pub nonce : Text
  pub subject : Text
  pub claims : Option Claims

-- go-oidc and oauth2, with what the provider answers to this request.
pub record OidcLibrary : Type 0 where
  pub show_uuid : ℕ → Text
  -- NewProvider: discovery succeeds
  pub discover : Text → Bool
  pub auth_code_url : OauthConfig → Text → Text → Text → Text
  -- Exchange of a code with its verifier: the token's `id_token`, if there is one
  pub exchange : OauthConfig → Text → Text → Option (Option Text)
  -- Verify, for the issuer and the client
  pub verify : Text → Text → Text → Option IdToken

module _ {A : Type 0} where
  -- The rest of the chain, unless something is missing.
  abbrev pub given : Option A → {B : Type 0} → (A → Result B) → Result B
  given none k = err oidc_response_invalid
  given (some a) k = k a

abbrev pub unless_empty : {B : Type 0} → Text → Result B → Result B
unless_empty s k = if is_empty s then err oidc_response_invalid else k

abbrev pub attempt_of : ℕ → OidcConfig → IdToken → Claims → LoginAttempt
attempt_of config_id cfg token claims =
    let trusted = cfg.require_email_verified_claim && claims.email_verified in
    record {
      provider_type = oidc;
      provider_config_id = some config_id;
      subject = token.subject;
      email = claims.email;
      email_verified = trusted;
      trusted = trusted;
    }

-- The checks that the verified token is left with: the nonce, the subject and the email.
unfoldable pub checked_attempt : ℕ → OidcConfig → OidcPendingLogin → IdToken → Result LoginAttempt
checked_attempt config_id cfg pending token =
    if not (text_eq token.nonce pending.nonce)
    then err oidc_response_invalid
    else unless_empty token.subject (
        given token.claims
          λ claims. unless_empty claims.email (ok (attempt_of config_id cfg token claims)))

unfoldable pub oidc_attempt :
    OidcLibrary → OauthConfig → ℕ → OidcConfig → Text → OidcPendingLogin → Result LoginAttempt
oidc_attempt lib conf config_id cfg code pending =
    if not (lib.discover cfg.issuer)
    then err oidc_response_invalid
    else given (lib.exchange conf code pending.code_verifier) λ extra. given extra λ raw.
      unless_empty raw
        (given (lib.verify cfg.issuer cfg.client_id raw) (checked_attempt config_id cfg pending))
