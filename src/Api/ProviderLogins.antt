-- ===== src/Api/ProviderLogins.antt =====
-- cmd/api/handlers_oidc_login.go and handlers_saml_login.go: the browser's way to a provider and
-- back. A redirect is a reply with its URL.
use knives.Prelude.{ℕ, Text, codes, String, Bool, List, ◌++◌, map, select, Option, none, some}
use knives.World.Effects.{Err, not_found}
use knives.World.Logins.{OidcConfig, SamlConfig}
use knives.Storage.Cipher.{Aead}
use knives.Storage.Providers.{list_oidc_configs, list_saml_configs}
use knives.Auth.Crypto.{Crypto}
use knives.Auth.Identity.{Outcome, logged_in, pending_confirmation, Resolver}
use knives.Auth.Oidc.{OidcLogin, CallbackQuery, begin_oidc_login, handle_callback}
use knives.Auth.Oidc.Claims.{OidcLibrary}
use knives.Auth.Saml.{SamlLogin, SamlLibrary, AcsForm, begin_saml_login, handle_acs}
use knives.Auth.Sessions.{create_session}
use knives.Api.{Reply, reply, Handler, not_found_reply, internal_error, send, try}
use knives.Api.Sessions.{keep_cookie, set_cookie, CookieHandler, answer, try_answer}

pub record PublicIdp : Type 0 where
  pub id : ℕ
  pub name : Text

abbrev pub public_oidc : OidcConfig → PublicIdp
public_oidc c = record { id = c.id; name = c.name }

abbrev pub public_saml : SamlConfig → PublicIdp
public_saml c = record { id = c.id; name = c.name }

unfoldable pub handle_list_oidc_idps : Aead → (Text → Text → Bool) → Handler (List PublicIdp)
handle_list_oidc_idps c before_text =
    try (list_oidc_configs c before_text) (λ _. internal_error)
      λ configs. send (reply 200 (map public_oidc (select (λ cfg. cfg.enabled) configs)))

unfoldable pub handle_list_saml_idps : (Text → Text → Bool) → Handler (List PublicIdp)
handle_list_saml_idps before_text =
    try (list_saml_configs before_text) (λ _. internal_error)
      λ configs. send (reply 200 (map public_saml (select (λ cfg. cfg.enabled) configs)))

abbrev pub begin_error : Err → Reply Text
begin_error not_found = not_found_reply
begin_error _ = internal_error

abbrev pub see_url : Text → Handler Text
see_url url = send (reply 302 url)

unfoldable pub handle_oidc_login_redirect :
    Crypto → Aead → OidcLogin → OidcLibrary → Option ℕ → Handler Text
handle_oidc_login_redirect crypto c s lib none = send not_found_reply
handle_oidc_login_redirect crypto c s lib (some id) =
    try (begin_oidc_login crypto c s lib id) begin_error see_url

unfoldable pub handle_saml_login_redirect : SamlLogin → SamlLibrary → Option ℕ → Handler Text
handle_saml_login_redirect s lib none = send not_found_reply
handle_saml_login_redirect s lib (some id) = try (begin_saml_login s lib id) begin_error see_url

-- Where the browser is sent: under `webPublicBaseURL` and the web app's prefix.
module _ (crypto : Crypto) (app : Text) (ttl : ℕ) where
  abbrev pub to_app : String → Reply Text
  to_app path = reply 302 (app ++ codes path)

  -- Every failure but a missing configuration looks alike.
  abbrev pub login_failed_reply : String → Err → Reply Text
  login_failed_reply failed not_found = not_found_reply
  login_failed_reply failed _ = to_app failed

  -- `failed` and `pending` are the paths of the provider's kind.
  unfoldable pub finish_provider_login : String → String → Outcome → CookieHandler Text
  finish_provider_login failed pending pending_confirmation = answer keep_cookie (to_app pending)
  finish_provider_login failed pending (logged_in user) =
      try_answer (create_session crypto user.id ttl) (λ _. to_app failed)
        λ token. answer (set_cookie token) (to_app "/")

  module _ (r : Resolver) where
    unfoldable pub handle_oidc_callback :
        Aead → OidcLogin → OidcLibrary → Option ℕ → CallbackQuery → CookieHandler Text
    handle_oidc_callback c s lib none query = answer keep_cookie not_found_reply
    handle_oidc_callback c s lib (some id) query =
        try_answer (handle_callback crypto c s r lib id query)
          (login_failed_reply "/login?error=oidc_failed")
          (finish_provider_login "/login?error=oidc_failed"
            "/login?notice=oidc_pending_confirmation")

    unfoldable pub handle_saml_acs :
        SamlLogin → SamlLibrary → Option ℕ → Option AcsForm → CookieHandler Text
    handle_saml_acs s lib none form = answer keep_cookie not_found_reply
    handle_saml_acs s lib (some id) form =
        try_answer (handle_acs s lib crypto r id form)
          (login_failed_reply "/login?error=saml_failed")
          (finish_provider_login "/login?error=saml_failed"
            "/login?notice=saml_pending_confirmation")
