-- ===== src/Api/Providers.antt =====
-- cmd/api/handlers_oidc_admin.go and handlers_saml_admin.go: the providers' configurations, for
-- system administrators. The text of a 400 leaves out which field is wrong.
use knives.Prelude.{ℕ, Text, String, Bool, List, [], map, Option, none, some}
use knives.Permission.{Subject}
use knives.World.Effects.{Err, not_found, invalid_oidc_config, invalid_saml_config, config_in_use}
use knives.World.Rows.{AuditLogEntry}
use knives.World.Logins.{OidcConfig, OidcConfigInput, SamlConfig, SamlConfigInput}
use knives.Storage.Accounts.{record_audit_log}
use knives.Storage.Cipher.{Aead}
use knives.Storage.Providers.{list_oidc_configs, list_saml_configs}
use knives.Auth.Providers.{
  add_oidc_config, change_oidc_config, remove_oidc_config, add_saml_config, change_saml_config,
  remove_saml_config,
}
use knives.ShortUrls.{Url}
use knives.Api.{
  Reply, reply, error, no_content, Handler, not_found_reply, internal_error, send, try, try_logged,
}

-- The client secret never comes back.
pub record OidcConfigResponse : Type 0 where
  pub id : ℕ
  pub name : Text
  pub issuer : Text
  pub client_id : Text
  pub scopes : List Text
  pub require_email_verified_claim : Bool
  pub enabled : Bool

abbrev pub to_oidc_config_response : OidcConfig → OidcConfigResponse
to_oidc_config_response c = record {
  id = c.id;
  name = c.name;
  issuer = c.issuer;
  client_id = c.client_id;
  scopes = c.scopes;
  require_email_verified_claim = c.require_email_verified_claim;
  enabled = c.enabled;
}

-- The text without the detail that the code adds to it.
abbrev pub oidc_config_error : {B : Type 0} → Err → Reply B
oidc_config_error invalid_oidc_config = error 400 "auth: invalid oidc config"
oidc_config_error not_found = not_found_reply
oidc_config_error config_in_use =
    error 409 "auth: oidc config still has linked users; disable it instead of deleting"
oidc_config_error _ = internal_error

abbrev pub saml_config_error : {B : Type 0} → Err → Reply B
saml_config_error invalid_saml_config = error 400 "auth: invalid saml config"
saml_config_error not_found = not_found_reply
saml_config_error config_in_use =
    error 409 "auth: saml config still has linked users; disable it instead of deleting"
saml_config_error _ = internal_error

abbrev pub about_config : Subject → String → String → ℕ → AuditLogEntry
about_config subject action target_type id = record {
  actor_user_id = some subject.user_id;
  action = action;
  target_type = target_type;
  target_id = some id;
  metadata = [];
}

-- A failure to write the audit log is logged, and the request goes on.
abbrev pub audited : {B : Type 0} → Subject → String → String → ℕ → Handler B → Handler B
audited subject action target_type id =
    try_logged (record_audit_log (about_config subject action target_type id))

unfoldable pub handle_list_oidc_configs :
    Aead → (Text → Text → Bool) → Handler (List OidcConfigResponse)
handle_list_oidc_configs c before_text =
    try (list_oidc_configs c before_text) (λ _. internal_error)
      λ configs. send (reply 200 (map to_oidc_config_response configs))

-- `none` is a body that does not decode, or an id that does not parse.
module _ (parse_url : Text → Option Url) (c : Aead) where
  unfoldable pub handle_create_oidc_config :
      Option Subject → Option OidcConfigInput → Handler OidcConfigResponse
  handle_create_oidc_config none body = send (error 401 "unauthorized")
  handle_create_oidc_config (some subject) none = send (error 400 "invalid request body")
  handle_create_oidc_config (some subject) (some input) =
      try (add_oidc_config parse_url c input) oidc_config_error λ cfg.
        audited subject "admin.oidc_config_created" "idp_oidc_config" cfg.id
          (send (reply 201 (to_oidc_config_response cfg)))

  unfoldable pub handle_update_oidc_config :
      Option Subject → Option ℕ → Option OidcConfigInput → Handler OidcConfigResponse
  handle_update_oidc_config none id body = send (error 401 "unauthorized")
  handle_update_oidc_config (some subject) none body = send not_found_reply
  handle_update_oidc_config (some subject) (some id) none = send (error 400 "invalid request body")
  handle_update_oidc_config (some subject) (some id) (some input) =
      try (change_oidc_config parse_url c id input) oidc_config_error λ cfg.
        audited subject "admin.oidc_config_updated" "idp_oidc_config" id
          (send (reply 200 (to_oidc_config_response cfg)))

unfoldable pub handle_delete_oidc_config : Option Subject → Option ℕ → Handler (Unit {0})
handle_delete_oidc_config none id = send (error 401 "unauthorized")
handle_delete_oidc_config (some subject) none = send not_found_reply
handle_delete_oidc_config (some subject) (some id) =
    try (remove_oidc_config id) oidc_config_error
      λ _. audited subject "admin.oidc_config_deleted" "idp_oidc_config" id (send no_content)

-- A response holds every field of a configuration.
unfoldable pub handle_list_saml_configs : (Text → Text → Bool) → Handler (List SamlConfig)
handle_list_saml_configs before_text =
    try (list_saml_configs before_text) (λ _. internal_error) λ configs. send (reply 200 configs)

module _ (parse_url : Text → Option Url) (is_certificate : Text → Bool) where
  unfoldable pub handle_create_saml_config :
      Option Subject → Option SamlConfigInput → Handler SamlConfig
  handle_create_saml_config none body = send (error 401 "unauthorized")
  handle_create_saml_config (some subject) none = send (error 400 "invalid request body")
  handle_create_saml_config (some subject) (some input) =
      try (add_saml_config parse_url is_certificate input) saml_config_error λ cfg.
        audited subject "admin.saml_config_created" "idp_saml_config" cfg.id (send (reply 201 cfg))

  unfoldable pub handle_update_saml_config :
      Option Subject → Option ℕ → Option SamlConfigInput → Handler SamlConfig
  handle_update_saml_config none id body = send (error 401 "unauthorized")
  handle_update_saml_config (some subject) none body = send not_found_reply
  handle_update_saml_config (some subject) (some id) none = send (error 400 "invalid request body")
  handle_update_saml_config (some subject) (some id) (some input) =
      try (change_saml_config parse_url is_certificate id input) saml_config_error λ cfg.
        audited subject "admin.saml_config_updated" "idp_saml_config" id (send (reply 200 cfg))

unfoldable pub handle_delete_saml_config : Option Subject → Option ℕ → Handler (Unit {0})
handle_delete_saml_config none id = send (error 401 "unauthorized")
handle_delete_saml_config (some subject) none = send not_found_reply
handle_delete_saml_config (some subject) (some id) =
    try (remove_saml_config id) saml_config_error
      λ _. audited subject "admin.saml_config_deleted" "idp_saml_config" id (send no_content)
