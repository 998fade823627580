-- ===== src/Auth/Saml.antt =====
-- internal/auth/saml_login.go: logins at a SAML provider that are begun here.
pub mod Accepted
pub mod Replay
use knives.Prelude.{
  ℕ, Text, codes, text_eq, Bool, true, false, ◌==◌, ◌&&◌, ◌||◌, not, if◌then◌else◌, List, [], ◌∷◌,
  ◌++◌, Option, none, some,
}
use knives.World.{World}
use knives.World.Effects.{
  Exec, Result, ok, err, Err, pure, guard, or_raise, lift, ◌>>=◌, ◌>>◌, not_found,
  saml_response_invalid, saml_replay, protocol_error,
}
use knives.World.Rows.{saml}
use knives.World.Logins.{SamlConfig}
use knives.Storage.Providers.{find_saml_config}
use knives.Auth.Crypto.{Crypto}
use knives.Auth.Identity.{LoginAttempt, Outcome, Resolver, resolve}
use knives.Auth.Providers.{is_empty}
use knives.Auth.Nonces.{create_request, consume_request, mark_assertion_seen}
use knives.Auth.Oidc.{request_ttl_of}

pub record SamlLogin : Type 0 where
  pub public_base_url : Text
  pub request_ttl : ℕ
  pub assertion_replay_ttl : ℕ

-- What the code sets of a `saml.ServiceProvider`.
pub record ServiceProvider : Type 0 where
  pub entity_id : Text
  pub acs_url : Text
  pub idp_entity_id : Text
  pub idp_certificate : Text

pub record SamlAttribute : Type 0 where
  pub name : Text
  pub friendly_name : Text
  pub values : List Text

-- A validated assertion; `none` is one with no subject or no NameID.
pub record Assertion : Type 0 where
  pub id : Text
  pub name_id : Option Text
  pub statements : List (List SamlAttribute)

-- The posted form: its RelayState and its SAMLResponse.
pub record AcsForm : Type 0 where
  pub relay_state : Text
  pub saml_response : Text

-- crewjam/saml, net/url, encoding/pem and encoding/base64, for one request.
pub record SamlLibrary : Type 0 where
  pub show_uuid : ℕ → Text
  -- url.Parse, and the URL printed again
  pub parse_url : Text → Option Text
  -- pem.Decode, and the block's bytes in base64
  pub decode_pem : Text → Option Text
  -- MakeAuthenticationRequest: the request's new ID
  pub make_request : ServiceProvider → Text → Option Text
  -- Redirect, for an ID as RelayState
  pub redirect_url : ServiceProvider → Text → Option Text
  -- ParseResponse: signature, audience, recipient, times and InResponseTo
  pub parse_response : ServiceProvider → Text → List Text → Option Assertion

module _ (name : Text) where
  abbrev pub is_named : SamlAttribute → Bool
  is_named a = text_eq a.name name || text_eq a.friendly_name name

  -- The first value of the first attribute of that name that has one, or the rest.
  abbrev pub value_or : Bool → List Text → Option Text → Option Text
  value_or false values rest = rest
  value_or true [] rest = rest
  value_or true (v ∷ vs) rest = some v

  unfoldable pub value_in : List SamlAttribute → Option Text → Option Text
  value_in [] rest = rest
  value_in (a ∷ attrs) rest = value_or (is_named a) a.values (value_in attrs rest)

  unfoldable pub value_among : List (List SamlAttribute) → Option Text
  value_among [] = none
  value_among (stmt ∷ stmts) = value_in stmt (value_among stmts)

abbrev pub or_empty : Option Text → Text
or_empty none = []
or_empty (some s) = s

unfoldable pub extract_saml_attribute : Assertion → Text → Text
extract_saml_attribute assertion name = or_empty (value_among name assertion.statements)

-- The login attempt of an assertion that was not seen before.
unfoldable pub attempt_of_assertion : ℕ → SamlConfig → Assertion → Result LoginAttempt
attempt_of_assertion config_id cfg assertion =
    let subject = or_empty assertion.name_id in
    let email = extract_saml_attribute assertion cfg.email_attribute in
    if is_empty subject
    then err saml_response_invalid
    else if is_empty email
    then err saml_response_invalid
    else ok (record {
      provider_type = saml;
      provider_config_id = some config_id;
      subject = subject;
      email = email;
      email_verified = cfg.trusted;
      trusted = cfg.trusted;
    })

module _ (lib : SamlLibrary) (s : SamlLogin) where
  abbrev pub metadata_url : Text
  metadata_url = s.public_base_url ++ codes "/api/auth/saml/metadata"

  abbrev pub acs_url : ℕ → Text
  acs_url config_id =
      s.public_base_url ++ codes "/api/auth/saml/" ++ lib.show_uuid config_id ++ codes "/acs"

  unfoldable pub new_service_provider : SamlConfig → Exec World ServiceProvider
  new_service_provider cfg = do
    metadata ← or_raise protocol_error (lib.parse_url metadata_url)
    acs ← or_raise protocol_error (lib.parse_url (acs_url cfg.id))
    certificate ← or_raise saml_response_invalid (lib.decode_pem cfg.idp_certificate)
    pure (record {
      entity_id = metadata;
      acs_url = acs;
      idp_entity_id = cfg.idp_entity_id;
      idp_certificate = certificate;
    })

-- A configuration that is disabled counts as missing.
unfoldable pub enabled_saml_config : ℕ → Exec World SamlConfig
enabled_saml_config config_id = do
  cfg ← find_saml_config config_id
  guard cfg.enabled not_found
  pure cfg

-- The request must be one that was begun at this provider.
abbrev pub begun_at : ℕ → Option ℕ → Bool
begun_at config_id none = false
begun_at config_id (some begun) = begun == config_id

module _ (s : SamlLogin) (lib : SamlLibrary) where
  -- The request's ID serves as RelayState.
  unfoldable pub begin_saml_login : ℕ → Exec World Text
  begin_saml_login config_id = do
    cfg ← enabled_saml_config config_id
    sp ← new_service_provider lib s cfg
    id ← or_raise protocol_error (lib.make_request sp cfg.idp_sso_url)
    create_request id config_id (request_ttl_of s.request_ttl)
    or_raise protocol_error (lib.redirect_url sp id)

  module _ (crypto : Crypto) (r : Resolver) where
    -- From the assertion on.
    unfoldable pub accept_assertion : ℕ → SamlConfig → Assertion → Exec World Outcome
    accept_assertion config_id cfg assertion = do
      seen ← mark_assertion_seen assertion.id (request_ttl_of s.assertion_replay_ttl)
      guard (not seen) saml_replay
      attempt ← lift (attempt_of_assertion config_id cfg assertion)
      resolve crypto r attempt

    -- `none` is a form that does not parse.
    unfoldable pub handle_acs : ℕ → Option AcsForm → Exec World Outcome
    handle_acs config_id form = do
      cfg ← enabled_saml_config config_id
      posted ← or_raise saml_response_invalid form
      guard (not (is_empty posted.relay_state)) saml_response_invalid
      begun ← consume_request posted.relay_state
      guard (begun_at config_id begun) saml_response_invalid
      sp ← new_service_provider lib s cfg
      assertion ←
          or_raise saml_response_invalid
            (lib.parse_response sp posted.saml_response (posted.relay_state ∷ []))
      accept_assertion config_id cfg assertion
