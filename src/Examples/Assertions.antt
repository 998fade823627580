-- ===== src/Examples/Assertions.antt =====
-- An assertion that comes twice.
use knives.Auth.Providers.{is_empty}
use knives.Storage.Accounts.{
  has_key, find_auth_identity, find_user_by_id, touch_auth_identity, record_audit_log,
}
use knives.Auth.Nonces.{
  consume_request, lookup_key, mark_assertion_seen, put_key, without_key, create_request,
}
use knives.Storage.Providers.{find_saml_config}
use knives.Prelude.{
  codes, ◌≡◌, ◌≢◌, refl, true, [], ◌∷◌, Option, some, arith, find, text_eq, any, update, equal_fold,
  select,
}
use knives.World.{World, statement}
use knives.World.Effects.{ok}
use knives.World.Logins.{SamlConfig}
use knives.Auth.Identity.{logged_in, resolve, resolve_by_identity, resolve_known, record_link_audit}
use knives.Auth.Saml.{
  SamlLogin, SamlLibrary, Assertion, AcsForm, begin_saml_login, handle_acs, enabled_saml_config,
  new_service_provider, accept_assertion, attempt_of_assertion, extract_saml_attribute, value_among,
  value_in,
}
use knives.Auth.Saml.Replay
use knives.Auth.Saml.Replay.{Holds, assertion_single_use}
use knives.World.Rows.{saml}
use knives.Examples.Data.{plain_crypto, site, world, alice, alice_oidc}

abbrev saml_config : SamlConfig
saml_config = record {
  id = 8;
  name = codes "idp";
  idp_entity_id = codes "e";
  idp_sso_url = codes "https://i";
  idp_certificate = codes "c";
  email_attribute = codes "mail";
  trusted = true;
  enabled = true;
}

abbrev assertion : Assertion
assertion = record {
  id = codes "a1";
  name_id = some (codes "sub-1");
  statements =
      (record { name = codes "mail"; friendly_name = []; values = codes "alice@x.org" ∷ [] } ∷ [])
      ∷ [];
}

-- Every response is valid and holds that assertion.
abbrev library : SamlLibrary
library = record {
  show_uuid = λ id. codes "8";
  parse_url = λ raw. some raw;
  decode_pem = λ pem. some pem;
  make_request = λ provider sso_url. some (codes "r1");
  redirect_url = λ provider id. some id;
  parse_response = λ provider response requests. some assertion;
}

abbrev login : SamlLogin
login = record {
  public_base_url = codes "https://a";
  request_ttl = 500;
  assertion_replay_ttl = 900;
}

abbrev form : Option AcsForm
form = some (record { relay_state = codes "r1"; saml_response = codes "response" })

-- A request was begun, and alice's identity is linked.
abbrev asked : World
asked = record world {
  identities =
      record alice_oidc { provider_type = saml; provider_config_id = some 8 } ∷ world.identities;
  providers = record { oidc_configs = []; saml_configs = saml_config ∷ [] };
  ceremonies = record world.ceremonies {
    saml_requests = record { key = codes "r1"; value = 8; dies_at = 5000 } ∷ [];
  };
}

responded : (handle_acs login library plain_crypto site 8 form asked).0 ≡ ok (logged_in alice)
unfolding handle_acs enabled_saml_config find_saml_config statement find is_empty text_eq
    consume_request lookup_key new_service_provider accept_assertion mark_assertion_seen any
    attempt_of_assertion extract_saml_attribute value_among value_in resolve resolve_by_identity
    find_auth_identity has_key resolve_known find_user_by_id touch_auth_identity update
    record_link_audit record_audit_log equal_fold put_key without_key select
responded = refl

-- The request is begun once more after the response.
abbrev begun_again : World
begun_again =
    (begin_saml_login login library 8 (handle_acs login library plain_crypto site 8 form asked).1).1

begun_clock : begun_again.clock ≡ 1000
unfolding begin_saml_login create_request handle_acs enabled_saml_config find_saml_config statement
    find is_empty text_eq consume_request lookup_key new_service_provider accept_assertion
    mark_assertion_seen any attempt_of_assertion extract_saml_attribute value_among value_in resolve
    resolve_by_identity find_auth_identity has_key resolve_known find_user_by_id touch_auth_identity
    update record_link_audit record_audit_log equal_fold put_key without_key select
begun_clock = refl

holds : Holds (codes "a1") library
holds provider response requests b h = cc

assertion_single_use_example :
    (handle_acs login library plain_crypto site 8 form begun_again).0 ≢ ok (logged_in alice)
assertion_single_use_example =
    assertion_single_use login plain_crypto site library library 8 8 form form asked
      (logged_in alice) (logged_in alice) (codes "a1") holds holds responded begun_again
      (Replay.next Replay.here
        (Replay.begins library 8 (handle_acs login library plain_crypto site 8 form asked).1))
      (omega (arith, begun_clock))
