-- ===== src/Examples/Providers.antt =====
-- Logins at a provider: a configuration, a callback, a response, and an approval that comes late.
use knives.Auth.Nonces.{lookup_key, consume_state, without_key}
use knives.Prelude.{
  codes, Text, ◌≡◌, ◌≢◌, refl, true, false, [], ◌∷◌, some, find, count, select, text_eq, equal_fold,
  arith, drop, update, take,
}
use knives.World.{World, called, statement}
use knives.World.Effects.{ok}
use knives.World.Rows.{oidc}
use knives.World.Logins.{OidcConfigRow, OidcConfig, OidcPendingLogin}
use knives.Storage.Accounts.{
  has_key, find_auth_identity, find_user_by_id, touch_auth_identity, record_audit_log,
}
use knives.Storage.Cipher.{Aead, IsAead, decrypt}
use knives.Storage.Providers.{find_oidc_config, to_domain, find_oidc_row}
use knives.Auth.Identity.{
  logged_in, resolve, LoginAttempt, resolve_by_identity, resolve_known, record_link_audit,
}
use knives.Auth.Identity.Safety.{IsHeldBack}
use knives.Auth.Providers.{is_empty}
use knives.Auth.Oidc.{OidcLogin, CallbackQuery, oauth2_config, handle_callback, enabled_oidc_config}
use knives.Auth.Oidc.Claims.{OidcLibrary, IdToken, oidc_attempt, checked_attempt}
use knives.Auth.Oidc.Vouched.{IsVouched}
use knives.Auth.Oidc.Accepted.{IsAccepted, used_up}
use knives.Auth.Oidc.Trust.{callback_ok, distrusted_no_takeover}
use knives.Auth.Oidc.SingleUse
use knives.Auth.Oidc.SingleUse.{state_single_use}
use knives.Examples.Data.{plain_crypto, site, world, alice}

-- A cipher that leaves the text as it is.
abbrev pub open_cipher : Aead
open_cipher = record {
  nonce_size = 0;
  nonce = λ draw. [];
  seal = λ nonce plaintext. plaintext;
  open_sealed = λ nonce sealed. some sealed;
  encode = λ s. s;
  decode = λ s. some s;
}

pub open_cipher-IsAead : IsAead open_cipher
open_cipher-IsAead = record {
  length-nonce = λ draw. refl;
  open-seal = λ nonce plaintext. refl;
  decode-encode = λ s. refl;
}

abbrev pub provider_row : OidcConfigRow
provider_row = record {
  id = 7;
  name = codes "idp";
  issuer = codes "https://i";
  client_id = codes "c";
  client_secret_encrypted = codes "s";
  scopes = codes "openid" ∷ [];
  require_email_verified_claim = true;
  enabled = true;
}

abbrev pub provider_config : OidcConfig
provider_config = record {
  id = 7;
  name = codes "idp";
  issuer = codes "https://i";
  client_id = codes "c";
  client_secret = codes "s";
  scopes = codes "openid" ∷ [];
  require_email_verified_claim = true;
  enabled = true;
}

abbrev pub token_for : Text → Text → IdToken
token_for nonce subject = record {
  nonce = nonce;
  subject = subject;
  claims = some (record { email = codes "alice@x.org"; email_verified = true });
}

abbrev pub library : IdToken → OidcLibrary
library token = record {
  show_uuid = λ id. codes "7";
  discover = λ issuer. true;
  auth_code_url = λ conf state nonce verifier. state;
  exchange = λ conf code verifier. some (some code);
  verify = λ issuer client_id raw. some token;
}

abbrev pub login : OidcLogin
login = record { public_base_url = codes "https://a"; request_ttl = 500 }

abbrev pub begun : OidcPendingLogin
begun = record { config_id = 7; nonce = codes "n1"; code_verifier = codes "v1" }

-- The provider of configuration 7, at which a login was begun.
abbrev pub configured : World
configured = record world {
  providers = record { oidc_configs = provider_row ∷ []; saml_configs = [] };
  ceremonies = record world.ceremonies {
    oidc_states = record { key = codes "s1"; value = begun; dies_at = 5000 } ∷ [];
  };
}

abbrev pub query : CallbackQuery
query = record { error = []; code = codes "code"; state = codes "s1" }

abbrev pub alices : OidcLibrary
alices = library (token_for (codes "n1") (codes "sub-1"))

called_back :
    (handle_callback plain_crypto open_cipher login site alices 7 query configured).0
    ≡ ok (logged_in alice)
unfolding handle_callback enabled_oidc_config find_oidc_config find_oidc_row statement find decrypt
    is_empty text_eq consume_state lookup_key without_key select oidc_attempt checked_attempt
    resolve resolve_by_identity find_auth_identity has_key resolve_known find_user_by_id
    touch_auth_identity record_link_audit record_audit_log equal_fold update drop take
called_back = refl

callback_ok_example :
    (a : LoginAttempt) × (p : IsAccepted open_cipher login alices 7 query configured a) × IsVouched
      alices
      (oauth2_config alices login p.cfg)
      7
      p.cfg
      query.code
      p.pending
      a
    × (handle_callback plain_crypto open_cipher login site alices 7 query configured
        ≡ resolve plain_crypto site a (used_up query.state (called (called configured))))
callback_ok_example =
    callback_ok plain_crypto open_cipher login site alices 7 query configured (logged_in alice)
      called_back

-- A while later.
abbrev after_login : World
after_login =
    record (handle_callback plain_crypto open_cipher login site alices 7 query configured).1 {
      clock = 1500;
      faults = [];
    }

-- The callback logged alice in; the same state is used with another code.
state_single_use_example :
    (handle_callback plain_crypto open_cipher login site alices 7
      (record query { code = codes "again" })
      after_login).0
    ≢ ok (logged_in alice)
unfolding text_eq
state_single_use_example =
    state_single_use plain_crypto open_cipher login site alices 7 query configured (logged_in alice)
      called_back (refl, (refl, tt)) after_login
      (SingleUse.next SingleUse.here (
        SingleUse.passes 1500 []
          (handle_callback plain_crypto open_cipher login site alices 7 query configured).1))
      alices 7 (codes "again") (logged_in alice)

-- The provider's claims are not relied on, and a stranger comes with alice's email.
abbrev unreliable : World
unreliable = record configured {
  providers = record {
    oidc_configs = record provider_row { require_email_verified_claim = false } ∷ [];
    saml_configs = [];
  };
}

abbrev mallory : LoginAttempt
mallory = record {
  provider_type = oidc;
  provider_config_id = some 7;
  subject = codes "mallory";
  email = codes "alice@x.org";
  email_verified = false;
  trusted = false;
}

abbrev mallorys : OidcLibrary
mallorys = library (token_for (codes "n1") (codes "mallory"))

mallory_verified :
    oidc_attempt mallorys
      (oauth2_config mallorys login
        (record provider_config { require_email_verified_claim = false }))
      7
      (record provider_config { require_email_verified_claim = false })
      query.code
      begun
    ≡ ok mallory
unfolding oidc_attempt is_empty text_eq checked_attempt
mallory_verified = refl

unreliable_decrypted :
    to_domain open_cipher (record provider_row { require_email_verified_claim = false })
    ≡ ok (record provider_config { require_email_verified_claim = false })
unfolding decrypt drop
unreliable_decrypted = refl

abbrev mallory_accepted : IsAccepted open_cipher login mallorys 7 query unreliable mallory
unfolding find is_empty text_eq lookup_key
mallory_accepted = record {
  row = record provider_row { require_email_verified_claim = false };
  cfg = record provider_config { require_email_verified_claim = false };
  pending = begun;
  stored = refl;
  decrypted = unreliable_decrypted;
  enabled = refl;
  no_error = refl;
  begun = refl;
  here = refl;
  verified = mallory_verified;
}

distrusted_no_takeover_example :
    IsHeldBack unreliable
      (handle_callback plain_crypto open_cipher login site mallorys 7 query unreliable)
unfolding mallory_accepted has_key equal_fold count
distrusted_no_takeover_example =
    distrusted_no_takeover plain_crypto open_cipher login site mallorys 7 query unreliable mallory
      alice mallory_accepted refl refl refl (omega arith)
