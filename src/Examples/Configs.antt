-- ===== src/Examples/Configs.antt =====
-- Configurations of providers: added, removed, approved too late, and the way from a login that is
-- begun to its callback.
use knives.Storage.Cipher.{decrypt}
use knives.Prelude.{
  ℕ, ◌≢◌, codes, Text, ◌≡◌, refl, true, [], ◌∷◌, Option, none, some, find, any, count, select,
  text_eq, trim_space, drop,
}
use knives.World.{World}
use knives.World.Effects.{ok}
use knives.World.Rows.{PendingLinkRequest, oidc}
use knives.World.Logins.{OidcConfigInput}
use knives.Storage.Accounts.{key_taken, has_key}
use knives.Storage.Providers.{find_oidc_config, is_of_config}
use knives.Auth.Identity.{logged_in, approve_pending_link, resolve, LoginAttempt}
use knives.Auth.Providers.{add_oidc_config, remove_oidc_config, is_empty}
use knives.Auth.Providers.Linked.{IsLinked}
use knives.Auth.Providers.Runs
use knives.Auth.Providers.Runs.{providers_keep_configs}
use knives.Auth.Providers.Dangling.{approval_dangles}
use knives.Auth.Providers.Secrets.{config_of, add_then_find}
use knives.Auth.Oidc.{oauth2_config, begin_oidc_login, handle_callback}
use knives.Auth.Oidc.Claims.{oidc_attempt, checked_attempt}
use knives.Auth.Oidc.Accepted.{used_up}
use knives.Auth.Oidc.RoundTrip.{begin_then_callback}
use knives.ShortUrls.{Url, is_http_url}
use knives.Examples.Data.{plain_crypto, site, world, alice}
use knives.Examples.Providers.{
  open_cipher, open_cipher-IsAead, provider_row, provider_config, alices, login, configured, begun,
}

abbrev parse_url : Text → Option Url
parse_url raw = some (record { scheme = codes "https"; host = raw })

-- The three random tokens that the next login draws.
abbrev drawing : World
drawing = record configured { tokens = codes "s2" ∷ codes "n1" ∷ codes "v1" ∷ [] }

abbrev alices_attempt : LoginAttempt
alices_attempt = record {
  provider_type = oidc;
  provider_config_id = some 7;
  subject = codes "sub-1";
  email = codes "alice@x.org";
  email_verified = true;
  trusted = true;
}

begin_then_callback_example :
    let (url, begun) = begin_oidc_login plain_crypto open_cipher login alices 7 drawing in
    let w' : World = record begun { clock = 1001 } in
    (url
      ≡ ok (
          alices.auth_code_url
            (oauth2_config alices login provider_config)
            (codes "s2")
            (codes "n1")
            (codes "v1")))
    × (handle_callback plain_crypto open_cipher login site alices 7
          (record { error = []; code = codes "code"; state = codes "s2" })
          w'
        ≡ resolve plain_crypto site alices_attempt (used_up (codes "s2") w'))
unfolding find decrypt drop is_empty text_eq oidc_attempt checked_attempt
begin_then_callback_example =
    begin_then_callback plain_crypto open_cipher login site 7 provider_config drawing provider_row
      alices alices (codes "s2") (codes "n1") (codes "v1") (codes "code") [] 1001 alices_attempt
      refl refl refl refl refl refl refl refl refl refl

configured-IsLinked : IsLinked configured
unfolding any
configured-IsLinked = (refl, (refl, tt))

-- Configuration 7 is not removed, for alice's identity refers to it.
providers_keep_configs_example : IsLinked (remove_oidc_config 7 configured).1
providers_keep_configs_example =
    providers_keep_configs plain_crypto open_cipher site parse_url configured
      (remove_oidc_config 7 configured).1 (Runs.next Runs.here (Runs.removes_oidc 7 configured))
      configured-IsLinked

-- Alice is asked about an identity at the provider of configuration 9.
abbrev other_request : PendingLinkRequest
other_request = record {
  id = 22;
  existing_user_id = 1;
  provider_type = oidc;
  provider_config_id = some 9;
  subject = codes "sub-9";
  token_hash = codes "t0";
  expires_at = 2000;
  confirmed_at = none;
}

abbrev other_asked : World
other_asked = record configured {
  pending_links = other_request ∷ [];
  providers = record {
    oidc_configs = record provider_row { id = 9 } ∷ provider_row ∷ [];
    saml_configs = [];
  };
}

approval_dangles_example :
    let w' = (remove_oidc_config 9 other_asked).1 in
    ((remove_oidc_config 9 other_asked).0 ≡ ok tt)
    × ((approve_pending_link 1 22 w').0 ≡ ok (logged_in alice))
    × (¬ IsLinked (approve_pending_link 1 22 w').1)
unfolding find any key_taken has_key count is_of_config
approval_dangles_example =
    approval_dangles 9 1 22 other_asked alice other_request refl refl refl refl refl refl refl refl
      refl refl refl refl

-- White space around the name, the client id and a scope, and a scope of nothing else.
abbrev raw_config : OidcConfigInput
raw_config = record {
  name = codes " idp";
  issuer = codes "i ";
  client_id = codes " c ";
  client_secret = codes " s";
  scopes = codes " openid" ∷ codes " " ∷ [];
  require_email_verified_claim = true;
  enabled = true;
}

abbrev clean_config : OidcConfigInput
clean_config = record raw_config {
  name = codes "idp";
  issuer = codes "i";
  client_id = codes "c";
  scopes = codes "openid" ∷ [];
}

no_text : {x : ℕ} {xs : Text} → (x ∷ xs) ≢ []
no_text h = cc

add_then_find_example :
    let (r, v) = add_oidc_config parse_url open_cipher raw_config world in
    let cfg = config_of clean_config 100 (codes " s") in
    (r ≡ ok cfg) × (find_oidc_config open_cipher 100 v ≡ (ok cfg, v))
unfolding text_eq trim_space is_http_url any select
add_then_find_example =
    add_then_find open_cipher parse_url open_cipher-IsAead raw_config (codes "t1") (codes "t2" ∷ [])
      world refl refl no_text no_text no_text refl refl
