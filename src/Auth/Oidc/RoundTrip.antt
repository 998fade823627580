-- ===== src/Auth/Oidc/RoundTrip.antt =====
-- From the beginning of a login to its callback.
use knives.Prelude.{
  ℕ, ◌≡◌, ◌+◌, refl, Text, text_eq, text_eq_refl, true, false, ltb, List, [], ◌∷◌, some, find,
  arith,
}
use knives.World.{World, statement, raw_token}
use knives.World.Effects.{ok}
use knives.World.Logins.{OidcConfigRow, OidcConfig, OidcPendingLogin, Timed}
use knives.Storage.Cipher.{Aead}
use knives.Storage.Providers.{has_oidc_id, to_domain, find_oidc_row, find_oidc_config}
use knives.Auth.Crypto.{Crypto}
use knives.Auth.Identity.{LoginAttempt, Resolver, generate_token, resolve}
use knives.Auth.Providers.{is_empty}
use knives.Auth.Nonces.{lookup_key, put_key, create_state, consume_state}
use knives.Auth.Oidc.{
  OidcLogin, request_ttl_of, oauth2_config, enabled_oidc_config, begin_oidc_login, handle_callback,
}
use knives.Auth.Oidc.Claims.{OidcLibrary, oidc_attempt}
use knives.Auth.Oidc.Accepted.{used_up}

abbrev pub begun_login : ℕ → Text → Text → OidcPendingLogin
begun_login config_id nonce verifier = record {
  config_id = config_id;
  nonce = nonce;
  code_verifier = verifier;
}

-- The login was begun, and it is `now`.
abbrev pub after_begin : OidcLogin → ℕ → World → Text → Text → Text → List Text → ℕ → World
after_begin s config_id w state nonce verifier rest now = record w {
  tokens = rest;
  clock = now;
  ceremonies = record w.ceremonies {
    oidc_states =
        put_key state (begun_login config_id nonce verifier)
          (w.clock + request_ttl_of s.request_ttl) w.ceremonies.oidc_states;
  };
}

put_then_lookup :
    (now dies_at : ℕ) (key : Text) (pending : OidcPendingLogin)
    (entries : List (Timed OidcPendingLogin))
    → ltb now dies_at ≡ true
    → lookup_key now key (put_key key pending dies_at entries) ≡ some pending
unfolding lookup_key put_key find
put_then_lookup now dies_at key pending entries early = ground (arith, text_eq_refl key)

module _ (crypto : Crypto) (c : Aead) (s : OidcLogin) (r : Resolver) (config_id : ℕ)
    (cfg : OidcConfig) where
  config_found :
      (w : World) (row : OidcConfigRow)
      → w.faults ≡ []
      → find (has_oidc_id config_id) w.providers.oidc_configs ≡ some row
      → to_domain c row ≡ ok cfg
      → cfg.enabled ≡ true
      → enabled_oidc_config c config_id w ≡ (ok cfg, w)
  unfolding enabled_oidc_config find_oidc_config find_oidc_row statement
  config_found w row clear stored decrypted enabled = ground arith

  begun :
      (w : World) (lib : OidcLibrary) (state nonce verifier : Text) (rest : List Text)
      → w.faults ≡ []
      → enabled_oidc_config c config_id w ≡ (ok cfg, w)
      → lib.discover cfg.issuer ≡ true
      → w.tokens ≡ state ∷ nonce ∷ verifier ∷ rest
      → begin_oidc_login crypto c s lib config_id w ≡ (
        ok (lib.auth_code_url (oauth2_config lib s cfg) state nonce verifier),
        after_begin s config_id w state nonce verifier rest w.clock,
      )
  unfolding begin_oidc_login generate_token raw_token create_state statement
  begun w lib state nonce verifier rest clear found discovered tokens = ground arith

  callback_resolves :
      (w : World) (lib : OidcLibrary) (state code : Text) (pending : OidcPendingLogin)
      (a : LoginAttempt)
      → w.faults ≡ []
      → enabled_oidc_config c config_id w ≡ (ok cfg, w)
      → is_empty code ≡ false
      → is_empty state ≡ false
      → lookup_key w.clock state w.ceremonies.oidc_states ≡ some pending
      → pending.config_id ≡ config_id
      → oidc_attempt lib (oauth2_config lib s cfg) config_id cfg code pending ≡ ok a
      → handle_callback crypto c s r lib config_id
          (record { error = []; code = code; state = state })
          w
        ≡ resolve crypto r a (used_up state w)
  unfolding handle_callback consume_state statement is_empty text_eq
  callback_resolves w lib state code pending a clear found coded stated known here verified =
      ground arith

  -- Where no call fails: a login that is begun at an enabled configuration sends the browser to
  -- the provider with the first two random tokens as state and nonce; and a callback with that
  -- state that comes before the login runs out, with a code for which the provider's answer
  -- passes the checks against that nonce and verifier, is resolved as the attempt of the token.
  pub begin_then_callback :
      (w : World) (row : OidcConfigRow) (lib lib' : OidcLibrary) (state nonce verifier code : Text)
      (rest : List Text) (now : ℕ) (a : LoginAttempt)
      → w.faults ≡ []
      → find (has_oidc_id config_id) w.providers.oidc_configs ≡ some row
      → to_domain c row ≡ ok cfg
      → cfg.enabled ≡ true
      → lib.discover cfg.issuer ≡ true
      → w.tokens ≡ state ∷ nonce ∷ verifier ∷ rest
      → is_empty state ≡ false
      → is_empty code ≡ false
      → ltb now (w.clock + request_ttl_of s.request_ttl) ≡ true
      → oidc_attempt lib'
          (oauth2_config lib' s cfg)
          config_id
          cfg
          code
          (record { config_id = config_id; nonce = nonce; code_verifier = verifier })
        ≡ ok a
      → let (url, begun) = begin_oidc_login crypto c s lib config_id w in
        let w' : World = record begun { clock = now } in
        (url ≡ ok (lib.auth_code_url (oauth2_config lib s cfg) state nonce verifier))
        × (handle_callback crypto c s r lib' config_id
              (record { error = []; code = code; state = state })
              w'
            ≡ resolve crypto r a (used_up state w'))
  begin_then_callback w row lib lib' state nonce verifier code rest now a clear stored decrypted
        enabled discovered tokens stated coded early verified =
      let found = config_found w row clear stored decrypted enabled in
      let w' = after_begin s config_id w state nonce verifier rest now in
      rw (begun w lib state nonce verifier rest clear found discovered tokens) (
        refl,
        callback_resolves w' lib' state code (begun_login config_id nonce verifier) a clear
            (config_found w' row clear stored decrypted enabled) coded stated
            (put_then_lookup now _ state _ w.ceremonies.oidc_states early) refl verified,
      )
