-- ===== src/Auth/Nonces.antt =====
-- internal/auth/oidc_nonce_redis.go, saml_nonce_redis.go and webauthn_session_redis.go: the logins
-- that are under way, in Redis. A key whose time has come is gone. A time to live is positive:
-- Redis reads 0 as none.
use knives.Prelude.{
  ℕ, ◌+◌, Text, text_eq, Bool, true, false, ◌&&◌, ltb, not, if◌then◌else◌, List, ◌∷◌, Option, none,
  some, find, any, select,
}
use knives.World.{World, statement}
use knives.World.Effects.{Exec, ok}
use knives.World.Logins.{OidcPendingLogin, Timed, Ceremonies}

module _ {A : Type 0} where
  abbrev pub is_live : ℕ → Text → Timed A → Bool
  is_live now key e = text_eq e.key key && ltb now e.dies_at

  abbrev pub value_of : Option (Timed A) → Option A
  value_of none = none
  value_of (some e) = some e.value

  -- GET
  unfoldable pub lookup_key : ℕ → Text → List (Timed A) → Option A
  lookup_key now key entries = value_of (find (is_live now key) entries)

  unfoldable pub without_key : Text → List (Timed A) → List (Timed A)
  without_key key = select (λ e. not (text_eq e.key key))

  -- SET with a time to live
  unfoldable pub put_key : Text → A → ℕ → List (Timed A) → List (Timed A)
  put_key key value dies_at entries =
      record { key = key; value = value; dies_at = dies_at } ∷ without_key key entries

abbrev pub in_redis : World → Ceremonies → World
in_redis w c = record w { ceremonies = c }

unfoldable pub create_state : Text → OidcPendingLogin → ℕ → Exec World (Unit {0})
create_state state pending ttl = statement λ w.
    let rows = put_key state pending (w.clock + ttl) w.ceremonies.oidc_states in
    (ok tt, in_redis w (record w.ceremonies { oidc_states = rows }))

-- GETDEL
unfoldable pub consume_state : Text → Exec World (Option OidcPendingLogin)
consume_state state = statement λ w.
    let rows = w.ceremonies.oidc_states in
    (
      ok (lookup_key w.clock state rows),
      in_redis w (record w.ceremonies { oidc_states = without_key state rows }),
    )

unfoldable pub create_request : Text → ℕ → ℕ → Exec World (Unit {0})
create_request relay_state config_id ttl = statement λ w.
    let rows = put_key relay_state config_id (w.clock + ttl) w.ceremonies.saml_requests in
    (ok tt, in_redis w (record w.ceremonies { saml_requests = rows }))

-- GETDEL
unfoldable pub consume_request : Text → Exec World (Option ℕ)
consume_request relay_state = statement λ w.
    let rows = w.ceremonies.saml_requests in
    (
      ok (lookup_key w.clock relay_state rows),
      in_redis w (record w.ceremonies { saml_requests = without_key relay_state rows }),
    )

-- SETNX: whether the assertion was seen before.
unfoldable pub mark_assertion_seen : Text → ℕ → Exec World Bool
mark_assertion_seen assertion_id ttl = statement λ w.
    let rows = w.ceremonies.saml_assertions in
    let added = put_key assertion_id tt (w.clock + ttl) rows in
    if any (is_live w.clock assertion_id) rows
    then (ok true, w)
    else (ok false, in_redis w (record w.ceremonies { saml_assertions = added }))

unfoldable pub create_ceremony : Text → Text → ℕ → Exec World (Unit {0})
create_ceremony ceremony_id session ttl = statement λ w.
    let rows = put_key ceremony_id session (w.clock + ttl) w.ceremonies.passkey_sessions in
    (ok tt, in_redis w (record w.ceremonies { passkey_sessions = rows }))

-- GETDEL
unfoldable pub consume_ceremony : Text → Exec World (Option Text)
consume_ceremony ceremony_id = statement λ w.
    let rows = w.ceremonies.passkey_sessions in
    (
      ok (lookup_key w.clock ceremony_id rows),
      in_redis w (record w.ceremonies { passkey_sessions = without_key ceremony_id rows }),
    )
