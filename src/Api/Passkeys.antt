-- ===== src/Api/Passkeys.antt =====
-- cmd/api/handlers_webauthn.go: passkeys of the caller, and logins by passkey. `none` is a body
-- that does not decode or an id that does not parse, and `""` a query without the ceremony.
pub mod Ownership
use knives.Prelude.{ℕ, Text, Bool, List, [], ◌∷◌, map, Option, none, some}
use knives.Permission.{Subject}
use knives.World.{World}
use knives.World.Effects.{Err, lift, ceremony_expired, credential_registered, credential_cloned}
use knives.World.Logins.{Passkey}
use knives.Storage.Passkeys.{find_passkeys_by_user_id, update_passkey_name, delete_passkey}
use knives.Auth.Crypto.{Crypto}
use knives.Auth.Passkeys.{
  WebauthnLibrary, normalize_passkey_name, begin_registration, begin_passkey_login,
  finish_registration, finish_passkey_login,
}
use knives.Api.{
  Reply, reply, error, no_content, Handler, not_found_reply, internal_error, send, try,
}
use knives.Api.Sessions.{keep_cookie, CookieHandler, answer, try_answer}
use knives.Api.Logins.{start_session}
use knives.Api.ShortUrls.{read_error}

pub record CeremonyResponse : Type 0 where
  pub ceremony_id : Text
  pub options : Text

abbrev pub ceremony_response : Text × Text → Handler CeremonyResponse
ceremony_response (options, ceremony_id) =
    send (reply 200 (record { ceremony_id = ceremony_id; options = options }))

pub record PasskeyResponse : Type 0 where
  pub id : ℕ
  pub name : Text
  pub transports : List Text
  pub created_at : ℕ
  pub last_used_at : Option ℕ

abbrev pub to_passkey_response : Passkey → PasskeyResponse
to_passkey_response p = record {
  id = p.id;
  name = p.name;
  transports = p.transports;
  created_at = p.created_at;
  last_used_at = p.last_used_at;
}

abbrev pub name_error : {B : Type 0} → Err → Reply B
name_error _ = error 400 "auth: passkey name must be at most 100 characters"

abbrev pub register_error : {B : Type 0} → Err → Reply B
register_error ceremony_expired = error 400 "auth: webauthn ceremony expired or already used"
register_error credential_registered = error 409 "auth: webauthn credential already registered"
register_error _ = error 400 "invalid passkey registration"

abbrev pub passkey_login_error : {B : Type 0} → Err → Reply B
passkey_login_error ceremony_expired = error 400 "auth: webauthn ceremony expired or already used"
passkey_login_error credential_cloned = error 401 "passkey verification failed"
passkey_login_error _ = error 401 "passkey login failed"

unfoldable pub handle_list_passkeys : Option Subject → Handler (List PasskeyResponse)
handle_list_passkeys none = send (error 401 "unauthorized")
handle_list_passkeys (some subject) =
    try (find_passkeys_by_user_id subject.user_id) (λ _. internal_error)
      λ creds. send (reply 200 (map to_passkey_response creds))

unfoldable pub handle_update_passkey_name :
    Option Subject → Option ℕ → Option Text → Handler PasskeyResponse
handle_update_passkey_name none id body = send (error 401 "unauthorized")
handle_update_passkey_name (some subject) none body = send not_found_reply
handle_update_passkey_name (some subject) (some id) none = send (error 400 "invalid request body")
handle_update_passkey_name (some subject) (some id) (some raw) =
    try (lift (normalize_passkey_name raw)) name_error λ name.
      try (update_passkey_name id subject.user_id name) read_error
        λ cred. send (reply 200 (to_passkey_response cred))

unfoldable pub handle_delete_passkey : Option Subject → Option ℕ → Handler (Unit {0})
handle_delete_passkey none id = send (error 401 "unauthorized")
handle_delete_passkey (some subject) none = send not_found_reply
handle_delete_passkey (some subject) (some id) =
    try (delete_passkey id subject.user_id) read_error λ _. send no_content

module _ (lib : WebauthnLibrary) where
  unfoldable pub register_ceremony : Subject → Text → Text → Text → Handler (Unit {0})
  register_ceremony subject [] raw_name response = send (error 400 "missing ceremony_id")
  register_ceremony subject (c ∷ ceremony_id) raw_name response =
      try (lift (normalize_passkey_name raw_name)) name_error λ name.
        try (finish_registration lib subject.user_id (c ∷ ceremony_id) name response) register_error
          λ _. send (reply 201 tt)

  unfoldable pub handle_passkey_register_finish :
      Option Subject → Text → Text → Text → Handler (Unit {0})
  handle_passkey_register_finish none ceremony_id raw_name response =
      send (error 401 "unauthorized")
  handle_passkey_register_finish (some subject) ceremony_id raw_name response =
      register_ceremony subject ceremony_id raw_name response

  module _ (crypto : Crypto) where
    unfoldable pub handle_passkey_register_begin : Option Subject → Handler CeremonyResponse
    handle_passkey_register_begin none = send (error 401 "unauthorized")
    handle_passkey_register_begin (some subject) =
        try (begin_registration crypto lib subject.user_id) (λ _. internal_error) ceremony_response

    unfoldable pub handle_passkey_login_begin : Handler CeremonyResponse
    handle_passkey_login_begin =
        try (begin_passkey_login crypto lib) (λ _. internal_error) ceremony_response

    unfoldable pub handle_passkey_login_finish : ℕ → Text → Text → CookieHandler (Unit {0})
    handle_passkey_login_finish ttl [] response =
        answer keep_cookie (error 400 "missing ceremony_id")
    handle_passkey_login_finish ttl (c ∷ ceremony_id) response =
        try_answer (finish_passkey_login lib (c ∷ ceremony_id) response) passkey_login_error
          λ user. start_session crypto ttl user.id no_content
