-- ===== src/Auth/Passkeys.antt =====
-- internal/auth/webauthn.go and webauthn_credential.go: registering passkeys, and logins by passkey.
pub mod Logins
use knives.Prelude.{
  ℕ, Text, trim_space, length, Bool, true, false, not, ltb, if◌then◌else◌, List, Option, none, some,
}
use knives.World.{World}
use knives.World.Effects.{
  Exec, Result, ok, err, pure, guard, or_raise, lift, ◌>>=◌, ◌>>◌, ceremony_expired,
  credential_cloned, invalid_passkey_name, protocol_error,
}
use knives.World.Rows.{User}
use knives.World.Logins.{Passkey}
use knives.Storage.Accounts.{find_user_by_id}
use knives.Storage.Passkeys.{
  NewPasskey, find_passkeys_by_user_id, create_passkey, update_passkey_sign_count,
}
use knives.Auth.Crypto.{Crypto}
use knives.Auth.Identity.{generate_token}
use knives.Auth.Nonces.{create_ceremony, consume_ceremony}

-- 5 minutes, in nanoseconds
abbrev pub ceremony_ttl : ℕ
ceremony_ttl = 300000000000

abbrev pub max_passkey_name_length : ℕ
max_passkey_name_length = 100

-- The length is that of the bytes.
unfoldable pub normalize_passkey_name : Text → Result Text
normalize_passkey_name raw =
    let name = trim_space raw in
    if ltb max_passkey_name_length (length name) then err invalid_passkey_name else ok name

pub record WebauthnUser : Type 0 where
  pub user : User
  pub credentials : List Passkey

-- A ceremony's options for the browser, and its session data.
pub record Challenge : Type 0 where
  pub options : Text
  pub session : Text

-- What the library has verified of a new credential.
pub record Registration : Type 0 where
  pub credential_id : Text
  pub public_key : Text
  pub sign_count : ℕ
  pub transports : List Text
  pub user_present : Bool
  pub user_verified : Bool
  pub backup_eligible : Bool
  pub backup_state : Bool

-- What the library has verified of a login.
pub record Assertion : Type 0 where
  pub credential_id : Text
  pub sign_count : ℕ
  pub clone_warning : Bool
  pub backup_state : Bool

-- go-webauthn and google/uuid, for one request: its challenge, and what it makes of the response.
pub record WebauthnLibrary : Type 0 where
  pub begin_registration : WebauthnUser → Option Challenge
  pub begin_discoverable_login : Option Challenge
  pub finish_registration : WebauthnUser → Text → Text → Option Registration
  -- FinishPasskeyLogin asks for the user of the handle in the response, and verifies with it.
  pub user_handle : Text → Text → Option Text
  pub finish_passkey_login : WebauthnUser → Text → Text → Option Assertion
  pub parse_uuid : Text → Option ℕ

unfoldable pub load_webauthn_user : ℕ → Exec World WebauthnUser
load_webauthn_user user_id = do
  user ← find_user_by_id user_id
  creds ← find_passkeys_by_user_id user_id
  pure (record { user = user; credentials = creds })

unfoldable pub consume_session : Text → Exec World Text
consume_session ceremony_id = do
  found ← consume_ceremony ceremony_id
  or_raise ceremony_expired found

-- A cloned credential is refused, and its counter is left as it is.
unfoldable pub apply_login_result : Assertion → Exec World (Unit {0})
apply_login_result a = do
  guard (not a.clone_warning) credential_cloned
  update_passkey_sign_count a.credential_id a.sign_count a.backup_state

abbrev pub registered : ℕ → Text → Registration → NewPasskey
registered user_id name g = record {
  user_id = user_id;
  credential_id = g.credential_id;
  public_key = g.public_key;
  sign_count = g.sign_count;
  transports = g.transports;
  name = name;
  user_present = g.user_present;
  user_verified = g.user_verified;
  backup_eligible = g.backup_eligible;
  backup_state = g.backup_state;
}

module _ (crypto : Crypto) where
  unfoldable pub store_ceremony : Text → Exec World Text
  store_ceremony session = do
    (ceremony_id, hash) ← generate_token crypto
    create_ceremony ceremony_id session ceremony_ttl
    pure ceremony_id

  module _ (lib : WebauthnLibrary) where
    unfoldable pub begin_registration : ℕ → Exec World (Text × Text)
    begin_registration user_id = do
      user ← load_webauthn_user user_id
      challenge ← or_raise protocol_error (lib.begin_registration user)
      ceremony_id ← store_ceremony challenge.session
      pure (challenge.options, ceremony_id)

    unfoldable pub begin_passkey_login : Exec World (Text × Text)
    begin_passkey_login = do
      challenge ← or_raise protocol_error lib.begin_discoverable_login
      ceremony_id ← store_ceremony challenge.session
      pure (challenge.options, ceremony_id)

module _ (lib : WebauthnLibrary) where
  unfoldable pub finish_registration : ℕ → Text → Text → Text → Exec World (Unit {0})
  finish_registration user_id ceremony_id name response = do
    session ← consume_session ceremony_id
    user ← load_webauthn_user user_id
    credential ← or_raise protocol_error (lib.finish_registration user session response)
    create_passkey (registered user_id name credential)

  -- The handler that the library calls with the response's user handle.
  unfoldable pub resolve_user_handle : Text → Exec World WebauthnUser
  resolve_user_handle handle = do
    id ← or_raise protocol_error (lib.parse_uuid handle)
    load_webauthn_user id

  unfoldable pub finish_passkey_login : Text → Text → Exec World User
  finish_passkey_login ceremony_id response = do
    session ← consume_session ceremony_id
    handle ← or_raise protocol_error (lib.user_handle session response)
    user ← resolve_user_handle handle
    assertion ← or_raise protocol_error (lib.finish_passkey_login user session response)
    apply_login_result assertion
    pure user.user
