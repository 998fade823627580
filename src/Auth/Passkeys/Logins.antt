-- ===== src/Auth/Passkeys/Logins.antt =====
-- Logins by passkey: one for each ceremony, and none with a cloned credential.
use knives.Prelude.{ℕ, ◌≡◌, ◌≢◌, refl, ◌∙◌, Text, true, false, List, some, find, update, arith}
use knives.World.{World, statement}
use knives.World.Effects.{Result, ok, err, or_raise, protocol_error, credential_cloned}
use knives.World.Effects.Inversion.{bind_cases, some_or-ok}
use knives.World.Rows.{User}
use knives.World.Logins.{Passkey}
use knives.Storage.Accounts.{has_id, find_user_by_id}
use knives.Storage.Passkeys.{has_credential_id, used_passkey, find_passkeys_by_user_id}
use knives.Auth.Nonces.{lookup_key, without_key, consume_ceremony}
use knives.Auth.Passkeys.{
  WebauthnLibrary, WebauthnUser, Assertion, load_webauthn_user, consume_session, apply_login_result,
  resolve_user_handle, finish_passkey_login,
}

consume_session_frame :
    (ceremony_id : Text) (w : World)
    → let v = (consume_session ceremony_id w).1 in
      (v.passkeys ≡ w.passkeys) × (v.users ≡ w.users) × (v.clock ≡ w.clock)
unfolding consume_session consume_ceremony statement
consume_session_frame ceremony_id w = ground arith

load_frame :
    (id : ℕ) (w : World)
    → let v = (load_webauthn_user id w).1 in
      (v.passkeys ≡ w.passkeys) × (v.clock ≡ w.clock) × (v.ceremonies ≡ w.ceremonies)
unfolding load_webauthn_user find_user_by_id find_passkeys_by_user_id statement
load_frame id w = ground arith

module _ (lib : WebauthnLibrary) where
  resolve_passkeys :
      (handle : Text) (w : World) → (resolve_user_handle lib handle w).1.passkeys ≡ w.passkeys
  unfolding resolve_user_handle
  resolve_passkeys handle w =
      bind_cases (λ x. x.1.passkeys ≡ w.passkeys) (or_raise protocol_error (lib.parse_uuid handle))
        load_webauthn_user w (λ e h. refl) (λ id h. (load_frame id w).0)

-- The counter of the credential that logged in.
abbrev pub counted : Assertion → ℕ → List Passkey → List Passkey
counted a now =
    update (has_credential_id a.credential_id) (used_passkey a.sign_count a.backup_state now)

cloned_refused :
    (a : Assertion) (w : World)
    → a.clone_warning ≡ true
    → apply_login_result a w ≡ (err credential_cloned, w)
unfolding apply_login_result
cloned_refused a w h = ground arith

module _ (lib : WebauthnLibrary) (ceremony_id response : Text) (w : World) where
  -- The ceremony was under way, the response's handle names the user, and the assertion was
  -- verified against that user's passkeys, with no sign of a clone.
  pub record IsVerified (user : User) (v : World) : Type 0 where
    pub session : Text
    pub handle : Text
    pub id : ℕ
    pub account : WebauthnUser
    pub assertion : Assertion
    pub under_way : lookup_key w.clock ceremony_id w.ceremonies.passkey_sessions ≡ some session
    pub named : lib.user_handle session response ≡ some handle
    pub parsed : lib.parse_uuid handle ≡ some id
    pub registered : find (has_id id) w.users ≡ some account.user
    pub is_user : account.user ≡ user
    pub verified : lib.finish_passkey_login account session response ≡ some assertion
    pub genuine : assertion.clone_warning ≡ false
    pub counter : v.passkeys ≡ counted assertion w.clock w.passkeys
    pub spent :
        v.ceremonies.passkey_sessions ≡ without_key ceremony_id w.ceremonies.passkey_sessions

  -- Where the library warns of a clone in every assertion that it verifies for this response,
  -- nobody is logged in, and every passkey with its counter stands as before.
  clone_refused :
      ((u : WebauthnUser) (session : Text) (a : Assertion)
        → lib.finish_passkey_login u session response ≡ some a
        → a.clone_warning ≡ true)
      → let (result, v) = finish_passkey_login lib ceremony_id response w in
        ((user : User) → result ≢ ok user) × (v.passkeys ≡ w.passkeys)
  unfolding finish_passkey_login
  clone_refused cloned =
      let R = λ (x : Result User × World).
        ((user : User) → x.0 ≢ ok user) × (x.1.passkeys ≡ w.passkeys) in
      let v = (consume_session ceremony_id w).1 in
      let (rows, users, clock) = consume_session_frame ceremony_id w in
      bind_cases R (consume_session ceremony_id) _ w (λ e h. (λ user k. cc, rows))
        (λ session h.
          bind_cases R (or_raise protocol_error (lib.user_handle session response)) _ v
            (λ e k. (λ user j. cc, rows))
            (λ handle named.
              let kept = resolve_passkeys lib handle v ∙ rows in
              bind_cases R (resolve_user_handle lib handle) _ v (λ e k. (λ user j. cc, kept))
                (λ account k.
                  bind_cases R
                    (or_raise protocol_error (lib.finish_passkey_login account session response)) _
                    _ (λ e l. (λ user j. cc, kept))
                    (λ assertion verified.
                      let warned = cloned account session assertion (some_or-ok _ _ verified) in
                      rw (cloned_refused assertion (resolve_user_handle lib handle v).1 warned)
                        (λ user j. cc, kept)))))
