-- ===== src/Api/Logins.antt =====
-- cmd/api/handlers_auth.go: logins, signups, the links of the mails, and passwords. `none` is a body
-- that does not decode, and `""` a query without the token.
use knives.Prelude.{
  ℕ, Text, trim_space, Bool, ◌&&◌, if◌then◌else◌, List, [], ◌∷◌, map, Option, none, some,
}
use knives.Permission.{Subject}
use knives.World.Effects.{
  Err, account_locked, invalid_credentials, password_too_short, token_expired, token_already_used,
  not_found,
}
use knives.World.Rows.{ProviderType, PendingLinkRequest}
use knives.Storage.Accounts.{find_user_by_id, find_auth_settings}
use knives.Auth.Crypto.{Crypto}
use knives.Auth.Identity.{
  Outcome, logged_in, pending_confirmation, Resolver, confirm_pending_link, list_pending_links,
  approve_pending_link,
}
use knives.Auth.Local.{login, set_password}
use knives.Auth.Signup.{
  SignupOutcome, signed_in, verification_pending, LocalSignup, start, verify_email,
}
use knives.Auth.Sessions.{create_session, delete_session}
use knives.Api.{
  Reply, reply, error, no_content, Handler, not_found_reply, internal_error, send, try,
}
use knives.Api.Sessions.{keep_cookie, clear_cookie, set_cookie, CookieHandler, answer, try_answer}

pub record Credentials : Type 0 where
  pub email : Text
  pub password : Text

pub record MeResponse : Type 0 where
  pub id : ℕ
  pub email : Text
  pub is_system_admin : Bool

-- The `status` of the responses.
pub data LoginStatus : Type 0 where
  now_logged_in now_pending confirmed : LoginStatus
  approved : ℕ → LoginStatus

pub record PendingLinkResponse : Type 0 where
  pub id : ℕ
  pub provider_type : ProviderType
  pub expires_at : ℕ

abbrev pub login_error : {B : Type 0} → Err → Reply B
login_error account_locked = error 429 "account temporarily locked"
login_error invalid_credentials = error 401 "invalid email or password"
login_error _ = internal_error

abbrev pub signup_error : {B : Type 0} → Err → Reply B
signup_error password_too_short = error 400 "auth: password must be at least 8 characters"
signup_error _ = internal_error

abbrev pub verify_error : {B : Type 0} → Err → Reply B
verify_error token_expired = error 410 "verification link has expired"
verify_error not_found = error 404 "invalid verification link"
verify_error _ = internal_error

abbrev pub confirm_error : {B : Type 0} → Err → Reply B
confirm_error token_expired = error 410 "confirmation link has expired"
confirm_error token_already_used = error 409 "confirmation link was already used"
confirm_error _ = internal_error

abbrev pub approve_error : {B : Type 0} → Err → Reply B
approve_error not_found = not_found_reply
approve_error token_expired = error 410 "this request has expired"
approve_error token_already_used = error 409 "this request was already approved"
approve_error _ = internal_error

abbrev pub pending_link_response : PendingLinkRequest → PendingLinkResponse
pending_link_response p = record {
  id = p.id;
  provider_type = p.provider_type;
  expires_at = p.expires_at;
}

unfoldable pub handle_list_pending_links : Option Subject → Handler (List PendingLinkResponse)
handle_list_pending_links none = send (error 401 "unauthorized")
handle_list_pending_links (some subject) =
    try (list_pending_links subject.user_id) (λ _. internal_error)
      λ pending. send (reply 200 (map pending_link_response pending))

unfoldable pub handle_me : Option Subject → Handler MeResponse
handle_me none = send (error 401 "unauthorized")
handle_me (some subject) =
    try (find_user_by_id subject.user_id) (λ _. internal_error)
      λ user. send (
        reply 200
          (record { id = user.id; email = user.email; is_system_admin = subject.is_system_admin }))

-- `result.User.ID` of a result with no user: the handler panics and is recovered, with 500.
abbrev pub approved_reply : Outcome → Handler LoginStatus
approved_reply (logged_in user) = send (reply 200 (approved user.id))
approved_reply pending_confirmation = send internal_error

unfoldable pub handle_approve_pending_link : Option Subject → Option ℕ → Handler LoginStatus
handle_approve_pending_link none id = send (error 401 "unauthorized")
handle_approve_pending_link (some subject) none = send not_found_reply
handle_approve_pending_link (some subject) (some id) =
    try (approve_pending_link subject.user_id id) approve_error approved_reply

abbrev pub or_missing_token : {B : Type 0} → (Text → CookieHandler B) → Text → CookieHandler B
or_missing_token k [] = answer keep_cookie (error 400 "missing token")
or_missing_token k (c ∷ token) = k (c ∷ token)

module _ (crypto : Crypto) where
  unfoldable pub handle_logout : Option Text → CookieHandler (Unit {0})
  handle_logout none w = answer clear_cookie no_content w
  handle_logout (some token) w = answer clear_cookie no_content (delete_session crypto token w).1

  unfoldable pub handle_set_password : Option Subject → Option Text → Handler (Unit {0})
  handle_set_password none body = send (error 401 "unauthorized")
  handle_set_password (some subject) none = send (error 400 "invalid request body")
  handle_set_password (some subject) (some new_password) =
      try (set_password crypto subject.user_id new_password) signup_error λ _. send no_content

  module _ (ttl : ℕ) where
    -- A new session of the user, its token in the cookie.
    unfoldable pub start_session : {B : Type 0} → ℕ → Reply B → CookieHandler B
    start_session user_id r =
        try_answer (create_session crypto user_id ttl) (λ _. internal_error)
          λ token. answer (set_cookie token) r

    unfoldable pub handle_local_login : Text → Option Credentials → CookieHandler (Unit {0})
    handle_local_login dummy_hash none = answer keep_cookie (error 400 "invalid request body")
    handle_local_login dummy_hash (some req) =
        try_answer (login crypto dummy_hash req.email req.password) login_error
          λ user. start_session user.id no_content

    unfoldable pub finish_signup : SignupOutcome → CookieHandler LoginStatus
    finish_signup verification_pending = answer keep_cookie (reply 202 now_pending)
    finish_signup (signed_in user) = start_session user.id (reply 201 now_logged_in)

    -- A result with no user panics, and is recovered.
    unfoldable pub finish_confirm : Outcome → CookieHandler LoginStatus
    finish_confirm pending_confirmation = answer keep_cookie internal_error
    finish_confirm (logged_in user) = start_session user.id (reply 200 confirmed)

    unfoldable pub handle_confirm_link : Text → CookieHandler LoginStatus
    handle_confirm_link =
        or_missing_token
          λ token. try_answer (confirm_pending_link crypto token) confirm_error finish_confirm

    module _ (r : Resolver) (ls : LocalSignup) where
      unfoldable pub handle_verify_email : Text → CookieHandler LoginStatus
      handle_verify_email =
          or_missing_token
            λ token. try_answer (verify_email crypto r ls token) verify_error finish_signup

      unfoldable pub signup_address : Text → Bool → Option Text → CookieHandler LoginStatus
      signup_address password require_confirmation none =
          answer keep_cookie (error 400 "invalid email")
      signup_address password require_confirmation (some address) =
          try_answer (start crypto r ls address password require_confirmation) signup_error
            finish_signup

      -- `parse_address` is net/mail's ParseAddress, with the address that it finds.
      unfoldable pub handle_local_signup :
          (Text → Option Text) → Option Credentials → CookieHandler LoginStatus
      handle_local_signup parse_address none = answer keep_cookie (error 400 "invalid request body")
      handle_local_signup parse_address (some req) =
          try_answer find_auth_settings (λ _. internal_error)
            λ settings.
              if settings.local_auth_enabled && settings.self_signup_enabled
              then signup_address req.password settings.require_email_confirmation
                  (parse_address (trim_space req.email))
              else answer keep_cookie (error 403 "self-signup is disabled")
