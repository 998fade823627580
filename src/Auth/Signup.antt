-- ===== src/Auth/Signup.antt =====
-- internal/auth/local_signup.go: local self-signup, with or without the proof that the submitted
-- email can be read.
pub mod Gate
use knives.Prelude.{ℕ, ◌+◌, Text, Bool, true, false, leb, if◌then◌else◌, none}
use knives.World.{World}
use knives.World.Effects.{Exec, pure, gets, guard, ◌>>=◌, ◌>>◌, token_expired}
use knives.World.Rows.{User, local, SignupVerification, signup_verification}
use knives.Storage.Accounts.{send_mail}
use knives.Storage.Credentials.{
  set_password as store_password, create_pending_signup, find_pending_signup_by_token_hash,
  delete_pending_signup,
}
use knives.Auth.Crypto.{Crypto}
use knives.Auth.Identity.{
  LoginAttempt, Outcome, logged_in, pending_confirmation, Resolver, ttl_or_default, token_url,
  generate_token, resolve,
}
use knives.Auth.Local.{validate_password_strength, create_hash}

pub data SignupOutcome : Type 0 where
  signed_in : User → SignupOutcome
  verification_pending : SignupOutcome

pub record LocalSignup : Type 0 where
  pub verify_base_url : Text
  pub token_ttl : ℕ

-- The attempt that a signup hands to the resolver: the email is the subject, and is not trusted.
abbrev pub local_attempt : Text → Bool → LoginAttempt
local_attempt email email_verified = record {
  provider_type = local;
  provider_config_id = none;
  subject = email;
  email = email;
  email_verified = email_verified;
  trusted = false;
}

unfoldable pub finish_attach : Text → Outcome → Exec World SignupOutcome
finish_attach password_hash pending_confirmation = pure verification_pending
finish_attach password_hash (logged_in user) = do
  store_password user.id password_hash
  pure (signed_in user)

module _ (crypto : Crypto) (r : Resolver) (ls : LocalSignup) where
  unfoldable pub resolve_and_attach : Text → Text → Bool → Exec World SignupOutcome
  resolve_and_attach email password_hash email_verified = do
    outcome ← resolve crypto r (local_attempt email email_verified)
    finish_attach password_hash outcome

  unfoldable pub start_pending_verification : Text → Text → Exec World SignupOutcome
  start_pending_verification email password_hash = do
    (raw, hash) ← generate_token crypto
    now ← gets (λ w. w.clock)
    create_pending_signup email password_hash hash (now + ttl_or_default ls.token_ttl)
    send_mail
        (record { to_email = email; body = signup_verification (token_url ls.verify_base_url raw) })
    pure verification_pending

  unfoldable pub start : Text → Text → Bool → Exec World SignupOutcome
  start email password require_email_confirmation = do
    validate_password_strength password
    password_hash ← create_hash crypto password
    if require_email_confirmation
        then start_pending_verification email password_hash
        else resolve_and_attach email password_hash true

  unfoldable pub verify_email : Text → Exec World SignupOutcome
  verify_email raw_token = do
    pending ← find_pending_signup_by_token_hash (crypto.hash_token raw_token)
    now ← gets (λ w. w.clock)
    guard (leb now pending.expires_at) token_expired
    result ← resolve_and_attach pending.email pending.password_hash true
    delete_pending_signup pending.id
    pure result
