-- ===== src/Auth/Local.antt =====
-- internal/auth/local.go: password logins with the lockout policy, and the setting of passwords.
pub mod Lockout
pub mod Rejections
pub mod Renewal
use knives.Prelude.{
  ℕ, ◌+◌, Text, codes, Bool, true, false, ◌||◌, ltb, leb, not, if◌then◌else◌, [], Option, none,
  some, length, text_eq,
}
use knives.World.{World, draw}
use knives.World.Effects.{
  Exec, Result, ok, err, Err, pure, raise, gets, attempt, guard, modify, or_raise, ◌>>=◌, ◌>>◌,
  not_found, invalid_credentials, account_locked, password_too_short, hash_error,
}
use knives.World.Rows.{User, LocalCredential}
use knives.Storage.Accounts.{find_user_by_email, is_some}
use knives.Storage.Credentials.{
  find_local_credential, set_password as store_password, record_failed_attempt,
  reset_failed_attempts,
}
use knives.Auth.Crypto.{Crypto}

abbrev pub max_failed_attempts : ℕ
max_failed_attempts = 5

-- 15 minutes, in nanoseconds
abbrev pub lockout_duration : ℕ
lockout_duration = 900000000000

abbrev pub min_password_length : ℕ
min_password_length = 8

unfoldable pub validate_password_strength : Text → Exec World (Unit {0})
validate_password_strength password =
    guard (not (ltb (length password) min_password_length)) password_too_short

-- `now.Before(*cred.LockedUntil)`
abbrev pub is_locked : ℕ → Option ℕ → Bool
is_locked now none = false
is_locked now (some t) = ltb now t

abbrev pub locked_until_after : ℕ → ℕ → Option ℕ
locked_until_after now attempts =
    if leb max_failed_attempts attempts then some (now + lockout_duration) else none

module _ (crypto : Crypto) where
  -- One argon2id comparison; the count of them is what a client can time.
  unfoldable pub compare_password : Text → Text → Exec World Bool
  compare_password password hash = do
    modify (λ w. record w { comparisons = w.comparisons + 1 })
    or_raise hash_error (crypto.compare password hash)

  module _ (dummy_hash : Text) where
    -- `_, _ = argon2id.ComparePasswordAndHash(password, dummyHash)`, then the uniform rejection.
    unfoldable pub reject : Text → Exec World User
    reject password = do
      ignored ← attempt (compare_password password dummy_hash)
      raise invalid_credentials

    unfoldable pub login_matched : User → LocalCredential → Exec World User
    login_matched user cred = do
      if ltb 0 cred.failed_attempts || is_some cred.locked_until
          then reset_failed_attempts user.id
          else pure tt
      pure user

    unfoldable pub login_failed : User → LocalCredential → ℕ → Exec World User
    login_failed user cred now = do
      let attempts = cred.failed_attempts + 1
      record_failed_attempt user.id attempts (locked_until_after now attempts)
      raise invalid_credentials

    unfoldable pub login_with : Text → User → LocalCredential → Exec World User
    login_with password user cred = do
      now ← gets (λ w. w.clock)
      guard (not (is_locked now cred.locked_until)) account_locked
      matches ← compare_password password cred.password_hash
      if matches then login_matched user cred else login_failed user cred now

    unfoldable pub login_credential : Text → User → Result LocalCredential → Exec World User
    login_credential password user (err not_found) = reject password
    login_credential password user (err e) = raise e
    login_credential password user (ok cred) =
        if text_eq cred.password_hash [] then reject password else login_with password user cred

    unfoldable pub login_user : Text → Result User → Exec World User
    login_user password (err not_found) = reject password
    login_user password (err e) = raise e
    login_user password (ok user) = do
      found ← attempt (find_local_credential user.id)
      login_credential password user found

    unfoldable pub login : Text → Text → Exec World User
    login email password = do found ← attempt (find_user_by_email email); login_user password found

  unfoldable pub create_hash : Text → Exec World Text
  create_hash password = do salt ← draw; or_raise hash_error (crypto.create_hash salt password)

  unfoldable pub set_password : ℕ → Text → Exec World (Unit {0})
  set_password user_id new_password = do
    validate_password_strength new_password
    hash ← create_hash new_password
    store_password user_id hash
