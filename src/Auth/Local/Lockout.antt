-- ===== src/Auth/Local/Lockout.antt =====
-- The lockout of `LocalAuthenticator.Login`: how many wrong passwords an account takes.
use knives.Prelude.{
  ℕ, ◌+◌, ◌<◌, ◌≡◌, refl, Text, text_eq, Bool, true, false, List, [], ◌∷◌, none, some, find, update,
  length, if◌then◌else◌, All, arith, find-update, find_test, ◌∙◌, ap,
}
use knives.World.{World, statement}
use knives.World.Effects.{err, invalid_credentials, account_locked}
use knives.World.Rows.{User, LocalCredential}
use knives.Storage.Accounts.{has_email, find_user_by_email}
use knives.Storage.Credentials.{of_user, find_local_credential, record_failed_attempt}
use knives.Storage.Credentials.Cases.{failed_row}
use knives.Auth.Crypto.{Crypto}
use knives.Auth.Local.{
  is_locked, compare_password, login_failed, login_with, login_credential, login_user, login,
  locked_until_after, lockout_duration,
}

module _ (crypto : Crypto) (dummy_hash : Text) where
  -- The account that is attacked: its user and its credential are found, and no call fails.
  pub record IsTarget (email : Text) (user : User) (c : LocalCredential) (w : World) : Type 0 where
    pub registered : find (has_email email) w.users ≡ some user
    pub has_password : find (of_user user.id) w.credentials ≡ some c
    pub password_set : text_eq c.password_hash [] ≡ false
    pub no_fault : w.faults ≡ []

  -- Where no call fails, an account with a password whose lock has not run out answers `account
  -- locked` to every password, the right one included. It runs no comparison and keeps the
  -- credentials as they are.
  pub locked_rejects :
      (email password : Text) (user : User) (c : LocalCredential) (w : World)
      → IsTarget email user c w
      → is_locked w.clock c.locked_until ≡ true
      → ((login crypto dummy_hash email password w).0 ≡ err account_locked)
        × ((login crypto dummy_hash email password w).1.credentials ≡ w.credentials)
        × ((login crypto dummy_hash email password w).1.comparisons ≡ w.comparisons)
  unfolding login login_user login_credential login_with find_user_by_email find_local_credential
      statement
  locked_rejects email password user c w t locked = ground arith

  abbrev pub after : Text → Text → World → World
  after email password w = (login crypto dummy_hash email password w).1

  wrong_password_world :
      (email password : Text) (user : User) (c : LocalCredential) (w : World)
      → IsTarget email user c w
      → is_locked w.clock c.locked_until ≡ false
      → crypto.compare password c.password_hash ≡ some false
      → let n = c.failed_attempts + 1 in
        ((login crypto dummy_hash email password w).0 ≡ err invalid_credentials)
        × ((after email password w).users ≡ w.users)
        × ((after email password w).faults ≡ [])
        × ((after email password w).clock ≡ w.clock)
        × ((after email password w).credentials
            ≡ update (of_user user.id) (failed_row n (locked_until_after w.clock n)) w.credentials)
  unfolding login login_user login_credential login_with login_failed compare_password
      find_user_by_email find_local_credential record_failed_attempt statement
  wrong_password_world email password user c w t unlocked wrong = ground arith

  -- One wrong password counts, and the count decides about the lock.
  wrong_password_step :
      (email password : Text) (user : User) (c : LocalCredential) (w : World)
      → IsTarget email user c w
      → is_locked w.clock c.locked_until ≡ false
      → crypto.compare password c.password_hash ≡ some false
      → let n = c.failed_attempts + 1 in
        IsTarget email user (failed_row n (locked_until_after w.clock n) c) (after email password w)
        × ((after email password w).clock ≡ w.clock)
  wrong_password_step email password user c w t unlocked wrong =
      let n = c.failed_attempts + 1 in
      let (_, users, faults, clock, rows) =
        wrong_password_world email password user c w t unlocked wrong in
      let row = failed_row n (locked_until_after w.clock n) in
      let hit : of_user user.id c ≡ true =
        find_test (of_user user.id) w.credentials t.has_password in
      let found =
        find-update (of_user user.id) (of_user user.id) row (λ x. refl) w.credentials {x = c}
          t.has_password in
      (
        record {
          registered = rw users t.registered;
          has_password = rw rows (found ∙ ap (λ (b : Bool). some (if b then row c else c)) hit);
          password_set = t.password_set;
          no_fault = faults;
        },
        clock,
      )

  -- The attempts of one attacker, in order.
  pub after_all : Text → List Text → World → World
  after_all email [] w = w
  after_all email (p ∷ ps) w = after_all email ps (after email p w)

  abbrev pub AllWrong : Text → List Text → Type 0
  AllWrong hash = All (λ p. crypto.compare p hash ≡ some false)

  abbrev pub IsLockedOut : Text → User → ℕ → World → Type 0
  IsLockedOut email user now w =
      (c : LocalCredential) × IsTarget email user c w
      × (c.locked_until ≡ some (now + lockout_duration))
      × (w.clock ≡ now)

  wrong_passwords_lock :
      (ps : List Text) (email : Text) (user : User) (c : LocalCredential) (w : World)
      → IsTarget email user c w
      → c.locked_until ≡ none
      → AllWrong c.password_hash ps
      → c.failed_attempts < 5
      → c.failed_attempts + length ps ≡ 5
      → IsLockedOut email user w.clock (after_all email ps w)
  unfolding after_all
  wrong_passwords_lock [] email user c w t free wrong few total = absurd (omega arith)
  wrong_passwords_lock (p ∷ []) email user c w t free wrong few total =
      let (t', clock) = wrong_password_step email p user c w t (rw free) wrong.0 in
      let n = c.failed_attempts + 1 in
      (failed_row n (locked_until_after w.clock n) c, t', ground arith, clock)
  wrong_passwords_lock (p ∷ q ∷ ps) email user c w t free wrong few total =
      let (t', clock) = wrong_password_step email p user c w t (rw free) wrong.0 in
      let n = c.failed_attempts + 1 in
      let (c', locked, until, clock') =
        wrong_passwords_lock (q ∷ ps) email user (failed_row n (locked_until_after w.clock n) c)
          (after email p w) t' (ground arith) wrong.1 (ground arith) (ground arith) in
      (c', locked, until ∙ ap (λ (k : ℕ). some (k + lockout_duration)) clock, clock' ∙ clock)

  -- An account with a password that is not locked and has n < 5 failures on record, and that meets
  -- 5 - n wrong passwords in a row, at one time and with no failing call, answers every further
  -- password, the right one included, with `account locked`.
  pub brute_force_locks :
      (ps : List Text) (email password : Text) (user : User) (c : LocalCredential) (w : World)
      → IsTarget email user c w
      → c.locked_until ≡ none
      → AllWrong c.password_hash ps
      → c.failed_attempts < 5
      → c.failed_attempts + length ps ≡ 5
      → (login crypto dummy_hash email password (after_all email ps w)).0 ≡ err account_locked
  brute_force_locks ps email password user c w t free wrong few total =
      let (c', t', until, clock) = wrong_passwords_lock ps email user c w t free wrong few total in
      (locked_rejects email password user c' (after_all email ps w) t'
        (rw (until, clock) (ground arith))).0
