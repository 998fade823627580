-- ===== src/Auth/Local/Rejections.antt =====
-- When a password login succeeds, and what a rejected one gives away.
use knives.Prelude.{
  ◌+◌, ◌≡◌, inl, inr, Text, text_eq, true, false, [], some, find, Option-cases, arith,
}
use knives.World.{World, called}
use knives.World.Effects.{ok, err, invalid_credentials}
use knives.World.Rows.{User, LocalCredential}
use knives.Storage.Accounts.{has_email}
use knives.Storage.Accounts.Cases.{find_user_by_email_cases}
use knives.Storage.Credentials.{of_user}
use knives.Storage.Credentials.Cases.{
  find_local_credential_cases, record_failed_attempt_cases, reset_failed_attempts_cases,
}
use knives.Auth.Crypto.{Crypto}
use knives.Auth.Local.{
  is_locked, compare_password, reject, login_matched, login_failed, login_with, login_credential,
  login_user, login, locked_until_after,
}

module _ (crypto : Crypto) (dummy_hash : Text) where
  abbrev counted : World → World
  counted w = record w { comparisons = w.comparisons + 1 }

  -- One comparison is run, and the password is right, wrong, or cannot be compared.
  login_with_uniform :
      (password : Text) (user : User) (c : LocalCredential) (w : World)
      → (login_with crypto dummy_hash password user c w).0 ≡ err invalid_credentials
      → (login_with crypto dummy_hash password user c w).1.comparisons ≡ w.comparisons + 1
  unfolding login_with compare_password login_matched login_failed
  login_with_uniform password user c w h = ground (
    arith,
    record_failed_attempt_cases user.id (c.failed_attempts + 1)
        (locked_until_after w.clock (c.failed_attempts + 1)) (counted w),
    reset_failed_attempts_cases user.id (counted w),
  )

  login_with_right :
      (password : Text) (user : User) (c : LocalCredential) (w : World) (logged : User)
      → (login_with crypto dummy_hash password user c w).0 ≡ ok logged
      → (user ≡ logged)
        × (is_locked w.clock c.locked_until ≡ false)
        × (crypto.compare password c.password_hash ≡ some true)
  unfolding login_with compare_password login_matched login_failed
  login_with_right password user c w logged h = ground (
    arith,
    record_failed_attempt_cases user.id (c.failed_attempts + 1)
        (locked_until_after w.clock (c.failed_attempts + 1)) (counted w),
    reset_failed_attempts_cases user.id (counted w),
  )

  -- The credential that a login looks at.
  abbrev pub IsCredentialOf : Text → World → User → LocalCredential → Type 0
  IsCredentialOf email w user c =
      (find (has_email email) w.users ≡ some user) × (find (of_user user.id) w.credentials ≡ some c)

  -- A login that succeeds found the user by the email, a credential of that user with a password
  -- that is not locked at this time, and the password matched it.
  pub login_ok :
      (email password : Text) (w : World) (user : User)
      → (login crypto dummy_hash email password w).0 ≡ ok user
      → (c : LocalCredential) × IsCredentialOf email w user c
        × (text_eq c.password_hash [] ≡ false)
        × (is_locked w.clock c.locked_until ≡ false)
        × (crypto.compare password c.password_hash ≡ some true)
  unfolding login login_user login_credential reject compare_password
  login_ok email password w user h =
      let first = find_user_by_email_cases email w in
      elim (Option-cases (find (has_email email) w.users)) [
        | inl unknown ↦ absurd (ground (arith, first))
        | inr (u, e) ↦
            let second = find_local_credential_cases u.id (called w) in
            elim (Option-cases (find (of_user u.id) w.credentials)) [
              | inl no_row ↦ absurd (ground (arith, first, second))
              | inr (c, e') ↦
                  let right = login_with_right password u c (called (called w)) user in
                  (
                    c,
                    ground (arith, first, second, right),
                    ground (arith, first, second, right),
                    ground (arith, first, second, right),
                    ground (arith, first, second, right),
                  )
            ]
      ]

  -- A login that is rejected as `invalid credentials` has run one argon2id comparison, be the email
  -- unknown, the account without a password, or the password wrong.
  pub rejection_uniform :
      (email password : Text) (w : World)
      → (login crypto dummy_hash email password w).0 ≡ err invalid_credentials
      → (login crypto dummy_hash email password w).1.comparisons ≡ w.comparisons + 1
  unfolding login login_user login_credential reject compare_password
  rejection_uniform email password w h =
      let first = find_user_by_email_cases email w in
      elim (Option-cases (find (has_email email) w.users)) [
        | inl unknown ↦ ground (arith, first)
        | inr (u, e) ↦
            let second = find_local_credential_cases u.id (called w) in
            elim (Option-cases (find (of_user u.id) w.credentials)) [
              | inl no_row ↦ ground (arith, first, second)
              | inr (c, e') ↦
                  ground (arith, first, second, login_with_uniform password u c (called (called w)))
            ]
      ]
