-- ===== src/Storage/Credentials.antt =====
-- internal/storage/local_credential_store.go and local_signup_verification_store.go, over
-- local_credentials.sql.go and local_signup_verifications.sql.go.
pub mod Cases
use knives.Prelude.{
  ℕ, Text, Bool, ◌==◌, if◌then◌else◌, List, [], ◌∷◌, Option, none, some, find, any, update, select,
  text_eq, not,
}
use knives.World.{World, statement, fresh}
use knives.World.Effects.{Exec, ok, err, or_raise, not_found, unique_violation, fk_violation}
use knives.World.Rows.{LocalCredential, SignupVerification}
use knives.Storage.Accounts.{has_id}

abbrev pub of_user : ℕ → LocalCredential → Bool
of_user user_id c = c.user_id == user_id

unfoldable pub find_local_credential : ℕ → Exec World LocalCredential
find_local_credential user_id =
    statement λ w. or_raise not_found (find (of_user user_id) w.credentials) w

-- INSERT ... ON CONFLICT (user_id) DO UPDATE
unfoldable pub upsert_password : ℕ → Text → List LocalCredential → List LocalCredential
upsert_password user_id hash rows =
    let row : LocalCredential = record {
      user_id = user_id;
      password_hash = hash;
      failed_attempts = 0;
      locked_until = none;
    } in
    if any (of_user user_id) rows then update (of_user user_id) (λ _. row) rows else row ∷ rows

unfoldable pub set_password : ℕ → Text → Exec World (Unit {0})
set_password user_id hash = statement λ w.
    if any (has_id user_id) w.users
    then (ok tt, record w { credentials = upsert_password user_id hash w.credentials })
    else (err fk_violation, w)

unfoldable pub record_failed_attempt : ℕ → ℕ → Option ℕ → Exec World (Unit {0})
record_failed_attempt user_id failed_attempts locked_until = statement λ w.
    let failed = λ (c : LocalCredential). record c {
      failed_attempts = failed_attempts;
      locked_until = locked_until;
    } in
    (ok tt, record w { credentials = update (of_user user_id) failed w.credentials })

unfoldable pub reset_failed_attempts : ℕ → Exec World (Unit {0})
reset_failed_attempts user_id = statement λ w.
    let cleared = λ (c : LocalCredential). record c { failed_attempts = 0; locked_until = none } in
    (ok tt, record w { credentials = update (of_user user_id) cleared w.credentials })

unfoldable pub create_pending_signup : Text → Text → Text → ℕ → Exec World ℕ
create_pending_signup email password_hash token_hash expires_at = statement λ w.
    let row : SignupVerification = record {
      id = w.next_id;
      email = email;
      password_hash = password_hash;
      token_hash = token_hash;
      expires_at = expires_at;
    } in
    if any (λ s. text_eq s.token_hash token_hash) w.signups
    then (err unique_violation, w)
    else (ok row.id, record (fresh w) { signups = row ∷ w.signups })

unfoldable pub find_pending_signup_by_token_hash : Text → Exec World SignupVerification
find_pending_signup_by_token_hash token_hash =
    statement λ w. or_raise not_found (find (λ s. text_eq s.token_hash token_hash) w.signups) w

unfoldable pub delete_pending_signup : ℕ → Exec World (Unit {0})
delete_pending_signup id =
    statement λ w. (ok tt, record w { signups = select (λ s. not (s.id == id)) w.signups })
