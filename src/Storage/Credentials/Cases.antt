-- ===== src/Storage/Credentials/Cases.antt =====
-- What each statement on the local credentials can do.
use knives.Prelude.{ℕ, ◌≡◌, ◌⊎◌, Option, none, find, update, arith}
use knives.World.{World, called, statement}
use knives.World.Effects.{ok, err, or_raise, not_found, db_error}
use knives.World.Rows.{LocalCredential}
use knives.Storage.Credentials.{
  of_user, find_local_credential, record_failed_attempt, reset_failed_attempts,
}

pub find_local_credential_cases :
    (id : ℕ) (w : World)
    → (find_local_credential id w ≡ (err db_error, called w))
      ⊎ (find_local_credential id w
          ≡ or_raise not_found (find (of_user id) w.credentials) (called w))
unfolding find_local_credential statement
find_local_credential_cases id w = ground arith

abbrev pub failed_row : ℕ → Option ℕ → LocalCredential → LocalCredential
failed_row n until c = record c { failed_attempts = n; locked_until = until }

pub record_failed_attempt_cases :
    (id n : ℕ) (until : Option ℕ) (w : World)
    → (record_failed_attempt id n until w ≡ (err db_error, called w))
      ⊎ (record_failed_attempt id n until w ≡ (
        ok tt,
        record (called w) { credentials = update (of_user id) (failed_row n until) w.credentials },
      ))
unfolding record_failed_attempt statement
record_failed_attempt_cases id n until w = ground arith

pub reset_failed_attempts_cases :
    (id : ℕ) (w : World)
    → (reset_failed_attempts id w ≡ (err db_error, called w))
      ⊎ (reset_failed_attempts id w ≡ (
        ok tt,
        record (called w) { credentials = update (of_user id) (failed_row 0 none) w.credentials },
      ))
unfolding reset_failed_attempts statement
reset_failed_attempts_cases id w = ground arith
