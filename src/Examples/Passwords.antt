-- ===== src/Examples/Passwords.antt =====
-- Password logins and local signups.
use knives.Prelude.{
  none, Bool, Option, text_eq_refl, Text, codes, ◌≡◌, ◌≢◌, refl, true, false, [], ◌∷◌, some, find,
  any, text_eq, equal_fold, arith,
}
use knives.World.{World, statement, draw}
use knives.World.Effects.{ok, err, account_locked}
use knives.World.Rows.{User, LocalCredential}
use knives.Storage.Accounts.{find_user_by_email}
use knives.Storage.Credentials.{
  find_local_credential, reset_failed_attempts, set_password as store_password,
}
use knives.Auth.Local.{
  set_password, login, is_locked, login_user, login_credential, login_with, compare_password,
  login_matched, reject, validate_password_strength, create_hash,
}
use knives.Auth.Local.Lockout.{IsTarget, after_all, brute_force_locks}
use knives.Auth.Local.Renewal.{set_password_then_login}
use knives.Auth.Crypto.{Crypto, IsCorrect}
use knives.Auth.Local.Rejections.{IsCredentialOf, login_ok, rejection_uniform}
use knives.Auth.Signup.{start, signed_in}
use knives.Auth.Signup.Gate.{confirmed_start_gate}
use knives.Examples.Data.{plain_crypto, site, signup_site, world, alice, alice_credential}

abbrev dummy : Text
dummy = codes "-"

abbrev right : Text
right = codes "right-password"

abbrev wrong : Text
wrong = codes "guess"

abbrev locked_credential : LocalCredential
locked_credential = record alice_credential { failed_attempts = 5; locked_until = some 5000 }

abbrev locked_world : World
locked_world = record world { credentials = locked_credential ∷ [] }

locked_target : IsTarget plain_crypto dummy alice.email alice locked_credential locked_world
unfolding find equal_fold
locked_target = record {
  registered = refl;
  has_password = refl;
  password_set = refl;
  no_fault = refl;
}

target : IsTarget plain_crypto dummy alice.email alice alice_credential world
unfolding find equal_fold
target = record { registered = refl; has_password = refl; password_set = refl; no_fault = refl }

-- Alice has three failures on record: two more wrong passwords lock her account.
brute_force_locks_example :
    (login plain_crypto dummy alice.email right
      (after_all plain_crypto dummy alice.email (wrong ∷ dummy ∷ []) world)).0
    ≡ err account_locked
unfolding text_eq
brute_force_locks_example =
    brute_force_locks plain_crypto dummy (wrong ∷ dummy ∷ []) alice.email right alice
      alice_credential world target refl (refl, (refl, tt)) (omega arith) refl

login_ok_example :
    (c : LocalCredential) × IsCredentialOf plain_crypto dummy alice.email world alice c
    × (text_eq c.password_hash [] ≡ false)
    × (is_locked 1000 c.locked_until ≡ false)
    × (plain_crypto.compare right c.password_hash ≡ some true)
unfolding login login_user find_user_by_email statement find equal_fold login_credential
    find_local_credential login_with compare_password login_matched reset_failed_attempts
login_ok_example = login_ok plain_crypto dummy alice.email right world alice refl

rejection_uniform_example :
    (login plain_crypto dummy (codes "nobody@x.org") right world).1.comparisons ≡ 1
unfolding login login_user find_user_by_email statement find equal_fold reject
rejection_uniform_example =
    rejection_uniform plain_crypto dummy (codes "nobody@x.org") right world refl

confirmed_start_gate_example :
    let result = start plain_crypto site signup_site alice.email (codes "my-password") true world in
    (result.1.users ≡ world.users)
    × (result.1.identities ≡ world.identities)
    × (result.1.credentials ≡ world.credentials)
    × ((user : User) → result.0 ≢ ok (signed_in user))
confirmed_start_gate_example =
    confirmed_start_gate plain_crypto site signup_site alice.email (codes "my-password") world

-- Hashes that keep the text behind a mark, and so are never empty.
abbrev marked_compare : Text → Text → Option Bool
marked_compare password [] = none
marked_compare password (c ∷ hash) = some (text_eq password hash)

abbrev marked_crypto : Crypto
marked_crypto = record {
  hash_token = λ raw. raw;
  create_hash = λ salt password. some (b'$' ∷ password);
  compare = marked_compare;
}

some_injective : (a b : Text) → some a ≡ some b → a ≡ b
some_injective a b h = cc

marked-IsCorrect : IsCorrect marked_crypto
unfolding text_eq
marked-IsCorrect = record {
  compare-create_hash = λ salt password hash h.
      rw (← some_injective (b'$' ∷ password) hash h, text_eq_refl password) refl;
  create_hash-nonempty =
      λ salt password hash h. rw (← some_injective (b'$' ∷ password) hash h) refl;
}

-- Alice's account is locked, and her password is reset.
set_password_then_login_example :
    (login marked_crypto dummy alice.email
      (codes "new-password")
      (set_password marked_crypto 1 (codes "new-password") locked_world).1).0
    ≡ ok alice
unfolding find equal_fold set_password validate_password_strength create_hash draw store_password
    statement any
set_password_then_login_example =
    set_password_then_login marked_crypto marked-IsCorrect dummy alice.email (codes "new-password")
      locked_world alice 1 (2 ∷ 3 ∷ []) (codes "$new-password") refl refl refl refl refl
