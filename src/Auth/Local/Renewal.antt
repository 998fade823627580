-- ===== src/Auth/Local/Renewal.antt =====
-- A password that was set, at the next login.
use knives.Prelude.{
  ℕ, ◌≡◌, refl, Text, text_eq, true, false, List, [], ◌∷◌, none, some, find, any, update, ==_refl,
  Bool-cases, inl, inr, arith,
}
use knives.World.{World, draw, statement}
use knives.World.Effects.{ok}
use knives.World.Rows.{User, LocalCredential}
use knives.Storage.Accounts.{has_email, find_user_by_email}
use knives.Storage.Credentials.{
  of_user, upsert_password, find_local_credential, set_password as store_password,
}
use knives.Auth.Crypto.{Crypto, IsCorrect}
use knives.Auth.Local.{
  set_password, validate_password_strength, create_hash, login, login_user, login_credential,
  login_with, login_matched, compare_password,
}

abbrev renewed : ℕ → Text → LocalCredential
renewed user_id hash = record {
  user_id = user_id;
  password_hash = hash;
  failed_attempts = 0;
  locked_until = none;
}

find-renewed :
    (user_id : ℕ) (hash : Text) (rows : List LocalCredential)
    → any (of_user user_id) rows ≡ true
    → find (of_user user_id) (update (of_user user_id) (λ _. renewed user_id hash) rows)
      ≡ some (renewed user_id hash)
unfolding find any update
find-renewed user_id hash [] h = cc
find-renewed user_id hash (c ∷ rows) h =
    ground (arith, find-renewed user_id hash rows, ==_refl user_id)

-- The credential that an upsert writes is the one that is found.
find-upsert_password :
    (user_id : ℕ) (hash : Text) (rows : List LocalCredential)
    → find (of_user user_id) (upsert_password user_id hash rows) ≡ some (renewed user_id hash)
unfolding find upsert_password
find-upsert_password user_id hash rows = elim (Bool-cases (any (of_user user_id) rows)) [
  | inl e ↦ rw e (find-renewed user_id hash rows e)
  | inr e ↦ rw (e, ==_refl user_id) refl
]

module _ (crypto : Crypto) (laws : IsCorrect crypto) (dummy_hash : Text) where
  -- What a setting of a password that succeeds leaves behind.
  set_password_ok :
      (user_id : ℕ) (password : Text) (w : World) (salt : ℕ) (salts : List ℕ) (hash : Text)
      → w.faults ≡ []
      → w.draws ≡ salt ∷ salts
      → crypto.create_hash salt password ≡ some hash
      → (set_password crypto user_id password w).0 ≡ ok tt
      → let w' = (set_password crypto user_id password w).1 in
        (w'.users ≡ w.users)
        × (w'.faults ≡ [])
        × (w'.credentials ≡ upsert_password user_id hash w.credentials)
  unfolding set_password validate_password_strength create_hash draw store_password statement
  set_password_ok user_id password w salt salts hash clear drawn hashed h = ground arith

  renewed-login :
      (email password : Text) (w : World) (user : User) (hash : Text)
      → w.faults ≡ []
      → find (has_email email) w.users ≡ some user
      → find (of_user user.id) w.credentials ≡ some (renewed user.id hash)
      → text_eq hash [] ≡ false
      → crypto.compare password hash ≡ some true
      → (login crypto dummy_hash email password w).0 ≡ ok user
  unfolding login login_user login_credential login_with login_matched compare_password
      find_user_by_email find_local_credential statement
  renewed-login email password w user hash clear known row present right =
      rw (clear, known) (rw row (rw (present, right) refl))

  -- After `SetPassword` has succeeded for a registered user, a login with the user's email and
  -- that password succeeds, even if the account was locked before. No call fails, and argon2id
  -- matches a password with each hash that was created from it and creates no empty hash.
  pub set_password_then_login :
      (email password : Text) (w : World) (user : User) (salt : ℕ) (salts : List ℕ) (hash : Text)
      → w.faults ≡ []
      → w.draws ≡ salt ∷ salts
      → crypto.create_hash salt password ≡ some hash
      → find (has_email email) w.users ≡ some user
      → (set_password crypto user.id password w).0 ≡ ok tt
      → (login crypto dummy_hash email password (set_password crypto user.id password w).1).0
        ≡ ok user
  set_password_then_login email password w user salt salts hash clear drawn hashed known done =
      let w' = (set_password crypto user.id password w).1 in
      let (users, clear', rows) =
        set_password_ok user.id password w salt salts hash clear drawn hashed done in
      renewed-login email password w' user hash clear' (rw users known)
        (rw rows (find-upsert_password user.id hash w.credentials))
        (laws.create_hash-nonempty salt password hash hashed)
        (laws.compare-create_hash salt password hash hashed)
