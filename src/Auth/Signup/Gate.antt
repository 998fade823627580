-- ===== src/Auth/Signup/Gate.antt =====
-- What local self-signup may change before the submitted email is proven, and what it does to an
-- account that exists.
use knives.Prelude.{
  ℕ, ◌≡◌, ◌≢◌, Text, true, false, ltb, length, List, [], ◌∷◌, none, some, find, equal_fold, arith,
  any, Bool-cases, inl, inr, refl,
}
use knives.World.{World, raw_token, draw, statement}
use knives.World.Effects.{Result, ok, err, next}
use knives.World.Rows.{User, AuthIdentity, local}
use knives.Storage.Accounts.{
  has_key, has_id, find_auth_identity, touch_auth_identity, find_user_by_id, send_mail,
}
use knives.Storage.Credentials.{
  set_password as store_password, upsert_password, create_pending_signup,
}
use knives.Auth.Crypto.{Crypto}
use knives.Auth.Identity.{Resolver, generate_token, resolve, resolve_known, resolve_by_identity}
use knives.Auth.Local.{validate_password_strength, create_hash, min_password_length}
use knives.Auth.Signup.{
  SignupOutcome, signed_in, LocalSignup, start, start_pending_verification, resolve_and_attach,
  finish_attach,
}

module _ (crypto : Crypto) (r : Resolver) (ls : LocalSignup) where
  -- Nobody is signed in, and the accounts are as before.
  abbrev IsHeld : World → Result SignupOutcome × World → Type 0
  IsHeld w result =
      (result.1.users ≡ w.users)
      × (result.1.identities ≡ w.identities)
      × (result.1.credentials ≡ w.credentials)
      × ((user : User) → result.0 ≢ ok (signed_in user))

  start_pending_verification-IsHeld :
      (email hash : Text) (w : World)
      → IsHeld w (start_pending_verification crypto r ls email hash w)
  unfolding start_pending_verification generate_token raw_token create_pending_signup send_mail
      statement
  start_pending_verification-IsHeld email hash w = ground arith

  create_hash_frame :
      (password : Text) (w : World)
      → let v = (create_hash crypto password w).1 in
        (v.users ≡ w.users) × (v.identities ≡ w.identities) × (v.credentials ≡ w.credentials)
  unfolding create_hash draw
  create_hash_frame password w = ground arith

  start_hashed :
      (email : Text) (w v : World) (h : Result Text)
      → (v.users ≡ w.users) × (v.identities ≡ w.identities) × (v.credentials ≡ w.credentials)
      → IsHeld w (next (λ hash. start_pending_verification crypto r ls email hash) (h, v))
  start_hashed email w v (ok hash) same =
      ground (arith, start_pending_verification-IsHeld email hash v)
  start_hashed email w v (err e) same = ground arith

  -- With the email confirmation required, starting a signup creates and changes no user, identity
  -- or credential and signs nobody in, whatever calls fail.
  pub confirmed_start_gate :
      (email password : Text) (w : World)
      → let result = start crypto r ls email password true w in
        (result.1.users ≡ w.users)
        × (result.1.identities ≡ w.identities)
        × (result.1.credentials ≡ w.credentials)
        × ((user : User) → result.0 ≢ ok (signed_in user))
  unfolding start validate_password_strength
  confirmed_start_gate email password w =
      let (h, v) = create_hash crypto password w in
      elim (Bool-cases (ltb (length password) min_password_length)) [
        | inl short ↦ rw short (refl, refl, refl, λ user. cc)
        | inr long ↦ rw long (start_hashed email w v h (create_hash_frame password w))
      ]

  -- With the email confirmation switched off, where no call fails and the password is long enough,
  -- a signup with the email of an existing local account signs the submitter in as that account's
  -- user and replaces its password by the submitted one.
  unconfirmed_start_takes_over :
      (email password hash : Text) (salt : ℕ) (salts : List ℕ) (w : World) (i : AuthIdentity)
      (user : User)
      → w.faults ≡ []
      → w.draws ≡ salt ∷ salts
      → crypto.create_hash salt password ≡ some hash
      → ltb (length password) min_password_length ≡ false
      → find (has_key local none email) w.identities ≡ some i
      → equal_fold i.email_at_link email ≡ true
      → find (has_id i.user_id) w.users ≡ some user
      → any (has_id user.id) w.users ≡ true
      → let result = start crypto r ls email password false w in
        (result.0 ≡ ok (signed_in user))
        × (result.1.credentials ≡ upsert_password user.id hash w.credentials)
  unfolding start validate_password_strength create_hash draw resolve_and_attach finish_attach
      resolve resolve_by_identity resolve_known find_auth_identity touch_auth_identity
      find_user_by_id store_password statement
  unconfirmed_start_takes_over email password hash salt salts w i user a b c d e f g h =
      ground arith
