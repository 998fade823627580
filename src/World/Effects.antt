-- ===== src/World/Effects.antt =====
-- Functions that return `(T, error)` and change shared state. What was written before an error
-- stays written, so the state comes back beside the error too.
pub mod Keeps
pub mod Inversion
use knives.Prelude.{if◌then◌else◌, Option, none, some, Bool, true, false}

pub data Err : Type 0 where
  not_found token_expired token_already_used : Err
  invalid_credentials account_locked password_too_short : Err
  invalid_long_url invalid_alias alias_taken code_collision invalid_sort : Err
  attempts_exhausted invalid_settings : Err
  hidden unauthorized already_exists : Err
  session_not_found invalid_range invalid_granularity : Err
  invalid_oidc_config invalid_saml_config config_in_use : Err
  oidc_response_invalid saml_response_invalid saml_replay : Err
  ceremony_expired credential_cloned credential_registered invalid_passkey_name : Err
  cipher_error protocol_error : Err
  db_error unique_violation fk_violation entropy_error mail_error hash_error : Err

pub data Result (A : Type 0) : Type 0 where
  ok : A → Result A
  err : Err → Result A

abbrev pub Exec : Type 0 → Type 0 → Type 0
Exec S A = S → Result A × S

abbrev pub some_or : {A : Type 0} → Err → Option A → Result A
some_or e none = err e
some_or e (some a) = ok a

module _ {S A : Type 0} where
  abbrev pub pure : A → Exec S A
  pure a s = (ok a, s)

  abbrev pub raise : Err → Exec S A
  raise e s = (err e, s)

  abbrev pub gets : (S → A) → Exec S A
  gets f s = (ok (f s), s)

  -- Go's `x, err := f()` where the code goes on to look at `err`.
  abbrev pub attempt : Exec S A → Exec S (Result A)
  attempt m s = let (r, s') = m s in (ok r, s')

  -- A row that was looked for, or `notFound`.
  abbrev pub or_raise : Err → Option A → Exec S A
  or_raise e o s = (some_or e o, s)

  abbrev pub lift : Result A → Exec S A
  lift r s = (r, s)

abbrev pub modify : {S : Type 0} → (S → S) → Exec S (Unit {0})
modify f s = (ok tt, f s)

module _ {S A B : Type 0} where
  abbrev pub next : (A → Exec S B) → Result A × S → Result B × S
  next f (ok a, s) = f a s
  next f (err e, s) = (err e, s)

  infixl 5 ◌>>=◌ ◌>>◌
  abbrev pub ◌>>=◌ : Exec S A → (A → Exec S B) → Exec S B
  ◌>>=◌ m f s = next f (m s)

  abbrev pub ◌>>◌ : Exec S A → Exec S B → Exec S B
  ◌>>◌ m n s = next (λ _. n) (m s)

abbrev pub guard : {S : Type 0} → Bool → Err → Exec S (Unit {0})
guard b e s = (if b then ok tt else err e, s)

abbrev pub is_not_found : Err → Bool
is_not_found not_found = true
is_not_found _ = false
