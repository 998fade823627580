-- ===== src/Storage/Passkeys.antt =====
-- internal/storage/webauthn_credential_store.go over webauthn_credentials.sql.go.
use knives.Prelude.{
  ℕ, ◌%◌, ◌^◌, Text, text_eq, Bool, ◌&&◌, ◌==◌, ltb, not, if◌then◌else◌, List, ◌∷◌, map, Option,
  none, some, find, any, count, select, update, order_by,
}
use knives.World.{World, statement, fresh}
use knives.World.Effects.{Exec, ok, err, or_raise, not_found, fk_violation, credential_registered}
use knives.World.Logins.{Passkey}
use knives.Storage.Accounts.{has_id}

-- id = $1 AND user_id = $2
abbrev pub is_own : ℕ → ℕ → Passkey → Bool
is_own id user_id p = p.id == id && p.user_id == user_id

abbrev pub has_credential_id : Text → Passkey → Bool
has_credential_id credential_id p = text_eq p.credential_id credential_id

-- `uint32(row.SignCount)`
abbrev pub to_domain_passkey : Passkey → Passkey
to_domain_passkey p = record p { sign_count = p.sign_count % 2 ^ 32 }

-- ORDER BY created_at DESC
abbrev pub is_newer_passkey : Passkey → Passkey → Bool
is_newer_passkey p q = ltb q.created_at p.created_at

unfoldable pub find_passkeys_by_user_id : ℕ → Exec World (List Passkey)
find_passkeys_by_user_id user_id = statement λ w.
    let rows = select (λ p. p.user_id == user_id) w.passkeys in
    (ok (map to_domain_passkey (order_by is_newer_passkey rows)), w)

-- What a new row is given; the database sets the rest.
pub record NewPasskey : Type 0 where
  pub user_id : ℕ
  pub credential_id : Text
  pub public_key : Text
  pub sign_count : ℕ
  pub transports : List Text
  pub name : Text
  pub user_present : Bool
  pub user_verified : Bool
  pub backup_eligible : Bool
  pub backup_state : Bool

abbrev pub passkey_row : NewPasskey → World → Passkey
passkey_row n w = record {
  id = w.next_id;
  user_id = n.user_id;
  credential_id = n.credential_id;
  public_key = n.public_key;
  sign_count = n.sign_count;
  transports = n.transports;
  name = n.name;
  created_at = w.clock;
  last_used_at = none;
  user_present = n.user_present;
  user_verified = n.user_verified;
  backup_eligible = n.backup_eligible;
  backup_state = n.backup_state;
}

-- UNIQUE (credential_id), and the foreign key to the user.
unfoldable pub create_passkey : NewPasskey → Exec World (Unit {0})
create_passkey n = statement λ w.
    if any (has_credential_id n.credential_id) w.passkeys
    then (err credential_registered, w)
    else if any (has_id n.user_id) w.users
    then (ok tt, record (fresh w) { passkeys = passkey_row n w ∷ w.passkeys })
    else (err fk_violation, w)

abbrev pub used_passkey : ℕ → Bool → ℕ → Passkey → Passkey
used_passkey sign_count backup_state now p = record p {
  sign_count = sign_count;
  backup_state = backup_state;
  last_used_at = some now;
}

unfoldable pub update_passkey_sign_count : Text → ℕ → Bool → Exec World (Unit {0})
update_passkey_sign_count credential_id sign_count backup_state = statement λ w.
    let rows =
      update (has_credential_id credential_id) (used_passkey sign_count backup_state w.clock)
        w.passkeys in
    (ok tt, record w { passkeys = rows })

abbrev pub renamed : Option Passkey → Option Passkey
renamed none = none
renamed (some p) = some (to_domain_passkey p)

unfoldable pub update_passkey_name : ℕ → ℕ → Text → Exec World Passkey
update_passkey_name id user_id name = statement λ w.
    let rows = update (is_own id user_id) (λ p. record p { name = name }) w.passkeys in
    or_raise not_found (renamed (find (is_own id user_id) rows)) (record w { passkeys = rows })

unfoldable pub delete_passkey : ℕ → ℕ → Exec World (Unit {0})
delete_passkey id user_id = statement λ w.
    if count (is_own id user_id) w.passkeys == 0
    then (err not_found, w)
    else (ok tt, record w { passkeys = select (λ p. not (is_own id user_id p)) w.passkeys })
