-- ===== src/Storage/Accounts.antt =====
-- internal/storage/auth_store.go over users.sql.go, auth_identities.sql.go,
-- pending_link_requests.sql.go, audit_log.sql.go and auth_settings.sql.go, with the unique and
-- foreign keys of db/migrations/0001_init.up.sql.
pub mod Cases
use knives.Prelude.{
  ℕ, Text, Bool, true, false, ◌&&◌, ◌==◌, ltb, if◌then◌else◌, opt_eq, List, [], ◌∷◌, Option, none,
  some, find, any, select, count, update, order_by, text_eq, equal_fold, not, ◌||◌, take, drop,
}
use knives.Prelude.Int.{ℤ, pos, negsuc, int32}
use knives.World.{World, statement, fresh, failing, called}
use knives.World.Effects.{
  Exec, Result, ok, err, or_raise, db_error, not_found, unique_violation, fk_violation, mail_error,
  Err,
}
use knives.World.Rows.{
  User, UserStatus, ProviderType, local, saml, oidc, AuthIdentity, PendingLinkRequest,
  AuditLogEntry, Mail, AuthSettings,
}

abbrev pub provider_eq : ProviderType → ProviderType → Bool
provider_eq local local = true
provider_eq saml saml = true
provider_eq oidc oidc = true
provider_eq _ _ = false

abbrev pub has_id : ℕ → User → Bool
has_id id u = u.id == id

abbrev pub has_email : Text → User → Bool
has_email email u = equal_fold u.email email

-- (provider_type, provider_config_id, subject), with NULL not distinct from NULL.
unfoldable pub has_key : ProviderType → Option ℕ → Text → AuthIdentity → Bool
has_key provider_type config subject i =
    provider_eq i.provider_type provider_type
    && opt_eq i.provider_config_id config
    && text_eq i.subject subject

abbrev pub is_some : {A : Type 0} → Option A → Bool
is_some none = false
is_some (some a) = true

-- UNIQUE (provider_type, provider_config_id, subject): a NULL is distinct from every NULL.
unfoldable pub key_taken : ProviderType → Option ℕ → Text → List AuthIdentity → Bool
key_taken provider_type config subject rows =
    is_some config && any (has_key provider_type config subject) rows

unfoldable pub find_auth_identity : ProviderType → Option ℕ → Text → Exec World AuthIdentity
find_auth_identity provider_type config subject =
    statement λ w. or_raise not_found (find (has_key provider_type config subject) w.identities) w

unfoldable pub find_user_by_email : Text → Exec World User
find_user_by_email email = statement λ w. or_raise not_found (find (has_email email) w.users) w

unfoldable pub find_user_by_id : ℕ → Exec World User
find_user_by_id id = statement λ w. or_raise not_found (find (has_id id) w.users) w

unfoldable pub count_auth_identities_for_user : ℕ → Exec World ℕ
count_auth_identities_for_user user_id =
    statement λ w. (ok (count (λ i. i.user_id == user_id) w.identities), w)

abbrev pub new_user : Text → Bool → World → User
new_user email email_verified w = record {
  id = w.next_id;
  email = email;
  email_verified = email_verified;
  is_system_admin = false;
  status = UserStatus.active;
  created_at = w.clock;
}

unfoldable pub create_user : Text → Bool → Exec World User
create_user email email_verified = statement λ w.
    let row = new_user email email_verified w in
    if any (has_email email) w.users
    then (err unique_violation, w)
    else (ok row, record (fresh w) { users = row ∷ w.users })

unfoldable pub create_auth_identity :
    ℕ → ProviderType → Option ℕ → Text → Text → Bool → Exec World AuthIdentity
create_auth_identity user_id provider_type config subject email_at_link verified = statement λ w.
    let row : AuthIdentity = record {
      id = w.next_id;
      user_id = user_id;
      provider_type = provider_type;
      provider_config_id = config;
      subject = subject;
      email_at_link = email_at_link;
      verified = verified;
      last_used_at = none;
    } in
    if key_taken provider_type config subject w.identities
    then (err unique_violation, w)
    else if any (has_id user_id) w.users
    then (ok row, record (fresh w) { identities = row ∷ w.identities })
    else (err fk_violation, w)

unfoldable pub touch_auth_identity : ℕ → ℕ → Exec World (Unit {0})
touch_auth_identity id at = statement λ w.
    let rows = update (λ i. i.id == id) (λ i. record i { last_used_at = some at }) w.identities in
    (ok tt, record w { identities = rows })

unfoldable pub create_pending_link_request :
    ℕ → ProviderType → Option ℕ → Text → Text → ℕ → Exec World ℕ
create_pending_link_request existing_user_id provider_type config subject token_hash expires_at =
    statement λ w.
      let row : PendingLinkRequest = record {
        id = w.next_id;
        existing_user_id = existing_user_id;
        provider_type = provider_type;
        provider_config_id = config;
        subject = subject;
        token_hash = token_hash;
        expires_at = expires_at;
        confirmed_at = none;
      } in
      if any (λ p. text_eq p.token_hash token_hash) w.pending_links
      then (err unique_violation, w)
      else if any (has_id existing_user_id) w.users
      then (ok row.id, record (fresh w) { pending_links = row ∷ w.pending_links })
      else (err fk_violation, w)

unfoldable pub find_pending_link_request_by_token_hash : Text → Exec World PendingLinkRequest
find_pending_link_request_by_token_hash token_hash =
    statement
      λ w. or_raise not_found (find (λ p. text_eq p.token_hash token_hash) w.pending_links) w

unfoldable pub find_pending_link_request_by_id : ℕ → Exec World PendingLinkRequest
find_pending_link_request_by_id id =
    statement λ w. or_raise not_found (find (λ p. p.id == id) w.pending_links) w

-- confirmed_at IS NULL AND expires_at > now()
abbrev pub is_open_for : ℕ → ℕ → PendingLinkRequest → Bool
is_open_for user_id now p =
    p.existing_user_id == user_id && not (is_some p.confirmed_at) && ltb now p.expires_at

unfoldable pub find_pending_link_requests_for_user : ℕ → Exec World (List PendingLinkRequest)
find_pending_link_requests_for_user user_id = statement λ w.
    let rows = select (is_open_for user_id w.clock) w.pending_links in
    (ok (order_by (λ p q. ltb p.expires_at q.expires_at) rows), w)

unfoldable pub confirm_pending_link_request : ℕ → ℕ → Exec World (Unit {0})
confirm_pending_link_request id at = statement λ w.
    let rows =
      update (λ p. p.id == id) (λ p. record p { confirmed_at = some at }) w.pending_links in
    (ok tt, record w { pending_links = rows })

unfoldable pub record_audit_log : AuditLogEntry → Exec World (Unit {0})
record_audit_log entry = statement λ w. (ok tt, record w { audit_log = entry ∷ w.audit_log })

unfoldable pub set_system_admin : ℕ → Bool → Exec World (Unit {0})
set_system_admin user_id is_admin = statement λ w.
    let rows = update (has_id user_id) (λ u. record u { is_system_admin = is_admin }) w.users in
    if count (has_id user_id) w.users == 0
    then (err not_found, w)
    else (ok tt, record w { users = rows })

unfoldable pub set_user_status : ℕ → UserStatus → Exec World (Unit {0})
set_user_status user_id status = statement λ w.
    let rows = update (has_id user_id) (λ u. record u { status = status }) w.users in
    if count (has_id user_id) w.users == 0
    then (err not_found, w)
    else (ok tt, record w { users = rows })

-- created_at DESC
abbrev pub is_newer : User → User → Bool
is_newer u v = ltb v.created_at u.created_at

-- A negative OFFSET is the statement's error.
abbrev pub page_of_users : ℕ → ℤ → List User → Result (List User)
page_of_users limit (pos offset) rows = ok (take limit (drop offset (order_by is_newer rows)))
page_of_users limit (negsuc n) rows = err db_error

unfoldable pub list_users : ℕ → ℤ → Exec World (List User)
list_users limit offset = statement λ w. (page_of_users limit (int32 offset) w.users, w)

unfoldable pub find_admin_user_by_id : ℕ → Exec World User
find_admin_user_by_id id = statement λ w. or_raise not_found (find (has_id id) w.users) w

abbrev pub admin_flag : Option User → Option Bool
admin_flag none = none
admin_flag (some u) = some u.is_system_admin

unfoldable pub find_is_system_admin : ℕ → Exec World Bool
find_is_system_admin user_id =
    statement λ w. or_raise not_found (admin_flag (find (has_id user_id) w.users)) w

unfoldable pub find_auth_settings : Exec World AuthSettings
find_auth_settings = statement λ w. (ok w.auth_settings, w)

unfoldable pub update_auth_settings : AuthSettings → Exec World (Unit {0})
update_auth_settings settings = statement λ w. (ok tt, record w { auth_settings = settings })

-- The SMTP server takes the mail, or the call fails.
unfoldable pub send_mail : Mail → Exec World (Unit {0})
send_mail mail w =
    if failing w.faults
    then (err mail_error, called w)
    else (ok tt, record (called w) { outbox = mail ∷ w.outbox })
