-- ===== src/Storage/Links.antt =====
-- internal/storage/shorturl_store.go, permission_store.go, redirect_store.go and
-- migration_store.go, over short_urls.sql.go, url_permissions.sql.go and migration.sql.go.
pub mod Creation
pub mod Owners
use knives.Prelude.{
  ℕ, Text, Bool, true, false, ◌&&◌, ◌||◌, ◌==◌, ltb, if◌then◌else◌, List, [], ◌∷◌, Option, none,
  some, find, any, select, count, update, text_eq, not, order_by,
}
use knives.Permission.{Role, Grant, owner, is_owner}
use knives.World.{World, statement, fresh, transaction}
use knives.World.Effects.{
  Exec, Result, ok, err, pure, raise, or_raise, attempt, ◌>>=◌, ◌>>◌, not_found, unique_violation,
  fk_violation, code_collision, already_exists, Err,
}
use knives.Storage.Accounts.{has_id}
use knives.World.Rows.{User, ShortUrl, Status, UrlPermission, Source}

abbrev pub url_has_id : ℕ → ShortUrl → Bool
url_has_id id su = su.id == id

unfoldable pub has_code : ℕ → Text → ShortUrl → Bool
has_code domain_id code su = su.domain_id == domain_id && text_eq su.short_code code

abbrev pub is_grant : ℕ → ℕ → UrlPermission → Bool
is_grant short_url_id user_id p = p.short_url_id == short_url_id && p.user_id == user_id

abbrev pub is_owner_grant : ℕ → UrlPermission → Bool
is_owner_grant short_url_id p = p.short_url_id == short_url_id && is_owner p.role

-- INSERT INTO short_urls: the id, the status and the times are set by the statement's caller. The
-- creator is a user; the domain is the one that a process reads at its start.
unfoldable pub insert_short_url : ShortUrl → Exec World ShortUrl
insert_short_url row = statement λ w.
    let row' = record row { id = w.next_id; created_at = w.clock } in
    if any (has_code row.domain_id row.short_code) w.short_urls
    then (err unique_violation, w)
    else if any (has_id row.created_by) w.users
    then (ok row', record (fresh w) { short_urls = row' ∷ w.short_urls })
    else (err fk_violation, w)

-- The foreign keys of url_permissions.
abbrev pub can_refer : World → ℕ → ℕ → ℕ → Bool
can_refer w short_url_id user_id granted_by =
    any (url_has_id short_url_id) w.short_urls
    && any (has_id user_id) w.users
    && any (has_id granted_by) w.users

-- INSERT INTO url_permissions, under UNIQUE (short_url_id, user_id).
unfoldable pub insert_url_permission : ℕ → ℕ → Role → ℕ → Exec World (Unit {0})
insert_url_permission short_url_id user_id role granted_by = statement λ w.
    let row : UrlPermission = record {
      short_url_id = short_url_id;
      user_id = user_id;
      role = role;
      granted_by = granted_by;
      granted_at = w.clock;
    } in
    if any (is_grant short_url_id user_id) w.permissions
    then (err unique_violation, w)
    else if can_refer w short_url_id user_id granted_by
    then (ok tt, record w { permissions = row ∷ w.permissions })
    else (err fk_violation, w)

-- isUniqueViolation turns the driver's error into the port's.
abbrev pub or_collision : {A : Type 0} → Err → Result A → Exec World A
or_collision e (ok a) = pure a
or_collision e (err unique_violation) = raise e
or_collision e (err other) = raise other

create_short_url_body : ShortUrl → Exec World ShortUrl
create_short_url_body row = do
  r ← attempt (insert_short_url row)
  inserted ← or_collision code_collision r
  insert_url_permission inserted.id row.created_by owner row.created_by
  pure (record row { id = inserted.id; created_at = inserted.created_at })

unfoldable pub create_short_url : ShortUrl → Exec World ShortUrl
unfolding create_short_url_body
create_short_url row = transaction (create_short_url_body row)

unfoldable pub find_by_id : ℕ → Exec World ShortUrl
find_by_id id = statement λ w. or_raise not_found (find (url_has_id id) w.short_urls) w

unfoldable pub update_fields : ℕ → Text → Text → Text → Option ℕ → Exec World ShortUrl
update_fields id long_url title description expires_at = statement λ w.
    let set = λ (su : ShortUrl). record su {
      long_url = long_url;
      title = title;
      description = description;
      expires_at = expires_at;
    } in
    let rows = update (url_has_id id) set w.short_urls in
    or_raise not_found (find (url_has_id id) rows) (record w { short_urls = rows })

unfoldable pub set_status : ℕ → Status → Exec World (Unit {0})
set_status id status = statement λ w.
    let rows = update (url_has_id id) (λ su. record su { status = status }) w.short_urls in
    if count (url_has_id id) w.short_urls == 0
    then (err not_found, w)
    else (ok tt, record w { short_urls = rows })

abbrev pub to_grant : ℕ → Option UrlPermission → Option Grant
to_grant user_id none = none
to_grant user_id (some p) = some (record { user_id = user_id; role = p.role })

-- A missing grant is no error.
unfoldable pub find_grant : ℕ → ℕ → Exec World (Option Grant)
find_grant short_url_id user_id =
    statement λ w. (ok (to_grant user_id (find (is_grant short_url_id user_id) w.permissions)), w)

unfoldable pub count_owners : ℕ → Exec World ℕ
count_owners short_url_id =
    statement λ w. (ok (count (is_owner_grant short_url_id) w.permissions), w)

pub record GrantWithEmail : Type 0 where
  pub user_id : ℕ
  pub email : Text
  pub role : Role
  pub granted_at : ℕ

abbrev pub grant_of : UrlPermission → Option User → List GrantWithEmail → List GrantWithEmail
grant_of p none rest = rest
grant_of p (some u) rest =
    record { user_id = p.user_id; email = u.email; role = p.role; granted_at = p.granted_at } ∷ rest

-- JOIN users u ON u.id = up.user_id
unfoldable pub with_emails : List User → List UrlPermission → List GrantWithEmail
with_emails users [] = []
with_emails users (p ∷ ps) = grant_of p (find (has_id p.user_id) users) (with_emails users ps)

-- ORDER BY up.granted_at
unfoldable pub list_grants : ℕ → Exec World (List GrantWithEmail)
list_grants short_url_id = statement λ w.
    let rows = select (λ p. p.short_url_id == short_url_id) w.permissions in
    (ok (order_by (λ a b. ltb a.granted_at b.granted_at) (with_emails w.users rows)), w)

-- INSERT ... ON CONFLICT (short_url_id, user_id) DO UPDATE: of a row that is there, `granted_by`
-- alone gets a new reference.
unfoldable pub grant : ℕ → ℕ → Role → ℕ → Exec World (Unit {0})
grant short_url_id user_id role granted_by = statement λ w.
    let row : UrlPermission = record {
      short_url_id = short_url_id;
      user_id = user_id;
      role = role;
      granted_by = granted_by;
      granted_at = w.clock;
    } in
    let rows = w.permissions in
    let exists = any (is_grant short_url_id user_id) rows in
    let rows' =
      if exists then update (is_grant short_url_id user_id) (λ _. row) rows else row ∷ rows in
    if (exists && any (has_id granted_by) w.users) || can_refer w short_url_id user_id granted_by
    then (ok tt, record w { permissions = rows' })
    else (err fk_violation, w)

unfoldable pub revoke : ℕ → ℕ → Exec World (Unit {0})
revoke short_url_id user_id = statement λ w.
    let rows = select (λ p. not (is_grant short_url_id user_id p)) w.permissions in
    (ok tt, record w { permissions = rows })

abbrev pub is_active : Status → Bool
is_active Status.active = true
is_active _ = false

abbrev pub unexpired : ℕ → Option ℕ → Bool
unexpired now none = true
unexpired now (some t) = ltb now t

-- status = 'active' AND (expires_at IS NULL OR expires_at > now())
unfoldable pub is_target : ℕ → Text → ℕ → ShortUrl → Bool
is_target domain_id code now su =
    has_code domain_id code su && is_active su.status && unexpired now su.expires_at

unfoldable pub find_redirect_target : ℕ → Text → Exec World ShortUrl
find_redirect_target domain_id code =
    statement λ w. or_raise not_found (find (is_target domain_id code w.clock) w.short_urls) w

-- InsertMigratedShortURL keeps the row's own created_at.
unfoldable pub insert_migrated_row : ShortUrl → Exec World ℕ
insert_migrated_row row = statement λ w.
    let row' = record row {
      id = w.next_id;
      status = Status.active;
      source = Source.yourls_import;
    } in
    if any (has_code row.domain_id row.short_code) w.short_urls
    then (err unique_violation, w)
    else if any (has_id row.created_by) w.users
    then (ok w.next_id, record (fresh w) { short_urls = row' ∷ w.short_urls })
    else (err fk_violation, w)

unfoldable pub insert_migrated_short_url : ShortUrl → Exec World ℕ
insert_migrated_short_url row = do
  r ← attempt (insert_migrated_row row)
  or_collision already_exists r

unfoldable pub grant_owner : ℕ → ℕ → ℕ → Exec World (Unit {0})
grant_owner short_url_id user_id granted_by =
    insert_url_permission short_url_id user_id owner granted_by
