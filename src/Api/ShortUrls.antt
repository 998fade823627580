-- ===== src/Api/ShortUrls.antt =====
-- cmd/api/handlers_shorturl.go: creating, reading, editing and disabling one short URL.
pub mod Concealment
pub mod Deletion
pub mod Listing
pub mod Listed
use knives.Prelude.{ℕ, Text, Bool, not, if◌then◌else◌, [], Option, none, some}
use knives.Permission.{Role, owner, Grant, Subject, Access, resolve}
use knives.World.{World}
use knives.World.Effects.{Err, not_found, invalid_long_url, invalid_alias, alias_taken}
use knives.World.Rows.{ShortUrl, Status, AuditLogEntry}
use knives.Storage.Accounts.{record_audit_log}
use knives.Storage.Links.{find_by_id}
use knives.Cache.{invalidate}
use knives.ShortUrls.{Url, CreateInput, UpdateInput, create, update, disable}
use knives.Api.{
  Reply, reply, error, no_content, Handler, not_found_reply, internal_error, send, try, try_logged,
}
use knives.Api.Access.{Resolved, resolve_access, access_error}

pub record CreateRequest : Type 0 where
  pub long_url : Text
  pub custom_alias : Text
  pub title : Text
  pub description : Text
  pub expires_at : Option ℕ

pub record ShortUrlResponse : Type 0 where
  pub id : ℕ
  pub short_code : Text
  pub long_url : Text
  pub title : Text
  pub description : Text
  pub status : Status
  pub expires_at : Option ℕ
  pub created_at : ℕ
  pub your_role : Option Role
  pub can_edit : Bool
  pub can_delete : Bool
  pub can_manage_permissions : Bool

abbrev pub role_of : Option Grant → Option Role
role_of none = none
role_of (some g) = some g.role

unfoldable pub to_response : ShortUrl → Access → Option Grant → ShortUrlResponse
to_response su access grant = record {
  id = su.id;
  short_code = su.short_code;
  long_url = su.long_url;
  title = su.title;
  description = su.description;
  status = su.status;
  expires_at = su.expires_at;
  created_at = su.created_at;
  your_role = role_of grant;
  can_edit = access.can_edit;
  can_delete = access.can_delete;
  can_manage_permissions = access.can_manage_permissions;
}

abbrev pub create_error : Err → Reply ShortUrlResponse
create_error invalid_long_url = error 400 "shorturl: long_url must be an absolute http(s) URL"
create_error invalid_alias =
    error 400 "shorturl: alias must be 1-64 characters of letters, digits, '-', '_' or '.'"
create_error alias_taken = error 409 "shorturl: alias is already in use for this domain"
create_error _ = internal_error

abbrev pub to_create_input : ℕ → Subject → CreateRequest → CreateInput
to_create_input domain_id subject req = record {
  domain_id = domain_id;
  custom_alias = req.custom_alias;
  long_url = req.long_url;
  title = req.title;
  description = req.description;
  created_by = subject.user_id;
  expires_at = req.expires_at;
}

abbrev pub update_error : Err → Reply ShortUrlResponse
update_error invalid_long_url = error 400 "shorturl: long_url must be an absolute http(s) URL"
update_error not_found = not_found_reply
update_error _ = internal_error

abbrev pub read_error : {B : Type 0} → Err → Reply B
read_error not_found = not_found_reply
read_error _ = internal_error

-- A failure to purge the cache is logged, and the request goes on.
unfoldable pub invalidate_short_url_cache : {B : Type 0} → ShortUrl → Handler B → Handler B
invalidate_short_url_cache su k = try_logged (invalidate su.domain_id su.short_code) k

module _ (parse_url : Text → Option Url) where
  unfoldable pub handle_create_short_url :
      ℕ → Option Subject → Option CreateRequest → Handler ShortUrlResponse
  handle_create_short_url domain_id none body = send (error 401 "unauthorized")
  handle_create_short_url domain_id (some subject) none = send (error 400 "invalid request body")
  handle_create_short_url domain_id (some subject) (some req) =
      try (create parse_url (to_create_input domain_id subject req)) create_error λ su.
        let owner_grant : Grant = record { user_id = subject.user_id; role = owner } in
        send (reply 201 (to_response su (resolve subject (some owner_grant)) (some owner_grant)))

  unfoldable pub update_decoded : Resolved → Option UpdateInput → Handler ShortUrlResponse
  update_decoded r none = send (error 400 "invalid request body")
  update_decoded r (some req) =
      try (update parse_url r.id req) update_error
        λ su. invalidate_short_url_cache su (send (reply 200 (to_response su r.access r.grant)))

  unfoldable pub handle_update_short_url :
      Option Subject → Option ℕ → Option UpdateInput → Handler ShortUrlResponse
  handle_update_short_url subject id body =
      try (resolve_access subject id) access_error
        λ r. if not r.access.can_edit then send not_found_reply else update_decoded r body

abbrev pub admin_view : Subject → ℕ → AuditLogEntry
admin_view subject id = record {
  actor_user_id = some subject.user_id;
  action = "stats.admin_view";
  target_type = "short_url";
  target_id = some id;
  metadata = [];
}

unfoldable pub audit_override : {B : Type 0} → Resolved → Handler B → Handler B
audit_override r k =
    if r.access.admin_override
    then try_logged (record_audit_log (admin_view r.subject r.id)) k
    else k

unfoldable pub handle_get_short_url : Option Subject → Option ℕ → Handler ShortUrlResponse
handle_get_short_url subject id = try (resolve_access subject id) access_error λ r.
    try (find_by_id r.id) read_error
      λ su. audit_override r (send (reply 200 (to_response su r.access r.grant)))

unfoldable pub delete_resolved : Resolved → Handler (Unit {0})
delete_resolved r = try (find_by_id r.id) read_error λ su.
    try (disable r.id) (λ _. internal_error) λ _. invalidate_short_url_cache su (send no_content)

unfoldable pub handle_delete_short_url : Option Subject → Option ℕ → Handler (Unit {0})
handle_delete_short_url subject id =
    try (resolve_access subject id) access_error
      λ r. if not r.access.can_delete then send not_found_reply else delete_resolved r
