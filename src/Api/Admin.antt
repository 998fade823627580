-- ===== src/Api/Admin.antt =====
-- cmd/api/handlers_admin.go: the settings of the logins, and the users.
pub mod Caller
pub mod Partial
use knives.Prelude.{
  ℕ, Text, codes, text_eq, String, Bool, true, false, ◌&&◌, ◌==◌, not, if◌then◌else◌, leb, List, [],
  ◌∷◌, map, Option, none, some,
}
use knives.Prelude.Int.{ℤ, pos, negsuc}
use knives.Permission.{Subject}
use knives.World.{World}
use knives.World.Effects.{Err, not_found}
use knives.World.Rows.{User, UserStatus, AuthSettings, AuditLogEntry, MetaField, word}
use knives.Storage.Accounts.{
  find_auth_settings, update_auth_settings, record_audit_log, list_users, find_admin_user_by_id,
  set_system_admin, set_user_status,
}
use knives.Auth.Identity.{field}
use knives.Api.{
  Reply, reply, error, Handler, not_found_reply, internal_error, send, try, try_logged,
}
use knives.Api.ShortUrls.{read_error}

unfoldable pub handle_get_auth_settings : Handler AuthSettings
handle_get_auth_settings =
    try find_auth_settings (λ _. internal_error) λ settings. send (reply 200 settings)

-- `none` is a field that the request leaves out.
pub record PatchAuthSettingsRequest : Type 0 where
  pub local_auth_enabled : Option Bool
  pub self_signup_enabled : Option Bool
  pub require_email_confirmation : Option Bool
  pub require_reauth : Option Bool

abbrev pub or_keep : Bool → Option Bool → Bool
or_keep b none = b
or_keep b (some c) = c

abbrev pub merge_settings : AuthSettings → PatchAuthSettingsRequest → AuthSettings
merge_settings s req = record {
  local_auth_enabled = or_keep s.local_auth_enabled req.local_auth_enabled;
  self_signup_enabled = or_keep s.self_signup_enabled req.self_signup_enabled;
  require_email_confirmation = or_keep s.require_email_confirmation req.require_email_confirmation;
  require_reauth = or_keep s.require_reauth req.require_reauth;
}

abbrev pub settings_updated : Subject → AuditLogEntry
settings_updated subject = record {
  actor_user_id = some subject.user_id;
  action = "admin.auth_settings_updated";
  target_type = "auth_settings";
  target_id = none;
  metadata = [];
}

-- A failure to write the audit log is logged, and the request goes on.
unfoldable pub handle_patch_auth_settings :
    Option Subject → Option PatchAuthSettingsRequest → Handler AuthSettings
handle_patch_auth_settings none body = send (error 401 "unauthorized")
handle_patch_auth_settings (some subject) none = send (error 400 "invalid request body")
handle_patch_auth_settings (some subject) (some req) =
    try find_auth_settings (λ _. internal_error)
      λ current.
        let settings = merge_settings current req in
        try (update_auth_settings settings) (λ _. internal_error)
          λ _. try_logged (record_audit_log (settings_updated subject)) (send (reply 200 settings))

pub record AdminUserResponse : Type 0 where
  pub id : ℕ
  pub email : Text
  pub email_verified : Bool
  pub is_system_admin : Bool
  pub status : UserStatus
  pub created_at : ℕ

abbrev pub to_admin_user_response : User → AdminUserResponse
to_admin_user_response u = record {
  id = u.id;
  email = u.email;
  email_verified = u.email_verified;
  is_system_admin = u.is_system_admin;
  status = u.status;
  created_at = u.created_at;
}

abbrev pub page_limit : ℤ → ℕ
page_limit (negsuc n) = 50
page_limit (pos n) = if leb 1 n && leb n 200 then n else 50

-- The two numbers of the query, 0 where it has none or does not hold a number.
unfoldable pub handle_list_users : ℤ → ℤ → Handler (List AdminUserResponse)
handle_list_users limit offset =
    try (list_users (page_limit limit) offset) (λ _. internal_error)
      λ users. send (reply 200 (map to_admin_user_response users))

pub record PatchUserRequest : Type 0 where
  pub is_system_admin : Option Bool
  pub status : Option Text

abbrev pub status_name : UserStatus → String
status_name UserStatus.active = "active"
status_name UserStatus.suspended = "suspended"

abbrev pub user_status : Text → Option UserStatus
user_status s =
    if text_eq s (codes "active")
    then some UserStatus.active
    else if text_eq s (codes "suspended")
    then some UserStatus.suspended
    else none

abbrev pub is_suspended : UserStatus → Bool
is_suspended UserStatus.suspended = true
is_suspended UserStatus.active = false

abbrev pub about_user : Subject → ℕ → String → List MetaField → AuditLogEntry
about_user subject id action metadata = record {
  actor_user_id = some subject.user_id;
  action = action;
  target_type = "user";
  target_id = some id;
  metadata = metadata;
}

-- The first half of the handler: the right of an administrator, and then the rest.
unfoldable pub patch_admin :
    Subject
    → ℕ
    → User
    → Option Bool
    → (User → Handler AdminUserResponse)
    → Handler AdminUserResponse
patch_admin subject id target none k = k target
patch_admin subject id target (some is_admin) k =
    if id == subject.user_id && not is_admin
    then send (error 409 "cannot revoke your own system_admin status")
    else try (set_system_admin id is_admin) (λ _. internal_error)
        λ _.
          try_logged
            (record_audit_log (
              about_user subject id
                (if is_admin then "admin.system_admin_granted" else "admin.system_admin_revoked")
                []))
            (k (record target { is_system_admin = is_admin }))

abbrev pub with_status : Subject → ℕ → User → Option UserStatus → Handler AdminUserResponse
with_status subject id target none = send (error 400 "status must be \"active\" or \"suspended\"")
with_status subject id target (some status) =
    if id == subject.user_id && is_suspended status
    then send (error 409 "cannot suspend your own account")
    else try (set_user_status id status) (λ _. internal_error)
        λ _.
          try_logged
            (record_audit_log (
              about_user subject id "admin.user_status_changed"
                (field "status" (word (status_name status)) ∷ [])))
            (send (reply 200 (to_admin_user_response (record target { status = status }))))

-- The second half: the status.
unfoldable pub patch_status : Subject → ℕ → Option Text → User → Handler AdminUserResponse
patch_status subject id none target = send (reply 200 (to_admin_user_response target))
patch_status subject id (some status) target = with_status subject id target (user_status status)

unfoldable pub handle_patch_user :
    Option Subject → Option ℕ → Option PatchUserRequest → Handler AdminUserResponse
handle_patch_user none id body = send (error 401 "unauthorized")
handle_patch_user (some subject) none body = send not_found_reply
handle_patch_user (some subject) (some id) none = send (error 400 "invalid request body")
handle_patch_user (some subject) (some id) (some req) =
    try (find_admin_user_by_id id) read_error λ target.
      patch_admin subject id target req.is_system_admin (patch_status subject id req.status)
