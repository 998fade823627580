-- ===== src/Api/Permissions.antt =====
-- cmd/api/handlers_permissions.go: who may see and edit a short URL.
pub mod Owners
pub mod Gate
use knives.Prelude.{
  ℕ, Text, trim_space, Bool, true, false, not, ◌||◌, if◌then◌else◌, Option, none, some, List, map,
}
use knives.Permission.{Role, owner, editor, viewer, other, Grant, Subject, would_orphan_ownership}
use knives.World.{World}
use knives.World.Effects.{Exec, Result, ok, err, Err, pure, raise, attempt, ◌>>=◌, not_found}
use knives.World.Rows.{User}
use knives.Storage.Accounts.{find_user_by_email, create_user}
use knives.Storage.Links.{GrantWithEmail, list_grants, find_grant, count_owners, grant, revoke}
use knives.Api.{
  Reply, reply, error, no_content, Handler, not_found_reply, internal_error, send, try,
}
use knives.Api.Access.{Resolved, resolve_access, access_error}

pub record GrantRequest : Type 0 where
  pub email : Text
  pub role : Role

-- `granted_at` is Go's zero time where it is `none`.
pub record PermissionResponse : Type 0 where
  pub user_id : ℕ
  pub email : Text
  pub role : Role
  pub granted_at : Option ℕ

abbrev pub to_permission_response : GrantWithEmail → PermissionResponse
to_permission_response g = record {
  user_id = g.user_id;
  email = g.email;
  role = g.role;
  granted_at = some g.granted_at;
}

unfoldable pub handle_list_url_permissions :
    Option Subject → Option ℕ → Handler (List PermissionResponse)
handle_list_url_permissions subject id = try (resolve_access subject id) access_error λ r.
    if not r.access.can_manage_permissions
    then send not_found_reply
    else try (list_grants r.id) (λ _. internal_error)
        λ grants. send (reply 200 (map to_permission_response grants))

-- role != RoleEditor && role != RoleViewer
abbrev pub is_grantable : Role → Bool
is_grantable editor = true
is_grantable viewer = true
is_grantable _ = false

abbrev pub or_create : Text → Result User → Exec World User
or_create email (ok user) = pure user
or_create email (err not_found) = create_user email false
or_create email (err e) = raise e

unfoldable pub find_or_create_invitee : Text → Exec World User
find_or_create_invitee email = do found ← attempt (find_user_by_email email); or_create email found

unfoldable pub grant_invitee : Resolved → Role → Text → Handler PermissionResponse
grant_invitee r role address =
    try (find_or_create_invitee address) (λ _. internal_error)
      λ invitee.
        try (grant r.id invitee.id role r.subject.user_id) (λ _. internal_error)
          λ _. send (
            reply 201 (record {
              user_id = invitee.id;
              email = invitee.email;
              role = role;
              granted_at = none;
            }))

abbrev pub or_invalid_email :
    (Text → Handler PermissionResponse) → Option Text → Handler PermissionResponse
or_invalid_email k none = send (error 400 "invalid email")
or_invalid_email k (some address) = k address

-- `parse_address` is net/mail's ParseAddress, with the address that it finds.
module _ (parse_address : Text → Option Text) where
  unfoldable pub grant_decoded : Resolved → Option GrantRequest → Handler PermissionResponse
  grant_decoded r none = send (error 400 "invalid request body")
  grant_decoded r (some req) =
      if not (is_grantable req.role)
      then send (error 400 "role must be \"editor\" or \"viewer\"")
      else or_invalid_email (grant_invitee r req.role) (parse_address (trim_space req.email))

  unfoldable pub handle_grant_url_permission :
      Option Subject → Option ℕ → Option GrantRequest → Handler PermissionResponse
  handle_grant_url_permission none id body = send (error 401 "unauthorized")
  handle_grant_url_permission (some subject) id body =
      try (resolve_access (some subject) id) access_error λ r.
        if not r.access.can_manage_permissions then send not_found_reply else grant_decoded r body

unfoldable pub revoke_grant : ℕ → ℕ → Option Grant → Handler (Unit {0})
revoke_grant id target none = send not_found_reply
revoke_grant id target (some target_grant) =
    try (count_owners id) (λ _. internal_error)
      λ owner_count.
        if would_orphan_ownership target_grant.role owner_count
        then send (error 409 "cannot remove the last remaining owner")
        else try (revoke id target) (λ _. internal_error) (λ _. send no_content)

unfoldable pub revoke_target : ℕ → Option ℕ → Handler (Unit {0})
revoke_target id none = send not_found_reply
revoke_target id (some target) =
    try (find_grant id target) (λ _. internal_error) (revoke_grant id target)

unfoldable pub handle_revoke_url_permission :
    Option Subject → Option ℕ → Option ℕ → Handler (Unit {0})
handle_revoke_url_permission subject id target = try (resolve_access subject id) access_error λ r.
    if not r.access.can_manage_permissions then send not_found_reply else revoke_target r.id target
