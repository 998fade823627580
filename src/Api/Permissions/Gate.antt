-- ===== src/Api/Permissions/Gate.antt =====
-- Only an owner of the short URL changes who may see and edit it.
use knives.Prelude.{ℕ, ◌≡◌, inl, inr, false, Option, none, some, Option-cases, find, Text, arith}
use knives.Permission.{is_owner, Subject, resolve}
use knives.World.{World, statement}
use knives.World.Rows.{UrlPermission}
use knives.Storage.Links.{is_grant, find_grant}
use knives.Api.Access.{resolve_access}
use knives.Api.Permissions.{GrantRequest, handle_revoke_url_permission, handle_grant_url_permission}

-- The subject's own grant on the short URL is not an owner's, or there is none.
abbrev pub IsNotOwner : Option UrlPermission → Type 0
IsNotOwner none = Unit {0}
IsNotOwner (some p) = is_owner p.role ≡ false

abbrev pub SameAccess : World → World → Type 0
SameAccess w w' = (w'.permissions ≡ w.permissions) × (w'.users ≡ w.users)

-- A subject that does not own the short URL, a system administrator included, neither grants nor
-- revokes anything on it and creates no user, whatever the request says.
pub only_owner_manages :
    (parse_address : Text → Option Text) (subject : Subject) (id : ℕ) (body : Option GrantRequest)
    (target : Option ℕ) (w : World)
    → IsNotOwner (find (is_grant id subject.user_id) w.permissions)
    → SameAccess w (handle_grant_url_permission parse_address (some subject) (some id) body w).1
      × SameAccess w (handle_revoke_url_permission (some subject) (some id) target w).1
unfolding handle_grant_url_permission handle_revoke_url_permission resolve_access find_grant resolve
    statement
only_owner_manages parse_address subject id body target w h =
    elim (Option-cases (find (is_grant id subject.user_id) w.permissions)) [
      | inl absent ↦ ground arith
      | inr (p, e) ↦ ground arith
    ]
