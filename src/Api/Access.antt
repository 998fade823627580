-- ===== src/Api/Access.antt =====
-- cmd/api/middleware.go: `resolveAccess`, the permission gate of every handler on one short URL.
use knives.Prelude.{ℕ, if◌then◌else◌, Option, none, some}
use knives.Permission.{Grant, Subject, Access, resolve}
use knives.World.{World}
use knives.World.Effects.{Exec, Err, pure, raise, ◌>>=◌, hidden, unauthorized}
use knives.Storage.Links.{find_grant}
use knives.Api.{Reply, error, not_found_reply, internal_error}

pub record Resolved : Type 0 where
  pub id : ℕ
  pub access : Access
  pub grant : Option Grant
  pub subject : Subject

-- The subject of the request's context, and the `id` of its path if that is a UUID.
unfoldable pub resolve_access : Option Subject → Option ℕ → Exec World Resolved
resolve_access none id = raise unauthorized
resolve_access (some subject) none = raise hidden
resolve_access (some subject) (some id) = do
  grant ← find_grant id subject.user_id
  let access = resolve subject grant
  if access.visible
      then pure (record { id = id; access = access; grant = grant; subject = subject })
      else raise hidden

abbrev pub access_error : {B : Type 0} → Err → Reply B
access_error unauthorized = error 401 "unauthorized"
access_error hidden = not_found_reply
access_error _ = internal_error
