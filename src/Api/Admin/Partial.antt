-- ===== src/Api/Admin/Partial.antt =====
-- A patch of a user that is refused halfway.
use knives.Prelude.{
  ℕ, ◌≡◌, refl, ◌==◌, Bool, false, not, ◌&&◌, none, some, [], find, find-update, find_test,
  find-some-count, Text, arith,
}
use knives.Permission.{Subject}
use knives.World.{World, statement}
use knives.World.Rows.{User}
use knives.Storage.Accounts.{has_id, find_admin_user_by_id, set_system_admin, record_audit_log}
use knives.Api.{error}
use knives.Api.Admin.{handle_patch_user, patch_admin, patch_status, user_status}

-- A request that changes the right of an administrator and names an unknown status is refused with
-- 400, and, with no call failing, the right is changed all the same.
refused_patch_applies :
    (subject : Subject) (id : ℕ) (is_admin : Bool) (status : Text) (w : World) (u : User)
    → w.faults ≡ []
    → find (has_id id) w.users ≡ some u
    → (id == subject.user_id && not is_admin) ≡ false
    → user_status status ≡ none
    → let (answer, w') =
        handle_patch_user
          (some subject)
          (some id)
          (some (record { is_system_admin = some is_admin; status = some status }))
          w in
      (answer ≡ error 400 "status must be \"active\" or \"suspended\"")
      × (find (has_id id) w'.users ≡ some (record u { is_system_admin = is_admin }))
unfolding handle_patch_user patch_admin patch_status find_admin_user_by_id set_system_admin
    record_audit_log statement
refused_patch_applies subject id is_admin status w u clear k other unknown =
    let set = λ (v : User). record v { is_system_admin = is_admin } in
    let moved = find-update (has_id id) (has_id id) set (λ v. refl) w.users k in
    let found = find_test (has_id id) w.users k in
    let counted = find-some-count (has_id id) w.users k in
    rw (clear, k, other, counted, unknown) (refl, ground arith)
