-- ===== src/Api/Admin/Caller.antt =====
-- What the patch of a user leaves the administrator who sends it.
use knives.Prelude.{
  ℕ, ◌≡◌, refl, ◌==◌, ==_iff, Bool, true, false, not, ◌&&◌, Option, none, some, find, find_test,
  find-update, if◌then◌else◌, count, Text, Bool-cases, inl, inr, arith,
}
use knives.Permission.{Subject}
use knives.World.{World, statement, failing}
use knives.World.Rows.{User, UserStatus, AuditLogEntry}
use knives.Storage.Accounts.{
  has_id, find_admin_user_by_id, set_system_admin, set_user_status, record_audit_log,
}
use knives.World.Effects.Keeps.{Keeps}
use knives.Api.{Handler}
use knives.Api.Keeps.{Preserves, try-Keeps}
use knives.Api.Admin.{
  AdminUserResponse, PatchUserRequest, handle_patch_user, patch_admin, patch_status, with_status,
  is_suspended, user_status,
}

abbrev pub is_active_admin : User → Bool
is_active_admin u = u.is_system_admin && not (is_suspended u.status)

-- The user is registered, not suspended, and a system administrator.
abbrev pub IsActiveAdmin : ℕ → World → Type 0
IsActiveAdmin id w = (u : User) × (find (has_id id) w.users ≡ some u) × (is_active_admin u ≡ true)

module _ (caller : ℕ) where
  audit-IsActiveAdmin :
      (e : AuditLogEntry) (w : World)
      → IsActiveAdmin caller w
      → IsActiveAdmin caller (record_audit_log e w).1
  unfolding record_audit_log statement
  audit-IsActiveAdmin e w (u, k, a) = (u, ground arith, a)

  set_system_admin-IsActiveAdmin :
      (id : ℕ) (b : Bool) (w : World)
      → (id == caller && not b) ≡ false
      → IsActiveAdmin caller w
      → IsActiveAdmin caller (set_system_admin id b w).1
  unfolding set_system_admin statement
  set_system_admin-IsActiveAdmin id b w other (u, k, a) =
      let set = λ (v : User). record v { is_system_admin = b } in
      let moved = find-update (has_id caller) (has_id id) set (λ v. refl) w.users k in
      let same = ==_iff u.id caller in
      let found = find_test (has_id caller) w.users k in
      elim (Bool-cases (failing w.faults)) [
        | inl f ↦ rw f (u, k, a)
        | inr f ↦ elim (Bool-cases (count (has_id id) w.users == 0)) [
          | inl c ↦ rw (f, c) (u, k, a)
          | inr c ↦ rw (f, c) ((if u.id == id then set u else u), moved, ground arith)
        ]
      ]

  set_user_status-IsActiveAdmin :
      (id : ℕ) (status : UserStatus) (w : World)
      → (id == caller && is_suspended status) ≡ false
      → IsActiveAdmin caller w
      → IsActiveAdmin caller (set_user_status id status w).1
  unfolding set_user_status statement
  set_user_status-IsActiveAdmin id status w other (u, k, a) =
      let set = λ (v : User). record v { status = status } in
      let moved = find-update (has_id caller) (has_id id) set (λ v. refl) w.users k in
      let same = ==_iff u.id caller in
      let found = find_test (has_id caller) w.users k in
      elim (Bool-cases (failing w.faults)) [
        | inl f ↦ rw f (u, k, a)
        | inr f ↦ elim (Bool-cases (count (has_id id) w.users == 0)) [
          | inl c ↦ rw (f, c) (u, k, a)
          | inr c ↦ rw (f, c) ((if u.id == id then set u else u), moved, ground arith)
        ]
      ]

  with_status-IsActiveAdmin :
      (flag : Bool) (id : ℕ) (target : User) (status : Option UserStatus)
      → Preserves
          (IsActiveAdmin caller)
          (with_status (record { user_id = caller; is_system_admin = flag }) id target status)
  with_status-IsActiveAdmin flag id target none w h = h
  with_status-IsActiveAdmin flag id target (some status) w h =
      elim (Bool-cases (id == caller && is_suspended status)) [
        | inl self ↦ rw self h
        | inr other ↦ rw other (
            try-Keeps (IsActiveAdmin caller) (set_user_status id status) _ _
              (λ v. set_user_status-IsActiveAdmin id status v other)
              (λ _ v. audit-IsActiveAdmin _ v) w h)
      ]

  patch_status-IsActiveAdmin :
      (flag : Bool) (id : ℕ) (status : Option Text) (target : User)
      → Preserves
          (IsActiveAdmin caller)
          (patch_status (record { user_id = caller; is_system_admin = flag }) id status target)
  unfolding patch_status
  patch_status-IsActiveAdmin flag id none target w h = h
  patch_status-IsActiveAdmin flag id (some s) target w h =
      with_status-IsActiveAdmin flag id target (user_status s) w h

  patch_admin-IsActiveAdmin :
      (flag : Bool) (id : ℕ) (target : User) (is_admin : Option Bool)
      (k : User → Handler AdminUserResponse)
      → ((u : User) → Preserves (IsActiveAdmin caller) (k u))
      → Preserves
          (IsActiveAdmin caller)
          (patch_admin (record { user_id = caller; is_system_admin = flag }) id target is_admin k)
  unfolding patch_admin
  patch_admin-IsActiveAdmin flag id target none k go w h = go target w h
  patch_admin-IsActiveAdmin flag id target (some b) k go w h =
      elim (Bool-cases (id == caller && not b)) [
        | inl self ↦ rw self h
        | inr other ↦ rw other (
            try-Keeps (IsActiveAdmin caller) (set_system_admin id b) _ _
              (λ v. set_system_admin-IsActiveAdmin id b v other)
              (λ _ v hv. go _ _ (audit-IsActiveAdmin _ v hv)) w h)
      ]

  find-IsActiveAdmin : (id : ℕ) → Keeps (IsActiveAdmin caller) (find_admin_user_by_id id)
  unfolding find_admin_user_by_id statement
  find-IsActiveAdmin id w (u, k, a) = (u, ground arith, a)

-- Whatever an active system administrator asks to change, for whatever user and with whatever calls
-- failing, that administrator is an active system administrator afterwards.
pub patch_keeps_caller :
    (subject : Subject) (id : Option ℕ) (body : Option PatchUserRequest) (w : World)
    → IsActiveAdmin subject.user_id w
    → IsActiveAdmin subject.user_id (handle_patch_user (some subject) id body w).1
unfolding handle_patch_user
patch_keeps_caller subject none body w h = h
patch_keeps_caller subject (some id) none w h = h
patch_keeps_caller subject (some id) (some req) w h =
    try-Keeps (IsActiveAdmin subject.user_id) (find_admin_user_by_id id) _ _
      (find-IsActiveAdmin subject.user_id id)
      (λ target v.
        patch_admin-IsActiveAdmin subject.user_id subject.is_system_admin id target
          req.is_system_admin (patch_status subject id req.status)
          (patch_status-IsActiveAdmin subject.user_id subject.is_system_admin id req.status) v)
      w h
