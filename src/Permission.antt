-- ===== src/Permission.antt =====
-- internal/permission/shorturl.go: roles, grants and what a subject may do on one short URL.
use knives.Prelude.{ℕ, Text, leb, if◌then◌else◌, Bool, true, false, ◌&&◌, Option, none, some}

-- `other` stands for any other string of the Go type, which the column's enum does not hold.
pub data Role : Type 0 where
  owner editor viewer : Role
  other : Text → Role

pub record Grant : Type 0 where
  pub user_id : ℕ
  pub role : Role

pub record Subject : Type 0 where
  pub user_id : ℕ
  pub is_system_admin : Bool

pub record Access : Type 0 where
  pub visible : Bool
  pub can_edit : Bool
  pub can_manage_permissions : Bool
  pub can_delete : Bool
  pub admin_override : Bool

abbrev pub no_access : Access
no_access = record {
  visible = false;
  can_edit = false;
  can_manage_permissions = false;
  can_delete = false;
  admin_override = false;
}

unfoldable pub access_for_role : Role → Access
access_for_role owner = record no_access {
  visible = true;
  can_edit = true;
  can_manage_permissions = true;
  can_delete = true;
}
access_for_role editor = record no_access { visible = true; can_edit = true }
access_for_role viewer = record no_access { visible = true }
access_for_role (other _) = no_access

unfoldable pub resolve : Subject → Option Grant → Access
unfolding access_for_role
resolve subject (some grant) = access_for_role grant.role
resolve subject none =
    if subject.is_system_admin
    then record no_access { visible = true; admin_override = true }
    else no_access

abbrev pub is_owner : Role → Bool
is_owner owner = true
is_owner _ = false

unfoldable pub would_orphan_ownership : Role → ℕ → Bool
would_orphan_ownership current_role owner_count = is_owner current_role && leb owner_count 1
