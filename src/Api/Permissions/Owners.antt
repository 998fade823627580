-- ===== src/Api/Permissions/Owners.antt =====
-- Whether a short URL can be left with nobody who owns it.
use knives.Prelude.{
  ℕ, ◌<◌, ◌≡◌, inl, inr, refl, ==_iff, Bool, true, List, [], ◌∷◌, any, Bool-cases, Option, none,
  some, Option-cases, find, Text, trim_space, find_test, find-some-any, arith,
}
use knives.Permission.{Role, owner, access_for_role, Subject, resolve, would_orphan_ownership}
use knives.World.{World, called, statement}
use knives.World.Effects.{ok}
use knives.World.Rows.{User, UrlPermission}
use knives.Storage.Accounts.{has_id, has_email, find_user_by_email}
use knives.Storage.Links.{is_grant, find_grant, count_owners, grant, revoke}
use knives.Storage.Links.Owners.{UniqueGrants, owners, owners-revoked, owners-replaced}
use knives.Api.{reply}
use knives.Api.Access.{Resolved, resolve_access}
use knives.Api.Permissions.{
  revoke_grant, revoke_target, handle_revoke_url_permission, GrantRequest, is_grantable,
  handle_grant_url_permission, grant_decoded, grant_invitee, find_or_create_invitee,
}

-- The deletion that `Revoke` makes keeps an owner if the code's own test lets it through.
revoke_safe :
    (id target j : ℕ) (w : World) (g : UrlPermission)
    → UniqueGrants w.permissions
    → find (is_grant id target) w.permissions ≡ some g
    → 0 < owners j w.permissions
    → 0
      < owners j
          (revoke_grant id target
            (some (record { user_id = target; role = g.role }))
            w).1.permissions
unfolding revoke_grant count_owners revoke statement would_orphan_ownership
revoke_safe id target j w g unique found owned = ground (
  arith,
  owners-revoked id target j w.permissions g unique found,
  ==_iff j id,
  ==_iff g.short_url_id id,
  ==_iff g.short_url_id j,
  find_test (is_grant id target) w.permissions found,
)

revoke_target_safe :
    (id j : ℕ) (target : Option ℕ) (w : World)
    → UniqueGrants w.permissions
    → 0 < owners j w.permissions
    → 0 < owners j (revoke_target id target w).1.permissions
unfolding revoke_target
revoke_target_safe id j none w unique owned = owned
revoke_target_safe id j (some target) w unique owned =
    elim (Option-cases (find (is_grant id target) w.permissions)) [
      | inl absent ↦ unfold find_grant revoke_grant statement in ground arith
      | inr (g, e) ↦
          unfold find_grant statement in
          ground (arith, revoke_safe id target j (called w) g unique e owned)
    ]

-- Where the grants have no two rows for one short URL and user, as the table's constraint demands:
-- whatever revocation is asked for, by whomever and with whatever calls failing, every short URL
-- that had an owner before has one afterwards.
pub handle_revoke_keeps_owner :
    (subject : Option Subject) (id target : Option ℕ) (j : ℕ) (w : World)
    → UniqueGrants w.permissions
    → 0 < owners j w.permissions
    → 0 < owners j (handle_revoke_url_permission subject id target w).1.permissions
unfolding handle_revoke_url_permission resolve_access find_grant statement
handle_revoke_keeps_owner none id target j w unique owned = owned
handle_revoke_keeps_owner (some subject) none target j w unique owned = owned
handle_revoke_keeps_owner (some subject) (some id) target j w unique owned =
    ground (arith, revoke_target_safe id j target (called w) unique owned)

owner_access : ℕ → Subject → Resolved
owner_access id subject = record {
  id = id;
  access = access_for_role owner;
  grant = some (record { user_id = subject.user_id; role = owner });
  subject = subject;
}

resolve_access_owner :
    (subject : Subject) (id : ℕ) (w : World) (g : UrlPermission)
    → w.faults ≡ []
    → find (is_grant id subject.user_id) w.permissions ≡ some g
    → g.role ≡ owner
    → resolve_access (some subject) (some id) w ≡ (ok (owner_access id subject), called w)
unfolding resolve_access find_grant owner_access resolve statement
resolve_access_owner subject id w g clear own role = rw (clear, own, role) refl

found-any :
    {A : Type 0} (p q : A → Bool) (xs : List A) {x : A}
    → find p xs ≡ some x
    → q x ≡ true
    → any q xs ≡ true
unfolding find any
found-any p q [] h t = cc
found-any p q (y ∷ ys) {x} h t = elim (Bool-cases (p y)) [
  | inl e ↦ ground (arith, e, h, t)
  | inr e ↦ ground (arith, found-any p q ys {x = x} (rw e at h) t)
]

invite_owner :
    (subject : Subject) (id : ℕ) (role : Role) (address : Text) (w : World) (user : User)
    (g : UrlPermission)
    → w.faults ≡ []
    → UniqueGrants w.permissions
    → find (is_grant id subject.user_id) w.permissions ≡ some g
    → g.role ≡ owner
    → owners id w.permissions ≡ 1
    → is_grantable role ≡ true
    → find (has_email address) w.users ≡ some user
    → user.id ≡ subject.user_id
    → let result = grant_invitee (owner_access id subject) role address w in
      (result.0
        ≡ reply 201
            (record { user_id = user.id; email = user.email; role = role; granted_at = none }))
      × (owners id result.1.permissions ≡ 0)
unfolding grant_invitee find_or_create_invitee find_user_by_email grant owner_access statement
invite_owner subject id role address w user g clear unique own is_own single fits known self =
    let row : UrlPermission = record {
      short_url_id = id;
      user_id = user.id;
      role = role;
      granted_by = subject.user_id;
      granted_at = w.clock;
    } in
    ground (
      arith,
      owners-replaced id subject.user_id row w.permissions g unique own,
      find-some-any (is_grant id subject.user_id) w.permissions {x = g} own,
      found-any (has_email address) (has_id subject.user_id) w.users {x = user} known
          (ground arith),
    )

-- Where the only owner of a short URL invites their own address as editor or viewer, the grants
-- have no two rows for one short URL and user, and no call fails, the reply is 201 and the short
-- URL is left with no owner.
self_invite_orphans :
    (parse_address : Text → Option Text) (subject : Subject) (id : ℕ) (req : GrantRequest)
    (address : Text) (w : World) (user : User) (g : UrlPermission)
    → w.faults ≡ []
    → UniqueGrants w.permissions
    → find (is_grant id subject.user_id) w.permissions ≡ some g
    → g.role ≡ owner
    → owners id w.permissions ≡ 1
    → is_grantable req.role ≡ true
    → parse_address (trim_space req.email) ≡ some address
    → find (has_email address) w.users ≡ some user
    → user.id ≡ subject.user_id
    → let result =
        handle_grant_url_permission parse_address (some subject) (some id) (some req) w in
      (result.0
        ≡ reply 201
            (record { user_id = user.id; email = user.email; role = req.role; granted_at = none }))
      × (owners id result.1.permissions ≡ 0)
unfolding handle_grant_url_permission grant_decoded access_for_role grant_invitee
self_invite_orphans parse_address subject id req address w user g clear unique own role single fits
      parsed known self =
    rw (resolve_access_owner subject id w g clear own role) (
      unfold owner_access in
      rw (fits, parsed)
        (invite_owner subject id req.role address (called w) user g (rw clear) unique own role
          single fits known self))
