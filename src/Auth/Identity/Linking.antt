-- ===== src/Auth/Identity/Linking.antt =====
-- A login that succeeds is backed by a linked identity.
use knives.Prelude.{
  ℕ, ◌≡◌, refl, Bool, true, false, List, ◌∷◌, Option, none, some, find, update, find_test, ==_iff,
  [], inl, inr, Option-cases, arith,
}
use knives.World.{World, called, statement, fresh}
use knives.World.Effects.{ok}
use knives.World.Rows.{User, AuthIdentity}
use knives.Storage.Accounts.{record_audit_log, new_user, has_key, has_id, has_email}
use knives.Storage.Accounts.Cases.{
  find_auth_identity_cases, find_user_by_email_cases, count_auth_identities_cases,
  find_user_by_id_cases, create_user_cases, create_auth_identity_cases, touch_auth_identity_cases,
  new_identity, has_key-new_identity, touched,
}
use knives.Auth.Crypto.{Crypto}
use knives.Auth.Identity.{
  LoginAttempt, logged_in, Resolver, resolve, resolve_known, resolve_by_identity, resolve_by_email,
  resolve_existing_user, resolve_new_user, attach_identity, record_link_audit,
}

abbrev pub user_of : Option AuthIdentity → Option ℕ
user_of none = none
user_of (some i) = some i.user_id

-- The user that the attempt's key is linked to.
abbrev pub linked_user : LoginAttempt → List AuthIdentity → Option ℕ
linked_user a rows = user_of (find (has_key a.provider_type a.provider_config_id a.subject) rows)

-- A created identity is the one that its key finds.
attach_identity_links :
    (user_id : ℕ) (a : LoginAttempt) (new : Bool) (w : World)
    → (attach_identity user_id a new w).0 ≡ ok tt
    → (attach_identity user_id a new w).1.identities
      ≡ new_identity user_id a.provider_type a.provider_config_id a.subject a.email true w
        ∷ w.identities
unfolding attach_identity record_link_audit record_audit_log statement
attach_identity_links user_id a new w h = ground (
  arith,
  create_auth_identity_cases user_id a.provider_type a.provider_config_id a.subject a.email true w,
)

linked_user-new :
    (user_id : ℕ) (a : LoginAttempt) (w : World) (rows : List AuthIdentity)
    → linked_user a
        (new_identity user_id a.provider_type a.provider_config_id a.subject a.email true w ∷ rows)
      ≡ some user_id
unfolding find
linked_user-new user_id a w rows = ground (
  arith,
  has_key-new_identity user_id a.provider_type a.provider_config_id a.subject a.email true w,
)

linked_user-touched :
    (a : LoginAttempt) (id at : ℕ) (rows : List AuthIdentity)
    → linked_user a (touched id at rows) ≡ linked_user a rows
unfolding find update has_key
linked_user-touched a id at [] = refl
linked_user-touched a id at (i ∷ rows) = ground (arith, linked_user-touched a id at rows)

-- A created identity belongs to the user that is logged in.
attach_then_linked :
    (user_id : ℕ) (a : LoginAttempt) (new : Bool) (w : World)
    → (attach_identity user_id a new w).0 ≡ ok tt
    → linked_user a (attach_identity user_id a new w).1.identities ≡ some user_id
attach_then_linked user_id a new w h =
    rw (attach_identity_links user_id a new w h) (linked_user-new user_id a w w.identities)

found_user_id :
    (id : ℕ) (rows : List User) (user : User) → find (has_id id) rows ≡ some user → user.id ≡ id
found_user_id id rows user h = (==_iff user.id id).0 (find_test (has_id id) rows h)

module _ (crypto : Crypto) (r : Resolver) where
  known_linked :
      (a : LoginAttempt) (now : ℕ) (i : AuthIdentity) (w : World) (user : User)
      → find (has_key a.provider_type a.provider_config_id a.subject) w.identities ≡ some i
      → (resolve_known crypto r a now i w).0 ≡ ok (logged_in user)
      → linked_user a (resolve_known crypto r a now i w).1.identities ≡ some user.id
  unfolding resolve_known
  known_linked a now i w user known h = ground (
    arith,
    touch_auth_identity_cases i.id now w,
    linked_user-touched a i.id now w.identities,
    find_user_by_id_cases i.user_id
        (record (called w) { identities = touched i.id now w.identities }),
    found_user_id i.user_id w.users user,
  )

  existing_linked :
      (a : LoginAttempt) (now : ℕ) (existing : User) (w : World) (user : User)
      → (resolve_existing_user crypto r a now existing w).0 ≡ ok (logged_in user)
      → linked_user a (resolve_existing_user crypto r a now existing w).1.identities ≡ some user.id
  unfolding resolve_existing_user
  existing_linked a now existing w user h = ground (
    arith,
    count_auth_identities_cases existing.id w,
    attach_then_linked existing.id a false (called w),
  )

  new_linked :
      (a : LoginAttempt) (w : World) (user : User)
      → (resolve_new_user crypto r a w).0 ≡ ok (logged_in user)
      → linked_user a (resolve_new_user crypto r a w).1.identities ≡ some user.id
  unfolding resolve_new_user
  new_linked a w user h =
      let row = new_user a.email a.email_verified w in
      ground (
        arith,
        create_user_cases a.email a.email_verified w,
        attach_then_linked row.id a true (record (fresh (called w)) { users = row ∷ w.users }),
      )

  -- Whoever an attempt logs in as owns, afterwards, the identity that the attempt names: its
  -- provider, configuration and subject are linked to that user, whatever path was taken.
  pub logged_in_linked :
      (a : LoginAttempt) (w : World) (user : User)
      → (resolve crypto r a w).0 ≡ ok (logged_in user)
      → linked_user a (resolve crypto r a w).1.identities ≡ some user.id
  unfolding resolve resolve_by_identity resolve_by_email
  logged_in_linked a w user h =
      let key = has_key a.provider_type a.provider_config_id a.subject in
      let first = find_auth_identity_cases a.provider_type a.provider_config_id a.subject w in
      let second = find_user_by_email_cases a.email (called w) in
      elim (Option-cases (find key w.identities)) [
        | inr (i, e) ↦ ground (arith, first, known_linked a w.clock i (called w) user e)
        | inl unseen ↦ elim (Option-cases (find (has_email a.email) w.users)) [
          | inl new ↦ ground (arith, first, second, new_linked a (called (called w)) user)
          | inr (u, e) ↦
              ground (arith, first, second, existing_linked a w.clock u (called (called w)) user)
        ]
      ]
