-- ===== src/Auth/Providers/Dangling.antt =====
-- A pending link request outlives the configuration that it came from.
use knives.Prelude.{
  ℕ, ◌≡◌, refl, true, false, ◌==◌, not, leb, List, [], ◌∷◌, none, some, find, any, count, select,
  Bool-cases, inl, inr, arith,
}
use knives.World.{World, fresh, statement}
use knives.World.Effects.{ok}
use knives.World.Rows.{AuthIdentity, User, PendingLinkRequest, oidc}
use knives.World.Logins.{OidcConfigRow}
use knives.Storage.Accounts.{
  has_id, key_taken, find_pending_link_request_by_id, find_user_by_id, create_auth_identity,
  confirm_pending_link_request, record_audit_log,
}
use knives.Storage.Accounts.Cases.{new_identity}
use knives.Storage.Providers.{
  is_of_config, with_oidc, has_oidc_id, delete_oidc_config, count_auth_identities_for_config,
}
use knives.Auth.Identity.{
  logged_in, approve_pending_link, complete_link, link_to, record_link_audit,
}
use knives.Auth.Providers.{remove_oidc_config}
use knives.Auth.Providers.Linked.{IsConfigured, IsLinked}

-- No row has the id of the rows that were removed.
removed_gone :
    (id : ℕ) (rows : List OidcConfigRow)
    → any (has_oidc_id id) (select (λ c. not (has_oidc_id id c)) rows) ≡ false
unfolding any select
removed_gone id [] = refl
removed_gone id (c ∷ cs) = elim (Bool-cases (has_oidc_id id c)) [
  | inl e ↦ rw e (removed_gone id cs)
  | inr e ↦ rw e (rw e (removed_gone id cs))
]

abbrev without_config : ℕ → World → World
without_config id w = with_oidc w (select (λ c. not (has_oidc_id id c)) w.providers.oidc_configs)

user_found :
    (v : World) (user_id : ℕ) (user : User)
    → v.faults ≡ []
    → find (has_id user_id) v.users ≡ some user
    → find_user_by_id user_id v ≡ (ok user, v)
unfolding find_user_by_id statement
user_found v user_id user clear known = ground arith

identity_created :
    (v : World) (p : PendingLinkRequest) (user : User)
    → v.faults ≡ []
    → any (has_id user.id) v.users ≡ true
    → key_taken p.provider_type p.provider_config_id p.subject v.identities ≡ false
    → let row =
        new_identity user.id p.provider_type p.provider_config_id p.subject user.email true v in
      create_auth_identity user.id p.provider_type p.provider_config_id p.subject user.email true v
      ≡ (ok row, record (fresh v) { identities = row ∷ v.identities })
unfolding create_auth_identity statement
identity_created v p user clear itself unlinked = ground arith

-- Without failing calls: a request is linked as it stands.
linked :
    (v : World) (p : PendingLinkRequest) (user_id : ℕ) (user : User)
    → v.faults ≡ []
    → find (has_id user_id) v.users ≡ some user
    → any (has_id user.id) v.users ≡ true
    → key_taken p.provider_type p.provider_config_id p.subject v.identities ≡ false
    → let (r, v') = link_to p user_id v.clock "reauth_approval" v in
      (r ≡ ok (logged_in user))
      × (v'.providers ≡ v.providers)
      × (v'.identities
          ≡ new_identity user.id p.provider_type p.provider_config_id p.subject user.email true v
            ∷ v.identities)
unfolding link_to confirm_pending_link_request record_link_audit record_audit_log statement
linked v p user_id user clear known itself unlinked =
    rw (user_found v user_id user clear known, identity_created v p user clear itself unlinked)
      (ground (arith, clear))

completed :
    (v : World) (user_id request_id : ℕ) (p : PendingLinkRequest)
    → v.faults ≡ []
    → find (λ (q : PendingLinkRequest). q.id == request_id) v.pending_links ≡ some p
    → p.existing_user_id ≡ user_id
    → p.confirmed_at ≡ none
    → leb v.clock p.expires_at ≡ true
    → approve_pending_link user_id request_id v ≡ link_to p user_id v.clock "reauth_approval" v
unfolding approve_pending_link complete_link find_pending_link_request_by_id statement
completed v user_id request_id p clear asked own waiting in_time = ground arith

module _ (id user_id request_id : ℕ) (w : World) (user : User) (p : PendingLinkRequest)
    (clear : w.faults ≡ [])
    (asked : find (λ (q : PendingLinkRequest). q.id == request_id) w.pending_links ≡ some p)
    (own : p.existing_user_id ≡ user_id) (waiting : p.confirmed_at ≡ none)
    (in_time : leb w.clock p.expires_at ≡ true) (provider : p.provider_type ≡ oidc)
    (config : p.provider_config_id ≡ some id) (known : find (has_id user_id) w.users ≡ some user)
    (itself : any (has_id user.id) w.users ≡ true)
    (unlinked : key_taken p.provider_type p.provider_config_id p.subject w.identities ≡ false)
    (unused : count (is_of_config oidc id) w.identities ≡ 0)
    (stored : (count (has_oidc_id id) w.providers.oidc_configs == 0) ≡ false) where
  removed : remove_oidc_config id w ≡ (ok tt, without_config id w)
  unfolding remove_oidc_config count_auth_identities_for_config delete_oidc_config statement
  removed = ground arith

  abbrev dangling : AuthIdentity
  dangling =
      new_identity user.id p.provider_type p.provider_config_id p.subject user.email true
        (without_config id w)

  approved :
      let (r, v) = approve_pending_link user_id request_id (without_config id w) in
      (r ≡ ok (logged_in user))
      × (v.providers ≡ (without_config id w).providers)
      × (v.identities ≡ dangling ∷ w.identities)
  approved =
      rw (completed (without_config id w) user_id request_id p clear asked own waiting in_time)
        (linked (without_config id w) p user_id user clear known itself unlinked)

  dangles : ¬ IsConfigured (without_config id w).providers dangling
  dangles h = cc (removed_gone id w.providers.oidc_configs, rw (provider, config) at h)

  -- Where no call fails: a configuration that a link request is waiting for, and no identity refers
  -- to, is removed; and its owner's approval afterwards logs the owner in and links an identity
  -- of the configuration that is gone.
  pub approval_dangles :
      let w' = (remove_oidc_config id w).1 in
      ((remove_oidc_config id w).0 ≡ ok tt)
      × ((approve_pending_link user_id request_id w').0 ≡ ok (logged_in user))
      × (¬ IsLinked (approve_pending_link user_id request_id w').1)
  approval_dangles =
      rw removed (refl, approved.0, λ h. dangles (rw (approved.1, approved.2) at h).0)
