-- ===== src/Auth/Identity/Requests.antt =====
-- Requests to link an identity: who can complete them, when, and how often.
use knives.Prelude.{
  ℕ, ◌≡◌, ◌≢◌, ◌≤◌, inl, inr, Bool, true, false, ◌==◌, List, [], ◌∷◌, none, some, find, any,
  Option-cases, ==_iff, update, String, find_test, subst, arith, leb, not,
}
use knives.World.{World, called, statement}
use knives.World.Effects.{ok, not_found, token_already_used, token_expired, guard, ◌>>◌}
use knives.World.Effects.Inversion.{guard-ok, bind-ok}
use knives.World.Rows.{User, AuthIdentity, PendingLinkRequest}
use knives.Storage.Accounts.{
  confirm_pending_link_request, find_pending_link_request_by_id, has_key, has_id, is_some,
  key_taken, record_audit_log,
}
use knives.Storage.Accounts.Cases.{
  find_user_by_id_cases, find_pending_by_id_cases, create_auth_identity_cases, new_identity,
  confirmed,
}
use knives.Auth.Identity.{
  logged_in, complete_link, link_to, approve_pending_link, record_link_audit,
}

abbrev pub by_id : ℕ → PendingLinkRequest → Bool
by_id id p = p.id == id

-- A completed request was open, made the user the owner of the identity that it names, and is
-- marked as confirmed.
pub record IsCompleted (p : PendingLinkRequest) (user_id now : ℕ) (w w' : World) (user : User)
    : Type 0 where
  pub was_open : p.confirmed_at ≡ none
  pub in_time : now ≤ p.expires_at
  pub registered : find (has_id user_id) w.users ≡ some user
  pub was_free : key_taken p.provider_type p.provider_config_id p.subject w.identities ≡ false
  pub linked :
      w'.identities
      ≡ new_identity user.id p.provider_type p.provider_config_id p.subject user.email true
          (called w)
        ∷ w.identities
  pub closed : w'.pending_links ≡ confirmed p.id now w.pending_links

module _ (p : PendingLinkRequest) (user_id now : ℕ) (via : String) (w : World) (user : User) where
  abbrev identity_then : World → AuthIdentity
  identity_then =
      new_identity user.id p.provider_type p.provider_config_id p.subject user.email true

  link_to_ok :
      (link_to p user_id now via w).0 ≡ ok (logged_in user)
      → (find (has_id user_id) w.users ≡ some user)
        × (key_taken p.provider_type p.provider_config_id p.subject w.identities ≡ false)
        × ((link_to p user_id now via w).1.identities ≡ identity_then (called w) ∷ w.identities)
        × ((link_to p user_id now via w).1.pending_links ≡ confirmed p.id now w.pending_links)
  unfolding link_to record_link_audit record_audit_log confirm_pending_link_request statement
  link_to_ok h = elim (Option-cases (find (has_id user_id) w.users)) [
    | inl gone ↦ ground (arith, find_user_by_id_cases user_id w)
    | inr (u, e) ↦ ground (
      arith,
      find_user_by_id_cases user_id w,
      create_auth_identity_cases u.id p.provider_type p.provider_config_id p.subject u.email true
          (called w),
    )
  ]

  complete_link_ok :
      (complete_link p user_id now via w).0 ≡ ok (logged_in user)
      → IsCompleted p user_id now w (complete_link p user_id now via w).1 user
  unfolding complete_link
  complete_link_ok h =
      let late = guard (leb now p.expires_at) token_expired >> link_to p user_id now via in
      let (is_open, e) = guard-ok (not (is_some p.confirmed_at)) token_already_used late w h in
      let (in_time, e') =
        guard-ok (leb now p.expires_at) token_expired (link_to p user_id now via) w (rw e at h) in
      rw (e, e') (ground (arith, link_to_ok))

found_pending_by_id :
    (id : ℕ) (w : World) (p : PendingLinkRequest)
    → (find_pending_link_request_by_id id w).0 ≡ ok p
    → (find (by_id id) w.pending_links ≡ some p)
      × ((find_pending_link_request_by_id id w).1 ≡ called w)
found_pending_by_id id w p h = elim (Option-cases (find (by_id id) w.pending_links)) [
  | inl gone ↦ ground (arith, find_pending_by_id_cases id w)
  | inr (q, e) ↦ ground (arith, find_pending_by_id_cases id w)
]

found-confirmed :
    (id at : ℕ) (rows : List PendingLinkRequest) (p : PendingLinkRequest)
    → find (by_id id) (confirmed id at rows) ≡ some p
    → p.confirmed_at ≡ some at
unfolding find update
found-confirmed id at [] p h = cc
found-confirmed id at (q ∷ rows) p h = ground (arith, found-confirmed id at rows p)

-- An approval that succeeds is the completion of a request of the approver's own.
approve_completes :
    (approver request : ℕ) (w : World) (user : User)
    → (approve_pending_link approver request w).0 ≡ ok (logged_in user)
    → (p : PendingLinkRequest) × (find (by_id request) w.pending_links ≡ some p)
      × (p.existing_user_id ≡ approver)
      × (approve_pending_link approver request w
          ≡ complete_link p approver w.clock "reauth_approval" (called w))
unfolding approve_pending_link
approve_completes approver request w user h =
    let (p, e, e') =
      bind-ok (find_pending_link_request_by_id request)
        (λ p.
          guard (p.existing_user_id == approver) not_found
          >> complete_link p approver w.clock "reauth_approval")
        w h in
    let (found, state) = found_pending_by_id request w p e in
    let (own, e'') =
      guard-ok (p.existing_user_id == approver) not_found
        (complete_link p approver w.clock "reauth_approval") (called w) (rw (e', state) at h) in
    (p, found, (==_iff _ _).0 own, rw (e', state, e''))

-- An approval that succeeds found the request by its id, and the approver is the user that the
-- request is for. The request was not confirmed before and had not run out, the user exists, and
-- no identity with a provider configuration had the request's key. The identity of the request is
-- then linked to the user, and the request is marked as confirmed.
pub approve_ok :
    (approver request : ℕ) (w : World) (user : User)
    → (approve_pending_link approver request w).0 ≡ ok (logged_in user)
    → (p : PendingLinkRequest) × (find (by_id request) w.pending_links ≡ some p)
      × (p.existing_user_id ≡ approver)
      × IsCompleted p approver w.clock (called w) (approve_pending_link approver request w).1 user
approve_ok approver request w user h =
    let (p, found, own, e) = approve_completes approver request w user h in
    (
      p,
      found,
      own,
      rw e (complete_link_ok p approver w.clock "reauth_approval" (called w) user (rw e at h)),
    )

-- After a request was approved no approval of it succeeds, by anybody, from the state that the
-- first one left.
pub approve_once :
    (approver request : ℕ) (w : World) (user : User)
    → (approve_pending_link approver request w).0 ≡ ok (logged_in user)
    → (other : ℕ) (user' : User)
    → (approve_pending_link other request (approve_pending_link approver request w).1).0
      ≢ ok (logged_in user')
approve_once approver request w user h other user' h' =
    let w' = (approve_pending_link approver request w).1 in
    let (p, found, own, done) = approve_ok approver request w user h in
    let (q, found', own', again) = approve_ok other request w' user' h' in
    let id : p.id ≡ request =
      (==_iff p.id request).0 (find_test (by_id request) w.pending_links found) in
    let rows : w'.pending_links ≡ confirmed request w.clock w.pending_links =
      subst (λ (n : ℕ). w'.pending_links ≡ confirmed n w.clock w.pending_links) id done.closed in
    cc (again.was_open, found-confirmed request w.clock w.pending_links q (rw rows at found'))

-- A pending request with a provider configuration whose identity is linked already, as the
-- reassignment of an email makes it, is never approved, by anybody.
relink_never_approved :
    (approver request config : ℕ) (w : World) (p : PendingLinkRequest)
    → find (by_id request) w.pending_links ≡ some p
    → p.provider_config_id ≡ some config
    → any (has_key p.provider_type p.provider_config_id p.subject) w.identities ≡ true
    → (user : User) → (approve_pending_link approver request w).0 ≢ ok (logged_in user)
unfolding key_taken
relink_never_approved approver request config w p found configured linked user h =
    let (q, found', own, done) = approve_ok approver request w user h in
    ground (arith, done.was_free)
