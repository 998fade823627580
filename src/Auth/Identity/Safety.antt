-- ===== src/Auth/Identity/Safety.antt =====
-- Who a login attempt may become: the account-integration policy of `Resolver.Resolve`.
use knives.Prelude.{
  refl, inl, ap, ℕ, ◌<◌, ◌≡◌, ◌≢◌, ◌⊎◌, false, ◌==◌, List, [], ◌∷◌, Text, none, some, find, count,
  equal_fold, arith,
}
use knives.World.{World, called, raw_token, statement}
use knives.World.Effects.{Result, ok}
use knives.World.Effects.Keeps.{Keeps, bind_after}
use knives.World.Rows.{User, AuthIdentity, Mail}
use knives.Storage.Accounts.{
  has_key, has_id, has_email, create_pending_link_request, find_user_by_id, find_auth_settings,
  send_mail,
}
use knives.Storage.Accounts.Cases.{
  find_auth_identity_cases, find_user_by_email_cases, count_auth_identities_cases,
}
use knives.Auth.Crypto.{Crypto}
use knives.Auth.Identity.{
  LoginAttempt, Outcome, logged_in, Resolver, generate_token, request_confirmation, resolve,
  send_notice, resolve_known, resolve_by_identity, resolve_by_email, resolve_existing_user, notice,
}

abbrev pub recipients : List Mail → List Text
recipients [] = []
recipients (m ∷ ms) = m.to_email ∷ recipients ms

-- At most one mail was sent, and it went to the address that `user` is registered with.
abbrev pub MailsOnly : User → World → World → Type 0
MailsOnly user w w' =
    (recipients w'.outbox ≡ recipients w.outbox)
    ⊎ (recipients w'.outbox ≡ user.email ∷ recipients w.outbox)

abbrev pub SameAccounts : World → World → Type 0
SameAccounts w w' =
    (w'.identities ≡ w.identities) × (w'.users ≡ w.users) × (w'.credentials ≡ w.credentials)

-- Nothing that a login rests on has changed, and nobody was logged in.
abbrev pub IsHeldBack : World → Result Outcome × World → Type 0
IsHeldBack w r = SameAccounts w r.1 × ((u : User) → r.0 ≢ ok (logged_in u))

module _ (crypto : Crypto) (r : Resolver) where
  -- Up to the notice, a request for confirmation touches neither accounts nor mails.
  abbrev Unnoticed : World → World → Type 0
  Unnoticed w v = SameAccounts w v × (v.outbox ≡ w.outbox)

  generate_token-Unnoticed : (w : World) → Keeps (Unnoticed w) (generate_token crypto)
  unfolding generate_token raw_token
  generate_token-Unnoticed w v h = ground arith

  create_pending-Unnoticed :
      (user_id : ℕ) (a : LoginAttempt) (hash : Text) (expires_at : ℕ) (w : World)
      → Keeps (Unnoticed w) (
          create_pending_link_request user_id a.provider_type a.provider_config_id a.subject hash
            expires_at)
  unfolding create_pending_link_request statement
  create_pending-Unnoticed user_id a hash expires_at w v h = ground arith

  send_notice_frame :
      (user_id : ℕ) (raw : Text) (w v : World)
      → Unnoticed w v
      → SameAccounts w (send_notice crypto r user_id raw v).1
  unfolding send_notice find_user_by_id find_auth_settings send_mail statement
  send_notice_frame user_id raw w v h = ground arith

  send_notice_mail :
      (user_id : ℕ) (raw : Text) (user : User) (w v : World)
      → find (has_id user_id) w.users ≡ some user
      → Unnoticed w v
      → MailsOnly user w (send_notice crypto r user_id raw v).1
  unfolding send_notice find_user_by_id find_auth_settings send_mail statement notice
  send_notice_mail user_id raw user w v known h = ground arith

  -- What holds before the notice, and after each notice, holds after a request for confirmation.
  request_confirmation_after :
      (user_id : ℕ) (a : LoginAttempt) (now : ℕ) (w : World) (R : World → Type 0)
      → ((v : World) → Unnoticed w v → R v)
      → ((raw : Text) (v : World) → Unnoticed w v → R (send_notice crypto r user_id raw v).1)
      → R (request_confirmation crypto r user_id a now w).1
  unfolding request_confirmation
  request_confirmation_after user_id a now w R before after =
      bind_after (Unnoticed w) R _ (generate_token crypto) (generate_token-Unnoticed w) before
        (λ t.
          bind_after (Unnoticed w) R _ _ (create_pending-Unnoticed user_id a t.1 _ w) before
            (λ _. after t.0))
        w ((refl, refl, refl), refl)

  request_confirmation_frame :
      (user_id : ℕ) (a : LoginAttempt) (now : ℕ) (w : World)
      → SameAccounts w (request_confirmation crypto r user_id a now w).1
  request_confirmation_frame user_id a now w =
      request_confirmation_after user_id a now w (SameAccounts w) (λ v h. h.0)
        (λ raw v. send_notice_frame user_id raw w v)

  request_confirmation_mail :
      (user_id : ℕ) (a : LoginAttempt) (now : ℕ) (w : World) (user : User)
      → find (has_id user_id) w.users ≡ some user
      → MailsOnly user w (request_confirmation crypto r user_id a now w).1
  request_confirmation_mail user_id a now w user known =
      request_confirmation_after user_id a now w (MailsOnly user w) (λ v h. inl (ap recipients h.1))
        (λ raw v. send_notice_mail user_id raw user w v known)

  resolve_existing_user_held :
      (a : LoginAttempt) (now : ℕ) (existing : User) (w : World)
      → 0 < count (λ (i : AuthIdentity). i.user_id == existing.id) w.identities
      → a.trusted ≡ false
      → IsHeldBack w (resolve_existing_user crypto r a now existing w)
  unfolding resolve_existing_user
  resolve_existing_user_held a now existing w claimed untrusted = ground (
    arith,
    count_auth_identities_cases existing.id w,
    request_confirmation_frame existing.id a now (called w),
  )

  -- An attempt that no identity is linked to, that no trusted provider vouches for, and whose email
  -- belongs to a user somebody has already logged in as, never logs in as anybody and changes no
  -- identity, user or password, whatever calls fail.
  pub untrusted_no_takeover :
      (a : LoginAttempt) (w : World) (existing : User)
      → find (has_key a.provider_type a.provider_config_id a.subject) w.identities ≡ none
      → find (has_email a.email) w.users ≡ some existing
      → 0 < count (λ (i : AuthIdentity). i.user_id == existing.id) w.identities
      → a.trusted ≡ false
      → IsHeldBack w (resolve crypto r a w)
  unfolding resolve resolve_by_identity resolve_by_email
  untrusted_no_takeover a w existing unseen known claimed untrusted = ground (
    arith,
    find_auth_identity_cases a.provider_type a.provider_config_id a.subject w,
    find_user_by_email_cases a.email (called w),
    resolve_existing_user_held a w.clock existing (called (called w)),
  )

  -- An attempt with a known identity and another email than the identity was linked with never
  -- logs in, trusted or not, and changes no identity, user or password, whatever calls fail.
  reassigned_email_held :
      (a : LoginAttempt) (w : World) (i : AuthIdentity)
      → find (has_key a.provider_type a.provider_config_id a.subject) w.identities ≡ some i
      → equal_fold i.email_at_link a.email ≡ false
      → IsHeldBack w (resolve crypto r a w)
  unfolding resolve resolve_by_identity resolve_known
  reassigned_email_held a w i known differs = ground (
    arith,
    find_auth_identity_cases a.provider_type a.provider_config_id a.subject w,
    request_confirmation_frame i.user_id a w.clock (called w),
  )

  resolve_existing_user_mail :
      (a : LoginAttempt) (now : ℕ) (existing : User) (w : World)
      → find (has_id existing.id) w.users ≡ some existing
      → 0 < count (λ (i : AuthIdentity). i.user_id == existing.id) w.identities
      → a.trusted ≡ false
      → MailsOnly existing w (resolve_existing_user crypto r a now existing w).1
  unfolding resolve_existing_user
  resolve_existing_user_mail a now existing w registered claimed untrusted = ground (
    arith,
    count_auth_identities_cases existing.id w,
    request_confirmation_mail existing.id a now (called w) existing registered,
  )

  -- An untrusted attempt that no identity is linked to, with the email of a user somebody has
  -- already logged in as, sends at most one mail, and that goes to the address that the user is
  -- registered with.
  pub untrusted_mail :
      (a : LoginAttempt) (w : World) (existing : User)
      → find (has_key a.provider_type a.provider_config_id a.subject) w.identities ≡ none
      → find (has_email a.email) w.users ≡ some existing
      → find (has_id existing.id) w.users ≡ some existing
      → 0 < count (λ (i : AuthIdentity). i.user_id == existing.id) w.identities
      → a.trusted ≡ false
      → MailsOnly existing w (resolve crypto r a w).1
  unfolding resolve resolve_by_identity resolve_by_email
  untrusted_mail a w existing unseen known registered claimed untrusted = ground (
    arith,
    find_auth_identity_cases a.provider_type a.provider_config_id a.subject w,
    find_user_by_email_cases a.email (called w),
    resolve_existing_user_mail a w.clock existing (called (called w)),
  )

  -- An attempt with a known identity and another email than the identity was linked with sends at
  -- most one mail, and that goes to the address that the identity's user is registered with.
  pub reassigned_email_mail :
      (a : LoginAttempt) (w : World) (i : AuthIdentity) (owner : User)
      → find (has_key a.provider_type a.provider_config_id a.subject) w.identities ≡ some i
      → equal_fold i.email_at_link a.email ≡ false
      → find (has_id i.user_id) w.users ≡ some owner
      → MailsOnly owner w (resolve crypto r a w).1
  unfolding resolve resolve_by_identity resolve_known
  reassigned_email_mail a w i owner known differs registered = ground (
    arith,
    find_auth_identity_cases a.provider_type a.provider_config_id a.subject w,
    request_confirmation_mail i.user_id a w.clock (called w) owner registered,
  )
