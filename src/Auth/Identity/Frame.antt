-- ===== src/Auth/Identity/Frame.antt =====
-- What a login attempt leaves alone: a property of the state that each of the writes of `Resolve`
-- keeps is kept by the whole of it.
use knives.Prelude.{
  ℕ, ◌+◌, ◌≡◌, Text, Bool, true, false, List, ◌∷◌, Bool-cases, if◌then◌else◌, inl, inr, equal_fold,
  ◌==◌, ◌||◌,
}
use knives.World.{World, called, failing}
use knives.World.Effects.{Result, ok, err, pure, ◌>>◌, not_found}
use knives.World.Effects.Keeps.{Keeps}
use knives.World.Stable.{statement-Keeps, bind-Keeps, if_after, read-Keeps, raw_token-Keeps}
use knives.World.Rows.{User, AuthIdentity, PendingLinkRequest, AuditLogEntry, Mail}
use knives.Storage.Accounts.{
  find_auth_identity, find_user_by_email, find_user_by_id, count_auth_identities_for_user,
  create_user, create_auth_identity, touch_auth_identity, create_pending_link_request,
  record_audit_log, find_auth_settings, send_mail,
}
use knives.Storage.Accounts.Cases.{new_identity, touched}
use knives.Auth.Crypto.{Crypto}
use knives.Auth.Identity.{
  logged_in, pending_confirmation, ttl_or_default, LoginAttempt, Resolver, generate_token, notice,
  record_link_audit, attach_identity, send_notice, request_confirmation, resolve_known,
  resolve_new_user, resolve_existing_user, resolve_by_email, resolve_by_identity, resolve,
}

-- `P` does not depend on what a login attempt writes, but for the identities.
pub record IsStable (a : LoginAttempt) (P : World → Type 0) : Type 0 where
  pub faults : (w : World) (bs : List Bool) → P w → P (record w { faults = bs })
  pub tokens :
      (w : World) (t : Text) (ts : List Text)
      → w.tokens ≡ t ∷ ts
      → P w
      → P (record w { tokens = ts })
  pub users :
      (w : World) (us : List User) → P w → P (record w { users = us; next_id = w.next_id + 1 })
  pub pending_links :
      (w : World) (ps : List PendingLinkRequest)
      → P w
      → P (record w { pending_links = ps; next_id = w.next_id + 1 })
  pub audit_log : (w : World) (es : List AuditLogEntry) → P w → P (record w { audit_log = es })
  pub outbox : (w : World) (ms : List Mail) → P w → P (record w { outbox = ms })
  pub linked :
      (w : World) (user_id : ℕ)
      → P w
      → P (record w {
        identities =
            new_identity user_id a.provider_type a.provider_config_id a.subject a.email true w
            ∷ w.identities;
        next_id = w.next_id + 1;
      })
  pub touches :
      (w : World) (id at : ℕ) → P w → P (record w { identities = touched id at w.identities })

module _ (a : LoginAttempt) (P : World → Type 0) (stable : IsStable a P) where
  same : (w : World) → P w → P (called w)
  same w h = stable.faults w (called w).faults h

  create_user-Keeps : (e : Text) (v : Bool) → Keeps P (create_user e v)
  unfolding create_user
  create_user-Keeps e v = statement-Keeps P _ same (λ w h. search (if_after P, stable.users))

  attach_identity-Keeps : (user_id : ℕ) (new : Bool) → Keeps P (attach_identity user_id a new)
  unfolding attach_identity create_auth_identity record_link_audit record_audit_log
  attach_identity-Keeps user_id new =
      bind-Keeps P _ _ (statement-Keeps P _ same (λ w h. search (if_after P, stable.linked)))
        (λ i. statement-Keeps P _ same (λ w h. stable.audit_log w _ h))

  generate_token-Keeps : (crypto : Crypto) → Keeps P (generate_token crypto)
  unfolding generate_token
  generate_token-Keeps crypto = bind-Keeps P _ _ (raw_token-Keeps P stable.tokens) (λ raw w h. h)

  module _ (crypto : Crypto) (r : Resolver) where
    send_mail-Keeps : (mail : Mail) → Keeps P (send_mail mail)
    unfolding send_mail
    send_mail-Keeps mail w h = elim (Bool-cases (failing w.faults)) [
      | inl f ↦ rw f (same w h)
      | inr f ↦ rw f (stable.outbox (called w) _ (same w h))
    ]

    find_user-Keeps : (id : ℕ) → Keeps P (find_user_by_id id)
    unfolding find_user_by_id
    find_user-Keeps id = read-Keeps P _ same

    find_settings-Keeps : Keeps P find_auth_settings
    unfolding find_auth_settings
    find_settings-Keeps = read-Keeps P _ same

    send_notice-Keeps : (user_id : ℕ) (raw : Text) → Keeps P (send_notice crypto r user_id raw)
    unfolding send_notice
    send_notice-Keeps user_id raw =
        bind-Keeps P (find_user_by_id user_id) _ (find_user-Keeps user_id) (λ user.
          bind-Keeps P find_auth_settings _ find_settings-Keeps
            (λ settings. send_mail-Keeps (notice crypto r settings.require_reauth user.email raw)))

    create_pending-Keeps :
        (user_id : ℕ) (hash : Text) (expires_at : ℕ)
        → Keeps P (
            create_pending_link_request user_id a.provider_type a.provider_config_id a.subject hash
              expires_at)
    unfolding create_pending_link_request
    create_pending-Keeps user_id hash expires_at =
        statement-Keeps P _ same (λ w h. search (if_after P, stable.pending_links))

    request_confirmation-Keeps :
        (user_id now : ℕ) → Keeps P (request_confirmation crypto r user_id a now)
    unfolding request_confirmation
    request_confirmation-Keeps user_id now =
        bind-Keeps P (generate_token crypto) _ (generate_token-Keeps crypto) (λ t.
          bind-Keeps P
            (create_pending_link_request user_id a.provider_type a.provider_config_id a.subject t.1
              (now + ttl_or_default r.token_ttl))
            _ (create_pending-Keeps user_id t.1 _) (λ _. send_notice-Keeps user_id t.0))

    touch-Keeps : (id at : ℕ) → Keeps P (touch_auth_identity id at)
    unfolding touch_auth_identity
    touch-Keeps id at = statement-Keeps P _ same (λ w h. stable.touches w id at h)

    resolve_known-Keeps : (now : ℕ) (i : AuthIdentity) → Keeps P (resolve_known crypto r a now i)
    unfolding resolve_known
    resolve_known-Keeps now i w h = elim (Bool-cases (equal_fold i.email_at_link a.email)) [
      | inl e ↦ rw e (
          bind-Keeps P (touch_auth_identity i.id now) _ (touch-Keeps i.id now)
            (λ _.
              bind-Keeps P (find_user_by_id i.user_id) _ (find_user-Keeps i.user_id) (λ u v k. k))
            w h)
      | inr e ↦ rw e (
          bind-Keeps P (request_confirmation crypto r i.user_id a now) _
            (request_confirmation-Keeps i.user_id now) (λ _ v k. k) w h)
    ]

    resolve_new_user-Keeps : Keeps P (resolve_new_user crypto r a)
    unfolding resolve_new_user
    resolve_new_user-Keeps =
        bind-Keeps P (create_user a.email a.email_verified) _
          (create_user-Keeps a.email a.email_verified)
          (λ user.
            bind-Keeps P (attach_identity user.id a true) _ (attach_identity-Keeps user.id true)
              (λ _ v k. k))

    link_or_ask-Keeps :
        (now id : ℕ) (existing : User) (b : Bool)
        → Keeps P (
            if b
            then (do attach_identity id a false; pure (logged_in existing))
            else (do request_confirmation crypto r id a now; pure pending_confirmation))
    link_or_ask-Keeps now id existing true =
        bind-Keeps P (attach_identity id a false) _ (attach_identity-Keeps id false) (λ _ v k. k)
    link_or_ask-Keeps now id existing false =
        bind-Keeps P (request_confirmation crypto r id a now) _ (request_confirmation-Keeps id now)
          (λ _ v k. k)

    count-Keeps : (id : ℕ) → Keeps P (count_auth_identities_for_user id)
    unfolding count_auth_identities_for_user
    count-Keeps id = read-Keeps P _ same

    resolve_existing_user-Keeps :
        (now : ℕ) (existing : User) → Keeps P (resolve_existing_user crypto r a now existing)
    unfolding resolve_existing_user
    resolve_existing_user-Keeps now existing =
        bind-Keeps P (count_auth_identities_for_user existing.id) _ (count-Keeps existing.id)
          (λ n. link_or_ask-Keeps now existing.id existing (n == 0 || a.trusted))

    resolve_by_email-Keeps :
        (now : ℕ) (found : Result User) → Keeps P (resolve_by_email crypto r a now found)
    unfolding resolve_by_email
    resolve_by_email-Keeps now (ok existing) = resolve_existing_user-Keeps now existing
    resolve_by_email-Keeps now (err not_found) = resolve_new_user-Keeps
    resolve_by_email-Keeps now (err _) = λ w h. h

    email-Keeps : Keeps P (find_user_by_email a.email)
    unfolding find_user_by_email
    email-Keeps = read-Keeps P _ same

    identity-Keeps : Keeps P (find_auth_identity a.provider_type a.provider_config_id a.subject)
    unfolding find_auth_identity
    identity-Keeps = read-Keeps P _ same

    resolve_by_identity-Keeps :
        (now : ℕ) (found : Result AuthIdentity) → Keeps P (resolve_by_identity crypto r a now found)
    unfolding resolve_by_identity
    resolve_by_identity-Keeps now (ok i) w h = resolve_known-Keeps now i w h
    resolve_by_identity-Keeps now (err not_found) w h =
        resolve_by_email-Keeps now (find_user_by_email a.email w).0 (find_user_by_email a.email w).1
          (email-Keeps w h)
    resolve_by_identity-Keeps now (err _) w h = h

    -- Whatever calls fail.
    pub resolve-Keeps : Keeps P (resolve crypto r a)
    unfolding resolve
    resolve-Keeps w h =
        let (found, w') = find_auth_identity a.provider_type a.provider_config_id a.subject w in
        resolve_by_identity-Keeps w.clock found w' (identity-Keeps w h)
