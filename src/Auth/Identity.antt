-- ===== src/Auth/Identity.antt =====
-- internal/auth/identity.go: `Resolver`, the one place where a login attempt is turned into a
-- login, a new user, a linked identity, or a request that the account's owner has to confirm.
pub mod Safety
pub mod Linking
pub mod Requests
pub mod Frame
use knives.Prelude.{
  ℕ, ◌+◌, Text, String, codes, Bool, true, false, ◌||◌, ◌==◌, ltb, leb, not, if◌then◌else◌, List,
  [], ◌∷◌, ◌++◌, Option, none, some, equal_fold,
}
use knives.World.{World, raw_token}
use knives.World.Effects.{
  Exec, Result, ok, err, Err, pure, raise, gets, attempt, guard, lift, ◌>>=◌, ◌>>◌, not_found,
  token_expired, token_already_used, is_not_found,
}
use knives.World.Rows.{
  User, ProviderType, local, saml, oidc, AuthIdentity, PendingLinkRequest, AuditLogEntry, MetaValue,
  MetaField, word, flag, Mail, link_confirmation, link_review_notice,
}
use knives.Storage.Accounts.{
  find_auth_identity, find_user_by_email, find_user_by_id, count_auth_identities_for_user,
  create_user, create_auth_identity, touch_auth_identity, create_pending_link_request,
  find_pending_link_request_by_token_hash, find_pending_link_request_by_id,
  find_pending_link_requests_for_user, confirm_pending_link_request, record_audit_log,
  find_auth_settings, send_mail, is_some,
}
use knives.Auth.Crypto.{Crypto}

pub record LoginAttempt : Type 0 where
  pub provider_type : ProviderType
  pub provider_config_id : Option ℕ
  pub subject : Text
  pub email : Text
  pub email_verified : Bool
  pub trusted : Bool

-- `Result` of identity.go: its `User` is set only when somebody is logged in.
pub data Outcome : Type 0 where
  logged_in : User → Outcome
  pending_confirmation : Outcome

pub record Resolver : Type 0 where
  pub confirm_base_url : Text
  pub pending_links_url : Text
  pub token_ttl : ℕ

-- 30 minutes, in nanoseconds
abbrev pub default_pending_link_ttl : ℕ
default_pending_link_ttl = 1800000000000

abbrev pub ttl_or_default : ℕ → ℕ
ttl_or_default ttl = if ttl == 0 then default_pending_link_ttl else ttl

abbrev pub provider_name : ProviderType → String
provider_name local = "local"
provider_name saml = "saml"
provider_name oidc = "oidc"

abbrev pub field : String → MetaValue → MetaField
field name value = record { name = name; value = value }

unfoldable pub record_link_audit : ℕ → ℕ → ProviderType → List MetaField → Exec World (Unit {0})
record_link_audit user_id identity_id provider_type extra = record_audit_log (record {
  actor_user_id = some user_id;
  action = "account.link";
  target_type = "auth_identity";
  target_id = some identity_id;
  metadata = field "provider_type" (word (provider_name provider_type)) ∷ extra;
})

unfoldable pub attach_identity : ℕ → LoginAttempt → Bool → Exec World (Unit {0})
attach_identity user_id a new_user = do
  identity ←
      create_auth_identity user_id a.provider_type a.provider_config_id a.subject a.email true
  record_link_audit user_id identity.id a.provider_type
      (field "new_user" (flag new_user) ∷ field "trusted" (flag a.trusted) ∷ [])

abbrev pub token_url : Text → Text → Text
token_url base token = base ++ codes "?token=" ++ token

module _ (crypto : Crypto) where
  -- generateToken: the raw token and its hash
  unfoldable pub generate_token : Exec World (Text × Text)
  generate_token = do raw ← raw_token; pure (raw, crypto.hash_token raw)

module _ (crypto : Crypto) (r : Resolver) where
  notice : Bool → Text → Text → Mail
  notice true to_email raw = record {
    to_email = to_email;
    body = link_review_notice r.pending_links_url;
  }
  notice false to_email raw = record {
    to_email = to_email;
    body = link_confirmation (token_url r.confirm_base_url raw);
  }

  -- The mail that tells the account's owner of a request.
  unfoldable pub send_notice : ℕ → Text → Exec World (Unit {0})
  unfolding notice
  send_notice existing_user_id raw = do
    existing_user ← find_user_by_id existing_user_id
    settings ← find_auth_settings
    send_mail (notice settings.require_reauth existing_user.email raw)

  unfoldable pub request_confirmation : ℕ → LoginAttempt → ℕ → Exec World (Unit {0})
  request_confirmation existing_user_id a now = do
    (raw, hash) ← generate_token crypto
    create_pending_link_request existing_user_id a.provider_type a.provider_config_id a.subject hash
        (now + ttl_or_default r.token_ttl)
    send_notice existing_user_id raw

  -- The identity is known: a login, unless it comes with another email than it was linked with.
  unfoldable pub resolve_known : LoginAttempt → ℕ → AuthIdentity → Exec World Outcome
  resolve_known a now identity =
      if not (equal_fold identity.email_at_link a.email)
      then (do request_confirmation identity.user_id a now; pure pending_confirmation)
      else (do
        touch_auth_identity identity.id now
        user ← find_user_by_id identity.user_id
        pure (logged_in user))

  unfoldable pub resolve_new_user : LoginAttempt → Exec World Outcome
  resolve_new_user a = do
    user ← create_user a.email a.email_verified
    attach_identity user.id a true
    pure (logged_in user)

  unfoldable pub resolve_existing_user : LoginAttempt → ℕ → User → Exec World Outcome
  resolve_existing_user a now existing = do
    identity_count ← count_auth_identities_for_user existing.id
    if identity_count == 0 || a.trusted
        then (do attach_identity existing.id a false; pure (logged_in existing))
        else (do request_confirmation existing.id a now; pure pending_confirmation)

  unfoldable pub resolve_by_email : LoginAttempt → ℕ → Result User → Exec World Outcome
  resolve_by_email a now (err not_found) = resolve_new_user a
  resolve_by_email a now (err e) = raise e
  resolve_by_email a now (ok existing) = resolve_existing_user a now existing

  unfoldable pub resolve_by_identity : LoginAttempt → ℕ → Result AuthIdentity → Exec World Outcome
  resolve_by_identity a now (ok identity) = resolve_known a now identity
  resolve_by_identity a now (err not_found) = do
    found ← attempt (find_user_by_email a.email)
    resolve_by_email a now found
  resolve_by_identity a now (err e) = raise e

  unfoldable pub resolve : LoginAttempt → Exec World Outcome
  resolve a = do
    now ← gets (λ w. w.clock)
    found ← attempt (find_auth_identity a.provider_type a.provider_config_id a.subject)
    resolve_by_identity a now found

unfoldable pub link_to : PendingLinkRequest → ℕ → ℕ → String → Exec World Outcome
link_to pending user_id now via = do
  user ← find_user_by_id user_id
  identity ←
      create_auth_identity user.id pending.provider_type pending.provider_config_id pending.subject
        user.email true
  confirm_pending_link_request pending.id now
  record_link_audit user.id identity.id pending.provider_type (field "via" (word via) ∷ [])
  pure (logged_in user)

-- The two ways to complete a pending request check the request alike and differ in who may.
unfoldable pub complete_link : PendingLinkRequest → ℕ → ℕ → String → Exec World Outcome
complete_link pending user_id now via = do
  guard (not (is_some pending.confirmed_at)) token_already_used
  guard (leb now pending.expires_at) token_expired
  link_to pending user_id now via

unfoldable pub confirm_pending_link : Crypto → Text → Exec World Outcome
confirm_pending_link crypto raw_token = do
  now ← gets (λ w. w.clock)
  pending ← find_pending_link_request_by_token_hash (crypto.hash_token raw_token)
  complete_link pending pending.existing_user_id now "email_confirmation"

unfoldable pub list_pending_links : ℕ → Exec World (List PendingLinkRequest)
list_pending_links user_id = find_pending_link_requests_for_user user_id

unfoldable pub approve_pending_link : ℕ → ℕ → Exec World Outcome
approve_pending_link approver_user_id request_id = do
  now ← gets (λ w. w.clock)
  pending ← find_pending_link_request_by_id request_id
  guard (pending.existing_user_id == approver_user_id) not_found
  complete_link pending approver_user_id now "reauth_approval"
