-- ===== src/Storage/Accounts/Cases.antt =====
-- What each statement on the accounts can do: fail and change nothing, or what its SQL says.
use knives.Prelude.{
  ℕ, ◌≡◌, ◌⊎◌, Text, Bool, true, false, ◌==◌, ◌∷◌, Option, none, some, find, count, update, text_eq,
  arith, List, text_eq_refl,
}
use knives.World.{World, statement, fresh, called}
use knives.World.Effects.{ok, err, or_raise, not_found, unique_violation, fk_violation, db_error}
use knives.World.Rows.{
  ProviderType, local, saml, oidc, AuthIdentity, PendingLinkRequest, AuditLogEntry,
}
use knives.Storage.Accounts.{
  has_key, has_id, has_email, key_taken, new_user, provider_eq, find_auth_identity,
  find_user_by_email, find_user_by_id, count_auth_identities_for_user, create_user,
  create_auth_identity, touch_auth_identity, find_pending_link_request_by_token_hash,
  find_pending_link_request_by_id, confirm_pending_link_request, record_audit_log,
}

pub find_auth_identity_cases :
    (t : ProviderType) (c : Option ℕ) (s : Text) (w : World)
    → (find_auth_identity t c s w ≡ (err db_error, called w))
      ⊎ (find_auth_identity t c s w
          ≡ or_raise not_found (find (has_key t c s) w.identities) (called w))
unfolding find_auth_identity statement
find_auth_identity_cases t c s w = ground arith

pub find_user_by_email_cases :
    (e : Text) (w : World)
    → (find_user_by_email e w ≡ (err db_error, called w))
      ⊎ (find_user_by_email e w ≡ or_raise not_found (find (has_email e) w.users) (called w))
unfolding find_user_by_email statement
find_user_by_email_cases e w = ground arith

pub find_user_by_id_cases :
    (id : ℕ) (w : World)
    → (find_user_by_id id w ≡ (err db_error, called w))
      ⊎ (find_user_by_id id w ≡ or_raise not_found (find (has_id id) w.users) (called w))
unfolding find_user_by_id statement
find_user_by_id_cases id w = ground arith

pub count_auth_identities_cases :
    (id : ℕ) (w : World)
    → (count_auth_identities_for_user id w ≡ (err db_error, called w))
      ⊎ (count_auth_identities_for_user id w
          ≡ (ok (count (λ (i : AuthIdentity). i.user_id == id) w.identities), called w))
unfolding count_auth_identities_for_user statement
count_auth_identities_cases id w = ground arith

pub create_user_cases :
    (e : Text) (v : Bool) (w : World)
    → (create_user e v w ≡ (err db_error, called w))
      ⊎ (create_user e v w ≡ (err unique_violation, called w))
      ⊎ (create_user e v w
          ≡ (ok (new_user e v w), record (fresh (called w)) { users = new_user e v w ∷ w.users }))
unfolding create_user statement
create_user_cases e v w = ground arith

-- The row that a new identity becomes.
abbrev pub new_identity : ℕ → ProviderType → Option ℕ → Text → Text → Bool → World → AuthIdentity
new_identity user_id t c s email verified w = record {
  id = w.next_id;
  user_id = user_id;
  provider_type = t;
  provider_config_id = c;
  subject = s;
  email_at_link = email;
  verified = verified;
  last_used_at = none;
}

pub create_auth_identity_cases :
    (u : ℕ) (t : ProviderType) (c : Option ℕ) (s e : Text) (v : Bool) (w : World)
    → (create_auth_identity u t c s e v w ≡ (err db_error, called w))
      ⊎ (create_auth_identity u t c s e v w ≡ (err unique_violation, called w))
      ⊎ (create_auth_identity u t c s e v w ≡ (err fk_violation, called w))
      ⊎ ((key_taken t c s w.identities ≡ false)
          × (create_auth_identity u t c s e v w ≡ (
            ok (new_identity u t c s e v w),
            record (fresh (called w)) { identities = new_identity u t c s e v w ∷ w.identities },
          )))
unfolding create_auth_identity statement
create_auth_identity_cases u t c s e v w = ground arith

abbrev pub touched : ℕ → ℕ → List AuthIdentity → List AuthIdentity
touched id at = update (λ i. i.id == id) (λ i. record i { last_used_at = some at })

pub touch_auth_identity_cases :
    (id at : ℕ) (w : World)
    → (touch_auth_identity id at w ≡ (err db_error, called w))
      ⊎ (touch_auth_identity id at w
          ≡ (ok tt, record (called w) { identities = touched id at w.identities }))
unfolding touch_auth_identity statement
touch_auth_identity_cases id at w = ground arith

pub find_pending_by_token_cases :
    (h : Text) (w : World)
    → (find_pending_link_request_by_token_hash h w ≡ (err db_error, called w))
      ⊎ (find_pending_link_request_by_token_hash h w
          ≡ or_raise not_found
              (find (λ (p : PendingLinkRequest). text_eq p.token_hash h) w.pending_links)
              (called w))
unfolding find_pending_link_request_by_token_hash statement
find_pending_by_token_cases h w = ground arith

pub find_pending_by_id_cases :
    (id : ℕ) (w : World)
    → (find_pending_link_request_by_id id w ≡ (err db_error, called w))
      ⊎ (find_pending_link_request_by_id id w
          ≡ or_raise not_found
              (find (λ (p : PendingLinkRequest). p.id == id) w.pending_links)
              (called w))
unfolding find_pending_link_request_by_id statement
find_pending_by_id_cases id w = ground arith

abbrev pub confirmed : ℕ → ℕ → List PendingLinkRequest → List PendingLinkRequest
confirmed id at = update (λ p. p.id == id) (λ p. record p { confirmed_at = some at })

pub confirm_pending_cases :
    (id at : ℕ) (w : World)
    → (confirm_pending_link_request id at w ≡ (err db_error, called w))
      ⊎ (confirm_pending_link_request id at w
          ≡ (ok tt, record (called w) { pending_links = confirmed id at w.pending_links }))
unfolding confirm_pending_link_request statement
confirm_pending_cases id at w = ground arith

pub record_audit_log_cases :
    (e : AuditLogEntry) (w : World)
    → (record_audit_log e w ≡ (err db_error, called w))
      ⊎ (record_audit_log e w ≡ (ok tt, record (called w) { audit_log = e ∷ w.audit_log }))
unfolding record_audit_log statement
record_audit_log_cases e w = ground arith

-- A row has its own key.
provider_eq_refl : (t : ProviderType) → provider_eq t t ≡ true
provider_eq_refl local = ground arith
provider_eq_refl saml = ground arith
provider_eq_refl oidc = ground arith

pub has_key-new_identity :
    (u : ℕ) (t : ProviderType) (c : Option ℕ) (s e : Text) (v : Bool) (w : World)
    → has_key t c s (new_identity u t c s e v w) ≡ true
unfolding has_key
has_key-new_identity u t c s e v w = ground (arith, provider_eq_refl t, text_eq_refl s)
