-- ===== src/Auth/Oidc/Trust.antt =====
-- Who a callback may become.
use knives.Prelude.{ℕ, ◌≡◌, ◌<◌, refl, subst, Text, false, ◌==◌, some, none, find, count, arith}
use knives.World.{World, called}
use knives.World.Effects.{ok, err, Err}
use knives.World.Rows.{User, AuthIdentity}
use knives.World.Logins.{OidcConfig, OidcPendingLogin}
use knives.Storage.Cipher.{Aead}
use knives.Storage.Accounts.{has_key, has_email}
use knives.Auth.Crypto.{Crypto}
use knives.Auth.Identity.{LoginAttempt, Outcome, Resolver, resolve}
use knives.Auth.Identity.Safety.{IsHeldBack, untrusted_no_takeover}
use knives.Auth.Oidc.{OidcLogin, CallbackQuery, handle_callback, oauth2_config}
use knives.Auth.Oidc.Claims.{OidcLibrary, OauthConfig, oidc_attempt, checked_attempt}
use knives.Auth.Oidc.Vouched.{IsVouched, attempt-IsVouched}
use knives.Auth.Oidc.Accepted.{
  IsAccepted, IsAccepted-unique, Refused, kept, used, used_up, callback_cases,
}

distrusted :
    (lib : OidcLibrary) (conf : OauthConfig) (config_id : ℕ) (cfg : OidcConfig) (code : Text)
    (pending : OidcPendingLogin) (a : LoginAttempt)
    → cfg.require_email_verified_claim ≡ false
    → oidc_attempt lib conf config_id cfg code pending ≡ ok a
    → a.trusted ≡ false
unfolding oidc_attempt checked_attempt
distrusted lib conf config_id cfg code pending a h k = ground arith

rejected_held : (state : Text) (w v : World) (e : Err) → Refused state w v → IsHeldBack w (err e, v)
rejected_held state w v e (kept bs) = ((refl, refl, refl), λ u. cc)
rejected_held state w v e (used bs) = ((refl, refl, refl), λ u. cc)

module _ (crypto : Crypto) (c : Aead) (s : OidcLogin) (r : Resolver) (lib : OidcLibrary)
    (config_id : ℕ) (query : CallbackQuery) (w : World) where
  -- A callback that ends in an outcome has passed every check: the configuration is stored and
  -- enabled; the state belongs to a login that was begun there and has not run out; the provider
  -- gave an ID token for the code and that login's verifier, which verifies for the issuer and the
  -- client and carries that login's nonce, a subject and an email. The outcome is the resolver's for
  -- the attempt of that subject and email, trusted only where the configuration relies on the claim
  -- and the token makes it, on a state in which the callback's state is gone.
  pub callback_ok :
      (o : Outcome)
      → (handle_callback crypto c s r lib config_id query w).0 ≡ ok o
      → (a : LoginAttempt) × (p : IsAccepted c s lib config_id query w a) × IsVouched lib
          (oauth2_config lib s p.cfg)
          config_id
          p.cfg
          query.code
          p.pending
          a
        × (handle_callback crypto c s r lib config_id query w
            ≡ resolve crypto r a (used_up query.state (called (called w))))
  callback_ok o =
      callback_cases c s lib config_id query crypto r w
        (λ x.
          x.0 ≡ ok o
          → (a : LoginAttempt) × (p : IsAccepted c s lib config_id query w a) × IsVouched lib
              (oauth2_config lib s p.cfg) config_id p.cfg query.code p.pending a
            × (x ≡ resolve crypto r a (used_up query.state (called (called w)))))
        (λ e v f h. cc)
        (λ a p h.
          (a, p, attempt-IsVouched lib _ config_id p.cfg query.code p.pending a p.verified, refl))

  -- At a provider whose claims are not to be relied on: an accepted token that no identity is
  -- linked to, with the email of a user somebody has already logged in as, never logs in as
  -- anybody and changes no identity, user or password, whatever calls fail and whatever the token
  -- claims.
  pub distrusted_no_takeover :
      (a : LoginAttempt) (existing : User) (accepted : IsAccepted c s lib config_id query w a)
      → accepted.cfg.require_email_verified_claim ≡ false
      → find (has_key a.provider_type a.provider_config_id a.subject) w.identities ≡ none
      → find (has_email a.email) w.users ≡ some existing
      → 0 < count (λ (i : AuthIdentity). i.user_id == existing.id) w.identities
      → IsHeldBack w (handle_callback crypto c s r lib config_id query w)
  distrusted_no_takeover a existing accepted policy unseen known claimed =
      callback_cases c s lib config_id query crypto r w (IsHeldBack w)
        (λ e v f. rejected_held query.state w v e f)
        (λ b same.
          subst (λ t. IsHeldBack w (resolve crypto r t (used_up query.state (called (called w)))))
            (IsAccepted-unique c s lib config_id query w a b accepted same)
            (untrusted_no_takeover crypto r a (used_up query.state (called (called w))) existing
              unseen known claimed
              (distrusted lib _ config_id accepted.cfg query.code accepted.pending a policy
                accepted.verified)))
