-- ===== src/Auth/Oidc/Vouched.antt =====
-- What an ID token says of the login attempt that is made of it.
use knives.Prelude.{
  ℕ, ◌≡◌, ◌≢◌, refl, sym, ◌∙◌, arith, ap, Text, text_eq, text_eq_iff, Bool, true, false, not, ◌&&◌,
  if◌then◌else◌, [], Option, some, none,
}
use knives.World.Effects.{Result, ok, err, oidc_response_invalid}
use knives.World.Rows.{oidc}
use knives.World.Logins.{OidcConfig, OidcPendingLogin}
use knives.Auth.Identity.{LoginAttempt}
use knives.Auth.Providers.{is_empty}
use knives.Auth.Oidc.Claims.{
  OauthConfig, Claims, IdToken, OidcLibrary, given, attempt_of, checked_attempt, oidc_attempt,
}

given-ok :
    {A B : Type 0} (o : Option A) (k : A → Result B) {b : B}
    → given o k ≡ ok b
    → (a : A) × (o ≡ some a) × (k a ≡ ok b)
given-ok none k h = cc
given-ok (some a) k h = (a, refl, h)

test-ok :
    {B : Type 0} (b : Bool) (k : Result B) {x : B}
    → (if b then err oidc_response_invalid else k) ≡ ok x
    → (b ≡ false) × (k ≡ ok x)
test-ok true k h = cc
test-ok false k h = (refl, h)

nonempty : (s : Text) → is_empty s ≡ false → s ≢ []
unfolding is_empty
nonempty s h e = ground (arith, text_eq_iff s [])

module _ (lib : OidcLibrary) (conf : OauthConfig) (config_id : ℕ) (cfg : OidcConfig) (code : Text)
    (pending : OidcPendingLogin) where
  -- The provider gave a token for the code and the login's verifier; it verifies for the
  -- configuration's issuer and client and carries the login's nonce; subject and email are its
  -- own; and the email is trusted only where the configuration and the token say so.
  pub record IsVouched (a : LoginAttempt) : Type 0 where
    pub raw : Text
    pub token : IdToken
    pub claims : Claims
    pub exchanged : lib.exchange conf code pending.code_verifier ≡ some (some raw)
    pub verified : lib.verify cfg.issuer cfg.client_id raw ≡ some token
    pub claimed : token.claims ≡ some claims
    pub nonce : token.nonce ≡ pending.nonce
    pub provider : a.provider_type ≡ oidc
    pub config : a.provider_config_id ≡ some config_id
    pub subject : a.subject ≡ token.subject
    pub email : a.email ≡ claims.email
    pub subject_given : a.subject ≢ []
    pub email_given : a.email ≢ []
    pub trust : a.trusted ≡ (cfg.require_email_verified_claim && claims.email_verified)

  pub attempt-IsVouched :
      (a : LoginAttempt) → oidc_attempt lib conf config_id cfg code pending ≡ ok a → IsVouched a
  unfolding oidc_attempt checked_attempt
  attempt-IsVouched a h =
      let (_, h1) = test-ok (not (lib.discover cfg.issuer)) _ h in
      let (extra, exchanged, h2) = given-ok (lib.exchange conf code pending.code_verifier) _ h1 in
      let (raw, given_raw, h3) = given-ok extra _ h2 in
      let (_, h4) = test-ok (is_empty raw) _ h3 in
      let (token, verified, h5) = given-ok (lib.verify cfg.issuer cfg.client_id raw) _ h4 in
      let (same, h6) = test-ok (not (text_eq token.nonce pending.nonce)) _ h5 in
      let (subject, h7) = test-ok (is_empty token.subject) _ h6 in
      let (claims, claimed, h8) = given-ok token.claims _ h7 in
      let (email, h9) = test-ok (is_empty claims.email) _ h8 in
      let made : attempt_of config_id cfg token claims ≡ a = cc in
      record {
        raw = raw;
        token = token;
        claims = claims;
        exchanged = cc;
        verified = verified;
        claimed = claimed;
        nonce = ground (arith, text_eq_iff token.nonce pending.nonce);
        provider = ap (λ b. b.provider_type) (sym made);
        config = ap (λ b. b.provider_config_id) (sym made);
        subject = ap (λ b. b.subject) (sym made);
        email = ap (λ b. b.email) (sym made);
        subject_given = λ e. nonempty token.subject subject (ap (λ b. b.subject) made ∙ e);
        email_given = λ e. nonempty claims.email email (ap (λ b. b.email) made ∙ e);
        trust = ap (λ b. b.trusted) (sym made);
      }
