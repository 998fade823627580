-- ===== src/Auth/Oidc/Accepted.antt =====
-- What a callback has checked when it hands a login attempt to the resolver.
use knives.Prelude.{
  ℕ, ◌≡◌, sym, ◌∙◌, Text, Bool, true, not, List, Option, none, some, find, Bool-cases, Option-cases,
  inl, inr, arith,
}
use knives.World.{World, called, statement, failing}
use knives.World.Effects.{Result, ok, err, Err, pure, lift, not_found, ◌>>=◌}
use knives.World.Effects.Inversion.{bind_cases, guard_cases}
use knives.World.Logins.{OidcConfigRow, OidcConfig, OidcPendingLogin}
use knives.Storage.Cipher.{Aead}
use knives.Storage.Providers.{has_oidc_id, to_domain, find_oidc_row, find_oidc_config}
use knives.Auth.Crypto.{Crypto}
use knives.Auth.Identity.{LoginAttempt, Outcome, Resolver, resolve}
use knives.Auth.Providers.{is_empty}
use knives.Auth.Nonces.{lookup_key, without_key, in_redis, consume_state}
use knives.Auth.Oidc.{
  OidcLogin, CallbackQuery, oauth2_config, enabled_oidc_config, for_config, handle_callback,
}
use knives.Auth.Oidc.Claims.{OidcLibrary, oidc_attempt}

-- The state is gone.
abbrev pub used_up : Text → World → World
used_up state w =
    in_redis w (record w.ceremonies { oidc_states = without_key state w.ceremonies.oidc_states })

-- What a callback that was refused leaves: only calls and the state are used up.
pub data Refused (state : Text) (w : World) : World → Type 0 where
  kept : (bs : List Bool) → Refused state w (record w { faults = bs })
  used : (bs : List Bool) → Refused state w (record (used_up state w) { faults = bs })

module _ (c : Aead) (config_id : ℕ) where
  find_config_state : (w : World) → (find_oidc_config c config_id w).1 ≡ called w
  unfolding find_oidc_config find_oidc_row statement
  find_config_state w = ground arith

  find_config-ok :
      (cfg : OidcConfig) (w : World)
      → (find_oidc_config c config_id w).0 ≡ ok cfg
      → (row : OidcConfigRow) × (find (has_oidc_id config_id) w.providers.oidc_configs ≡ some row)
        × (to_domain c row ≡ ok cfg)
  unfolding find_oidc_config find_oidc_row statement
  find_config-ok cfg w h =
      elim (Option-cases (find (has_oidc_id config_id) w.providers.oidc_configs)) [
        | inl e ↦ absurd (ground arith)
        | inr (row, e) ↦ (row, e, ground arith)
      ]

  pub enabled_state : (w : World) → (enabled_oidc_config c config_id w).1 ≡ called w
  unfolding enabled_oidc_config
  enabled_state w =
      bind_cases (λ x. x.1 ≡ called w) (find_oidc_config c config_id) _ w
        (λ e h. find_config_state w)
        (λ cfg h.
          guard_cases (λ x. x.1 ≡ called w) cfg.enabled not_found (pure cfg) _
            (λ _. find_config_state w) (λ _. find_config_state w))

  enabled-ok :
      (cfg : OidcConfig) (w : World)
      → (enabled_oidc_config c config_id w).0 ≡ ok cfg
      → ((find_oidc_config c config_id w).0 ≡ ok cfg) × (cfg.enabled ≡ true)
  unfolding enabled_oidc_config
  enabled-ok cfg w =
      bind_cases
        (λ x. x.0 ≡ ok cfg → ((find_oidc_config c config_id w).0 ≡ ok cfg) × (cfg.enabled ≡ true))
        (find_oidc_config c config_id) _ w (λ e h k. cc)
        (λ found h.
          guard_cases
            (λ x.
              x.0 ≡ ok cfg → ((find_oidc_config c config_id w).0 ≡ ok cfg) × (cfg.enabled ≡ true))
            found.enabled not_found (pure found) _ (λ _ k. cc)
            (λ enabled k. let same : found ≡ cfg = cc in (cc, cc)))

module _ (c : Aead) (s : OidcLogin) (lib : OidcLibrary) (config_id : ℕ)
    (query : CallbackQuery) where
  -- The configuration is enabled, the state belongs to a login that was begun there and has not
  -- run out, and the token passes every check and gives the attempt `a`.
  pub record IsAccepted (w : World) (a : LoginAttempt) : Type 0 where
    pub row : OidcConfigRow
    pub cfg : OidcConfig
    pub pending : OidcPendingLogin
    pub stored : find (has_oidc_id config_id) w.providers.oidc_configs ≡ some row
    pub decrypted : to_domain c row ≡ ok cfg
    pub enabled : cfg.enabled ≡ true
    pub no_error : is_empty query.error ≡ true
    pub begun : lookup_key w.clock query.state w.ceremonies.oidc_states ≡ some pending
    pub here : pending.config_id ≡ config_id
    pub verified :
        oidc_attempt lib (oauth2_config lib s cfg) config_id cfg query.code pending ≡ ok a

  pub IsAccepted-unique : (w : World) (a b : LoginAttempt) → IsAccepted w a → IsAccepted w b → a ≡ b
  IsAccepted-unique w a b p q =
      let row : p.row ≡ q.row = cc (p.stored, q.stored) in
      let cfg : p.cfg ≡ q.cfg = cc (row, p.decrypted, q.decrypted) in
      let pending : p.pending ≡ q.pending = cc (p.begun, q.begun) in
      cc (cfg, pending, p.verified, q.verified)

  consume_state-ok :
      (found : Option OidcPendingLogin) (w : World)
      → (consume_state query.state w).0 ≡ ok found
      → (found ≡ lookup_key w.clock query.state w.ceremonies.oidc_states)
        × ((consume_state query.state w).1 ≡ used_up query.state (called w))
  unfolding consume_state statement
  consume_state-ok found w h = ground arith

  consume_state-Refused :
      (w : World) → Refused query.state w (consume_state query.state (called w)).1
  unfolding consume_state statement
  consume_state-Refused w = elim (Bool-cases (failing (called w).faults)) [
    | inl f ↦ rw f (kept _)
    | inr f ↦ rw f (used _)
  ]

  for_config-ok :
      (found : Option OidcPendingLogin) (pending : OidcPendingLogin)
      → for_config config_id found ≡ ok pending
      → (found ≡ some pending) × (pending.config_id ≡ config_id)
  for_config-ok none pending h = cc
  for_config-ok (some p) pending h = ground arith

  module _ (crypto : Crypto) (r : Resolver) (w : World) (R : Result Outcome × World → Type 0)
      (failed : (e : Err) (v : World) → Refused query.state w v → R (err e, v))
      (done : (a : LoginAttempt)
        → IsAccepted w a
        → R (resolve crypto r a (used_up query.state (called (called w))))) where
    consumed_cases :
        (cfg : OidcConfig)
        → (find_oidc_config c config_id w).0 ≡ ok cfg
        → cfg.enabled ≡ true
        → is_empty query.error ≡ true
        → (found : Option OidcPendingLogin)
        → found ≡ lookup_key w.clock query.state w.ceremonies.oidc_states
        → R (
            (do
              pending ← lift (for_config config_id found)
              attempt ←
                  lift (oidc_attempt lib (oauth2_config lib s cfg) config_id cfg query.code pending)
              resolve crypto r attempt)
              (used_up query.state (called (called w))))
    consumed_cases cfg config enabled no_error found known =
        bind_cases R (lift (for_config config_id found)) _ (used_up query.state (called (called w)))
          (λ e h. failed e _ (used _))
          (λ pending h.
            bind_cases R
              (lift (oidc_attempt lib (oauth2_config lib s cfg) config_id cfg query.code pending)) _
              _ (λ e k. failed e _ (used _))
              (λ a k.
                let (row, stored, decrypted) = find_config-ok c config_id cfg w config in
                let (here, begun) = for_config-ok found pending h in
                done a (record {
                  row = row;
                  cfg = cfg;
                  pending = pending;
                  stored = stored;
                  decrypted = decrypted;
                  enabled = enabled;
                  no_error = no_error;
                  begun = sym known ∙ here;
                  here = begun;
                  verified = k;
                })))

    checked_cases :
        (cfg : OidcConfig)
        → (find_oidc_config c config_id w).0 ≡ ok cfg
        → cfg.enabled ≡ true
        → is_empty query.error ≡ true
        → R (
            (do
              found ← consume_state query.state
              pending ← lift (for_config config_id found)
              attempt ←
                  lift (oidc_attempt lib (oauth2_config lib s cfg) config_id cfg query.code pending)
              resolve crypto r attempt)
              (called w))
    checked_cases cfg config enabled no_error =
        bind_cases R (consume_state query.state) _ (called w)
          (λ e h. failed e _ (consume_state-Refused w))
          (λ found h.
            let (known, state) = consume_state-ok found (called w) h in
            rw state (consumed_cases cfg config enabled no_error found known))

    -- A callback is refused, with nothing changed but its state, or it resolves an attempt that
    -- passed every check.
    pub callback_cases : R (handle_callback crypto c s r lib config_id query w)
    unfolding handle_callback
    callback_cases =
        bind_cases R (enabled_oidc_config c config_id) _ w
          (λ e h. rw (enabled_state c config_id w) (failed e _ (kept _)))
          (λ cfg h.
            let (config, enabled) = enabled-ok c config_id cfg w h in
            rw (enabled_state c config_id w) (
              guard_cases R (is_empty query.error) _ _ (called w) (λ _. failed _ _ (kept _))
                (λ no_error.
                  guard_cases R (not (is_empty query.code)) _ _ (called w)
                    (λ _. failed _ _ (kept _))
                    (λ _.
                      guard_cases R (not (is_empty query.state)) _ _ (called w)
                        (λ _. failed _ _ (kept _))
                        (λ _. checked_cases cfg config enabled no_error)))))
