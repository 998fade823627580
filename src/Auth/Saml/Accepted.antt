-- ===== src/Auth/Saml/Accepted.antt =====
-- What the assertion consumer has checked when it hands a login attempt to the resolver.
use knives.Prelude.{
  ℕ, ◌+◌, ◌≡◌, sym, ◌∙◌, Text, Bool, true, false, not, List, [], ◌∷◌, Option, none, some, find, any,
  Bool-cases, inl, inr, arith,
}
use knives.World.{World, called, statement, failing}
use knives.World.Effects.{Result, ok, err, Err, lift, or_raise, saml_response_invalid, ◌>>=◌}
use knives.World.Effects.Inversion.{bind_cases, guard_cases, some_or-ok}
use knives.World.Logins.{SamlConfig}
use knives.Storage.Providers.{has_saml_id, find_saml_config}
use knives.Auth.Crypto.{Crypto}
use knives.Auth.Identity.{LoginAttempt, Outcome, Resolver, resolve}
use knives.Auth.Providers.{is_empty}
use knives.Auth.Nonces.{
  is_live, lookup_key, without_key, put_key, in_redis, consume_request, mark_assertion_seen,
}
use knives.Auth.Oidc.{request_ttl_of}
use knives.Auth.Saml.{
  SamlLogin, SamlLibrary, AcsForm, Assertion, ServiceProvider, new_service_provider, begun_at,
  enabled_saml_config, attempt_of_assertion, accept_assertion, handle_acs,
}

-- The request is gone, and the assertion is on record.
abbrev pub without_request : Text → World → World
without_request relay w =
    in_redis w
      (record w.ceremonies { saml_requests = without_key relay w.ceremonies.saml_requests })

abbrev pub with_assertion : Text → ℕ → World → World
with_assertion id dies_at w =
    in_redis w
      (record w.ceremonies { saml_assertions = put_key id tt dies_at w.ceremonies.saml_assertions })

-- What a response that was refused leaves.
pub data Refused (w : World) : World → Type 0 where
  kept : (bs : List Bool) → Refused w (record w { faults = bs })
  used :
      (relay : Text) (bs : List Bool) → Refused w (record (without_request relay w) { faults = bs })
  marked :
      (relay id : Text) (ttl : ℕ) (bs : List Bool)
      → any (is_live w.clock id) w.ceremonies.saml_assertions ≡ false
      → Refused w
          (record (with_assertion id (w.clock + ttl) (without_request relay w)) { faults = bs })

module _ (s : SamlLogin) (lib : SamlLibrary) (config_id : ℕ) (form : Option AcsForm) where
  -- The configuration is enabled, the RelayState belongs to a request that was begun there and has
  -- not run out, the response holds an assertion that is valid for that request and was not seen
  -- before, and the assertion gives the attempt `a`.
  pub record IsAsserted (w : World) (a : LoginAttempt) : Type 0 where
    pub cfg : SamlConfig
    pub posted : AcsForm
    pub provider : ServiceProvider
    pub assertion : Assertion
    pub stored : find (has_saml_id config_id) w.providers.saml_configs ≡ some cfg
    pub enabled : cfg.enabled ≡ true
    pub parsed : form ≡ some posted
    pub begun : lookup_key w.clock posted.relay_state w.ceremonies.saml_requests ≡ some config_id
    pub validated :
        lib.parse_response provider posted.saml_response (posted.relay_state ∷ []) ≡ some assertion
    pub unseen : any (is_live w.clock assertion.id) w.ceremonies.saml_assertions ≡ false
    pub asserted : attempt_of_assertion config_id cfg assertion ≡ ok a

  abbrev pub after_assertion : AcsForm → Assertion → World → World
  after_assertion posted assertion w =
      with_assertion assertion.id (w.clock + request_ttl_of s.assertion_replay_ttl)
        (without_request posted.relay_state (called (called (called w))))

  enabled_state : (w : World) → (enabled_saml_config config_id w).1 ≡ called w
  unfolding enabled_saml_config find_saml_config statement
  enabled_state w = ground arith

  enabled-ok :
      (cfg : SamlConfig) (w : World)
      → (enabled_saml_config config_id w).0 ≡ ok cfg
      → (find (has_saml_id config_id) w.providers.saml_configs ≡ some cfg) × (cfg.enabled ≡ true)
  unfolding enabled_saml_config find_saml_config statement
  enabled-ok cfg w h = ground arith

  provider_state : (cfg : SamlConfig) (w : World) → (new_service_provider lib s cfg w).1 ≡ w
  unfolding new_service_provider
  provider_state cfg w = ground arith

  consume-ok :
      (relay : Text) (begun : Option ℕ) (w : World)
      → (consume_request relay w).0 ≡ ok begun
      → (begun ≡ lookup_key w.clock relay w.ceremonies.saml_requests)
        × ((consume_request relay w).1 ≡ without_request relay (called w))
  unfolding consume_request statement
  consume-ok relay begun w h = ground arith

  begun-at : (begun : Option ℕ) → begun_at config_id begun ≡ true → begun ≡ some config_id
  begun-at none h = cc
  begun-at (some id) h = ground arith

  mark-ok :
      (id : Text) (ttl : ℕ) (seen : Bool) (w : World)
      → (mark_assertion_seen id ttl w).0 ≡ ok seen
      → seen ≡ false
      → (any (is_live w.clock id) w.ceremonies.saml_assertions ≡ false)
        × ((mark_assertion_seen id ttl w).1 ≡ with_assertion id (w.clock + ttl) (called w))
  unfolding mark_assertion_seen statement
  mark-ok id ttl seen w h new = ground arith

  consume-Refused : (relay : Text) (w : World) → Refused w (consume_request relay (called w)).1
  unfolding consume_request statement
  consume-Refused relay w = elim (Bool-cases (failing (called w).faults)) [
    | inl f ↦ rw f (kept _)
    | inr f ↦ rw f (used relay _)
  ]

  mark-Refused :
      (relay id : Text) (ttl : ℕ) (w : World)
      → Refused w (mark_assertion_seen id ttl (without_request relay (called (called w)))).1
  unfolding mark_assertion_seen statement
  mark-Refused relay id ttl w = elim (Bool-cases (failing (called (called w)).faults)) [
    | inl f ↦ rw f (used relay _)
    | inr f ↦ elim (Bool-cases (any (is_live w.clock id) w.ceremonies.saml_assertions)) [
      | inl old ↦ rw (f, old) (used relay _)
      | inr new ↦ rw (f, new) (marked relay id ttl _ new)
    ]
  ]

  module _ (crypto : Crypto) (r : Resolver) (w : World) (R : Result Outcome × World → Type 0)
      (failed : (e : Err) (v : World) → Refused w v → R (err e, v))
      (done : (a : LoginAttempt) (p : IsAsserted w a)
        → R (resolve crypto r a (after_assertion p.posted p.assertion w))) where
    accept_cases :
        (cfg : SamlConfig) (posted : AcsForm) (provider : ServiceProvider) (assertion : Assertion)
        → find (has_saml_id config_id) w.providers.saml_configs ≡ some cfg
        → cfg.enabled ≡ true
        → form ≡ some posted
        → lookup_key w.clock posted.relay_state w.ceremonies.saml_requests ≡ some config_id
        → lib.parse_response provider posted.saml_response (posted.relay_state ∷ [])
          ≡ some assertion
        → R (
            accept_assertion s lib crypto r config_id cfg assertion
              (without_request posted.relay_state (called (called w))))
    unfolding accept_assertion
    accept_cases cfg posted provider assertion stored enabled parsed begun validated =
        let v = without_request posted.relay_state (called (called w)) in
        let ttl = request_ttl_of s.assertion_replay_ttl in
        let refused = mark-Refused posted.relay_state assertion.id ttl w in
        bind_cases R (mark_assertion_seen assertion.id ttl) _ v (λ e h. failed e _ refused)
          (λ old h.
            guard_cases R (not old) _ _ _ (λ _. failed _ _ refused)
              (λ is_new.
                let (unseen, state) = mark-ok assertion.id ttl old v h (ground arith) in
                rw state (
                  bind_cases R (lift (attempt_of_assertion config_id cfg assertion)) _ _
                    (λ e k. failed e _ (marked posted.relay_state assertion.id ttl _ unseen))
                    (λ a k. done a (record {
                      cfg = cfg;
                      posted = posted;
                      provider = provider;
                      assertion = assertion;
                      stored = stored;
                      enabled = enabled;
                      parsed = parsed;
                      begun = begun;
                      validated = validated;
                      unseen = unseen;
                      asserted = k;
                    })))))

    -- From the request on.
    validated_cases :
        (cfg : SamlConfig) (posted : AcsForm)
        → find (has_saml_id config_id) w.providers.saml_configs ≡ some cfg
        → cfg.enabled ≡ true
        → form ≡ some posted
        → lookup_key w.clock posted.relay_state w.ceremonies.saml_requests ≡ some config_id
        → R (
            (do
              sp ← new_service_provider lib s cfg
              assertion ←
                  or_raise saml_response_invalid
                    (lib.parse_response sp posted.saml_response (posted.relay_state ∷ []))
              accept_assertion s lib crypto r config_id cfg assertion)
              (without_request posted.relay_state (called (called w))))
    validated_cases cfg posted stored enabled parsed begun =
        let v = without_request posted.relay_state (called (called w)) in
        bind_cases R (new_service_provider lib s cfg) _ v
          (λ e h. rw (provider_state cfg v) (failed e _ (used posted.relay_state _)))
          (λ sp h. rw (provider_state cfg v) (
            bind_cases R
              (or_raise saml_response_invalid
                (lib.parse_response sp posted.saml_response (posted.relay_state ∷ [])))
              _ v (λ e k. failed e _ (used posted.relay_state _))
              (λ assertion k.
                accept_cases cfg posted sp assertion stored enabled parsed begun
                  (some_or-ok _ _ k))))

    -- A response is refused, or it resolves an attempt whose assertion passed every check.
    pub acs_cases : R (handle_acs s lib crypto r config_id form w)
    unfolding handle_acs
    acs_cases =
        bind_cases R (enabled_saml_config config_id) _ w
          (λ e h. rw (enabled_state w) (failed e _ (kept _)))
          (λ cfg h.
            let (stored, enabled) = enabled-ok cfg w h in
            rw (enabled_state w) (
              bind_cases R (or_raise saml_response_invalid form) _ (called w)
                (λ e k. failed e _ (kept _))
                (λ posted parsed.
                  guard_cases R (not (is_empty posted.relay_state)) _ _ (called w)
                    (λ _. failed _ _ (kept _))
                    (λ _.
                      bind_cases R (consume_request posted.relay_state) _ (called w)
                        (λ e k. failed e _ (consume-Refused posted.relay_state w))
                        (λ begun k.
                          let (known, state) = consume-ok posted.relay_state begun (called w) k in
                          guard_cases R (begun_at config_id begun) _ _ _
                            (λ _. failed _ _ (consume-Refused posted.relay_state w))
                            (λ here. rw state (
                              validated_cases cfg posted stored enabled (some_or-ok _ _ parsed)
                                (sym known ∙ begun-at begun here))))))))
