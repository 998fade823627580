-- ===== src/Auth/Saml/Replay.antt =====
-- An assertion serves once while it is on record.
use knives.Prelude.{
  ℕ, ◌≡◌, ◌≢◌, ◌+◌, ◌≤◌, ◌<◌, Text, text_eq, text_eq_iff, Bool, true, false, ◌&&◌, ltb, not, List,
  [], ◌∷◌, Option, some, any, any-select, Bool-cases, inl, inr, ◌⊎◌, arith,
}
use knives.World.{World, statement}
use knives.World.Effects.{ok}
use knives.World.Effects.Keeps.{Keeps}
use knives.World.Logins.{Timed}
use knives.Auth.Crypto.{Crypto}
use knives.Auth.Identity.{LoginAttempt, Outcome, Resolver}
use knives.Auth.Identity.Frame.{IsStable, resolve-Keeps}
use knives.Auth.Nonces.{is_live, without_key, put_key, create_request}
use knives.Auth.Oidc.{request_ttl_of}
use knives.Storage.Providers.{find_saml_config}
use knives.Auth.Saml.{
  ServiceProvider, Assertion, enabled_saml_config, new_service_provider, SamlLogin, SamlLibrary,
  AcsForm, begin_saml_login, handle_acs,
}
use knives.Auth.Saml.Accepted.{
  Refused, kept, used, marked, after_assertion, with_assertion, without_request, acs_cases,
}

-- The assertion is on record at least until then.
abbrev pub is_until : Text → ℕ → Timed (Unit {0}) → Bool
is_until id end e = text_eq e.key id && not (ltb e.dies_at end)

abbrev pub IsOnRecord : Text → ℕ → World → Type 0
IsOnRecord id end w = any (is_until id end) w.ceremonies.saml_assertions ≡ true

module _ (id : Text) (end : ℕ) where
  kept_key :
      (other : Text) (e : Timed (Unit {0}))
      → text_eq id other ≡ false
      → is_until id end e ≡ true
      → not (text_eq e.key other) ≡ true
  kept_key other e differs until = ground (arith, text_eq_iff e.key id)

  -- Until then the record is alive.
  live_until :
      (now : ℕ) (entries : List (Timed (Unit {0})))
      → now < end
      → any (is_until id end) entries ≡ true
      → any (is_live now id) entries ≡ true
  unfolding any
  live_until now [] early h = h
  live_until now (e ∷ es) early h = ground (arith, live_until now es)

  -- A new record replaces none that is alive.
  put_other :
      (now dies_at : ℕ) (other : Text) (entries : List (Timed (Unit {0})))
      → now < end
      → any (is_live now other) entries ≡ false
      → any (is_until id end) entries ≡ true
      → any (is_until id end) (put_key other tt dies_at entries) ≡ true
  unfolding any put_key without_key
  put_other now dies_at other entries early free h = elim (Bool-cases (text_eq id other)) [
    | inl it ↦
        let same : id ≡ other = (text_eq_iff id other).0 it in
        cc (live_until now entries early h, free, same)
    | inr differs ↦
        let rest =
          any-select (is_until id end) (λ e. not (text_eq e.key other))
            (λ e until. kept_key other e differs until) entries h in
        ground (arith, rest)
  ]

-- The record is kept until its time is over.
abbrev pub IsGuarded : Text → ℕ → World → Type 0
IsGuarded id end w = (end ≤ w.clock) ⊎ IsOnRecord id end w

module _ (id : Text) (end : ℕ) where
  IsGuarded-stable : (a : LoginAttempt) → IsStable a (IsGuarded id end)
  IsGuarded-stable a = record {
    faults = λ w bs h. h;
    tokens = λ w t ts e h. h;
    users = λ w us h. h;
    pending_links = λ w ps h. h;
    audit_log = λ w es h. h;
    outbox = λ w ms h. h;
    linked = λ w user_id h. h;
    touches = λ w i at h. h;
  }

  marked-IsGuarded :
      (w : World) (relay other : Text) (ttl : ℕ)
      → any (is_live w.clock other) w.ceremonies.saml_assertions ≡ false
      → IsGuarded id end w
      → IsGuarded id end (with_assertion other (w.clock + ttl) (without_request relay w))
  marked-IsGuarded w relay other ttl free (inl over) = inl over
  marked-IsGuarded w relay other ttl free (inr h) = elim (Bool-cases (ltb w.clock end)) [
    | inl early ↦ inr (
        put_other id end w.clock (w.clock + ttl) other w.ceremonies.saml_assertions (ground arith)
          free h)
    | inr late ↦ inl (ground arith)
  ]

  refused-IsGuarded : (w v : World) → IsGuarded id end w → Refused w v → IsGuarded id end v
  refused-IsGuarded w v h (kept bs) = h
  refused-IsGuarded w v h (used relay bs) = h
  refused-IsGuarded w v h (marked relay other ttl bs free) =
      marked-IsGuarded w relay other ttl free h

  acs-IsGuarded :
      (s : SamlLogin) (lib : SamlLibrary) (crypto : Crypto) (r : Resolver) (config_id : ℕ)
      (form : Option AcsForm)
      → Keeps (IsGuarded id end) (handle_acs s lib crypto r config_id form)
  acs-IsGuarded s lib crypto r config_id form w h =
      acs_cases s lib config_id form crypto r w (λ x. IsGuarded id end x.1)
        (λ e v f. refused-IsGuarded w v h f)
        (λ a p.
          resolve-Keeps a (IsGuarded id end) (IsGuarded-stable a) crypto r
            (after_assertion s lib config_id form p.posted p.assertion w)
            (marked-IsGuarded w p.posted.relay_state p.assertion.id _ p.unseen h))

  begin_frame :
      (s : SamlLogin) (lib : SamlLibrary) (config_id : ℕ) (w : World)
      → let v = (begin_saml_login s lib config_id w).1 in
        (v.clock ≡ w.clock) × (v.ceremonies.saml_assertions ≡ w.ceremonies.saml_assertions)
  unfolding begin_saml_login enabled_saml_config find_saml_config new_service_provider
      create_request statement
  begin_frame s lib config_id w = ground arith

-- What happens at the logins by SAML: a login is begun, a response comes in, and time passes, with
-- other calls going to fail.
pub data SamlStep (s : SamlLogin) (crypto : Crypto) (r : Resolver) : World → World → Type 0 where
  begins :
      (lib : SamlLibrary) (id : ℕ) (w : World)
      → SamlStep s crypto r w (begin_saml_login s lib id w).1
  responds :
      (lib : SamlLibrary) (id : ℕ) (form : Option AcsForm) (w : World)
      → SamlStep s crypto r w (handle_acs s lib crypto r id form w).1
  passes :
      (now : ℕ) (bs : List Bool) (w : World)
      → w.clock ≤ now
      → SamlStep s crypto r w (record w { clock = now; faults = bs })

pub data SamlSteps (s : SamlLogin) (crypto : Crypto) (r : Resolver) (w : World)
    : World → Type 0 where
  here : SamlSteps s crypto r w w
  next :
      {v u : World} → SamlSteps s crypto r w v → SamlStep s crypto r v u → SamlSteps s crypto r w u

later-IsGuarded :
    (id : Text) (end now : ℕ) (bs : List Bool) (w : World)
    → w.clock ≤ now
    → IsGuarded id end w
    → IsGuarded id end (record w { clock = now; faults = bs })
later-IsGuarded id end now bs w le (inl over) = inl (omega arith)
later-IsGuarded id end now bs w le (inr h) = inr h

module _ (s : SamlLogin) (crypto : Crypto) (r : Resolver) where
  step-IsGuarded :
      (id : Text) (end : ℕ) {w v : World}
      → SamlStep s crypto r w v
      → IsGuarded id end w
      → IsGuarded id end v
  step-IsGuarded id end (begins lib config_id w) h =
      let (clock, rows) = begin_frame id end s lib config_id w in rw (clock, rows) h
  step-IsGuarded id end (responds lib config_id form w) h =
      acs-IsGuarded id end s lib crypto r config_id form w h
  step-IsGuarded id end (passes now bs w le) h = later-IsGuarded id end now bs w le h

  steps-IsGuarded :
      (id : Text) (end : ℕ) {w v : World}
      → SamlSteps s crypto r w v
      → IsGuarded id end w
      → IsGuarded id end v
  steps-IsGuarded id end here h = h
  steps-IsGuarded id end (next steps step) h =
      step-IsGuarded id end step (steps-IsGuarded id end steps h)

new_record :
    (id : Text) (end : ℕ) (key : Text) (rest : List (Timed (Unit {0})))
    → key ≡ id
    → any (is_until id end) (record { key = key; value = tt; dies_at = end } ∷ rest) ≡ true
unfolding any
new_record id end key rest same = ground (arith, text_eq_iff key id)

-- While the record lasts, the assertion has been seen.
on_record :
    (id : Text) (end : ℕ) (u : World) (key : Text)
    → u.clock < end
    → IsGuarded id end u
    → any (is_live u.clock key) u.ceremonies.saml_assertions ≡ false
    → key ≢ id
on_record id end u key early (inl over) free same = omega arith
on_record id end u key early (inr h) free same =
    cc (live_until id end u.clock u.ceremonies.saml_assertions early h, free, same)

-- Every response that the library takes for this request holds the assertion `id`.
abbrev pub Holds : Text → SamlLibrary → Type 0
Holds id lib =
    (provider : ServiceProvider) (response : Text) (requests : List Text) (b : Assertion)
    → lib.parse_response provider response requests ≡ some b
    → b.id ≡ id

module _ (s : SamlLogin) (crypto : Crypto) (r : Resolver) where
  recorded :
      (lib : SamlLibrary) (config_id : ℕ) (form : Option AcsForm) (w : World) (o : Outcome)
      (id : Text)
      → Holds id lib
      → (handle_acs s lib crypto r config_id form w).0 ≡ ok o
      → IsGuarded id
          (w.clock + request_ttl_of s.assertion_replay_ttl)
          (handle_acs s lib crypto r config_id form w).1
  unfolding put_key
  recorded lib config_id form w o id holds =
      let end = w.clock + request_ttl_of s.assertion_replay_ttl in
      acs_cases s lib config_id form crypto r w (λ x. x.0 ≡ ok o → IsGuarded id end x.1)
        (λ e v f h. cc)
        (λ a p h.
          resolve-Keeps a (IsGuarded id end) (IsGuarded-stable id end a) crypto r
            (after_assertion s lib config_id form p.posted p.assertion w)
            (inr (
              new_record id end p.assertion.id
                (without_key p.assertion.id w.ceremonies.saml_assertions)
                (holds p.provider p.posted.saml_response _ p.assertion p.validated))))

  -- After a response that ended in an outcome, no response that holds the same assertion does so
  -- again while the assertion's record lasts: at no provider, and not after any logins that were
  -- begun and any responses that came in since, with whatever calls failing.
  pub assertion_single_use :
      (lib lib' : SamlLibrary) (config_id config_id' : ℕ) (form form' : Option AcsForm) (w : World)
      (o o' : Outcome) (id : Text)
      → Holds id lib
      → Holds id lib'
      → (handle_acs s lib crypto r config_id form w).0 ≡ ok o
      → (u : World) → SamlSteps s crypto r (handle_acs s lib crypto r config_id form w).1 u
      → u.clock < w.clock + request_ttl_of s.assertion_replay_ttl
      → (handle_acs s lib' crypto r config_id' form' u).0 ≢ ok o'
  assertion_single_use lib lib' config_id config_id' form form' w o o' id holds holds' returned u
        steps early =
      let end = w.clock + request_ttl_of s.assertion_replay_ttl in
      let guarded =
        steps-IsGuarded s crypto r id end steps
          (recorded lib config_id form w o id holds returned) in
      acs_cases s lib' config_id' form' crypto r u (λ x. x.0 ≢ ok o') (λ e v f h. cc)
        (λ a p _.
          on_record id end u p.assertion.id early guarded p.unseen
            (holds' p.provider p.posted.saml_response _ p.assertion p.validated))
