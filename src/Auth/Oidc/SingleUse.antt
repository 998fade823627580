-- ===== src/Auth/Oidc/SingleUse.antt =====
-- A state serves for one login.
use knives.Prelude.{
  ℕ, ◌≡◌, ◌≢◌, refl, subst, Text, text_eq, Bool, false, List, [], ◌∷◌, none, find, select, All,
  All-select, Bool-cases, inl, inr,
}
use knives.World.{World, called, raw_token}
use knives.World.Effects.{ok, ◌>>=◌, ◌>>◌, pure}
use knives.World.Effects.Keeps.{Keeps}
use knives.World.Effects.Inversion.{bind_cases, guard_cases}
use knives.World.Stable.{statement-Keeps, bind-Keeps, raw_token-Keeps, drawn_first}
use knives.World.Logins.{Timed, OidcConfig, OidcPendingLogin}
use knives.Storage.Cipher.{Aead}
use knives.Auth.Crypto.{Crypto}
use knives.Auth.Identity.{LoginAttempt, Outcome, Resolver, generate_token}
use knives.Auth.Identity.Frame.{IsStable, resolve-Keeps}
use knives.Auth.Nonces.{lookup_key, without_key, put_key, create_state}
use knives.Auth.Oidc.{
  request_ttl_of, oauth2_config, OidcLogin, CallbackQuery, enabled_oidc_config, begin_oidc_login,
  handle_callback,
}
use knives.Auth.Oidc.Claims.{OidcLibrary}
use knives.Auth.Oidc.Accepted.{Refused, kept, used, used_up, enabled_state, callback_cases}
use knives.Auth.Oidc.Trust.{callback_ok}

abbrev pub Others : {A : Type 0} → Text → List (Timed A) → Type 0
Others key = All (λ e. text_eq e.key key ≡ false)

-- No login is under way with that state, and none of the coming random tokens is that state.
abbrev pub IsSpent : Text → World → Type 0
IsSpent state w =
    Others state w.ceremonies.oidc_states × All (λ t. text_eq t state ≡ false) w.tokens

module _ {A : Type 0} (key : Text) where
  pub lookup-Others :
      (now : ℕ) (entries : List (Timed A)) → Others key entries → lookup_key now key entries ≡ none
  unfolding lookup_key find
  lookup-Others now [] h = refl
  lookup-Others now (e ∷ es) h = rw h.0 (lookup-Others now es h.1)

  pub without_key-Others : (entries : List (Timed A)) → Others key (without_key key entries)
  unfolding without_key select
  without_key-Others [] = tt
  without_key-Others (e ∷ es) = elim (Bool-cases (text_eq e.key key)) [
    | inl it ↦ rw it (without_key-Others es)
    | inr other ↦ rw other (other, without_key-Others es)
  ]

  pub Others-without :
      (gone : Text) (entries : List (Timed A))
      → Others key entries
      → Others key (without_key gone entries)
  unfolding without_key
  Others-without gone entries h = All-select _ _ _ (λ e _ k. k) entries h

used_tokens :
    (state : Text) (w : World) (t : Text) (ts : List Text)
    → w.tokens ≡ t ∷ ts
    → IsSpent state w
    → IsSpent state (record w { tokens = ts })
used_tokens state w t ts e h = (h.0, (subst (All (λ u. text_eq u state ≡ false)) e h.1).1)

IsSpent-stable : (state : Text) (a : LoginAttempt) → IsStable a (IsSpent state)
IsSpent-stable state a = record {
  faults = λ w bs h. h;
  tokens = used_tokens state;
  users = λ w us h. h;
  pending_links = λ w ps h. h;
  audit_log = λ w es h. h;
  outbox = λ w ms h. h;
  linked = λ w id h. h;
  touches = λ w id at h. h;
}

generate_token-IsSpent :
    (crypto : Crypto) (state : Text) → Keeps (IsSpent state) (generate_token crypto)
unfolding generate_token
generate_token-IsSpent crypto state w h =
    bind_cases (λ x. IsSpent state x.1) raw_token _ w
      (λ e k. raw_token-Keeps (IsSpent state) (used_tokens state) w h)
      (λ raw k. raw_token-Keeps (IsSpent state) (used_tokens state) w h)

generate_token-other :
    (crypto : Crypto) (state : Text) (w : World) (t : Text × Text)
    → IsSpent state w
    → (generate_token crypto w).0 ≡ ok t
    → text_eq t.0 state ≡ false
unfolding generate_token
generate_token-other crypto state w t h =
    bind_cases (λ x. x.0 ≡ ok t → text_eq t.0 state ≡ false) raw_token _ w (λ e k j. cc)
      (λ raw k j.
        let drawn : (raw, crypto.hash_token raw) ≡ t = cc in
        subst (λ s. text_eq s.0 state ≡ false) drawn
          (drawn_first w (λ u. text_eq u state ≡ false) raw h.1 k))

create_state-IsSpent :
    (state key : Text) (pending : OidcPendingLogin) (ttl : ℕ)
    → text_eq key state ≡ false
    → Keeps (IsSpent state) (create_state key pending ttl)
unfolding create_state put_key
create_state-IsSpent state key pending ttl other =
    statement-Keeps (IsSpent state) _ (λ w h. h)
      (λ w h. ((other, Others-without state key w.ceremonies.oidc_states h.0), h.1))

rejected-IsSpent :
    (state gone : Text) (w v : World) → IsSpent state w → Refused gone w v → IsSpent state v
rejected-IsSpent state gone w v h (kept bs) = h
rejected-IsSpent state gone w v h (used bs) =
    (Others-without state gone w.ceremonies.oidc_states h.0, h.1)

module _ (crypto : Crypto) (c : Aead) (s : OidcLogin) (state : Text) where
  begun-IsSpent :
      (lib : OidcLibrary) (id : ℕ) (cfg : OidcConfig) (t : Text × Text)
      → text_eq t.0 state ≡ false
      → Keeps (IsSpent state) (do
        (nonce, nonce_hash) ← generate_token crypto
        verifier ← raw_token
        create_state t.0
            (record { config_id = id; nonce = nonce; code_verifier = verifier })
            (request_ttl_of s.request_ttl)
        pure (lib.auth_code_url (oauth2_config lib s cfg) t.0 nonce verifier))
  begun-IsSpent lib id cfg t other =
      bind-Keeps (IsSpent state) (generate_token crypto) _ (generate_token-IsSpent crypto state)
        (λ nonce.
          bind-Keeps (IsSpent state) raw_token _
            (raw_token-Keeps (IsSpent state) (used_tokens state))
            (λ verifier.
              bind-Keeps (IsSpent state) (create_state t.0 _ _) _
                (create_state-IsSpent state t.0 _ _ other) (λ _ v k. k)))

  begin-IsSpent :
      (lib : OidcLibrary) (id : ℕ) → Keeps (IsSpent state) (begin_oidc_login crypto c s lib id)
  unfolding begin_oidc_login
  begin-IsSpent lib id w h =
      bind_cases (λ x. IsSpent state x.1) (enabled_oidc_config c id) _ w
        (λ e k. rw (enabled_state c id w) h)
        (λ cfg k. rw (enabled_state c id w) (
          guard_cases (λ x. IsSpent state x.1) (lib.discover cfg.issuer) _ _ (called w) (λ _. h)
            (λ _.
              bind_cases (λ x. IsSpent state x.1) (generate_token crypto) _ (called w)
                (λ e k. generate_token-IsSpent crypto state (called w) h)
                (λ t k.
                  begun-IsSpent lib id cfg t (generate_token-other crypto state (called w) t h k)
                    (generate_token crypto (called w)).1
                    (generate_token-IsSpent crypto state (called w) h)))))

  callback-IsSpent :
      (r : Resolver) (lib : OidcLibrary) (id : ℕ) (query : CallbackQuery)
      → Keeps (IsSpent state) (handle_callback crypto c s r lib id query)
  callback-IsSpent r lib id query w h =
      callback_cases c s lib id query crypto r w (λ x. IsSpent state x.1)
        (λ e v f. rejected-IsSpent state query.state w v h f)
        (λ a p.
          resolve-Keeps a (IsSpent state) (IsSpent-stable state a) crypto r
            (used_up query.state (called (called w)))
            (Others-without state query.state w.ceremonies.oidc_states h.0, h.1))

-- What happens at the logins by OpenID: a login is begun, a callback comes in, whatever the
-- library and the provider make of them; time passes, and other calls are going to fail.
pub data LoginStep (crypto : Crypto) (c : Aead) (s : OidcLogin) (r : Resolver)
    : World → World → Type 0 where
  begins :
      (lib : OidcLibrary) (id : ℕ) (w : World)
      → LoginStep crypto c s r w (begin_oidc_login crypto c s lib id w).1
  calls_back :
      (lib : OidcLibrary) (id : ℕ) (query : CallbackQuery) (w : World)
      → LoginStep crypto c s r w (handle_callback crypto c s r lib id query w).1
  passes :
      (now : ℕ) (bs : List Bool) (w : World)
      → LoginStep crypto c s r w (record w { clock = now; faults = bs })

pub data LoginSteps (crypto : Crypto) (c : Aead) (s : OidcLogin) (r : Resolver) (w : World)
    : World → Type 0 where
  here : LoginSteps crypto c s r w w
  next :
      {v u : World}
      → LoginSteps crypto c s r w v
      → LoginStep crypto c s r v u
      → LoginSteps crypto c s r w u

module _ (crypto : Crypto) (c : Aead) (s : OidcLogin) (r : Resolver) where
  step-IsSpent :
      (state : Text) {w v : World} → LoginStep crypto c s r w v → IsSpent state w → IsSpent state v
  step-IsSpent state (begins lib id w) h = begin-IsSpent crypto c s state lib id w h
  step-IsSpent state (calls_back lib id query w) h =
      callback-IsSpent crypto c s state r lib id query w h
  step-IsSpent state (passes now bs w) h = h

  steps-IsSpent :
      (state : Text) {w v : World} → LoginSteps crypto c s r w v → IsSpent state w → IsSpent state v
  steps-IsSpent state here h = h
  steps-IsSpent state (next steps step) h = step-IsSpent state step (steps-IsSpent state steps h)

  spent_refused :
      (lib : OidcLibrary) (id : ℕ) (query : CallbackQuery) (w : World) (o : Outcome)
      → IsSpent query.state w
      → (handle_callback crypto c s r lib id query w).0 ≢ ok o
  spent_refused lib id query w o h returned =
      let (a, accepted, _, _) = callback_ok crypto c s r lib id query w o returned in
      cc (accepted.begun, lookup-Others query.state w.clock w.ceremonies.oidc_states h.0)

  -- After a callback that ended in an outcome, no callback with the same state does so again, at
  -- whatever provider and with whatever answer: not after any logins that were begun and any
  -- callbacks that came in since, with whatever calls failing, as long as crypto/rand does not
  -- draw that state once more.
  pub state_single_use :
      (lib : OidcLibrary) (id : ℕ) (query : CallbackQuery) (w : World) (o : Outcome)
      → (handle_callback crypto c s r lib id query w).0 ≡ ok o
      → All (λ t. text_eq t query.state ≡ false) w.tokens
      → (u : World) → LoginSteps crypto c s r (handle_callback crypto c s r lib id query w).1 u
      → (lib' : OidcLibrary) (id' : ℕ) (code : Text) (o' : Outcome)
      → (handle_callback crypto c s r lib' id' (record query { code = code }) u).0 ≢ ok o'
  state_single_use lib id query w o returned fresh u steps lib' id' code o' =
      let (a, accepted, _, same) = callback_ok crypto c s r lib id query w o returned in
      let spent : IsSpent query.state (handle_callback crypto c s r lib id query w).1 = rw same (
        resolve-Keeps a (IsSpent query.state) (IsSpent-stable query.state a) crypto r
          (used_up query.state (called (called w)))
          (without_key-Others query.state w.ceremonies.oidc_states, fresh)) in
      spent_refused lib' id' (record query { code = code }) u o'
        (steps-IsSpent query.state steps spent)
