-- ===== src/Auth/Providers/Preserved.antt =====
-- Each operation on the configurations and each login by them, with the identities that refer to
-- configurations.
use knives.Prelude.{
  ℕ, ◌≡◌, ◌==◌, refl, ap, ◌∙◌, any-cons, Text, text_eq, true, List, [], ◌∷◌, Option, none, some,
  any, update, find-some-any, any-update, All, All-weaken, All-update, Bool-cases, inl, inr, arith,
}
use knives.World.{World, called, statement, raw_token}
use knives.World.Effects.{ok}
use knives.World.Effects.Keeps.{Keeps}
use knives.World.Stable.{statement-Keeps, bind-Keeps, raw_token-Keeps}
use knives.World.Rows.{ProviderType, local, saml, oidc, AuthIdentity}
use knives.World.Logins.{Providers, OidcConfigRow, SamlConfig, OidcConfigInput, SamlConfigInput}
use knives.Storage.Cipher.{Aead, encrypt}
use knives.Storage.Providers.{
  has_oidc_id, has_saml_id, oidc_fields, new_oidc_row, insert_oidc_config, update_oidc_row,
  create_oidc_config, update_oidc_config, create_saml_config, update_saml_config, saml_row,
  find_oidc_config, find_oidc_row, find_saml_config,
}
use knives.Auth.Crypto.{Crypto}
use knives.Auth.Identity.{LoginAttempt, Resolver, generate_token}
use knives.Auth.Identity.Frame.{IsStable, resolve-Keeps}
use knives.Auth.Nonces.{create_state, create_request}
use knives.Auth.Providers.Linked.{is_configured, IsConfigured, IsLinked}
use knives.Auth.Oidc.{
  OidcLogin, CallbackQuery, enabled_oidc_config, begin_oidc_login, handle_callback,
}
use knives.Auth.Oidc.Claims.{OidcLibrary}
use knives.Auth.Oidc.Vouched.{attempt-IsVouched}
use knives.Auth.Oidc.Accepted
use knives.Auth.Saml.Accepted as SamlAccepted
use knives.Auth.Saml.{
  SamlLogin, SamlLibrary, AcsForm, Assertion, attempt_of_assertion, enabled_saml_config,
  new_service_provider, begin_saml_login, handle_acs,
}

-- A change of the configurations under which no id gets lost.
module _ (p q : Providers)
    (oidc_ids : (id : ℕ)
      → any (has_oidc_id id) p.oidc_configs ≡ true
      → any (has_oidc_id id) q.oidc_configs ≡ true)
    (saml_ids : (id : ℕ)
      → any (has_saml_id id) p.saml_configs ≡ true
      → any (has_saml_id id) q.saml_configs ≡ true) where
  kept_config :
      (t : ProviderType) (c : Option ℕ) → is_configured p t c ≡ true → is_configured q t c ≡ true
  kept_config local c h = h
  kept_config saml none h = h
  kept_config saml (some id) h = saml_ids id h
  kept_config oidc none h = h
  kept_config oidc (some id) h = oidc_ids id h

  kept-All : (ids : List AuthIdentity) → All (IsConfigured p) ids → All (IsConfigured q) ids
  kept-All ids =
      All-weaken (IsConfigured p) (IsConfigured q)
        (λ i. kept_config i.provider_type i.provider_config_id) ids

configs-IsStable :
    (a : LoginAttempt)
    → IsStable a
        (λ w. (is_configured w.providers a.provider_type a.provider_config_id ≡ true) × IsLinked w)
configs-IsStable a = record {
  faults = λ w bs h. h;
  tokens = λ w t ts e h. h;
  users = λ w us h. h;
  pending_links = λ w ps h. h;
  audit_log = λ w es h. h;
  outbox = λ w ms h. h;
  linked = λ w user_id h. (h.0, (h.0, h.1));
  touches =
      λ w id at h. (h.0, All-update (IsConfigured w.providers) _ _ (λ i k. k) w.identities h.1);
}

pub begin_oidc-IsLinked :
    (crypto : Crypto) (c : Aead) (s : OidcLogin) (lib : OidcLibrary) (id : ℕ)
    → Keeps IsLinked (begin_oidc_login crypto c s lib id)
unfolding begin_oidc_login enabled_oidc_config find_oidc_config find_oidc_row generate_token
    raw_token create_state statement
begin_oidc-IsLinked crypto c s lib id w h = ground arith

pub begin_saml-IsLinked :
    (s : SamlLogin) (lib : SamlLibrary) (id : ℕ) → Keeps IsLinked (begin_saml_login s lib id)
unfolding begin_saml_login enabled_saml_config find_saml_config new_service_provider create_request
    statement
begin_saml-IsLinked s lib id w h = ground arith

update_row-IsLinked :
    (id : ℕ) (f : OidcConfigRow → OidcConfigRow)
    → ((row : OidcConfigRow) → (f row).id ≡ row.id)
    → Keeps IsLinked (update_oidc_row id f)
unfolding update_oidc_row
update_row-IsLinked id f same =
    statement-Keeps IsLinked _ (λ w h. h)
      (λ w.
        kept-All w.providers
          (record w.providers { oidc_configs = update (has_oidc_id id) f w.providers.oidc_configs })
          (λ k there.
            any-update (has_oidc_id k) (has_oidc_id id) f (λ row. ap (λ n. n == k) (same row))
              w.providers.oidc_configs
            ∙ there)
          (λ k there. there) w.identities)

encrypt-IsLinked : (c : Aead) (secret : Text) → Keeps IsLinked (encrypt c secret)
unfolding encrypt
encrypt-IsLinked c secret =
    bind-Keeps IsLinked raw_token _ (raw_token-Keeps IsLinked (λ w t ts e h. h)) (λ draw w h. h)

insert-IsLinked :
    (input : OidcConfigInput) (secret : Text) → Keeps IsLinked (insert_oidc_config input secret)
unfolding insert_oidc_config
insert-IsLinked input secret =
    statement-Keeps IsLinked _ (λ w h. h)
      (λ w.
        kept-All w.providers
          (record w.providers {
            oidc_configs = new_oidc_row input secret w ∷ w.providers.oidc_configs;
          })
          (λ k. any-cons (has_oidc_id k) _ w.providers.oidc_configs) (λ k there. there)
          w.identities)

pub create_saml-IsLinked : (input : SamlConfigInput) → Keeps IsLinked (create_saml_config input)
unfolding create_saml_config
create_saml-IsLinked input =
    statement-Keeps IsLinked _ (λ w h. h)
      (λ w.
        kept-All w.providers
          (record w.providers {
            saml_configs = saml_row w.next_id input ∷ w.providers.saml_configs;
          })
          (λ k there. there) (λ k. any-cons (has_saml_id k) _ w.providers.saml_configs)
          w.identities)

pub update_saml-IsLinked :
    (id : ℕ) (input : SamlConfigInput) → Keeps IsLinked (update_saml_config id input)
unfolding update_saml_config
update_saml-IsLinked id input =
    statement-Keeps IsLinked _ (λ w h. h)
      (λ w.
        kept-All w.providers
          (record w.providers {
            saml_configs =
                update (has_saml_id id) (λ c. saml_row c.id input) w.providers.saml_configs;
          })
          (λ k there. there)
          (λ k there.
            any-update (has_saml_id k) (has_saml_id id) (λ c. saml_row c.id input) (λ row. refl)
              w.providers.saml_configs
            ∙ there)
          w.identities)

module _ (c : Aead) where
  pub create_oidc-IsLinked : (input : OidcConfigInput) → Keeps IsLinked (create_oidc_config c input)
  unfolding create_oidc_config
  create_oidc-IsLinked input =
      bind-Keeps IsLinked (encrypt c input.client_secret) _ (encrypt-IsLinked c _) (λ secret.
        bind-Keeps IsLinked (insert_oidc_config input secret) _ (insert-IsLinked input secret)
          (λ row w h. h))

  pub update_oidc-IsLinked :
      (id : ℕ) (input : OidcConfigInput) → Keeps IsLinked (update_oidc_config c id input)
  unfolding update_oidc_config
  update_oidc-IsLinked id input w h = elim (Bool-cases (text_eq input.client_secret [])) [
    | inl empty ↦ rw empty (
        bind-Keeps IsLinked (update_oidc_row id (oidc_fields input)) _
          (update_row-IsLinked id _ (λ row. refl)) (λ row v k. k) w h)
    | inr given ↦ rw given (
        bind-Keeps IsLinked (encrypt c input.client_secret) _ (encrypt-IsLinked c _)
          (λ secret.
            bind-Keeps IsLinked
              (update_oidc_row id
                (λ row. record (oidc_fields input row) { client_secret_encrypted = secret }))
              _ (update_row-IsLinked id _ (λ row. refl)) (λ row v k. k))
          w h)
  ]

rejected_oidc : (state : Text) (w v : World) → IsLinked w → Accepted.Refused state w v → IsLinked v
rejected_oidc state w v h (Accepted.kept bs) = h
rejected_oidc state w v h (Accepted.used bs) = h

rejected_saml : (w v : World) → IsLinked w → SamlAccepted.Refused w v → IsLinked v
rejected_saml w v h (SamlAccepted.kept bs) = h
rejected_saml w v h (SamlAccepted.used relay bs) = h
rejected_saml w v h (SamlAccepted.marked relay id ttl bs free) = h

asserted_by :
    (id : ℕ) (cfg : SamlConfig) (assertion : Assertion) (a : LoginAttempt)
    → attempt_of_assertion id cfg assertion ≡ ok a
    → (a.provider_type ≡ saml) × (a.provider_config_id ≡ some id)
unfolding attempt_of_assertion
asserted_by id cfg assertion a h = ground arith

pub callback-IsLinked :
    (crypto : Crypto) (c : Aead) (s : OidcLogin) (r : Resolver) (lib : OidcLibrary) (id : ℕ)
    (query : CallbackQuery)
    → Keeps IsLinked (handle_callback crypto c s r lib id query)
callback-IsLinked crypto c s r lib id query w h =
    Accepted.callback_cases c s lib id query crypto r w (λ x. IsLinked x.1)
      (λ e v f. rejected_oidc query.state w v h f)
      (λ a p.
        let v = attempt-IsVouched lib _ id p.cfg query.code p.pending a p.verified in
        let there = find-some-any (has_oidc_id id) w.providers.oidc_configs p.stored in
        (resolve-Keeps a _ (configs-IsStable a) crypto r
          (Accepted.used_up query.state (called (called w)))
          (rw (v.provider, v.config) there, h)).1)

pub acs-IsLinked :
    (crypto : Crypto) (s : SamlLogin) (r : Resolver) (lib : SamlLibrary) (id : ℕ)
    (form : Option AcsForm)
    → Keeps IsLinked (handle_acs s lib crypto r id form)
acs-IsLinked crypto s r lib id form w h =
    SamlAccepted.acs_cases s lib id form crypto r w (λ x. IsLinked x.1)
      (λ e v f. rejected_saml w v h f)
      (λ a p.
        let there = find-some-any (has_saml_id id) w.providers.saml_configs p.stored in
        (resolve-Keeps a _ (configs-IsStable a) crypto r
          (SamlAccepted.after_assertion s lib id form p.posted p.assertion w)
          (
            rw
                (
                  (asserted_by id p.cfg p.assertion a p.asserted).0,
                  (asserted_by id p.cfg p.assertion a p.asserted).1,
                )
                there,
            h,
          )).1)
