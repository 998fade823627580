-- ===== src/Auth/Providers/Linked.antt =====
-- Identities refer to configurations that exist.
use knives.Prelude.{
  ℕ, ◌≡◌, Bool, true, false, ◌==◌, ◌&&◌, not, ltb, opt_eq, Option, none, some, any, count, select,
  any-select, All, All-uncounted, Bool-cases, inl, inr, arith,
}
use knives.World.{World, called, statement, failing}
use knives.World.Effects.{ok, Exec, Err, guard, ◌>>=◌, ◌>>◌}
use knives.World.Effects.Keeps.{Keeps}
use knives.World.Effects.Inversion.{bind_cases, guard_cases}
use knives.World.Rows.{ProviderType, local, saml, oidc, AuthIdentity}
use knives.World.Logins.{Providers}
use knives.Storage.Accounts.{provider_eq}
use knives.Storage.Providers.{
  is_of_config, has_oidc_id, has_saml_id, delete_oidc_config, delete_saml_config,
  count_auth_identities_for_config,
}
use knives.Auth.Providers.{remove_oidc_config, remove_saml_config}

-- The configuration of that kind and id is stored; a local identity has none.
abbrev pub is_configured : Providers → ProviderType → Option ℕ → Bool
is_configured p local c = true
is_configured p saml none = true
is_configured p saml (some id) = any (has_saml_id id) p.saml_configs
is_configured p oidc none = true
is_configured p oidc (some id) = any (has_oidc_id id) p.oidc_configs

abbrev pub IsConfigured : Providers → AuthIdentity → Type 0
IsConfigured p i = is_configured p i.provider_type i.provider_config_id ≡ true

-- No identity refers to a configuration that is gone.
abbrev pub IsLinked : World → Type 0
IsLinked w = All (IsConfigured w.providers) w.identities

abbrev without_oidc : ℕ → Providers → Providers
without_oidc id p = record p { oidc_configs = select (λ c. not (has_oidc_id id c)) p.oidc_configs }

abbrev without_saml : ℕ → Providers → Providers
without_saml id p = record p { saml_configs = select (λ c. not (has_saml_id id c)) p.saml_configs }

unreferenced_oidc :
    (id : ℕ) (p : Providers) (t : ProviderType) (c : Option ℕ)
    → (provider_eq t oidc && opt_eq c (some id)) ≡ false
    → is_configured p t c ≡ true
    → is_configured (without_oidc id p) t c ≡ true
unreferenced_oidc id p local c other h = h
unreferenced_oidc id p saml none other h = h
unreferenced_oidc id p saml (some k) other h = h
unreferenced_oidc id p oidc none other h = h
unreferenced_oidc id p oidc (some k) other h =
    any-select (has_oidc_id k) (λ c. not (has_oidc_id id c)) (λ c e. ground arith) p.oidc_configs h

unreferenced_saml :
    (id : ℕ) (p : Providers) (t : ProviderType) (c : Option ℕ)
    → (provider_eq t saml && opt_eq c (some id)) ≡ false
    → is_configured p t c ≡ true
    → is_configured (without_saml id p) t c ≡ true
unreferenced_saml id p local c other h = h
unreferenced_saml id p oidc none other h = h
unreferenced_saml id p oidc (some k) other h = h
unreferenced_saml id p saml none other h = h
unreferenced_saml id p saml (some k) other h =
    any-select (has_saml_id k) (λ c. not (has_saml_id id c)) (λ c e. ground arith) p.saml_configs h

uses_state :
    (t : ProviderType) (id : ℕ) (w : World) → (count_auth_identities_for_config t id w).1 ≡ called w
unfolding count_auth_identities_for_config statement
uses_state t id w = ground arith

uses-ok :
    (t : ProviderType) (id uses : ℕ) (w : World)
    → (count_auth_identities_for_config t id w).0 ≡ ok uses
    → uses ≡ count (is_of_config t id) w.identities
unfolding count_auth_identities_for_config statement
uses-ok t id uses w h = ground arith

delete_oidc-IsLinked :
    (id : ℕ) (w : World)
    → count (is_of_config oidc id) w.identities ≡ 0
    → IsLinked w
    → IsLinked (delete_oidc_config id w).1
unfolding delete_oidc_config statement is_of_config
delete_oidc-IsLinked id w unused h =
    let rest : All (IsConfigured (without_oidc id w.providers)) w.identities =
      All-uncounted _ _ (is_of_config oidc id)
        (λ i. unreferenced_oidc id w.providers i.provider_type i.provider_config_id) w.identities
        unused h in
    elim (Bool-cases (failing w.faults)) [
      | inl f ↦ rw f h
      | inr f ↦ elim (Bool-cases (count (has_oidc_id id) w.providers.oidc_configs == 0)) [
        | inl gone ↦ rw (f, gone) h
        | inr there ↦ rw (f, there) rest
      ]
    ]

delete_saml-IsLinked :
    (id : ℕ) (w : World)
    → count (is_of_config saml id) w.identities ≡ 0
    → IsLinked w
    → IsLinked (delete_saml_config id w).1
unfolding delete_saml_config statement is_of_config
delete_saml-IsLinked id w unused h =
    let rest : All (IsConfigured (without_saml id w.providers)) w.identities =
      All-uncounted _ _ (is_of_config saml id)
        (λ i. unreferenced_saml id w.providers i.provider_type i.provider_config_id) w.identities
        unused h in
    elim (Bool-cases (failing w.faults)) [
      | inl f ↦ rw f h
      | inr f ↦ elim (Bool-cases (count (has_saml_id id) w.providers.saml_configs == 0)) [
        | inl gone ↦ rw (f, gone) h
        | inr there ↦ rw (f, there) rest
      ]
    ]

-- Removal where the identities were counted first.
counted-IsLinked :
    (t : ProviderType) (id : ℕ) (remove : Exec World (Unit {0})) (e : Err)
    → ((w : World)
        → count (is_of_config t id) w.identities ≡ 0
        → IsLinked w
        → IsLinked (remove w).1)
    → Keeps IsLinked
        (do uses ← count_auth_identities_for_config t id; guard (not (ltb 0 uses)) e; remove)
counted-IsLinked t id remove e keep w h =
    bind_cases (λ x. IsLinked x.1) (count_auth_identities_for_config t id) _ w
      (λ f k. rw (uses_state t id w) h)
      (λ uses k. rw (uses_state t id w) (
        guard_cases (λ x. IsLinked x.1) (not (ltb 0 uses)) e remove (called w) (λ _. h)
          (λ free. keep (called w) (ground (arith, uses-ok t id uses w k)) h)))

pub remove_oidc-IsLinked : (id : ℕ) → Keeps IsLinked (remove_oidc_config id)
unfolding remove_oidc_config
remove_oidc-IsLinked id =
    counted-IsLinked oidc id (delete_oidc_config id) _ (delete_oidc-IsLinked id)

pub remove_saml-IsLinked : (id : ℕ) → Keeps IsLinked (remove_saml_config id)
unfolding remove_saml_config
remove_saml-IsLinked id =
    counted-IsLinked saml id (delete_saml_config id) _ (delete_saml-IsLinked id)
