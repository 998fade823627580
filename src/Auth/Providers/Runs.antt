-- ===== src/Auth/Providers/Runs.antt =====
-- Whatever is done to the configurations, and whoever logs in by them: no identity is left behind.
use knives.Prelude.{ℕ, Text, Bool, true, false, List, Option}
use knives.World.{World}
use knives.World.Effects.{Result, lift, Exec, ◌>>=◌}
use knives.World.Effects.Keeps.{Keeps}
use knives.World.Stable.{bind-Keeps}
use knives.World.Logins.{OidcConfigInput, SamlConfigInput}
use knives.Storage.Cipher.{Aead}
use knives.Storage.Providers.{
  create_oidc_config, update_oidc_config, create_saml_config, update_saml_config,
}
use knives.Auth.Crypto.{Crypto}
use knives.Auth.Identity.{Resolver}
use knives.Auth.Providers.{
  normalize_oidc, normalize_saml, add_oidc_config, change_oidc_config, remove_oidc_config,
  add_saml_config, change_saml_config, remove_saml_config,
}
use knives.Auth.Providers.Linked.{IsLinked, remove_oidc-IsLinked, remove_saml-IsLinked}
use knives.Auth.Oidc.{OidcLogin, CallbackQuery, begin_oidc_login, handle_callback}
use knives.Auth.Oidc.Claims.{OidcLibrary}
use knives.Auth.Saml.{SamlLogin, SamlLibrary, AcsForm, begin_saml_login, handle_acs}
use knives.ShortUrls.{Url}
use knives.Auth.Providers.Preserved.{
  begin_oidc-IsLinked, begin_saml-IsLinked, create_oidc-IsLinked, update_oidc-IsLinked,
  create_saml-IsLinked, update_saml-IsLinked, callback-IsLinked, acs-IsLinked,
}

-- Everything that is done with the configurations: they are added, changed and removed, logins are
-- begun by them and come back, and the time and the calls that are going to fail change.
pub data ProviderStep (crypto : Crypto) (c : Aead) (r : Resolver) (parse_url : Text → Option Url)
    : World → World → Type 0 where
  adds_oidc :
      (input : OidcConfigInput) (w : World)
      → ProviderStep crypto c r parse_url w (add_oidc_config parse_url c input w).1
  changes_oidc :
      (id : ℕ) (input : OidcConfigInput) (w : World)
      → ProviderStep crypto c r parse_url w (change_oidc_config parse_url c id input w).1
  removes_oidc :
      (id : ℕ) (w : World) → ProviderStep crypto c r parse_url w (remove_oidc_config id w).1
  adds_saml :
      (is_certificate : Text → Bool) (input : SamlConfigInput) (w : World)
      → ProviderStep crypto c r parse_url w (add_saml_config parse_url is_certificate input w).1
  changes_saml :
      (is_certificate : Text → Bool) (id : ℕ) (input : SamlConfigInput) (w : World)
      → ProviderStep crypto c r parse_url w
          (change_saml_config parse_url is_certificate id input w).1
  removes_saml :
      (id : ℕ) (w : World) → ProviderStep crypto c r parse_url w (remove_saml_config id w).1
  begins_oidc :
      (s : OidcLogin) (lib : OidcLibrary) (id : ℕ) (w : World)
      → ProviderStep crypto c r parse_url w (begin_oidc_login crypto c s lib id w).1
  calls_back :
      (s : OidcLogin) (lib : OidcLibrary) (id : ℕ) (query : CallbackQuery) (w : World)
      → ProviderStep crypto c r parse_url w (handle_callback crypto c s r lib id query w).1
  begins_saml :
      (s : SamlLogin) (lib : SamlLibrary) (id : ℕ) (w : World)
      → ProviderStep crypto c r parse_url w (begin_saml_login s lib id w).1
  responds :
      (s : SamlLogin) (lib : SamlLibrary) (id : ℕ) (form : Option AcsForm) (w : World)
      → ProviderStep crypto c r parse_url w (handle_acs s lib crypto r id form w).1
  passes :
      (now : ℕ) (bs : List Bool) (w : World)
      → ProviderStep crypto c r parse_url w (record w { clock = now; faults = bs })

pub data ProviderSteps (crypto : Crypto) (c : Aead) (r : Resolver) (parse_url : Text → Option Url)
    (w : World) : World → Type 0 where
  here : ProviderSteps crypto c r parse_url w w
  next :
      {v u : World}
      → ProviderSteps crypto c r parse_url w v
      → ProviderStep crypto c r parse_url v u
      → ProviderSteps crypto c r parse_url w u

-- A change that starts with the checks of its input.
checked-IsLinked :
    {A I : Type 0} (checked : Result I) (f : I → Exec World A)
    → ((input : I) → Keeps IsLinked (f input))
    → Keeps IsLinked (lift checked >>= f)
checked-IsLinked checked f keep = bind-Keeps IsLinked (lift checked) f (λ w h. h) keep

module _ (crypto : Crypto) (c : Aead) (r : Resolver) (parse_url : Text → Option Url) where
  step-IsLinked : {w v : World} → ProviderStep crypto c r parse_url w v → IsLinked w → IsLinked v
  unfolding add_oidc_config change_oidc_config add_saml_config change_saml_config
  step-IsLinked (adds_oidc input w) h =
      checked-IsLinked (normalize_oidc parse_url true input) (create_oidc_config c)
        (create_oidc-IsLinked c) w h
  step-IsLinked (changes_oidc id input w) h =
      checked-IsLinked (normalize_oidc parse_url false input) (update_oidc_config c id)
        (update_oidc-IsLinked c id) w h
  step-IsLinked (removes_oidc id w) h = remove_oidc-IsLinked id w h
  step-IsLinked (adds_saml is_certificate input w) h =
      checked-IsLinked (normalize_saml parse_url is_certificate input) create_saml_config
        create_saml-IsLinked w h
  step-IsLinked (changes_saml is_certificate id input w) h =
      checked-IsLinked (normalize_saml parse_url is_certificate input) (update_saml_config id)
        (update_saml-IsLinked id) w h
  step-IsLinked (removes_saml id w) h = remove_saml-IsLinked id w h
  step-IsLinked (begins_oidc s lib id w) h = begin_oidc-IsLinked crypto c s lib id w h
  step-IsLinked (calls_back s lib id query w) h = callback-IsLinked crypto c s r lib id query w h
  step-IsLinked (begins_saml s lib id w) h = begin_saml-IsLinked s lib id w h
  step-IsLinked (responds s lib id form w) h = acs-IsLinked crypto s r lib id form w h
  step-IsLinked (passes now bs w) h = h

  -- Where every identity of a provider refers to a stored configuration, every one does so after
  -- whatever configurations are added, changed and removed and whatever logins are begun and come
  -- back by them, with whatever calls failing: a configuration that is removed has no identity.
  pub providers_keep_configs :
      (w v : World) → ProviderSteps crypto c r parse_url w v → IsLinked w → IsLinked v
  providers_keep_configs w v here h = h
  providers_keep_configs w v (next steps step) h =
      step-IsLinked step (providers_keep_configs w _ steps h)
