-- ===== src/Api.antt =====
-- cmd/api: HTTP handlers as functions from a decoded request to a reply and the new state.
pub mod Access
pub mod Keeps
pub mod Sessions
pub mod Logins
pub mod Admin
pub mod Stats
pub mod Permissions
pub mod ShortUrls
pub mod Providers
pub mod ProviderLogins
pub mod Passkeys
use knives.Prelude.{ℕ, String}
use knives.World.{World}
use knives.World.Effects.{Result, ok, err, Err, Exec}

-- A status with a body, with an error text, or with neither.
pub data Reply (B : Type 0) : Type 0 where
  reply : ℕ → B → Reply B
  error : ℕ → String → Reply B
  no_content : Reply B

abbrev pub Handler : Type 0 → Type 0
Handler B = World → Reply B × World

-- http.NotFound
abbrev pub not_found_reply : {B : Type 0} → Reply B
not_found_reply = error 404 "404 page not found"

abbrev pub internal_error : {B : Type 0} → Reply B
internal_error = error 500 "internal error"

abbrev pub send : {B : Type 0} → Reply B → Handler B
send r w = (r, w)

module _ {A B : Type 0} where
  abbrev pub handle : (Err → Reply B) → (A → Handler B) → Result A × World → Reply B × World
  handle on_error k (ok a, w) = k a w
  handle on_error k (err e, w) = (on_error e, w)

  -- `a, err := m; if err != nil { reply; return }`, and the rest of the handler.
  abbrev pub try : Exec World A → (Err → Reply B) → (A → Handler B) → Handler B
  try m on_error k w = handle on_error k (m w)

-- An error that the handler logs and goes on from.
abbrev pub try_logged : {A B : Type 0} → Exec World A → Handler B → Handler B
try_logged m k w = k (m w).1
