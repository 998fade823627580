-- ===== src/Api/Sessions.antt =====
-- cmd/api/middleware.go: the session cookie, and the gates of the authenticated routes.
pub mod Login
use knives.Prelude.{ℕ, Text, Bool, if◌then◌else◌, Option, none, some}
use knives.Permission.{Subject}
use knives.World.{World}
use knives.World.Effects.{Exec, Result, ok, err, Err, session_not_found}
use knives.Storage.Accounts.{find_is_system_admin}
use knives.Auth.Crypto.{Crypto}
use knives.Auth.Sessions.{find_session, touch_session}
use knives.Api.{Reply, error, Handler, internal_error, send, try, try_logged}

-- What a response does with the client's session cookie.
pub data Cookie : Type 0 where
  keep_cookie clear_cookie : Cookie
  set_cookie : Text → Cookie

pub record Answer (B : Type 0) : Type 0 where
  pub reply : Reply B
  pub cookie : Cookie

-- A handler that sets the session cookie or drops it.
abbrev pub CookieHandler : Type 0 → Type 0
CookieHandler B = World → Answer B × World

abbrev pub answer : {B : Type 0} → Cookie → Reply B → CookieHandler B
answer cookie r w = (record { reply = r; cookie = cookie }, w)

module _ {A B : Type 0} where
  abbrev pub handle_answer :
      (Err → Reply B) → (A → CookieHandler B) → Result A × World → Answer B × World
  handle_answer on_error k (ok a, w) = k a w
  handle_answer on_error k (err e, w) = answer keep_cookie (on_error e) w

  abbrev pub try_answer : Exec World A → (Err → Reply B) → (A → CookieHandler B) → CookieHandler B
  try_answer m on_error k w = handle_answer on_error k (m w)

abbrev pub session_error : {B : Type 0} → Err → Reply B
session_error session_not_found = error 401 "unauthorized"
session_error _ = internal_error

module _ (crypto : Crypto) (ttl : ℕ) {B : Type 0} where
  -- A failure to extend the session is logged, and the request goes on.
  unfoldable pub authenticated : Text → (Option Subject → Handler B) → ℕ → Handler B
  authenticated token next user_id = try_logged (touch_session crypto token ttl) (
      try (find_is_system_admin user_id) (λ _. internal_error)
        λ is_admin. next (some (record { user_id = user_id; is_system_admin = is_admin })))

  unfoldable pub require_auth : Option Text → (Option Subject → Handler B) → Handler B
  require_auth none next = send (error 401 "unauthorized")
  require_auth (some token) next =
      try (find_session crypto token) session_error
        λ session. authenticated token next session.user_id

unfoldable pub require_system_admin :
    {B : Type 0} → (Option Subject → Handler B) → Option Subject → Handler B
require_system_admin next none = send (error 401 "unauthorized")
require_system_admin next (some subject) =
    if subject.is_system_admin then next (some subject) else send (error 403 "forbidden")
