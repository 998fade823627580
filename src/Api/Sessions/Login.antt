-- ===== src/Api/Sessions/Login.antt =====
-- From a login to the requests that its cookie authenticates, and to the logout.
use knives.Prelude.{
  ℕ, ◌+◌, ◌<◌, ◌≡◌, refl, ◌⊎◌, ap, ◌∙◌, Text, text_eq_refl, List, [], ◌∷◌, Option, none, some, find,
  select, Bool-cases, Option-cases, inl, inr, arith,
}
use knives.Permission.{Subject}
use knives.World.{World, statement, failing, raw_token}
use knives.World.Effects.{Result, ok, err}
use knives.World.Rows.{User, Session, SessionEntry}
use knives.Storage.Accounts.{has_id, find_is_system_admin}
use knives.Auth.Crypto.{Crypto}
use knives.Auth.Identity.{generate_token}
use knives.Auth.Local.{login}
use knives.Auth.Sessions.{
  is_live_key, get_session, put_new_session, create_session, find_session, touch_session,
  delete_session, delete_found, remove_session, without_hash, extend_session, put_session,
  new_session, entry,
}
use knives.Api.{Handler, Reply, error, no_content, internal_error}
use knives.Api.Sessions.{set_cookie, answer, handle_answer, require_auth, authenticated}
use knives.Api.Logins.{Credentials, handle_local_login, start_session, handle_logout}

ok_injective : {A : Type 0} {a b : A} → ok a ≡ ok b → a ≡ b
ok_injective h = cc

-- No session is live under the hash.
gone_after_removal :
    (hash : Text) (now : ℕ) (xs : List SessionEntry)
    → find (is_live_key now hash) (without_hash hash xs) ≡ none
unfolding without_hash find select
gone_after_removal hash now [] = refl
gone_after_removal hash now (e ∷ xs) = ground (arith, gone_after_removal hash now xs)

delete_clear :
    (crypto : Crypto) (token : Text) (w : World)
    → w.faults ≡ []
    → let w' = (delete_session crypto token w).1 in
      (w'.faults ≡ []) × (find (is_live_key w'.clock (crypto.hash_token token)) w'.sessions ≡ none)
unfolding delete_session get_session delete_found remove_session statement
delete_clear crypto token w clear =
    elim (Option-cases (find (is_live_key w.clock (crypto.hash_token token)) w.sessions)) [
      | inl e ↦ rw (clear, e) (refl, e)
      | inr (x, e) ↦
          rw (clear, e) (refl, gone_after_removal (crypto.hash_token token) w.clock w.sessions)
    ]

unknown_rejected :
    (crypto : Crypto) (ttl : ℕ) (token : Text) (w : World) {B : Type 0}
    (next : Option Subject → Handler B)
    → w.faults ≡ []
    → find (is_live_key w.clock (crypto.hash_token token)) w.sessions ≡ none
    → require_auth crypto ttl (some token) next w ≡ (error 401 "unauthorized", w)
unfolding require_auth find_session get_session statement
unknown_rejected crypto ttl token w next clear absent = rw (clear, absent) refl

-- After a logout with no call failing, its cookie authenticates no request.
logout_ends_session :
    (crypto : Crypto) (ttl : ℕ) (token : Text) (w : World) {B : Type 0}
    (next : Option Subject → Handler B)
    → w.faults ≡ []
    → let w' = (handle_logout crypto (some token) w).1 in
      require_auth crypto ttl (some token) next w' ≡ (error 401 "unauthorized", w')
unfolding handle_logout
logout_ends_session crypto ttl token w next clear =
    let (clear', gone) = delete_clear crypto token w clear in
    unknown_rejected crypto ttl token (delete_session crypto token w).1 next clear' gone

touch_clear :
    (crypto : Crypto) (token : Text) (ttl : ℕ) (w : World)
    → w.faults ≡ []
    → let w' = (touch_session crypto token ttl w).1 in (w'.faults ≡ []) × (w'.users ≡ w.users)
unfolding touch_session get_session extend_session put_session statement
touch_clear crypto token ttl w clear =
    elim (Option-cases (find (is_live_key w.clock (crypto.hash_token token)) w.sessions)) [
      | inl e ↦ rw (clear, e) (refl, refl)
      | inr (x, e) ↦ rw (clear, e) (refl, refl)
    ]

admin_clear :
    (id : ℕ) (w : World) (row : User)
    → w.faults ≡ []
    → find (has_id id) w.users ≡ some row
    → find_is_system_admin id w ≡ (ok row.is_system_admin, w)
unfolding find_is_system_admin statement
admin_clear id w row clear k = rw (clear, k) refl

authenticated_clear :
    (crypto : Crypto) (ttl : ℕ) (token : Text) (w : World) (user_id : ℕ) (row : User) {B : Type 0}
    (next : Option Subject → Handler B)
    → w.faults ≡ []
    → find (has_id user_id) w.users ≡ some row
    → authenticated crypto ttl token next user_id w
      ≡ next
          (some (record { user_id = user_id; is_system_admin = row.is_system_admin }))
          (touch_session crypto token ttl w).1
unfolding authenticated
authenticated_clear crypto ttl token w user_id row next clear k =
    let (clear', same) = touch_clear crypto token ttl w clear in
    rw
      (admin_clear user_id (touch_session crypto token ttl w).1 row clear'
        (ap (find (has_id user_id)) same ∙ k))
      refl

List-cases : {A : Type 0} (xs : List A) → (xs ≡ []) ⊎ ((x : A) × (ys : List A) × (xs ≡ x ∷ ys))
List-cases [] = inl refl
List-cases (x ∷ ys) = inr (x, ys, refl)

created_ok :
    (crypto : Crypto) (user_id ttl : ℕ) (token : Text) (w : World)
    → let (r, w1) = create_session crypto user_id ttl w in
      r ≡ ok token
      → let key =
          entry
            (crypto.hash_token token)
            (new_session crypto user_id w.clock ttl)
            (w.clock + ttl) in
        (w1.clock ≡ w.clock)
        × (w1.sessions ≡ key ∷ without_hash (crypto.hash_token token) w.sessions)
unfolding create_session generate_token raw_token put_new_session statement
created_ok crypto user_id ttl token w done = elim (List-cases w.tokens) [
  | inl e ↦ cc (rw e at done)
  | inr (t, ts, e) ↦ elim (Bool-cases (failing w.faults)) [
    | inl f ↦ cc (rw (e, f) at done)
    | inr f ↦ let same = ok_injective (rw (e, f) at done) in rw (e, f, ← same) (refl, refl)
  ]
]

found_clear :
    (crypto : Crypto) (token : Text) (w : World) (e : SessionEntry)
    → w.faults ≡ []
    → find (is_live_key w.clock (crypto.hash_token token)) w.sessions ≡ some e
    → find_session crypto token w ≡ (ok e.session, w)
unfolding find_session get_session statement
found_clear crypto token w e clear k = rw (clear, k) refl

answered_ok :
    (cookie_of : Result Text × World) (r : Reply (Unit {0})) (token : Text)
    → let (response, w1) =
        handle_answer (λ _. internal_error) (λ token. answer (set_cookie token) r) cookie_of in
      response.cookie ≡ set_cookie token → (cookie_of.0 ≡ ok token) × (w1 ≡ cookie_of.1)
answered_ok (ok t, w) r token h = (cc, refl)
answered_ok (err e, w) r token h = cc

-- The session that a login starts.
started_ok :
    (crypto : Crypto) (ttl user_id : ℕ) (token : Text) (w : World) (r : Reply (Unit {0}))
    → let (response, w1) = start_session crypto ttl user_id r w in
      response.cookie ≡ set_cookie token
      → let key =
          entry
            (crypto.hash_token token)
            (new_session crypto user_id w.clock ttl)
            (w.clock + ttl) in
        (w1.clock ≡ w.clock)
        × (w1.sessions ≡ key ∷ without_hash (crypto.hash_token token) w.sessions)
unfolding start_session
started_ok crypto ttl user_id token w r cookie =
    let (done, same) = answered_ok (create_session crypto user_id ttl w) r token cookie in
    rw same (created_ok crypto user_id ttl token w done)

logged_in_as :
    (crypto : Crypto) (ttl : ℕ) (dummy_hash : Text) (req : Credentials) (w : World) (user : User)
    → (login crypto dummy_hash req.email req.password w).0 ≡ ok user
    → handle_local_login crypto ttl dummy_hash (some req) w
      ≡ start_session crypto ttl user.id no_content
          (login crypto dummy_hash req.email req.password w).1
unfolding handle_local_login
logged_in_as crypto ttl dummy_hash req w user h = rw h refl

live_entry :
    (hash : Text) (now dies_at : ℕ) (s : Session) (xs : List SessionEntry)
    → now < dies_at
    → find (is_live_key now hash) (entry hash s dies_at ∷ xs) ≡ some (entry hash s dies_at)
unfolding find
live_entry hash now dies_at s xs early = ground (arith, text_eq_refl hash)

live_authenticated :
    (crypto : Crypto) (ttl : ℕ) (token : Text) (w : World) (e : SessionEntry) (row : User)
    {B : Type 0} (next : Option Subject → Handler B)
    → w.faults ≡ []
    → find (is_live_key w.clock (crypto.hash_token token)) w.sessions ≡ some e
    → find (has_id e.session.user_id) w.users ≡ some row
    → require_auth crypto ttl (some token) next w
      ≡ next
          (some (record { user_id = e.session.user_id; is_system_admin = row.is_system_admin }))
          (touch_session crypto token ttl w).1
unfolding require_auth
live_authenticated crypto ttl token w e row next clear live k =
    rw (found_clear crypto token w e clear live)
      (authenticated_clear crypto ttl token w e.session.user_id row next clear k)

-- A user logs in with email and password, and the response sets a cookie. Until the time to live has
-- passed, a request with that cookie, no call of it failing, is handled as one of that user, who is
-- a system administrator exactly if the users' row says so, with the session extended.
pub login_then_authenticated :
    (crypto : Crypto) (ttl : ℕ) (dummy_hash : Text) (req : Credentials) (w : World)
    (user row : User) (token : Text) (time : ℕ) {B : Type 0} (next : Option Subject → Handler B)
    → (login crypto dummy_hash req.email req.password w).0 ≡ ok user
    → let (response, w1) = handle_local_login crypto ttl dummy_hash (some req) w in
      let w2 = record w1 { clock = w1.clock + time } in
      response.cookie ≡ set_cookie token
      → time < ttl
      → w1.faults ≡ []
      → find (has_id user.id) w1.users ≡ some row
      → require_auth crypto ttl (some token) next w2
        ≡ next
            (some (record { user_id = user.id; is_system_admin = row.is_system_admin }))
            (touch_session crypto token ttl w2).1
login_then_authenticated crypto ttl dummy_hash req w user row token time next logged cookie early
      clear k =
    let w0 = (login crypto dummy_hash req.email req.password w).1 in
    let w1 = (handle_local_login crypto ttl dummy_hash (some req) w).1 in
    let same = logged_in_as crypto ttl dummy_hash req w user logged in
    let hash = crypto.hash_token token in
    let session = new_session crypto user.id w0.clock ttl in
    let (now, stored) = started_ok crypto ttl user.id token w0 no_content (rw same at cookie) in
    let live =
      live_entry hash (w0.clock + time) (w0.clock + ttl) session (without_hash hash w0.sessions)
        (ground arith) in
    let w2 : World = record w1 { clock = w1.clock + time } in
    live_authenticated crypto ttl token w2 (entry hash session (w0.clock + ttl)) row next clear
      (rw (same, now, stored) live) k
