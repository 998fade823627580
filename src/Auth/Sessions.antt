-- ===== src/Auth/Sessions.antt =====
-- internal/auth/session.go: login sessions in Redis, one key for each with a time to live, and for
-- each user a set of the hashes of that user's sessions. A key or a set whose time has come is
-- gone. A time to live is positive here: Redis reads 0 as none.
pub mod Index
pub mod Preservation
pub mod Revocation
pub mod Races
use knives.Prelude.{
  ℕ, ◌+◌, Text, text_eq, Bool, ◌&&◌, ◌==◌, ltb, not, if◌then◌else◌, List, [], ◌∷◌, Option, none,
  some, find, any, select, update,
}
use knives.World.{World, statement}
use knives.World.Effects.{
  Exec, Result, ok, err, Err, pure, raise, attempt, or_raise, ◌>>=◌, ◌>>◌, session_not_found,
}
use knives.World.Rows.{Session, SessionEntry, SessionMember}
use knives.Auth.Crypto.{Crypto}
use knives.Auth.Identity.{generate_token}

-- The key of a hash, if its time has not come.
abbrev pub is_live_key : ℕ → Text → SessionEntry → Bool
is_live_key now hash e = text_eq e.hash hash && ltb now e.dies_at

abbrev pub is_live_member : ℕ → ℕ → SessionMember → Bool
is_live_member now user_id m = m.user_id == user_id && ltb now m.dies_at

abbrev pub session_of : Option SessionEntry → Option Session
session_of none = none
session_of (some e) = some e.session

-- GET
unfoldable pub get_session : Text → Exec World Session
get_session hash =
    statement
      λ w. or_raise session_not_found (session_of (find (is_live_key w.clock hash) w.sessions)) w

unfoldable pub without_hash : Text → List SessionEntry → List SessionEntry
without_hash hash = select (λ e. not (text_eq e.hash hash))

-- EXPIRE of a user's set, which a set that is gone ignores.
unfoldable pub expire_members : ℕ → ℕ → ℕ → List SessionMember → List SessionMember
expire_members now user_id dies_at =
    update (is_live_member now user_id) (λ m. record m { dies_at = dies_at })

abbrev pub entry : Text → Session → ℕ → SessionEntry
entry hash session dies_at = record { hash = hash; session = session; dies_at = dies_at }

-- MULTI: SET, SADD, EXPIRE.
unfoldable pub put_new_session : Text → Session → ℕ → Exec World (Unit {0})
put_new_session hash session ttl = statement λ w.
    let dies_at = w.clock + ttl in
    let member : SessionMember = record {
      user_id = session.user_id;
      hash = hash;
      dies_at = dies_at;
    } in
    (
      ok tt,
      record w {
        sessions = entry hash session dies_at ∷ without_hash hash w.sessions;
        session_index = member ∷ expire_members w.clock session.user_id dies_at w.session_index;
      },
    )

-- MULTI: SET, EXPIRE.
unfoldable pub put_session : Text → Session → ℕ → Exec World (Unit {0})
put_session hash session ttl = statement λ w.
    let dies_at = w.clock + ttl in
    (
      ok tt,
      record w {
        sessions = entry hash session dies_at ∷ without_hash hash w.sessions;
        session_index = expire_members w.clock session.user_id dies_at w.session_index;
      },
    )

-- MULTI: DEL, SREM.
unfoldable pub remove_session : Text → ℕ → Exec World (Unit {0})
remove_session hash user_id = statement λ w.
    let is_it = λ (m : SessionMember). m.user_id == user_id && text_eq m.hash hash in
    (
      ok tt,
      record w {
        sessions = without_hash hash w.sessions;
        session_index = select (λ m. not (is_it m)) w.session_index;
      },
    )

-- SMEMBERS
unfoldable pub members : ℕ → Exec World (List SessionMember)
members user_id = statement λ w. (ok (select (is_live_member w.clock user_id) w.session_index), w)

abbrev pub has_hash : List SessionMember → SessionEntry → Bool
has_hash ms e = any (λ m. text_eq m.hash e.hash) ms

-- MULTI: DEL of the hashes' keys, DEL of the set.
unfoldable pub remove_sessions : ℕ → List SessionMember → Exec World (Unit {0})
remove_sessions user_id ms = statement λ w. (
  ok tt,
  record w {
    sessions = select (λ e. not (has_hash ms e)) w.sessions;
    session_index = select (λ m. not (is_live_member w.clock user_id m)) w.session_index;
  },
)

unfoldable pub remove_unless_empty : ℕ → List SessionMember → Exec World (Unit {0})
remove_unless_empty user_id [] = pure tt
remove_unless_empty user_id (m ∷ ms) = remove_sessions user_id (m ∷ ms)

unfoldable pub delete_all_for_user : ℕ → Exec World (Unit {0})
delete_all_for_user user_id = do ms ← members user_id; remove_unless_empty user_id ms

-- `rec.LastSeenAt = time.Now()` and the write, for the record that was read.
unfoldable pub extend_session : Text → ℕ → Session → Exec World (Unit {0})
extend_session hash ttl rec w =
    put_session hash (record rec { last_seen_at = w.clock; expires_at = w.clock + ttl }) ttl w

unfoldable pub delete_found : Text → Result Session → Exec World (Unit {0})
delete_found hash (ok rec) = remove_session hash rec.user_id
delete_found hash (err session_not_found) = pure tt
delete_found hash (err e) = raise e

module _ (crypto : Crypto) where
  abbrev pub new_session : ℕ → ℕ → ℕ → Session
  new_session user_id now ttl = record {
    user_id = user_id;
    created_at = now;
    expires_at = now + ttl;
    last_seen_at = now;
  }

  -- The raw token is returned; only its hash is stored.
  unfoldable pub create_session : ℕ → ℕ → Exec World Text
  create_session user_id ttl = do
    (raw, hash) ← generate_token crypto
    (λ (w : World). put_new_session hash (new_session user_id w.clock ttl) ttl w)
    pure raw

  unfoldable pub find_session : Text → Exec World Session
  find_session token = get_session (crypto.hash_token token)

  unfoldable pub touch_session : Text → ℕ → Exec World (Unit {0})
  touch_session token ttl = do
    let hash = crypto.hash_token token
    rec ← get_session hash
    extend_session hash ttl rec

  unfoldable pub delete_session : Text → Exec World (Unit {0})
  delete_session token = do
    let hash = crypto.hash_token token
    found ← attempt (get_session hash)
    delete_found hash found
