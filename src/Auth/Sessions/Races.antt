-- ===== src/Auth/Sessions/Races.antt =====
-- Two requests at once: extending a session reads it and writes it back in two calls.
use knives.Prelude.{ℕ, ◌+◌, ◌<◌, ◌≡◌, refl, Text, text_eq_refl, [], ◌∷◌, List, find, arith}
use knives.World.{World, statement}
use knives.World.Effects.{ok}
use knives.World.Rows.{Session, SessionMember}
use knives.Auth.Crypto.{Crypto}
use knives.Auth.Sessions.{
  get_session, put_session, extend_session, find_session, delete_all_for_user, members,
  remove_unless_empty, remove_sessions,
}

remove_clear :
    (user : ℕ) (ms : List SessionMember) (w : World)
    → w.faults ≡ []
    → ((remove_unless_empty user ms w).0 ≡ ok tt) × ((remove_unless_empty user ms w).1.faults ≡ [])
unfolding remove_unless_empty remove_sessions statement
remove_clear user [] w clear = (refl, clear)
remove_clear user (m ∷ ms) w clear = rw clear (refl, refl)

delete_all_clear :
    (user : ℕ) (w : World)
    → w.faults ≡ []
    → ((delete_all_for_user user w).0 ≡ ok tt) × ((delete_all_for_user user w).1.faults ≡ [])
unfolding delete_all_for_user members statement
delete_all_clear user w clear = rw clear (remove_clear user _ (record w { faults = [] }) refl)

-- A session that is written is found.
extended_found :
    (crypto : Crypto) (token : Text) (ttl : ℕ) (s : Session) (w : World)
    → 0 < ttl
    → w.faults ≡ []
    → (find_session crypto token (extend_session (crypto.hash_token token) ttl s w).1).0
      ≡ ok (record s { last_seen_at = w.clock; expires_at = w.clock + ttl })
unfolding find_session get_session extend_session put_session statement find
extended_found crypto token ttl s w pos clear =
    rw (clear, text_eq_refl (crypto.hash_token token)) (ground arith)

-- A request extends its session while the user's sessions are revoked: it has read the session
-- before the revocation and writes it back after. With no call failing the revocation succeeds, and
-- the session is live again after it.
extend_revives :
    (crypto : Crypto) (token : Text) (ttl : ℕ) (w : World) (s : Session)
    → 0 < ttl
    → w.faults ≡ []
    → (find_session crypto token w).0 ≡ ok s
    → let revocation = delete_all_for_user s.user_id (find_session crypto token w).1 in
      let revived = (extend_session (crypto.hash_token token) ttl s revocation.1).1 in
      (revocation.0 ≡ ok tt)
      × ((find_session crypto token revived).0
          ≡ ok (record s {
            last_seen_at = revocation.1.clock;
            expires_at = revocation.1.clock + ttl;
          }))
unfolding find_session get_session statement
extend_revives crypto token ttl w s pos clear read =
    let v = (find_session crypto token w).1 in
    let (done, clear') = delete_all_clear s.user_id v (rw clear) in
    (done, extended_found crypto token ttl s (delete_all_for_user s.user_id v).1 pos clear')
