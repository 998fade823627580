-- ===== src/Auth/Sessions/Revocation.antt =====
-- Revoking the sessions of a user: after any history, none of them is left.
use knives.Prelude.{
  ℕ, ◌+◌, ◌≡◌, ◌≢◌, refl, inl, inr, Text, false, ◌&&◌, ◌==◌, ==_iff, ltb, not, List, [], ◌∷◌, any,
  find, select, All, All-select, All-weaken, find-All, find_test, Bool-cases, Option-cases, arith,
}
use knives.World.{World, failing, statement, called}
use knives.World.Effects.{ok}
use knives.World.Rows.{Session, SessionEntry, SessionMember}
use knives.Auth.Crypto.{Crypto}
use knives.Auth.Sessions.{
  is_live_key, is_live_member, get_session, members, has_hash, remove_sessions, remove_unless_empty,
  delete_all_for_user, create_session, find_session, touch_session, delete_session,
}
use knives.Auth.Sessions.Index.{IsCovered, IsIndexed, any-other}
use knives.Auth.Sessions.Preservation.{
  create-IsIndexed, touch-IsIndexed, delete-IsIndexed, delete_all-IsIndexed,
}

module _ (crypto : Crypto) (ttl : ℕ) where
  -- One operation of the session store, whatever calls of it fail; time that passes; or any other
  -- change of the state, which leaves the sessions, their index and the clock alone.
  pub data Step : World → World → Type 0 where
    creates : (user : ℕ) (w : World) → Step w (create_session crypto user ttl w).1
    touches : (token : Text) (w : World) → Step w (touch_session crypto token ttl w).1
    deletes : (token : Text) (w : World) → Step w (delete_session crypto token w).1
    revokes : (user : ℕ) (w : World) → Step w (delete_all_for_user user w).1
    waits : (time : ℕ) (w : World) → Step w (record w { clock = w.clock + time })
    others :
        {w w' : World}
        → w'.sessions ≡ w.sessions
        → w'.session_index ≡ w.session_index
        → w'.clock ≡ w.clock
        → Step w w'

  -- What is reached from a state with no session.
  pub data Reachable : World → Type 0 where
    start : {w : World} → w.sessions ≡ [] → Reachable w
    after : {w w' : World} → Reachable w → Step w w' → Reachable w'

  waits-IsIndexed :
      (time : ℕ) (w : World) → IsIndexed ttl w → IsIndexed ttl (record w { clock = w.clock + time })
  waits-IsIndexed time w h =
      All-weaken (IsCovered ttl w.clock w.session_index)
        (IsCovered ttl (w.clock + time) w.session_index) (λ e c. ground (arith, c)) w.sessions h

  Step-IsIndexed : {w w' : World} → Step w w' → IsIndexed ttl w → IsIndexed ttl w'
  Step-IsIndexed (creates user w) h = create-IsIndexed ttl crypto user w h
  Step-IsIndexed (touches token w) h = touch-IsIndexed ttl crypto token w h
  Step-IsIndexed (deletes token w) h = delete-IsIndexed ttl crypto token w h
  Step-IsIndexed (revokes user w) h = delete_all-IsIndexed ttl user w h
  Step-IsIndexed (waits time w) h = waits-IsIndexed time w h
  Step-IsIndexed (others s i c) h = rw (s, i, c) h

  Reachable-IsIndexed : {w : World} → Reachable w → IsIndexed ttl w
  Reachable-IsIndexed (start e) = rw e tt
  Reachable-IsIndexed (after r s) = Step-IsIndexed s (Reachable-IsIndexed r)

-- The session is another user's, or its time has come.
abbrev IsEndedFor : ℕ → ℕ → SessionEntry → Type 0
IsEndedFor user now e = (e.session.user_id == user && ltb now e.dies_at) ≡ false

abbrev HasNone : ℕ → World → Type 0
HasNone user w = All (IsEndedFor user w.clock) w.sessions

module _ (ttl : ℕ) where
  none_left :
      (user : ℕ) (w : World)
      → IsIndexed ttl w
      → All (IsEndedFor user w.clock) (
          select
            (λ e. not (has_hash (select (is_live_member w.clock user) w.session_index) e))
            w.sessions)
  none_left user w h =
      All-select (IsCovered ttl w.clock w.session_index) (IsEndedFor user w.clock)
        (λ e. not (has_hash (select (is_live_member w.clock user) w.session_index) e))
        (λ e kept c. ground (arith, any-other w.clock user e w.session_index)) w.sessions h

  unless_empty-HasNone :
      (user : ℕ) (ms : List SessionMember) (w : World)
      → select (is_live_member w.clock user) w.session_index ≡ ms
      → IsIndexed ttl w
      → (remove_unless_empty user ms w).0 ≡ ok tt
      → HasNone user (remove_unless_empty user ms w).1
  unfolding remove_unless_empty remove_sessions statement
  unless_empty-HasNone user [] w e h done =
      All-weaken (IsCovered ttl w.clock w.session_index) (IsEndedFor user w.clock)
        (λ x c. unfold any in ground (arith, any-other w.clock user x w.session_index, e))
        w.sessions h
  unless_empty-HasNone user (m ∷ ms) w e h done = elim (Bool-cases (failing w.faults)) [
    | inl f ↦ cc (rw f at done)
    | inr f ↦ rw (f, ← e) (none_left user w h)
  ]

  delete_all-HasNone :
      (user : ℕ) (w : World)
      → IsIndexed ttl w
      → (delete_all_for_user user w).0 ≡ ok tt
      → HasNone user (delete_all_for_user user w).1
  unfolding delete_all_for_user members statement
  delete_all-HasNone user w h done = elim (Bool-cases (failing w.faults)) [
    | inl f ↦ cc (rw f at done)
    | inr f ↦ rw f (unless_empty-HasNone user _ (called w) refl h (rw f at done))
  ]

module _ (crypto : Crypto) where
  find-HasNone :
      (user time : ℕ) (token : Text) (w : World) (s : Session)
      → HasNone user w
      → (find_session crypto token (record w { clock = w.clock + time })).0 ≡ ok s
      → s.user_id ≢ user
  unfolding find_session get_session statement
  find-HasNone user time token w s h found same =
      elim (Option-cases
        (find (is_live_key (w.clock + time) (crypto.hash_token token)) w.sessions)) [
          | inl gone ↦ ground (arith, gone)
          | inr (e, k) ↦
              let live =
                find_test (is_live_key (w.clock + time) (crypto.hash_token token)) w.sessions k in
              let other = find-All (IsEndedFor user w.clock) _ w.sessions k h in
              ground (arith, k, live, other, ==_iff e.session.user_id user)
        ]

  -- Whatever sessions were created, extended, ended and revoked before, with whatever calls failing:
  -- once `DeleteAllForUser` has succeeded, no token finds a session of that user, then or later.
  pub revoked_for_good :
      (ttl : ℕ) (w : World)
      → Reachable crypto ttl w
      → (user : ℕ) → (delete_all_for_user user w).0 ≡ ok tt
      → (token : Text) (time : ℕ) (s : Session)
      → let w' = (delete_all_for_user user w).1 in
        (find_session crypto token (record w' { clock = w'.clock + time })).0 ≡ ok s
        → s.user_id ≢ user
  revoked_for_good ttl w r user done token time s =
      find-HasNone user time token (delete_all_for_user user w).1 s
        (delete_all-HasNone ttl user w (Reachable-IsIndexed crypto ttl r) done)
