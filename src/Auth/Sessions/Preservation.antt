-- ===== src/Auth/Sessions/Preservation.antt =====
-- Every operation on sessions keeps the index complete, whatever calls fail.
use knives.Prelude.{
  ℕ, ◌≡◌, refl, subst, inl, inr, Text, text_eq_iff, true, List, [], ◌∷◌, some, any, find, select,
  find-All, find_test, Bool-cases, Option-cases, arith,
}
use knives.World.{World, failing, statement, called, raw_token}
use knives.World.Effects.{Result, ok, err, Exec, attempt, session_not_found}
use knives.World.Effects.Keeps.{Keeps, bind_after}
use knives.World.Rows.{Session, SessionEntry, SessionMember}
use knives.Auth.Crypto.{Crypto}
use knives.Auth.Identity.{generate_token}
use knives.Auth.Sessions.{
  is_live_key, is_live_member, get_session, put_new_session, put_session, remove_session, members,
  remove_sessions, remove_unless_empty, delete_all_for_user, extend_session, delete_found,
  new_session, create_session, touch_session, delete_session,
}
use knives.Auth.Sessions.Index.{
  IsCovered, IsIndexed, cover-expire, cover-cons, Covers-without_hash, cover-new, any-extended,
  any-member, is_member, Covers-removed, Covers-all_removed,
}

-- A statement that fails leaves the state as it was, but for the call that is used up.
statement_after :
    {A : Type 0} (P R : World → Type 0) (op : Exec World A)
    → ((w : World) → P w → P (called w))
    → ((w : World) → P w → R w)
    → ((w : World) → P w → R (op w).1)
    → (w : World) → P w
    → R (statement op w).1
unfolding statement
statement_after P R op same weaken go w h = elim (Bool-cases (failing w.faults)) [
  | inl f ↦ rw f (weaken (called w) (same w h))
  | inr f ↦ rw f (go (called w) (same w h))
]

generate_token_frame :
    (crypto : Crypto) (w : World)
    → let w' = (generate_token crypto w).1 in
      (w'.sessions ≡ w.sessions) × (w'.session_index ≡ w.session_index) × (w'.clock ≡ w.clock)
unfolding generate_token raw_token
generate_token_frame crypto w = ground arith

module _ (ttl : ℕ) where
  put_new-IsIndexed :
      (hash : Text) (s : Session) → Keeps (IsIndexed ttl) (put_new_session hash s ttl)
  unfolding put_new_session
  put_new-IsIndexed hash s =
      statement_after (IsIndexed ttl) (IsIndexed ttl) _ (λ w h. h) (λ w h. h)
        (λ w h. (
          cover-new ttl w.clock hash s _,
          Covers-without_hash ttl w.clock hash w.session_index _ w.sessions
              (λ e c.
                cover-cons ttl w.clock _ _ e
                  (cover-expire ttl w.clock s.user_id w.session_index e c))
              h,
        ))

  token-IsIndexed : (crypto : Crypto) → Keeps (IsIndexed ttl) (generate_token crypto)
  token-IsIndexed crypto w h =
      let (sessions, index, clock) = generate_token_frame crypto w in rw (sessions, index, clock) h

  pub create-IsIndexed :
      (crypto : Crypto) (user_id : ℕ) → Keeps (IsIndexed ttl) (create_session crypto user_id ttl)
  unfolding create_session
  create-IsIndexed crypto user_id =
      bind_after (IsIndexed ttl) (IsIndexed ttl) _ (generate_token crypto) (token-IsIndexed crypto)
        (λ w h. h)
        (λ t.
          bind_after (IsIndexed ttl) (IsIndexed ttl) _ _
            (λ w. put_new-IsIndexed t.1 (new_session crypto user_id w.clock ttl) w) (λ w h. h)
            (λ _ w h. h))

  -- Writing a session back that is in its user's set.
  extend-IsIndexed :
      (hash : Text) (s : Session) (w : World)
      → any (is_member ttl w.clock s.user_id hash) w.session_index ≡ true
      → IsIndexed ttl w
      → IsIndexed ttl (extend_session hash ttl s w).1
  unfolding extend_session put_session
  extend-IsIndexed hash s w m h = elim (Bool-cases (failing w.faults)) [
    | inl f ↦ unfold statement in rw f h
    | inr f ↦
        unfold statement in
        rw f (
          (ground (arith, any-extended ttl w.clock hash s w.session_index m), omega arith),
          Covers-without_hash ttl w.clock hash w.session_index _ w.sessions
              (λ e c. cover-expire ttl w.clock s.user_id w.session_index e c) h,
        )
  ]

  touch_found-IsIndexed :
      (hash : Text) (e : SessionEntry) (w : World)
      → find (is_live_key w.clock hash) w.sessions ≡ some e
      → IsIndexed ttl w
      → IsIndexed ttl (extend_session hash ttl e.session w).1
  touch_found-IsIndexed hash e w found h =
      let live = find_test (is_live_key w.clock hash) w.sessions found in
      let c = find-All (IsCovered ttl w.clock w.session_index) _ w.sessions found h in
      let same : e.hash ≡ hash = (text_eq_iff e.hash hash).0 (ground arith) in
      let member = any-member ttl w.clock e w.session_index (ground arith) (ground arith) in
      extend-IsIndexed hash e.session w
        (subst
          (λ (k : Text). any (is_member ttl w.clock e.session.user_id k) w.session_index ≡ true)
          same member)
        h

  pub touch-IsIndexed :
      (crypto : Crypto) (token : Text) → Keeps (IsIndexed ttl) (touch_session crypto token ttl)
  unfolding touch_session get_session statement
  touch-IsIndexed crypto token w h =
      let hash = crypto.hash_token token in
      elim (Bool-cases (failing w.faults)) [
        | inl f ↦ rw f h
        | inr f ↦ elim (Option-cases (find (is_live_key w.clock hash) w.sessions)) [
          | inl gone ↦ rw (f, gone) h
          | inr (e, found) ↦ rw (f, found) (touch_found-IsIndexed hash e (called w) found h)
        ]
      ]

  remove-IsIndexed : (hash : Text) (user : ℕ) → Keeps (IsIndexed ttl) (remove_session hash user)
  unfolding remove_session
  remove-IsIndexed hash user =
      statement_after (IsIndexed ttl) (IsIndexed ttl) _ (λ w h. h) (λ w h. h)
        (λ w h. Covers-removed ttl w.clock user hash w.session_index w.sessions h)

  delete_found-IsIndexed :
      (hash : Text) (r : Result Session) → Keeps (IsIndexed ttl) (delete_found hash r)
  unfolding delete_found
  delete_found-IsIndexed hash (ok s) w h = remove-IsIndexed hash s.user_id w h
  delete_found-IsIndexed hash (err session_not_found) w h = h
  delete_found-IsIndexed hash (err _) w h = h

  get-IsIndexed : (hash : Text) → Keeps (IsIndexed ttl) (get_session hash)
  unfolding get_session
  get-IsIndexed hash =
      statement_after (IsIndexed ttl) (IsIndexed ttl) _ (λ w h. h) (λ w h. h) (λ w h. h)

  pub delete-IsIndexed :
      (crypto : Crypto) (token : Text) → Keeps (IsIndexed ttl) (delete_session crypto token)
  unfolding delete_session
  delete-IsIndexed crypto token =
      let hash = crypto.hash_token token in
      bind_after (IsIndexed ttl) (IsIndexed ttl) (delete_found hash) (attempt (get_session hash))
        (get-IsIndexed hash) (λ w h. h) (delete_found-IsIndexed hash)

  remove_all-IsIndexed :
      (user : ℕ) (ms : List SessionMember) (w : World)
      → select (is_live_member w.clock user) w.session_index ≡ ms
      → IsIndexed ttl w
      → IsIndexed ttl (remove_unless_empty user ms w).1
  unfolding remove_unless_empty remove_sessions statement
  remove_all-IsIndexed user [] w e h = h
  remove_all-IsIndexed user (m ∷ ms) w e h = elim (Bool-cases (failing w.faults)) [
    | inl f ↦ rw f h
    | inr f ↦ rw (f, ← e) (Covers-all_removed ttl w.clock user w.session_index w.sessions h)
  ]

  pub delete_all-IsIndexed : (user : ℕ) → Keeps (IsIndexed ttl) (delete_all_for_user user)
  unfolding delete_all_for_user members statement
  delete_all-IsIndexed user w h = elim (Bool-cases (failing w.faults)) [
    | inl f ↦ rw f h
    | inr f ↦ rw f (remove_all-IsIndexed user _ (called w) refl h)
  ]
