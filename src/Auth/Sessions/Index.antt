-- ===== src/Auth/Sessions/Index.antt =====
-- Each live session is in its user's set, which lives as long as the session.
use knives.Prelude.{
  ℕ, ◌+◌, ◌≤◌, ◌≡◌, Text, text_eq, text_eq_iff, Bool, true, false, ◌&&◌, ◌||◌, ◌==◌, ==_iff,
  ==_refl, text_eq_refl, leb, ltb, not, List, [], ◌∷◌, any, select, update, All, All-select, arith,
}
use knives.World.{World}
use knives.World.Rows.{Session, SessionEntry, SessionMember}
use knives.Auth.Sessions.{is_live_member, without_hash, expire_members, entry, has_hash}

-- The member stands for the session, and is gone no earlier.
abbrev pub belongs : SessionEntry → SessionMember → Bool
belongs e m = m.user_id == e.session.user_id && text_eq m.hash e.hash && leb e.dies_at m.dies_at

-- A session that is live is in the index, and no session outlives the time to live.
abbrev pub IsCovered : ℕ → ℕ → List SessionMember → SessionEntry → Type 0
IsCovered ttl now index e =
    ((leb e.dies_at now || any (belongs e) index) ≡ true) × (e.dies_at ≤ now + ttl)

abbrev pub IsIndexed : ℕ → World → Type 0
IsIndexed ttl w = All (IsCovered ttl w.clock w.session_index) w.sessions

any-expire :
    (now user dies_at : ℕ) (e : SessionEntry) (index : List SessionMember)
    → e.dies_at ≤ dies_at
    → any (belongs e) index ≡ true
    → any (belongs e) (expire_members now user dies_at index) ≡ true
unfolding any expire_members update
any-expire now user dies_at e [] h k = cc
any-expire now user dies_at e (m ∷ index) h k = ground (arith, any-expire now user dies_at e index)

any-without :
    (user : ℕ) (hash : Text) (e : SessionEntry) (index : List SessionMember)
    → text_eq e.hash hash ≡ false
    → any (belongs e) index ≡ true
    → any (belongs e) (select (λ m. not (m.user_id == user && text_eq m.hash hash)) index) ≡ true
unfolding any select
any-without user hash e [] h k = cc
any-without user hash e (m ∷ index) h k = ground (
  arith,
  any-without user hash e index,
  text_eq_iff m.hash e.hash,
  text_eq_iff m.hash hash,
  text_eq_iff e.hash hash,
)

-- A session that is not removed with its user's set is no live session of that user.
any-remaining :
    (now user : ℕ) (e : SessionEntry) (index : List SessionMember)
    → leb e.dies_at now ≡ false
    → has_hash (select (is_live_member now user) index) e ≡ false
    → any (belongs e) index ≡ true
    → any (belongs e) (select (λ m. not (is_live_member now user m)) index) ≡ true
unfolding any select
any-remaining now user e [] live gone k = cc
any-remaining now user e (m ∷ index) live gone k = ground (arith, any-remaining now user e index)

pub any-other :
    (now user : ℕ) (e : SessionEntry) (index : List SessionMember)
    → leb e.dies_at now ≡ false
    → has_hash (select (is_live_member now user) index) e ≡ false
    → any (belongs e) index ≡ true
    → (e.session.user_id == user) ≡ false
unfolding any select
any-other now user e [] live gone k = cc
any-other now user e (m ∷ index) live gone k = ground (
  arith,
  any-other now user e index,
  ==_iff m.user_id user,
  ==_iff m.user_id e.session.user_id,
  ==_iff e.session.user_id user,
)

module _ (ttl now : ℕ) where
  abbrev pub Covers : List SessionMember → List SessionEntry → Type 0
  Covers index = All (IsCovered ttl now index)

  pub cover-expire :
      (user : ℕ) (index : List SessionMember) (e : SessionEntry)
      → IsCovered ttl now index e
      → IsCovered ttl now (expire_members now user (now + ttl) index) e
  cover-expire user index e c = ground (arith, any-expire now user (now + ttl) e index)

  pub cover-cons :
      (m : SessionMember) (index : List SessionMember) (e : SessionEntry)
      → IsCovered ttl now index e
      → IsCovered ttl now (m ∷ index) e
  unfolding any
  cover-cons m index e c = ground arith

  pub Covers-without_hash :
      (hash : Text) (index index' : List SessionMember) (rows : List SessionEntry)
      → ((e : SessionEntry) → IsCovered ttl now index e → IsCovered ttl now index' e)
      → Covers index rows
      → Covers index' (without_hash hash rows)
  unfolding without_hash
  Covers-without_hash hash index index' rows f h =
      All-select (IsCovered ttl now index) (IsCovered ttl now index')
        (λ e. not (text_eq e.hash hash)) (λ e _. f e) rows h

  -- The written session's own member: new, or extended.
  pub cover-new :
      (hash : Text) (s : Session) (index : List SessionMember)
      → IsCovered ttl now
          (record { user_id = s.user_id; hash = hash; dies_at = now + ttl } ∷ index)
          (entry hash s (now + ttl))
  unfolding any
  cover-new hash s index = ground (arith, ==_refl s.user_id, text_eq_refl hash)

  abbrev pub is_member : ℕ → Text → SessionMember → Bool
  is_member user hash m = is_live_member now user m && text_eq m.hash hash

  pub any-extended :
      (hash : Text) (s : Session) (index : List SessionMember)
      → any (is_member s.user_id hash) index ≡ true
      → any (belongs (entry hash s (now + ttl))) (expire_members now s.user_id (now + ttl) index)
        ≡ true
  unfolding any expire_members update
  any-extended hash s [] h = cc
  any-extended hash s (m ∷ index) h = ground (arith, any-extended hash s index)

  -- The member of a session that is covered and live.
  pub any-member :
      (e : SessionEntry) (index : List SessionMember)
      → ltb now e.dies_at ≡ true
      → any (belongs e) index ≡ true
      → any (is_member e.session.user_id e.hash) index ≡ true
  unfolding any
  any-member e [] live h = cc
  any-member e (m ∷ index) live h = ground (arith, any-member e index)

  pub Covers-removed :
      (user : ℕ) (hash : Text) (index : List SessionMember) (rows : List SessionEntry)
      → Covers index rows
      → Covers
          (select (λ m. not (m.user_id == user && text_eq m.hash hash)) index)
          (without_hash hash rows)
  unfolding without_hash
  Covers-removed user hash index rows h =
      let index' = select (λ m. not (m.user_id == user && text_eq m.hash hash)) index in
      All-select (IsCovered ttl now index) (IsCovered ttl now index')
        (λ e. not (text_eq e.hash hash)) (λ e kept c. ground (arith, any-without user hash e index))
        rows h

  pub Covers-all_removed :
      (user : ℕ) (index : List SessionMember) (rows : List SessionEntry)
      → Covers index rows
      → Covers
          (select (λ m. not (is_live_member now user m)) index)
          (select (λ e. not (has_hash (select (is_live_member now user) index) e)) rows)
  Covers-all_removed user index rows h =
      let index' = select (λ m. not (is_live_member now user m)) index in
      All-select (IsCovered ttl now index) (IsCovered ttl now index')
        (λ e. not (has_hash (select (is_live_member now user) index) e))
        (λ e kept c. ground (arith, any-remaining now user e index)) rows h
