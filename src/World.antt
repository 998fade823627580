-- ===== src/World.antt =====
-- The services' shared state: the PostgreSQL tables (db/migrations, internal/storage/models.go),
-- the sessions and their index in Redis, the logins under way in Redis, the Redis tier of the redirect cache with the purges
-- published, the mails handed to the SMTP server, and what the environment is going to do. `faults` says of
-- each coming call to a service whether it fails, `tokens` and `draws` are what crypto/rand is
-- going to return, `next_id` is the next fresh UUID, `clock` is the time of the request, and
-- `comparisons` counts the argon2id comparisons that were run.
pub mod Effects
pub mod Rows
pub mod Logins
pub mod Stable
use knives.Prelude.{
  ℕ, ◌+◌, Text, List, [], ◌∷◌, Option, none, some, Bool, true, false, if◌then◌else◌, ◌≡◌, refl, ap,
}
use Effects.{Result, ok, err, Err, db_error, entropy_error, Exec}
use Rows.{
  User, AuthIdentity, PendingLinkRequest, LocalCredential, SignupVerification, AuditLogEntry, Mail,
  AuthSettings, ShortUrl, UrlPermission, CacheEntry, CacheKey, DailyRow, ClickEvent, SessionEntry,
  SessionMember,
}
use Logins.{Providers, Passkey, Ceremonies}

pub record World : Type 0 where
  pub users : List User
  pub identities : List AuthIdentity
  pub pending_links : List PendingLinkRequest
  pub credentials : List LocalCredential
  pub signups : List SignupVerification
  pub audit_log : List AuditLogEntry
  pub auth_settings : AuthSettings
  pub short_urls : List ShortUrl
  pub permissions : List UrlPermission
  pub clicks : List ClickEvent
  pub daily : List DailyRow
  pub sessions : List SessionEntry
  pub session_index : List SessionMember
  pub providers : Providers
  pub passkeys : List Passkey
  pub ceremonies : Ceremonies
  pub cache : List CacheEntry
  pub published : List CacheKey
  pub charset : Text
  pub code_length : ℕ
  pub outbox : List Mail
  pub faults : List Bool
  pub tokens : List Text
  pub draws : List ℕ
  pub next_id : ℕ
  pub clock : ℕ
  pub comparisons : ℕ

abbrev pub failing : List Bool → Bool
failing [] = false
failing (b ∷ bs) = b

abbrev pub later : List Bool → List Bool
later [] = []
later (b ∷ bs) = bs

-- The state behind a call: the outcome of one more call is used up.
abbrev pub called : World → World
called w = record w { faults = later w.faults }

-- No call is going to fail.
pub called_clear : (w : World) → w.faults ≡ [] → called w ≡ w
called_clear w clear = ap (λ f. record w { faults = f }) (rw clear refl)

-- One statement sent to the database: it fails as a whole, or runs.
unfoldable pub statement : {A : Type 0} → Exec World A → Exec World A
statement op w = if failing w.faults then (err db_error, called w) else op (called w)

-- gen_random_uuid(), inside a statement.
abbrev pub fresh : World → World
fresh w = record w { next_id = w.next_id + 1 }

-- One raw token of crypto/rand, or its error.
take_token : List Text → Exec World Text
take_token [] w = (err entropy_error, w)
take_token (t ∷ ts) w = (ok t, record w { tokens = ts })

unfoldable pub raw_token : Exec World Text
unfolding take_token
raw_token w = take_token w.tokens w

take_draw : List ℕ → Exec World ℕ
take_draw [] w = (err entropy_error, w)
take_draw (d ∷ ds) w = (ok d, record w { draws = ds })

-- One draw of crypto/rand, or its error.
unfoldable pub draw : Exec World ℕ
unfolding take_draw
draw w = take_draw w.draws w

-- pool.Begin ... tx.Commit, with `defer tx.Rollback`: an error puts the tables back, and what the
-- environment has used up stays used.
abbrev pub rollback : World → World → World
rollback w w' = record w {
  faults = w'.faults;
  tokens = w'.tokens;
  draws = w'.draws;
  next_id = w'.next_id;
  comparisons = w'.comparisons;
}

abbrev pub commit : {A : Type 0} → World → Result A × World → Result A × World
commit w (ok a, w') =
    if failing w'.faults then (err db_error, rollback w (called w')) else (ok a, called w')
commit w (err e, w') = (err e, rollback w w')

unfoldable pub transaction : {A : Type 0} → Exec World A → Exec World A
transaction body w =
    if failing w.faults then (err db_error, called w) else commit w (body (called w))
