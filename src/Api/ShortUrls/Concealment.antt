-- ===== src/Api/ShortUrls/Concealment.antt =====
-- What a subject learns of a short URL that is not theirs.
use knives.Prelude.{
  ◌∷◌, inl, inr, Bool-cases, ℕ, ◌≡◌, ◌⊎◌, true, [], Option, none, some, find, Text, arith,
}
use knives.Permission.{Subject, resolve}
use knives.World.{World, failing, statement}
use knives.World.Rows.{ShortUrl}
use knives.Storage.Accounts.{record_audit_log}
use knives.Storage.Links.{is_grant, find_grant, url_has_id, find_by_id}
use knives.ShortUrls.{Url, UpdateInput}
use knives.Api.{Reply, reply, not_found_reply, internal_error}
use knives.Api.Access.{resolve_access}
use knives.Api.ShortUrls.{
  to_response, admin_view, audit_override, handle_get_short_url, handle_update_short_url,
  handle_delete_short_url,
}

-- The tables that a short URL's handlers write are as they were.
abbrev pub Untouched : World → World → Type 0
Untouched w w' =
    (w'.short_urls ≡ w.short_urls)
    × (w'.permissions ≡ w.permissions)
    × (w'.audit_log ≡ w.audit_log)
    × (w'.cache ≡ w.cache)

-- The reply is the 404, or the call to the database failed and it is a 500.
abbrev pub IsDenied : {B : Type 0} → World → Reply B × World → Type 0
IsDenied w r = ((r.0 ≡ not_found_reply) ⊎ (r.0 ≡ internal_error)) × Untouched w r.1

-- A system administrator without a grant on the short URL can neither edit nor delete it: the
-- reply is the 404, or a 500 where the call to the database fails, and no short URL, grant, audit
-- entry or cache entry changes.
admin_view_only :
    (parse_url : Text → Option Url) (subject : Subject) (id : ℕ) (body : Option UpdateInput)
    (w : World)
    → find (is_grant id subject.user_id) w.permissions ≡ none
    → subject.is_system_admin ≡ true
    → IsDenied w (handle_update_short_url parse_url (some subject) (some id) body w)
      × IsDenied w (handle_delete_short_url (some subject) (some id) w)
unfolding handle_update_short_url handle_delete_short_url resolve_access find_grant resolve
    statement
admin_view_only parse_url subject id body w absent admin = elim (Bool-cases (failing w.faults)) [
  | inl f ↦ rw f (ground arith)
  | inr f ↦ rw (f, absent, admin) (ground arith)
]

-- A system administrator who reads a short URL without a grant on it leaves an audit entry: where
-- the short URL exists and no call fails, the reply is 200 and `stats.admin_view` is recorded.
admin_view_audited :
    (subject : Subject) (id : ℕ) (w : World) (su : ShortUrl)
    → w.faults ≡ []
    → find (is_grant id subject.user_id) w.permissions ≡ none
    → subject.is_system_admin ≡ true
    → find (url_has_id id) w.short_urls ≡ some su
    → let result = handle_get_short_url (some subject) (some id) w in
      (result.0 ≡ reply 200 (to_response su (resolve subject none) none))
      × (result.1.audit_log ≡ admin_view subject id ∷ w.audit_log)
unfolding handle_get_short_url resolve_access find_grant find_by_id audit_override record_audit_log
    resolve statement
admin_view_audited subject id w su clear absent admin exists =
    rw (clear, absent, admin) (ground arith)
