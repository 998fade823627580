-- ===== src/Api/ShortUrls/Deletion.antt =====
-- What the deletion of a short URL does to its row and to the cache.
use knives.Prelude.{
  ℕ, ◌≡◌, refl, ◌∙◌, ap, Bool, true, false, count, ◌==◌, List, [], ◌∷◌, none, some, find, select,
  update, Text, find-update, find_test, if◌then◌else◌, arith,
}
use knives.Permission.{Subject, owner, resolve, access_for_role}
use knives.World.{World, statement}
use knives.World.Rows.{ShortUrl, Status, CacheEntry, UrlPermission}
use knives.Storage.Links.{is_grant, find_grant, url_has_id, find_by_id, set_status}
use knives.Cache.{has_cache_key, without_key, redis_del, publish, invalidate}
use knives.ShortUrls.{disable}
use knives.Api.{no_content}
use knives.Api.Access.{resolve_access}
use knives.Api.ShortUrls.{handle_delete_short_url, delete_resolved, invalidate_short_url_cache}

pub find-without_key :
    (domain : ℕ) (code : Text) (rows : List CacheEntry)
    → find (has_cache_key domain code) (without_key domain code rows) ≡ none
unfolding find without_key select
find-without_key domain code [] = refl
find-without_key domain code (e ∷ rows) = ground (arith, find-without_key domain code rows)

count-url_has_id :
    (id : ℕ) (rows : List ShortUrl) (su : ShortUrl)
    → find (url_has_id id) rows ≡ some su
    → (count (url_has_id id) rows == 0) ≡ false
unfolding find count
count-url_has_id id [] su h = cc
count-url_has_id id (s ∷ rows) su h = ground (arith, count-url_has_id id rows su)

-- Where an owner deletes a short URL and no call fails, the reply is the 204, the row is disabled,
-- no cache entry is left under its domain and code, and the purge of that key is published.
delete_purges :
    (subject : Subject) (id : ℕ) (w : World) (g : UrlPermission) (su : ShortUrl)
    → w.faults ≡ []
    → find (is_grant id subject.user_id) w.permissions ≡ some g
    → g.role ≡ owner
    → find (url_has_id id) w.short_urls ≡ some su
    → let result = handle_delete_short_url (some subject) (some id) w in
      (result.0 ≡ no_content)
      × (find (url_has_id id) result.1.short_urls ≡ some (record su { status = Status.disabled }))
      × (find (has_cache_key su.domain_id su.short_code) result.1.cache ≡ none)
      × (result.1.published
          ≡ record { domain_id = su.domain_id; short_code = su.short_code } ∷ w.published)
unfolding handle_delete_short_url delete_resolved invalidate_short_url_cache resolve_access
    find_grant find_by_id resolve access_for_role disable set_status invalidate redis_del publish
    statement
delete_purges subject id w g su clear own role exists =
    let hit : url_has_id id su ≡ true = find_test (url_has_id id) w.short_urls exists in
    let row : ShortUrl → ShortUrl = λ s. record s { status = Status.disabled } in
    let found : find (url_has_id id) (update (url_has_id id) row w.short_urls) ≡ some (row su) =
      find-update (url_has_id id) (url_has_id id) row (λ x. refl) w.short_urls {x = su} exists
      ∙ ap (λ (b : Bool). some (if b then row su else su)) hit in
    rw (clear, own, role, exists, count-url_has_id id w.short_urls su exists)
      (refl, found, find-without_key su.domain_id su.short_code w.cache, refl)
