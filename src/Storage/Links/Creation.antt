-- ===== src/Storage/Links/Creation.antt =====
-- The transaction that creates a short URL with its owner.
use knives.Prelude.{◌≡◌, false, ◌∷◌, any, arith}
use knives.Permission.{owner}
use knives.World.{World, statement, transaction}
use knives.World.Effects.{ok, err, Err}
use knives.World.Rows.{ShortUrl, UrlPermission}
use knives.Storage.Links.{has_code, insert_short_url, insert_url_permission, create_short_url}

-- Nothing of the links was changed.
abbrev pub SameLinks : World → World → Type 0
SameLinks w w' = (w'.short_urls ≡ w.short_urls) × (w'.permissions ≡ w.permissions)

abbrev pub owner_row : ShortUrl → World → UrlPermission
owner_row su w = record {
  short_url_id = su.id;
  user_id = su.created_by;
  role = owner;
  granted_by = su.created_by;
  granted_at = w.clock;
}

-- The row and its owner's grant were added, under a code that was free.
pub record IsCreated (row : ShortUrl) (su : ShortUrl) (w w' : World) : Type 0 where
  pub stored : su ≡ record row { id = su.id; created_at = w.clock }
  pub free : any (has_code row.domain_id row.short_code) w.short_urls ≡ false
  pub added : w'.short_urls ≡ su ∷ w.short_urls
  pub owned : w'.permissions ≡ owner_row su w ∷ w.permissions

-- The transaction either adds both rows or leaves both tables as they were.
pub create_short_url_error :
    (row : ShortUrl) (w : World) (e : Err)
    → (create_short_url row w).0 ≡ err e
    → SameLinks w (create_short_url row w).1
unfolding create_short_url transaction insert_short_url insert_url_permission statement
create_short_url_error row w e h = ground arith

pub create_short_url_ok :
    (row : ShortUrl) (w : World) (su : ShortUrl)
    → (create_short_url row w).0 ≡ ok su
    → IsCreated row su w (create_short_url row w).1
unfolding create_short_url transaction insert_short_url insert_url_permission statement
create_short_url_ok row w su h = ground arith
