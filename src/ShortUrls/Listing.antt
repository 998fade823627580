-- ===== src/ShortUrls/Listing.antt =====
-- internal/shorturl/shorturl.go: `ListForUser` and `ListAll`.
use knives.Prelude.{ℕ, Text, Bool, List, none, some}
use knives.World.{World}
use knives.World.Effects.{Exec, lift, ◌>>=◌}
use knives.Storage.Listing.{ListItem, list_short_urls}
use knives.ShortUrls.Paging.{ListPage, normalize}

module _ (before_text : Text → Text → Bool) where
  unfoldable pub list_for_user : ℕ → ListPage → Exec World (List ListItem × ℕ)
  list_for_user user_id page = do
    normalized ← lift (normalize page)
    list_short_urls before_text (some user_id) normalized

  unfoldable pub list_all : ListPage → Exec World (List ListItem × ℕ)
  list_all page = do normalized ← lift (normalize page); list_short_urls before_text none normalized
