-- ===== src/Storage/Listing.antt =====
-- internal/storage/shorturl_store.go: `listShortURLs`, the query behind both listings.
use knives.Prelude.{
  ℕ, Text, codes, text_eq, to_lower, Bool, true, false, ◌&&◌, ◌||◌, ◌==◌, ltb, not, if◌then◌else◌,
  List, [], ◌∷◌, ◌++◌, length, Option, none, some, find, any, select, take, drop, order_by, sum_by,
}
use knives.Prelude.Int.{ℤ, pos}
use knives.World.{World, statement}
use knives.World.Effects.{Exec, Result, ok, err, db_error}
use knives.World.Rows.{ShortUrl, User, DailyRow}
use knives.Storage.Accounts.{has_id}
use knives.Storage.Links.{is_grant}
use knives.ShortUrls.Paging.{ListPage}

-- `creator_email` and `click_count` are joined to the row.
pub record ListItem : Type 0 where
  pub short_url : ShortUrl
  pub creator_email : Text
  pub click_count : ℕ

-- What a pattern of LIKE asks of one byte, or of any number of them.
pub data Token : Type 0 where
  literal : ℕ → Token
  any_one any_many : Token

abbrev pub token : ℕ → Token
token c = if c == b'%' then any_many else if c == b'_' then any_one else literal c

-- The byte after a backslash stands for itself.
unfoldable pub tokens : Bool → Text → List Token
tokens escaped [] = []
tokens true (c ∷ p) = literal c ∷ tokens false p
tokens false (c ∷ p) = elim (c == b'\\') [ true ↦ tokens true p | false ↦ token c ∷ tokens false p ]

unfoldable pub some_suffix : (Text → Bool) → Text → Bool
some_suffix p [] = p []
some_suffix p (c ∷ s) = p (c ∷ s) || some_suffix p s

unfoldable pub like : List Token → Text → Bool
unfolding some_suffix
like [] [] = true
like [] (c ∷ s) = false
like (literal c ∷ ts) [] = false
like (literal c ∷ ts) (d ∷ s) = c == d && like ts s
like (any_one ∷ ts) [] = false
like (any_one ∷ ts) (d ∷ s) = like ts s
like (any_many ∷ ts) s = some_suffix (like ts) s

-- value ILIKE '%' || filter || '%', where a NULL is the empty text and matches nothing.
unfoldable pub ilike : Text → Text → Bool
ilike filter value =
    not (text_eq value [])
    && like (tokens false (to_lower (codes "%" ++ filter ++ codes "%"))) (to_lower value)

unfoldable pub matches_filter : Text → ListItem → Bool
matches_filter filter i =
    text_eq filter []
    || ilike filter i.short_url.short_code
    || ilike filter i.short_url.long_url
    || ilike filter i.short_url.title
    || ilike filter i.creator_email

abbrev pub total_clicks : ℕ → World → ℕ
total_clicks id w =
    sum_by (λ (r : DailyRow). r.click_count) (select (λ r. r.short_url_id == id) w.daily)

abbrev pub item_of : World → ShortUrl → Option User → List ListItem → List ListItem
item_of w su none rest = rest
item_of w su (some creator) rest =
    record { short_url = su; creator_email = creator.email; click_count = total_clicks su.id w }
    ∷ rest

-- The joins with the creator and with the clicks.
unfoldable pub joined : World → List ShortUrl → List ListItem
joined w [] = []
joined w (su ∷ sus) = item_of w su (find (has_id su.created_by) w.users) (joined w sus)

-- The join with the user's grants, where there is a user.
abbrev pub is_listed_for : Option ℕ → World → ShortUrl → Bool
is_listed_for none w su = true
is_listed_for (some user_id) w su = any (is_grant su.id user_id) w.permissions

-- COUNT(*) OVER() stands on the rows of the page: a page without rows has none.
abbrev pub total_of : List ListItem → ℕ → ℕ
total_of [] n = 0
total_of (i ∷ items) n = n

abbrev pub with_total : ℕ → List ListItem → List ListItem × ℕ
with_total n items = (items, total_of items n)

abbrev pub page_of : ℤ → ℤ → List ListItem → Result (List ListItem × ℕ)
page_of (pos limit) (pos offset) items =
    ok (with_total (length items) (take limit (drop offset items)))
page_of limit offset items = err db_error

-- `before_text` is the order of the database's collation.
module _ (before_text : Text → Text → Bool) where
  abbrev pub directed : Bool → Bool → Bool → Bool
  directed ascending before after = if ascending then before else after

  -- title NULLS LAST
  abbrev pub title_before : Bool → Text → Text → Bool
  title_before ascending s t =
      if text_eq s []
      then false
      else if text_eq t []
      then true
      else directed ascending (before_text s t) (before_text t s)

  unfoldable pub sorts_before : Text → Bool → ListItem → ListItem → Bool
  sorts_before column ascending i j =
      let a = i.short_url in
      let b = j.short_url in
      if text_eq column (codes "short_code")
      then directed ascending (before_text a.short_code b.short_code)
          (before_text b.short_code a.short_code)
      else if text_eq column (codes "long_url")
      then directed ascending (before_text a.long_url b.long_url)
          (before_text b.long_url a.long_url)
      else if text_eq column (codes "title")
      then title_before ascending a.title b.title
      else if text_eq column (codes "click_count")
      then directed ascending (ltb i.click_count j.click_count) (ltb j.click_count i.click_count)
      else if text_eq column (codes "creator_email")
      then directed ascending (before_text (to_lower i.creator_email) (to_lower j.creator_email))
          (before_text (to_lower j.creator_email) (to_lower i.creator_email))
      else directed ascending (ltb a.created_at b.created_at) (ltb b.created_at a.created_at)

  unfoldable pub list_short_urls : Option ℕ → ListPage → Exec World (List ListItem × ℕ)
  list_short_urls user_id page = statement λ w.
      let rows = joined w (select (is_listed_for user_id w) w.short_urls) in
      let before = sorts_before page.sort_by (text_eq page.sort_dir (codes "asc")) in
      (
        page_of page.limit page.offset (order_by before (select (matches_filter page.filter) rows)),
        w,
      )
