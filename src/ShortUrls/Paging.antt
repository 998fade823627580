-- ===== src/ShortUrls/Paging.antt =====
-- `ListPage.normalize` of internal/shorturl/shorturl.go.
use knives.Prelude.{Text, codes, text_eq, trim_space, any, if◌then◌else◌, Bool, ◌||◌, [], ◌∷◌}
use knives.Prelude.Int.{ℤ, pos, leb_ℤ, ltb_ℤ}
use knives.World.Effects.{Result, ok, err, invalid_sort}

pub record ListPage : Type 0 where
  pub limit : ℤ
  pub offset : ℤ
  pub filter : Text
  pub sort_by : Text
  pub sort_dir : Text

unfoldable pub is_sort_field : Text → Bool
is_sort_field f = any (text_eq f) (
    codes "short_code"
    ∷ codes "long_url"
    ∷ codes "title"
    ∷ codes "created_at"
    ∷ codes "click_count"
    ∷ codes "creator_email"
    ∷ [])

unfoldable pub is_sort_direction : Text → Bool
is_sort_direction d = text_eq d (codes "asc") || text_eq d (codes "desc")

unfoldable pub normalize_limit : ℤ → ℤ
normalize_limit limit = if leb_ℤ limit (pos 0) || ltb_ℤ (pos 200) limit then pos 50 else limit

unfoldable pub normalize_offset : ℤ → ℤ
normalize_offset offset = if ltb_ℤ offset (pos 0) then pos 0 else offset

or_default : Text → Text → Text
or_default default s = if text_eq s [] then default else s

unfoldable pub normalize : ListPage → Result ListPage
unfolding normalize_limit normalize_offset or_default
normalize p =
    let page : ListPage = record {
      limit = normalize_limit p.limit;
      offset = normalize_offset p.offset;
      filter = trim_space p.filter;
      sort_by = or_default (codes "created_at") p.sort_by;
      sort_dir = or_default (codes "desc") p.sort_dir;
    } in
    if is_sort_field page.sort_by
    then (if is_sort_direction page.sort_dir then ok page else err invalid_sort)
    else err invalid_sort
