-- ===== src/ShortUrls/Bounds.antt =====
-- The pages that a listing can be asked for.
use knives.Prelude.{◌≡◌, true, arith}
use knives.Prelude.Int.{ℤ, pos, negsuc, leb_ℤ}
use knives.World.Effects.{ok}
use knives.ShortUrls.Paging.{
  ListPage, is_sort_field, is_sort_direction, normalize, normalize_limit, normalize_offset,
}

limit_bounds :
    (limit : ℤ)
    → (leb_ℤ (pos 1) (normalize_limit limit) ≡ true)
      × (leb_ℤ (normalize_limit limit) (pos 200) ≡ true)
      × (normalize_limit (normalize_limit limit) ≡ normalize_limit limit)
unfolding normalize_limit
limit_bounds (pos n) = ground arith
limit_bounds (negsuc n) = ground arith

offset_bounds :
    (offset : ℤ)
    → (leb_ℤ (pos 0) (normalize_offset offset) ≡ true)
      × (normalize_offset (normalize_offset offset) ≡ normalize_offset offset)
unfolding normalize_offset
offset_bounds (pos n) = ground arith
offset_bounds (negsuc n) = ground arith

-- A page that `normalize` accepts has a limit from 1 to 200, an offset that is not negative, and a
-- sort field and direction out of the fixed ones, and its limit and offset are normal already.
pub normalize_bounds :
    (p q : ListPage)
    → normalize p ≡ ok q
    → (leb_ℤ (pos 1) q.limit ≡ true)
      × (leb_ℤ q.limit (pos 200) ≡ true)
      × (leb_ℤ (pos 0) q.offset ≡ true)
      × (is_sort_field q.sort_by ≡ true)
      × (is_sort_direction q.sort_dir ≡ true)
      × (normalize_limit q.limit ≡ q.limit)
      × (normalize_offset q.offset ≡ q.offset)
unfolding normalize
normalize_bounds p q h = ground (arith, limit_bounds p.limit, offset_bounds p.offset)
