-- ===== src/Examples/Listings.antt =====
-- The list of short URLs.
use knives.Storage.Links.{find_grant}
use knives.Api.ShortUrls.{to_response}
use knives.ShortUrls.Listing.{list_for_user}
use knives.Prelude.{
  ◌≡◌, refl, Text, codes, Bool, true, false, All, [], ◌∷◌, none, some, take, drop, order_by, select,
  any, find, text_eq, to_lower, sum_by, trim_space,
}
use knives.Prelude.Int.{pos}
use knives.Permission.{Subject, owner, access_for_role, resolve}
use knives.World.{statement}
use knives.World.Effects.{ok}
use knives.Storage.Listing.{
  list_short_urls, ilike, joined, matches_filter, like, tokens, sorts_before,
}
use knives.ShortUrls.Paging.{
  ListPage, normalize, is_sort_field, is_sort_direction, normalize_limit, normalize_offset,
}
use knives.Api.ShortUrls.Listing.{ListResponse, handle_list_short_urls, list_items}
use knives.Api.ShortUrls.Listed.{HasGrant, listed_granted}
use knives.Examples.Data.{world, short_url}

-- Every text ranks alike.
abbrev unordered : Text → Text → Bool
unordered s t = false

abbrev she : Subject
she = record { user_id = 1; is_system_admin = false }

abbrev first_page : ListPage
first_page = record {
  limit = pos 10;
  offset = pos 0;
  filter = codes "B";
  sort_by = [];
  sort_dir = [];
}

abbrev listed : ListResponse
listed = record {
  items =
      record {
        short_url = record {
          id = 31;
          short_code = codes "abc";
          long_url = codes "https://a.example/";
          title = [];
          description = [];
          status = short_url.status;
          expires_at = none;
          created_at = 3;
          your_role = some owner;
          can_edit = true;
          can_delete = true;
          can_manage_permissions = true;
        };
        click_count = 0;
        creator_email = none;
      }
      ∷ [];
  total = 1;
}

listed_granted_example : All (λ i. HasGrant 1 world i.short_url.id) listed.items
unfolding handle_list_short_urls list_for_user normalize is_sort_field any text_eq is_sort_direction
    list_short_urls statement list_items take drop order_by select joined find matches_filter
    to_response access_for_role resolve sum_by to_lower trim_space normalize_limit normalize_offset
    find_grant ilike like sorts_before tokens
listed_granted_example = listed_granted unordered she first_page false world listed refl refl

-- A page past the end tells of no rows, whatever the filter matches.
past_the_end :
    (list_short_urls unordered
      (some 1)
      (record first_page { offset = pos 5; sort_by = codes "created_at" })
      world).0
    ≡ ok ([], 0)
unfolding list_short_urls statement take drop order_by select joined any find matches_filter text_eq
    ilike like tokens to_lower
past_the_end = refl

-- The underscore of a filter matches any byte.
wildcard : ilike (codes "_") (codes "abc") ≡ true
unfolding ilike text_eq like tokens to_lower
wildcard = refl
