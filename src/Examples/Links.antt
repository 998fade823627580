-- ===== src/Examples/Links.antt =====
-- Short URLs, their permissions and their handlers.
use knives.Prelude.{
  ◌<◌, Text, codes, ◌≡◌, refl, true, false, [], Option, none, some, find, any, count, trim_space,
  arith, text_eq,
}
use knives.Permission.{Subject, editor}
use knives.Storage.Links.Owners.{owners}
use knives.ShortUrls.{Url, CreateInput, UpdateInput, create}
use knives.ShortUrls.Creating.{Outcome, create_outcome}
use knives.ShortUrls.{
  normalize_long_url, is_http_url, short_code_settings, create_random, try_code, insert,
}
use knives.ShortUrls.Codes.{random_code, random_chars, random_char, is_reserved_short_code}
use knives.Storage.Links.{create_short_url, has_code, insert_short_url, insert_url_permission}
use knives.Prelude.{to_lower}
use knives.World.{transaction, draw, statement}
use knives.ShortUrls.Redirects.{create_then_redirect}
use knives.ShortUrls.Paging.{
  ListPage, normalize, is_sort_field, is_sort_direction, normalize_limit, normalize_offset,
}
use knives.ShortUrls.Bounds.{normalize_bounds}
use knives.Prelude.Int.{pos, negsuc, leb_ℤ}
use knives.Storage.Links.{find_redirect_target}
use knives.World.Rows.{ShortUrl, Status, Source}
use knives.World.Effects.{ok}
use knives.Api.Permissions.{GrantRequest, handle_grant_url_permission, handle_revoke_url_permission}
use knives.Api.Permissions.Owners.{handle_revoke_keeps_owner}
use knives.Api.Permissions.Gate.{SameAccess, only_owner_manages}
use knives.Examples.Data.{world}

-- Every text is an https URL with a host.
abbrev parse_url : Text → Option Url
parse_url raw = some (record { scheme = codes "https"; host = raw })

abbrev parse_address : Text → Option Text
parse_address raw = some raw

abbrev input : CreateInput
input = record {
  domain_id = 5;
  custom_alias = [];
  long_url = codes " https://b.example/ ";
  title = [];
  description = [];
  created_by = 2;
  expires_at = none;
}

create_outcome_example : Outcome parse_url input world (create parse_url input world)
create_outcome_example = create_outcome parse_url input world

abbrev as_alice : Subject
as_alice = record { user_id = 1; is_system_admin = false }

abbrev as_bob : Subject
as_bob = record { user_id = 2; is_system_admin = false }

-- Alice tries to revoke her own grant, the last owner's.
handle_revoke_keeps_owner_example :
    0
    < owners 31
        (handle_revoke_url_permission (some as_alice) (some 31) (some 1) world).1.permissions
unfolding any count
handle_revoke_keeps_owner_example =
    handle_revoke_keeps_owner (some as_alice) (some 31) (some 1) 31 world (refl, tt) (omega arith)

abbrev invitation : GrantRequest
invitation = record { email = codes "alice@x.org"; role = editor }

only_owner_manages_example :
    SameAccess world
      (handle_grant_url_permission parse_address (some as_bob) (some 31) (some invitation) world).1
    × SameAccess world (handle_revoke_url_permission (some as_bob) (some 31) (some 1) world).1
unfolding find
only_owner_manages_example =
    only_owner_manages parse_address as_bob 31 (some invitation) (some 1) world tt

abbrev edit : UpdateInput
edit = record {
  long_url = codes "https://c.example/";
  title = [];
  description = [];
  expires_at = none;
}

-- The row that `input` leads to: the draws 1 and 2 pick `b` and `c`.
abbrev created : ShortUrl
created = record {
  id = 100;
  domain_id = 5;
  short_code = codes "bc";
  long_url = codes "https://b.example/";
  title = [];
  description = [];
  created_by = 2;
  status = Status.active;
  expires_at = none;
  source = Source.native;
  created_at = 1000;
}

create_then_redirect_example :
    (find_redirect_target 5 (codes "bc") (create parse_url input world).1).0 ≡ ok created
unfolding create normalize_long_url text_eq trim_space is_http_url short_code_settings statement
    create_random random_code random_chars random_char draw try_code is_reserved_short_code to_lower
    insert create_short_url any has_code insert_short_url insert_url_permission transaction
create_then_redirect_example = create_then_redirect parse_url input world created refl refl refl

abbrev page : ListPage
page = record { limit = pos 1000; offset = negsuc 4; filter = []; sort_by = []; sort_dir = [] }

abbrev normal_page : ListPage
normal_page = record {
  limit = pos 50;
  offset = pos 0;
  filter = [];
  sort_by = codes "created_at";
  sort_dir = codes "desc";
}

normalize_bounds_example :
    (leb_ℤ (pos 1) (pos 50) ≡ true)
    × (leb_ℤ (pos 50) (pos 200) ≡ true)
    × (leb_ℤ (pos 0) (pos 0) ≡ true)
    × (is_sort_field (codes "created_at") ≡ true)
    × (is_sort_direction (codes "desc") ≡ true)
    × (normalize_limit (pos 50) ≡ pos 50)
    × (normalize_offset (pos 0) ≡ pos 0)
unfolding normalize is_sort_field any text_eq is_sort_direction trim_space
normalize_bounds_example = normalize_bounds page normal_page refl
