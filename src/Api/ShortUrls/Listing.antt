-- ===== src/Api/ShortUrls/Listing.antt =====
-- cmd/api/handlers_shorturl.go: the list of a user's short URLs, or of all for an administrator.
use knives.Prelude.{ℕ, Text, Bool, ◌&&◌, not, if◌then◌else◌, List, [], ◌∷◌, Option, none, some}
use knives.Permission.{Subject, Grant, resolve}
use knives.World.{World}
use knives.World.Effects.{Exec, ok, Err, pure, ◌>>=◌, invalid_sort}
use knives.Storage.Links.{find_grant}
use knives.Storage.Listing.{ListItem}
use knives.ShortUrls.Paging.{ListPage}
use knives.ShortUrls.Listing.{list_for_user, list_all}
use knives.Api.{Reply, reply, error, Handler, internal_error, send, try}
use knives.Api.ShortUrls.{ShortUrlResponse, to_response}

pub record ListItemResponse : Type 0 where
  pub short_url : ShortUrlResponse
  pub click_count : ℕ
  pub creator_email : Option Text

pub record ListResponse : Type 0 where
  pub items : List ListItemResponse
  pub total : ℕ

abbrev pub list_item : Subject → ListItem → Option Grant → ListItemResponse
list_item subject i grant = record {
  short_url = to_response i.short_url (resolve subject grant) grant;
  click_count = i.click_count;
  creator_email = if subject.is_system_admin then some i.creator_email else none;
}

-- The loop over the items: an error of one lookup ends it.
unfoldable pub list_items : Subject → List ListItem → Exec World (List ListItemResponse)
list_items subject [] w = (ok [], w)
list_items subject (i ∷ items) w =
    (find_grant i.short_url.id subject.user_id >>= λ grant. λ (w' : World).
        (list_items subject items >>= λ rest. pure (list_item subject i grant ∷ rest)) w')
      w

abbrev pub list_error : Err → Reply ListResponse
list_error invalid_sort = error 400 "shorturl: invalid sort_by or sort_dir"
list_error _ = internal_error

abbrev pub reply_items : Subject → List ListItem × ℕ → Handler ListResponse
reply_items subject (items, total) =
    try (list_items subject items) (λ _. internal_error)
      λ responses. send (reply 200 (record { items = responses; total = total }))

module _ (before_text : Text → Text → Bool) where
  -- `mine` tells that the query's scope is "mine".
  unfoldable pub handle_list_short_urls : Option Subject → ListPage → Bool → Handler ListResponse
  handle_list_short_urls none page mine = send (error 401 "unauthorized")
  handle_list_short_urls (some subject) page mine =
      try
        (if subject.is_system_admin && not mine
          then list_all before_text page
          else list_for_user before_text subject.user_id page)
        list_error (reply_items subject)
