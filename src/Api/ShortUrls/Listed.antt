-- ===== src/Api/ShortUrls/Listed.antt =====
-- Which short URLs are listed to a user.
use knives.Prelude.{
  ℕ, ◌≡◌, refl, ap, Text, Bool, true, false, ◌&&◌, not, List, [], ◌∷◌, Option, none, some, any,
  find, select, drop, All, All-select, order_by-All, take-All, drop-All, Bool-cases, inl, inr,
  arith,
}
use knives.Prelude.Int.{ℤ, pos, negsuc}
use knives.Permission.{Subject, Grant}
use knives.World.{World, statement, failing}
use knives.World.Effects.{Result, ok, err, pure, lift, ◌>>=◌}
use knives.World.Effects.Inversion.{bind-ok}
use knives.World.Rows.{ShortUrl, User}
use knives.Storage.Accounts.{has_id}
use knives.Storage.Links.{is_grant, find_grant}
use knives.Storage.Listing.{
  ListItem, joined, item_of, is_listed_for, matches_filter, page_of, list_short_urls,
}
use knives.ShortUrls.Paging.{ListPage, normalize}
use knives.ShortUrls.Listing.{list_for_user}
use knives.Api.{reply, handle, internal_error, send}
use knives.Api.ShortUrls.{to_response}
use knives.Api.ShortUrls.Listing.{
  ListItemResponse, ListResponse, list_item, list_items, list_error, reply_items,
  handle_list_short_urls,
}

ok_injective : {A : Type 0} {a b : A} → ok a ≡ ok b → a ≡ b
ok_injective h = cc

module _ (P : ShortUrl → Type 0) (w : World) where
  item_of-All :
      (su : ShortUrl) (creator : Option User) (rest : List ListItem)
      → P su
      → All (λ i. P i.short_url) rest
      → All (λ i. P i.short_url) (item_of w su creator rest)
  item_of-All su none rest h a = a
  item_of-All su (some creator) rest h a = (h, a)

  joined-All : (sus : List ShortUrl) → All P sus → All (λ i. P i.short_url) (joined w sus)
  unfolding joined
  joined-All [] a = tt
  joined-All (su ∷ sus) a =
      item_of-All su (find (has_id su.created_by) w.users) (joined w sus) a.0 (joined-All sus a.1)

page_of-All :
    (P : ListItem → Type 0) (limit offset : ℤ) (items page : List ListItem) (n : ℕ)
    → All P items
    → page_of limit offset items ≡ ok (page, n)
    → All P page
page_of-All P (pos l) (pos o) items page n a h =
    rw (← ap (λ (r : List ListItem × ℕ). r.0) (ok_injective h))
      (take-All P l (drop o items) (drop-All P o items a))
page_of-All P (negsuc l) o items page n a h = cc
page_of-All P (pos l) (negsuc o) items page n a h = cc

All-unit : {A : Type 0} (xs : List A) → All (λ (x : A). Unit {0}) xs
All-unit [] = tt
All-unit (x ∷ xs) = (tt, All-unit xs)

-- The user has a grant on the short URL.
abbrev pub HasGrant : ℕ → World → ℕ → Type 0
HasGrant user_id w id = any (is_grant id user_id) w.permissions ≡ true

module _ (before_text : Text → Text → Bool) where
  listed-HasGrant :
      (user_id : ℕ) (page : ListPage) (w : World) (items : List ListItem) (n : ℕ)
      → (list_short_urls before_text (some user_id) page w).0 ≡ ok (items, n)
      → All (λ i. HasGrant user_id w i.short_url.id) items
  unfolding list_short_urls statement joined
  listed-HasGrant user_id page w items n h = elim (Bool-cases (failing w.faults)) [
    | inl e ↦ cc (rw e at h)
    | inr e ↦
        let granted = λ (su : ShortUrl). HasGrant user_id w su.id in
        let shown = λ (i : ListItem). granted i.short_url in
        let rows = joined w (select (is_listed_for (some user_id) w) w.short_urls) in
        let in_grants =
          All-select (λ su. Unit {0}) granted (is_listed_for (some user_id) w) (λ su g _. g)
            w.short_urls (All-unit w.short_urls) in
        let in_rows =
          joined-All granted w (select (is_listed_for (some user_id) w) w.short_urls) in_grants in
        let in_matching =
          All-select shown shown (matches_filter page.filter) (λ i _ g. g) rows in_rows in
        page_of-All shown page.limit page.offset _ items n (order_by-All shown _ _ in_matching)
          (rw e at h)
  ]

  for_user-HasGrant :
      (user_id : ℕ) (page : ListPage) (w : World) (items : List ListItem) (n : ℕ)
      → (list_for_user before_text user_id page w).0 ≡ ok (items, n)
      → All (λ i. HasGrant user_id w i.short_url.id) items
  unfolding list_for_user
  for_user-HasGrant user_id page w items n h =
      let (normalized, _, e) =
        bind-ok (lift (normalize page)) (list_short_urls before_text (some user_id)) w
          {b = (items, n)} h in
      listed-HasGrant user_id normalized w items n (rw e at h)

-- The responses are those of the items.
responses_of :
    (subject : Subject) (P : ℕ → Type 0) (items : List ListItem) (w : World)
    (rs : List ListItemResponse)
    → All (λ i. P i.short_url.id) items
    → (list_items subject items w).0 ≡ ok rs
    → All (λ r. P r.short_url.id) rs
unfolding list_items to_response
responses_of subject P [] w rs a h = rw (← ok_injective h) tt
responses_of subject P (i ∷ items) w rs a h =
    let rest_of = λ (grant : Option Grant). λ (w' : World).
      (list_items subject items >>= λ rest. pure (list_item subject i grant ∷ rest)) w' in
    let (grant, _, e) = bind-ok (find_grant i.short_url.id subject.user_id) rest_of w {b = rs} h in
    let w' = (find_grant i.short_url.id subject.user_id w).1 in
    let (rest, read, e') =
      bind-ok (list_items subject items)
        (λ (rest : List ListItemResponse). pure (list_item subject i grant ∷ rest)) w' {b = rs}
        (rw e at h) in
    rw (← ok_injective (rw (e, e') at h)) (a.0, responses_of subject P items w' rest a.1 read)

reply_injective : {rs rs' : ListResponse} → reply 200 rs ≡ reply 200 rs' → rs ≡ rs'
reply_injective h = cc

sent :
    (n : ℕ) (rs : ListResponse) (r : Result (List ListItemResponse) × World)
    → (handle
        (λ _. internal_error)
        (λ responses. send (reply 200 (record { items = responses; total = n })))
        r).0
      ≡ reply 200 rs
    → r.0 ≡ ok rs.items
sent n rs (ok responses, w) h = ap (λ (x : ListResponse). ok x.items) (reply_injective h)
sent n rs (err e, w) h = cc

replied :
    (subject : Subject) (P : ℕ → Type 0) (r : Result (List ListItem × ℕ) × World)
    (rs : ListResponse)
    → ((items : List ListItem) (n : ℕ) → r.0 ≡ ok (items, n) → All (λ i. P i.short_url.id) items)
    → (handle list_error (reply_items subject) r).0 ≡ reply 200 rs
    → All (λ i. P i.short_url.id) rs.items
replied subject P (err e, w) rs listed h = ground arith
replied subject P (ok (items, n), w) rs listed h =
    responses_of subject P items w rs.items (listed items n refl)
      (sent n rs (list_items subject items w) h)

-- To a user who is no administrator, or who asks for the own ones, a list that is returned holds only short
-- URLs on which that user has a grant.
pub listed_granted :
    (before_text : Text → Text → Bool) (subject : Subject) (page : ListPage) (mine : Bool)
    (w : World) (rs : ListResponse)
    → (subject.is_system_admin && not mine) ≡ false
    → (handle_list_short_urls before_text (some subject) page mine w).0 ≡ reply 200 rs
    → All (λ i. HasGrant subject.user_id w i.short_url.id) rs.items
unfolding handle_list_short_urls
listed_granted before_text subject page mine w rs own h =
    replied subject (HasGrant subject.user_id w) (list_for_user before_text subject.user_id page w)
      rs (for_user-HasGrant before_text subject.user_id page w) (rw own at h)
