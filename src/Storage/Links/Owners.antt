-- ===== src/Storage/Links/Owners.antt =====
-- Counting the owners of a short URL across the statements that change grants.
use knives.Prelude.{
  ℕ, suc, ◌+◌, ◌≡◌, refl, ==_iff, Bool, true, false, not, List, [], ◌∷◌, some, find, any, select,
  count, update, arith,
}
use knives.Permission.{is_owner}
use knives.World.Rows.{UrlPermission}
use knives.Storage.Links.{is_grant, is_owner_grant}

-- UNIQUE (short_url_id, user_id)
abbrev pub UniqueGrants : List UrlPermission → Type 0
UniqueGrants [] = Unit
UniqueGrants (p ∷ ps) = (any (is_grant p.short_url_id p.user_id) ps ≡ false) × UniqueGrants ps

abbrev pub owners : ℕ → List UrlPermission → ℕ
owners id = count (is_owner_grant id)

abbrev one_if : Bool → ℕ
one_if true = 1
one_if false = 0

select-absent :
    (id user : ℕ) (ps : List UrlPermission)
    → any (is_grant id user) ps ≡ false
    → select (λ p. not (is_grant id user p)) ps ≡ ps
unfolding any select
select-absent id user [] h = refl
select-absent id user (p ∷ ps) h = ground (arith, select-absent id user ps)

update-absent :
    (id user : ℕ) (f : UrlPermission → UrlPermission) (ps : List UrlPermission)
    → any (is_grant id user) ps ≡ false
    → update (is_grant id user) f ps ≡ ps
unfolding any update
update-absent id user f [] h = refl
update-absent id user f (p ∷ ps) h = ground (arith, update-absent id user f ps)

-- Taking one grant out takes out one owner if it is an owner's, and none otherwise.
pub owners-revoked :
    (id user j : ℕ) (ps : List UrlPermission) (g : UrlPermission)
    → UniqueGrants ps
    → find (is_grant id user) ps ≡ some g
    → owners j ps
      ≡ owners j (select (λ p. not (is_grant id user p)) ps) + one_if (is_owner_grant j g)
unfolding find select count
owners-revoked id user j [] g u h = cc
owners-revoked id user j (p ∷ ps) g u h = ground (
  arith,
  owners-revoked id user j ps g u.1,
  select-absent id user ps,
  ==_iff p.short_url_id id,
  ==_iff p.user_id user,
)

-- Replacing the one owner's grant by a grant of another role leaves no owner.
pub owners-replaced :
    (id user : ℕ) (row : UrlPermission) (ps : List UrlPermission) (g : UrlPermission)
    → UniqueGrants ps
    → find (is_grant id user) ps ≡ some g
    → is_owner g.role ≡ true
    → is_owner row.role ≡ false
    → owners id ps ≡ suc (owners id (update (is_grant id user) (λ _. row) ps))
unfolding find update count
owners-replaced id user row [] g u h o n = cc
owners-replaced id user row (p ∷ ps) g u h o n = ground (
  arith,
  owners-replaced id user row ps g u.1,
  update-absent id user (λ _. row) ps,
  ==_iff p.short_url_id id,
  ==_iff p.user_id user,
)
