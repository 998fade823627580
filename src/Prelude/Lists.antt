-- ===== src/Prelude/Lists.antt =====
-- Lists as database tables: search, selection, counting and update by a test.
use Prim.Native.Nat.{ℕ, zero, suc, ◌+◌, ◌≤◌}
use mathlib.Core.Path.{◌≡◌, refl, subst}
use mathlib.Core.Bool.{Bool, true, false, ◌||◌}
use mathlib.Core.Option.{Option, none, some}
use mathlib.Core.Logic.{inl, inr}
use mathlib.Core.List.{List, [], ◌∷◌, ◌++◌}
use native.Mathlib.Omega.{arith}
use knives.Prelude.Tests.{if◌then◌else◌, Bool-cases, ◌==◌}

module _ {ℓ} {A : Type ℓ} where
  abbrev pub length : List A → ℕ
  length [] = 0
  length (x ∷ xs) = suc (length xs)

  -- The first row that passes the test.
  unfoldable pub find : (A → Bool) → List A → Option A
  find p [] = none
  find p (x ∷ xs) = if p x then some x else find p xs

  unfoldable pub any : (A → Bool) → List A → Bool
  any p [] = false
  any p (x ∷ xs) = p x || any p xs

  unfoldable pub select : (A → Bool) → List A → List A
  select p [] = []
  select p (x ∷ xs) = let rest = select p xs in if p x then x ∷ rest else rest

  unfoldable pub count : (A → Bool) → List A → ℕ
  count p [] = 0
  count p (x ∷ xs) = let rest = count p xs in if p x then suc rest else rest

  -- `UPDATE ... SET f WHERE p`.
  unfoldable pub update : (A → Bool) → (A → A) → List A → List A
  update p f [] = []
  update p f (x ∷ xs) = (if p x then f x else x) ∷ update p f xs

  -- A predicate of every row.
  abbrev pub All {κ} : (A → Type κ) → List A → Type κ
  All P [] = Unit
  All P (x ∷ xs) = P x × All P xs

  abbrev pub get_elem? : List A → ℕ → Option A
  get_elem? [] i = none
  get_elem? (x ∷ xs) zero = some x
  get_elem? (x ∷ xs) (suc i) = get_elem? xs i

  -- `LIMIT` and `OFFSET`.
  unfoldable pub take : ℕ → List A → List A
  take zero xs = []
  take (suc n) [] = []
  take (suc n) (x ∷ xs) = x ∷ take n xs

  unfoldable pub drop : ℕ → List A → List A
  drop zero xs = xs
  drop (suc n) [] = []
  drop (suc n) (x ∷ xs) = drop n xs

  unfoldable pub sum_by : (A → ℕ) → List A → ℕ
  sum_by f [] = 0
  sum_by f (x ∷ xs) = f x + sum_by f xs

  insert_by : (A → A → Bool) → A → List A → List A
  insert_by before x [] = x ∷ []
  insert_by before x (y ∷ ys) =
      let rest = y ∷ ys in if before y x then y ∷ insert_by before x ys else x ∷ rest

  -- `ORDER BY`, rows of equal rank in the order in which they stand.
  unfoldable pub order_by : (A → A → Bool) → List A → List A
  unfolding insert_by
  order_by before [] = []
  order_by before (x ∷ xs) = insert_by before x (order_by before xs)

some_injective {ℓ} : {A : Type ℓ} {a b : A} → some a ≡ some b → a ≡ b
some_injective h = cc

module _ {ℓ} {A : Type ℓ} where
  -- A found row passes the test.
  pub find_test : (p : A → Bool) (xs : List A) {x : A} → find p xs ≡ some x → p x ≡ true
  unfolding find
  find_test p [] h = cc
  find_test p (y ∷ ys) {x} h = ground (arith, find_test p ys {x = x})

  pub find-none-any : (p : A → Bool) (xs : List A) → find p xs ≡ none → any p xs ≡ false
  unfolding find any
  find-none-any p [] h = refl
  find-none-any p (y ∷ ys) h = ground (arith, find-none-any p ys)

  pub find-some-any : (p : A → Bool) (xs : List A) {x : A} → find p xs ≡ some x → any p xs ≡ true
  unfolding find any
  find-some-any p [] h = cc
  find-some-any p (y ∷ ys) {x} h = ground (arith, find-some-any p ys {x = x})

  pub find-some-count :
      (p : A → Bool) (xs : List A) {x : A} → find p xs ≡ some x → (count p xs == 0) ≡ false
  unfolding find count
  find-some-count p [] h = cc
  find-some-count p (y ∷ ys) {x} h = ground (arith, find-some-count p ys {x = x})

  -- An update that the test does not see changes the found row where the update's own test holds.
  pub find-update :
      (p q : A → Bool) (f : A → A)
      → ((x : A) → p (f x) ≡ p x)
      → (xs : List A) {x : A} → find p xs ≡ some x
      → find p (update q f xs) ≡ some (if q x then f x else x)
  unfolding find update
  find-update p q f same [] h = cc
  find-update p q f same (y ∷ ys) {x} h = elim (Bool-cases (p y)) [
    | inl e ↦ ground (arith, same y)
    | inr e ↦ ground (arith, same y, find-update p q f same ys {x = x})
  ]

module _ {ℓ κ} {A : Type ℓ} (P Q : A → Type κ) where
  pub All-weaken : ((x : A) → P x → Q x) → (xs : List A) → All P xs → All Q xs
  All-weaken f [] h = tt
  All-weaken f (x ∷ xs) h = (f x h.0, All-weaken f xs h.1)

  -- Selected rows pass the test, besides what held of all rows.
  pub All-select :
      (p : A → Bool)
      → ((x : A) → p x ≡ true → P x → Q x)
      → (xs : List A) → All P xs
      → All Q (select p xs)
  unfolding select
  All-select p f [] h = tt
  All-select p f (x ∷ xs) h = elim (Bool-cases (p x)) [
    | inl e ↦ rw e (f x e h.0, All-select p f xs h.1)
    | inr e ↦ rw e (All-select p f xs h.1)
  ]

module _ {ℓ κ} {A : Type ℓ} (P : A → Type κ) where
  pub find-All : (p : A → Bool) (xs : List A) {x : A} → find p xs ≡ some x → All P xs → P x
  unfolding find
  find-All p [] h a = cc
  find-All p (y ∷ ys) {x} h a = elim (Bool-cases (p y)) [
    | inl e ↦ subst P (some_injective (rw e at h)) a.0
    | inr e ↦ find-All p ys {x = x} (rw e at h) a.1
  ]

module _ {ℓ} {A : Type ℓ} (f : A → ℕ) where
  sum_by-insert_by :
      (before : A → A → Bool) (x : A) (xs : List A)
      → sum_by f (insert_by before x xs) ≡ f x + sum_by f xs
  unfolding sum_by insert_by
  sum_by-insert_by before x [] = refl
  sum_by-insert_by before x (y ∷ ys) = ground (arith, sum_by-insert_by before x ys)

  pub sum_by-order_by :
      (before : A → A → Bool) (xs : List A) → sum_by f (order_by before xs) ≡ sum_by f xs
  unfolding sum_by order_by
  sum_by-order_by before [] = refl
  sum_by-order_by before (x ∷ xs) =
      ground (arith, sum_by-insert_by before x (order_by before xs), sum_by-order_by before xs)

  pub sum_by-take-drop :
      (n : ℕ) (xs : List A) → sum_by f (take n xs) + sum_by f (drop n xs) ≡ sum_by f xs
  unfolding sum_by take drop
  sum_by-take-drop zero xs = ground arith
  sum_by-take-drop (suc n) [] = ground arith
  sum_by-take-drop (suc n) (x ∷ xs) = ground (arith, sum_by-take-drop n xs)

  pub sum_by_append : (xs ys : List A) → sum_by f (xs ++ ys) ≡ sum_by f xs + sum_by f ys
  unfolding sum_by
  sum_by_append [] ys = ground arith
  sum_by_append (x ∷ xs) ys = ground (arith, sum_by_append xs ys)

module _ {ℓ} {A : Type ℓ} where
  pub length-select : (p : A → Bool) (xs : List A) → length (select p xs) ≡ count p xs
  unfolding select count
  length-select p [] = refl
  length-select p (x ∷ xs) = ground (arith, length-select p xs)

  pub length-take-bound : (n : ℕ) (xs : List A) → length (take n xs) ≤ n
  unfolding take
  length-take-bound zero xs = ground arith
  length-take-bound (suc n) [] = ground arith
  length-take-bound (suc n) (x ∷ xs) = ground (arith, length-take-bound n xs)

  pub length_append : (xs ys : List A) → length (xs ++ ys) ≡ length xs + length ys
  length_append [] ys = ground arith
  length_append (x ∷ xs) ys = ground (arith, length_append xs ys)

module _ {ℓ κ} {A : Type ℓ} (P : A → Type κ) where
  insert_by-All :
      (before : A → A → Bool) (x : A) (xs : List A) → P x → All P xs → All P (insert_by before x xs)
  unfolding insert_by
  insert_by-All before x [] h a = (h, tt)
  insert_by-All before x (y ∷ ys) h a = elim (Bool-cases (before y x)) [
    | inl e ↦ rw e (a.0, insert_by-All before x ys h a.1)
    | inr e ↦ rw e (h, a)
  ]

  pub order_by-All : (before : A → A → Bool) (xs : List A) → All P xs → All P (order_by before xs)
  unfolding order_by
  order_by-All before [] a = tt
  order_by-All before (x ∷ xs) a =
      insert_by-All before x (order_by before xs) a.0 (order_by-All before xs a.1)

  pub take-All : (n : ℕ) (xs : List A) → All P xs → All P (take n xs)
  unfolding take
  take-All zero xs a = tt
  take-All (suc n) [] a = tt
  take-All (suc n) (x ∷ xs) a = (a.0, take-All n xs a.1)

  pub drop-All : (n : ℕ) (xs : List A) → All P xs → All P (drop n xs)
  unfolding drop
  drop-All zero xs a = a
  drop-All (suc n) [] a = tt
  drop-All (suc n) (x ∷ xs) a = drop-All n xs a.1
