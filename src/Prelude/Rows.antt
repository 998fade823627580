-- ===== src/Prelude/Rows.antt =====
-- Lemmas on rows that are selected, updated and counted, and on lists that are cut.
use mathlib.Core.Path.{◌≡◌, refl, ap}
use mathlib.Core.Bool.{Bool, true, false}
use mathlib.Core.Logic.{inl, inr}
use mathlib.Core.List.{List, [], ◌∷◌, ◌++◌}
use native.Mathlib.Omega.{arith}
use knives.Prelude.Tests.{Bool-cases}
use knives.Prelude.Lists.{length, any, select, count, update, All, take, drop}

module _ {ℓ} {A : Type ℓ} where
  pub take_append : (xs ys : List A) → take (length xs) (xs ++ ys) ≡ xs
  unfolding take
  take_append [] ys = refl
  take_append (x ∷ xs) ys = ap (λ r. x ∷ r) (take_append xs ys)

  pub drop_append : (xs ys : List A) → drop (length xs) (xs ++ ys) ≡ ys
  unfolding drop
  drop_append [] ys = refl
  drop_append (x ∷ xs) ys = drop_append xs ys

  pub any-cons : (p : A → Bool) (x : A) (xs : List A) → any p xs ≡ true → any p (x ∷ xs) ≡ true
  unfolding any
  any-cons p x xs h = ground arith

  -- A selection that passes every row of the first test keeps the first test's answer.
  pub any-select :
      (p q : A → Bool)
      → ((x : A) → p x ≡ true → q x ≡ true)
      → (xs : List A) → any p xs ≡ true
      → any p (select q xs) ≡ true
  unfolding any select
  any-select p q sub [] h = h
  any-select p q sub (x ∷ xs) h = elim (Bool-cases (p x)) [
    | inl e ↦ rw (sub x e) (rw e refl)
    | inr e ↦
        let rest = any-select p q sub xs (rw e at h) in
        elim (Bool-cases (q x)) [ inl f ↦ rw f (rw e rest) | inr f ↦ rw f rest ]
  ]

  -- An update that the test does not see.
  pub any-update :
      (p q : A → Bool) (f : A → A)
      → ((x : A) → p (f x) ≡ p x)
      → (xs : List A) → any p (update q f xs) ≡ any p xs
  unfolding any update
  any-update p q f same [] = refl
  any-update p q f same (x ∷ xs) = elim (Bool-cases (q x)) [
    | inl e ↦ rw e (rw (same x, any-update p q f same xs) refl)
    | inr e ↦ rw e (rw (any-update p q f same xs) refl)
  ]

module _ {ℓ κ} {A : Type ℓ} (P Q : A → Type κ) where
  -- Rows of which none passes the test fail it one by one.
  pub All-uncounted :
      (p : A → Bool)
      → ((x : A) → p x ≡ false → P x → Q x)
      → (xs : List A) → count p xs ≡ 0
      → All P xs
      → All Q xs
  unfolding count
  All-uncounted p f [] h a = tt
  All-uncounted p f (x ∷ xs) h a = elim (Bool-cases (p x)) [
    | inl e ↦ absurd (ground arith)
    | inr e ↦ (f x e a.0, All-uncounted p f xs (rw e at h) a.1)
  ]

module _ {ℓ κ} {A : Type ℓ} (P : A → Type κ) where
  pub All-update :
      (p : A → Bool) (f : A → A)
      → ((x : A) → P x → P (f x))
      → (xs : List A) → All P xs
      → All P (update p f xs)
  unfolding update
  All-update p f keep [] a = tt
  All-update p f keep (x ∷ xs) a = elim (Bool-cases (p x)) [
    | inl e ↦ rw e (keep x a.0, All-update p f keep xs a.1)
    | inr e ↦ rw e (a.0, All-update p f keep xs a.1)
  ]

module _ {ℓ} {A : Type ℓ} where
  -- Rows that a selection drops are none of those that another one asks for.
  pub select-select :
      (p q : A → Bool)
      → ((x : A) → p x ≡ true → q x ≡ true)
      → (xs : List A) → select p (select q xs) ≡ select p xs
  unfolding select
  select-select p q sub [] = refl
  select-select p q sub (x ∷ xs) = elim (Bool-cases (p x)) [
    | inl e ↦ rw (sub x e) (rw e (ap (λ r. x ∷ r) (select-select p q sub xs)))
    | inr e ↦ elim (Bool-cases (q x)) [
      | inl f ↦ rw f (rw e (select-select p q sub xs))
      | inr f ↦ rw f (rw e (select-select p q sub xs))
    ]
  ]

  -- An update of rows that a selection does not ask for.
  pub select-update :
      (p q : A → Bool) (f : A → A)
      → ((x : A) → q x ≡ true → (p x ≡ false) × (p (f x) ≡ false))
      → (xs : List A) → select p (update q f xs) ≡ select p xs
  unfolding select update
  select-update p q f out [] = refl
  select-update p q f out (x ∷ xs) = elim (Bool-cases (q x)) [
    | inl e ↦ rw (e, (out x e).0, (out x e).1) (select-update p q f out xs)
    | inr e ↦ elim (Bool-cases (p x)) [
      | inl g ↦ rw e (rw g (ap (λ r. x ∷ r) (select-update p q f out xs)))
      | inr g ↦ rw e (rw g (select-update p q f out xs))
    ]
  ]
