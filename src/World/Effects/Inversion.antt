-- ===== src/World/Effects/Inversion.antt =====
-- What a chain that returned tells of its parts.
use knives.Prelude.{◌≡◌, refl, Bool, true, false, Option, none, some}
use knives.World.Effects.{Result, ok, err, Err, Exec, some_or, guard, ◌>>◌, ◌>>=◌, next}

module _ {S B : Type 0} where
  -- A guard in front of a chain that returned has passed.
  pub guard-ok :
      (b : Bool) (e : Err) (m : Exec S B) (s : S) {a : B}
      → ((guard b e >> m) s).0 ≡ ok a
      → (b ≡ true) × ((guard b e >> m) s ≡ m s)
  guard-ok true e m s h = (refl, refl)
  guard-ok false e m s h = cc

module _ {S A B : Type 0} where
  next_ok :
      (f : A → Exec S B) (r : Result A × S) {b : B}
      → (next f r).0 ≡ ok b
      → (a : A) × (r.0 ≡ ok a) × (next f r ≡ f a r.1)
  next_ok f (ok a, s) h = (a, refl, refl)
  next_ok f (err e, s) h = cc

  -- A chain that returned has a first part that returned.
  pub bind-ok :
      (m : Exec S A) (f : A → Exec S B) (s : S) {b : B}
      → ((m >>= f) s).0 ≡ ok b
      → (a : A) × ((m s).0 ≡ ok a) × ((m >>= f) s ≡ f a (m s).1)
  bind-ok m f s h = next_ok f (m s) h

-- What holds of both ways on holds of the chain.
module _ {S B : Type 0} (R : Result B × S → Type 0) where
  pub guard_cases :
      (b : Bool) (e : Err) (m : Exec S B) (s : S)
      → (b ≡ false → R (err e, s))
      → (b ≡ true → R (m s))
      → R ((guard b e >> m) s)
  guard_cases true e m s no_way way = way refl
  guard_cases false e m s no_way way = no_way refl

  next_cases :
      {A : Type 0} (f : A → Exec S B) (r : Result A × S)
      → ((e : Err) → r.0 ≡ err e → R (err e, r.1))
      → ((a : A) → r.0 ≡ ok a → R (f a r.1))
      → R (next f r)
  next_cases f (ok a, s) failed done = done a refl
  next_cases f (err e, s) failed done = failed e refl

  pub bind_cases :
      {A : Type 0} (m : Exec S A) (f : A → Exec S B) (s : S)
      → ((e : Err) → (m s).0 ≡ err e → R (err e, (m s).1))
      → ((a : A) → (m s).0 ≡ ok a → R (f a (m s).1))
      → R ((m >>= f) s)
  bind_cases m f s failed done = next_cases f (m s) failed done

pub some_or-ok : {A : Type 0} (e : Err) (o : Option A) {a : A} → some_or e o ≡ ok a → o ≡ some a
some_or-ok e none h = cc
some_or-ok e (some a) h = cc
