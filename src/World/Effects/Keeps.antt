-- ===== src/World/Effects/Keeps.antt =====
-- What a chain of actions keeps of the state.
use knives.World.Effects.{Result, ok, err, Exec, next, ◌>>=◌}

-- A run from a state with `P` ends in one with `P`, with a value or an error.
abbrev pub Keeps : {S A : Type 0} → (S → Type 0) → Exec S A → Type 0
Keeps {S} P m = (s : S) → P s → P (m s).1

module _ {S A B : Type 0} (P R : S → Type 0) (f : A → Exec S B) where
  pub next_after :
      ((s : S) → P s → R s)
      → ((a : A) (s : S) → P s → R (f a s).1)
      → (r : Result A × S) → P r.1
      → R (next f r).1
  next_after weaken go (ok a, s) h = go a s h
  next_after weaken go (err e, s) h = weaken s h

  -- An action that keeps `P`, and then one that leads from `P` to `R`.
  pub bind_after :
      (m : Exec S A)
      → Keeps P m
      → ((s : S) → P s → R s)
      → ((a : A) (s : S) → P s → R (f a s).1)
      → (s : S) → P s
      → R ((m >>= f) s).1
  bind_after m keep weaken go s h = next_after weaken go (m s) (keep s h)
