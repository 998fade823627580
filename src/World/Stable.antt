-- ===== src/World/Stable.antt =====
-- Properties of the state that statements keep: the rules for a chain of them.
use knives.Prelude.{
  Bool, true, false, if◌then◌else◌, Bool-cases, inl, inr, ◌≡◌, refl, subst, All, Text, List, [],
  ◌∷◌,
}
use knives.World.{World, statement, failing, called, raw_token, take_token}
use knives.World.Effects.{Result, ok, Exec, ◌>>=◌}
use knives.World.Effects.Keeps.{Keeps, bind_after}

-- A statement that fails only uses a call up.
pub statement-Keeps :
    {A : Type 0} (P : World → Type 0) (op : Exec World A)
    → ((w : World) → P w → P (called w))
    → Keeps P op
    → Keeps P (statement op)
unfolding statement
statement-Keeps P op same keep w h = elim (Bool-cases (failing w.faults)) [
  | inl f ↦ rw f (same w h)
  | inr f ↦ rw f (keep (called w) (same w h))
]

module _ (P : World → Type 0) where
  pub bind-Keeps :
      {A B : Type 0} (m : Exec World A) (f : A → Exec World B)
      → Keeps P m
      → ((a : A) → Keeps P (f a))
      → Keeps P (m >>= f)
  bind-Keeps m f keep go = bind_after P P f m keep (λ w h. h) go

  pub if-Keeps :
      {A : Type 0} (b : Bool) (m n : Exec World A)
      → Keeps P m
      → Keeps P n
      → Keeps P (if b then m else n)
  if-Keeps true m n km kn = km
  if-Keeps false m n km kn = kn

  pub if_after :
      {A : Type 0} (b : Bool) (r s : Result A × World) → P r.1 → P s.1 → P (if b then r else s).1
  if_after true r s pr ps = pr
  if_after false r s pr ps = ps

  -- What a statement only reads.
  pub read-Keeps :
      {A : Type 0} (r : World → Result A)
      → ((w : World) → P w → P (called w))
      → Keeps P (statement (λ w. (r w, w)))
  read-Keeps r same = statement-Keeps P (λ w. (r w, w)) same (λ w h. h)

  take_token-Keeps :
      (w : World)
      → ((t : Text) (ts : List Text) → w.tokens ≡ t ∷ ts → P (record w { tokens = ts }))
      → P w
      → (ts : List Text) → w.tokens ≡ ts
      → P (take_token ts w).1
  unfolding take_token
  take_token-Keeps w drawn h [] e = h
  take_token-Keeps w drawn h (t ∷ ts) e = drawn t ts e

  -- A draw takes the first of the tokens that are left.
  pub raw_token-Keeps :
      ((w : World) (t : Text) (ts : List Text)
        → w.tokens ≡ t ∷ ts
        → P w
        → P (record w { tokens = ts }))
      → Keeps P raw_token
  unfolding raw_token
  raw_token-Keeps drawn w h = take_token-Keeps w (λ t ts e. drawn w t ts e h) h w.tokens refl

-- The token that is drawn was the first of those that were left.
first_taken :
    (w : World) (Q : Text → Type 0) (ts : List Text) (t : Text)
    → All Q ts
    → (take_token ts w).0 ≡ ok t
    → Q t
unfolding take_token
first_taken w Q [] t h e = cc
first_taken w Q (u ∷ ts) t h e = let same : u ≡ t = cc in subst Q same h.0

pub drawn_first :
    (w : World) (Q : Text → Type 0) (t : Text) → All Q w.tokens → (raw_token w).0 ≡ ok t → Q t
unfolding raw_token
drawn_first w Q t h e = first_taken w Q w.tokens t h e
