-- ===== src/Api/Keeps.antt =====
-- What a handler keeps of the state.
use knives.World.{World}
use knives.World.Effects.{Result, ok, err, Err, Exec}
use knives.World.Effects.Keeps.{Keeps}
use knives.Api.{Reply, Handler, handle, try}

-- A handler that starts from a state with `P` ends in one with `P`.
abbrev pub Preserves : {B : Type 0} → (World → Type 0) → Handler B → Type 0
Preserves P h = (w : World) → P w → P (h w).1

module _ {A B : Type 0} (P : World → Type 0) where
  handle_keeps :
      (on_error : Err → Reply B) (k : A → Handler B)
      → ((a : A) → Preserves P (k a))
      → (r : Result A × World) → P r.1
      → P (handle on_error k r).1
  handle_keeps on_error k go (ok a, w) h = go a w h
  handle_keeps on_error k go (err e, w) h = h

  pub try-Keeps :
      (m : Exec World A) (on_error : Err → Reply B) (k : A → Handler B)
      → Keeps P m
      → ((a : A) → Preserves P (k a))
      → Preserves P (try m on_error k)
  try-Keeps m on_error k keep go w h = handle_keeps on_error k go (m w) (keep w h)
