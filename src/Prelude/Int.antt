-- ===== src/Prelude/Int.antt =====
-- Go's signed `int`, where a value can be negative. `negsuc n` is -(n + 1).
use Prim.Native.Nat.{ℕ, ◌-◌, ◌%◌, ◌^◌}
use mathlib.Core.Bool.{Bool, true, false}
use knives.Prelude.Tests.{ltb, leb, if◌then◌else◌}

pub data ℤ : Type 0 where
  pos : ℕ → ℤ
  negsuc : ℕ → ℤ

abbrev pub leb_ℤ : ℤ → ℤ → Bool
leb_ℤ (pos a) (pos b) = leb a b
leb_ℤ (pos a) (negsuc b) = false
leb_ℤ (negsuc a) (pos b) = true
leb_ℤ (negsuc a) (negsuc b) = leb b a

abbrev pub ltb_ℤ : ℤ → ℤ → Bool
ltb_ℤ (pos a) (pos b) = ltb a b
ltb_ℤ (pos a) (negsuc b) = false
ltb_ℤ (negsuc a) (pos b) = true
ltb_ℤ (negsuc a) (negsuc b) = ltb b a

abbrev pub negate_bits : ℕ → ℕ
negate_bits m = 2 ^ 32 - 1 - m

-- The 32-bit integer of these bits.
abbrev pub signed : ℕ → ℤ
signed m = if ltb m (2 ^ 31) then pos m else negsuc (negate_bits m)

-- `int32(n)`, which keeps the low 32 bits.
abbrev pub int32 : ℤ → ℤ
int32 (pos n) = signed (n % 2 ^ 32)
int32 (negsuc n) = signed (negate_bits (n % 2 ^ 32))
