-- ===== src/Auth/Crypto.antt =====
-- The primitives that internal/auth takes from crypto/sha256 and alexedwards/argon2id.
use knives.Prelude.{text_eq, false, [], ℕ, Text, Option, some, Bool, true, ◌≡◌}

pub record Crypto : Type 0 where
  -- hex(sha256(raw))
  pub hash_token : Text → Text
  -- argon2id.CreateHash, which draws a salt; `none` is its error
  pub create_hash : ℕ → Text → Option Text
  -- argon2id.ComparePasswordAndHash; `none` is its error, a hash that cannot be decoded
  pub compare : Text → Text → Option Bool

-- What argon2id documents: a password matches each hash that was created from it, and a hash is
-- an encoded text that is not empty.
pub record IsCorrect (c : Crypto) : Type 0 where
  pub compare-create_hash :
      (salt : ℕ) (password hash : Text)
      → c.create_hash salt password ≡ some hash
      → c.compare password hash ≡ some true
  pub create_hash-nonempty :
      (salt : ℕ) (password hash : Text)
      → c.create_hash salt password ≡ some hash
      → text_eq hash [] ≡ false
