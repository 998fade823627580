-- ===== src/Storage/Cipher.antt =====
-- internal/storage/credential_cipher.go: the encryption of client secrets at rest.
use knives.Prelude.{
  ℕ, ◌≡◌, false, refl, Text, ltb, if◌then◌else◌, length, take, drop, length_append, take_append,
  drop_append, ◌++◌, Option, none, some, arith,
}
use knives.World.{World, raw_token}
use knives.World.Effects.{Exec, Result, ok, err, pure, ◌>>=◌, cipher_error}

-- crypto/cipher's GCM under the key of the process, and encoding/base64.
pub record Aead : Type 0 where
  pub nonce_size : ℕ
  -- the nonce that is read from crypto/rand
  pub nonce : Text → Text
  pub seal : Text → Text → Text
  pub open_sealed : Text → Text → Option Text
  pub encode : Text → Text
  pub decode : Text → Option Text

-- What the two packages document.
pub record IsAead (c : Aead) : Type 0 where
  pub length-nonce : (draw : Text) → length (c.nonce draw) ≡ c.nonce_size
  pub open-seal :
      (nonce plaintext : Text) → c.open_sealed nonce (c.seal nonce plaintext) ≡ some plaintext
  pub decode-encode : (s : Text) → c.decode (c.encode s) ≡ some s

abbrev pub opened : Option Text → Result Text
opened none = err cipher_error
opened (some plaintext) = ok plaintext

module _ (c : Aead) where
  unfoldable pub encrypt : Text → Exec World Text
  encrypt plaintext = do
    draw ← raw_token
    let nonce = c.nonce draw
    pure (c.encode (nonce ++ c.seal nonce plaintext))

  abbrev pub open_parts : Text → Result Text
  open_parts bytes =
      if ltb (length bytes) c.nonce_size
      then err cipher_error
      else opened (c.open_sealed (take c.nonce_size bytes) (drop c.nonce_size bytes))

  abbrev pub open_decoded : Option Text → Result Text
  open_decoded none = err cipher_error
  open_decoded (some bytes) = open_parts bytes

  unfoldable pub decrypt : Text → Result Text
  decrypt encoded = open_decoded (c.decode encoded)

module _ (c : Aead) (correct : IsAead c) where
  open_parts-sealed :
      (nonce plaintext : Text)
      → length nonce ≡ c.nonce_size
      → open_parts c (nonce ++ c.seal nonce plaintext) ≡ ok plaintext
  open_parts-sealed nonce plaintext h =
      let n : ltb (length (nonce ++ c.seal nonce plaintext)) c.nonce_size ≡ false =
        ground (arith, length_append nonce (c.seal nonce plaintext)) in
      rw
        (
          n,
          ← h,
          take_append nonce (c.seal nonce plaintext),
          drop_append nonce (c.seal nonce plaintext),
        )
        (rw (correct.open-seal nonce plaintext) refl)

  -- What a nonce and a text were encrypted to decrypts to that text.
  pub decrypt-sealed :
      (draw plaintext : Text)
      → decrypt c (c.encode (c.nonce draw ++ c.seal (c.nonce draw) plaintext)) ≡ ok plaintext
  unfolding decrypt
  decrypt-sealed draw plaintext =
      rw (correct.decode-encode (c.nonce draw ++ c.seal (c.nonce draw) plaintext))
        (open_parts-sealed (c.nonce draw) plaintext (correct.length-nonce draw))
