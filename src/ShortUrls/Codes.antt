-- ===== src/ShortUrls/Codes.antt =====
-- Aliases and random codes (internal/shorturl/shorturl.go).
use knives.Prelude.{
  ℕ, zero, suc, ◌%◌, Text, codes, text_eq, to_lower, trim_space, length, leb, ◌==◌, if◌then◌else◌,
  Bool, true, ◌&&◌, ◌||◌, [], ◌∷◌, get_elem?,
}
use knives.World.{World, draw}
use knives.World.Effects.{
  Exec, Result, ok, err, pure, guard, or_raise, ◌>>=◌, ◌>>◌, invalid_alias, invalid_settings,
}

-- [A-Za-z0-9_.-]
unfoldable pub is_alias_char : ℕ → Bool
is_alias_char c =
    (leb b'A' c && leb c b'Z')
    || (leb b'a' c && leb c b'z')
    || (leb b'0' c && leb c b'9')
    || c == b'_'
    || c == b'.'
    || c == b'-'

unfoldable pub all_alias_chars : Text → Bool
all_alias_chars [] = true
all_alias_chars (c ∷ s) = is_alias_char c && all_alias_chars s

-- ^[A-Za-z0-9_.-]{1,64}$
unfoldable pub matches_alias_pattern : Text → Bool
unfolding all_alias_chars is_alias_char
matches_alias_pattern s = leb 1 (length s) && leb (length s) 64 && all_alias_chars s

unfoldable pub is_reserved_short_code : Text → Bool
is_reserved_short_code code =
    text_eq (to_lower code) (codes "api") || text_eq (to_lower code) (codes "app")

unfoldable pub normalize_alias : Text → Result Text
normalize_alias raw =
    let alias = trim_space raw in
    if matches_alias_pattern alias
    then (if is_reserved_short_code alias then err invalid_alias else ok alias)
    else err invalid_alias

-- rand.Int(rand.Reader, max), a draw below `max`, and the byte of `charset` that it picks.
unfoldable pub random_char : Text → Exec World ℕ
random_char charset = do
  d ← draw
  or_raise invalid_settings (get_elem? charset (d % length charset))

-- The loop over the bytes of the code.
unfoldable pub random_chars : Text → ℕ → Exec World Text
random_chars charset zero w = (ok [], w)
random_chars charset (suc n) w =
    (do
      c ← random_char charset
      rest ← (λ (w' : World). random_chars charset n w')
      pure (c ∷ rest))
      w

unfoldable pub random_code : Text → ℕ → Exec World Text
random_code charset n = do
  guard (leb 1 (length charset) && leb 1 n) invalid_settings
  random_chars charset n
