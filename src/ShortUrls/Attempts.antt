-- ===== src/ShortUrls/Attempts.antt =====
-- The attempts of `Service.Create` to insert a row under a code, drawn or chosen.
use knives.Prelude.{
  ℕ, zero, suc, ◌≡◌, inl, inr, refl, ◌∙◌, ap, Text, true, false, List, ◌∷◌, Bool-cases, arith,
}
use knives.World.{World, transaction, statement, called, failing, draw}
use knives.World.Effects.{Result, ok, err, code_collision, next, attempt, ◌>>=◌, lift}
use knives.World.Rows.{ShortUrl}
use knives.Storage.Links.{create_short_url, insert_short_url, insert_url_permission}
use knives.Storage.Links.Creation.{
  SameLinks, IsCreated, create_short_url_error, create_short_url_ok,
}
use knives.ShortUrls.Codes.{
  is_reserved_short_code, normalize_alias, random_code, random_chars, random_char,
  matches_alias_pattern,
}
use knives.ShortUrls.{
  CreateInput, new_row, insert, try_code, create_random, create_with_alias, short_code_settings,
  or_again, or_alias_taken,
}

-- A state that differs from `w` in what the environment has used up at most.
abbrev Frame : World → World → Type 0
Frame w w' =
    (w'.short_urls ≡ w.short_urls) × (w'.permissions ≡ w.permissions) × (w'.clock ≡ w.clock)

-- The outcome of a creation: the row was added with its owner, or nothing was changed.
abbrev pub Created : CreateInput → Text → World → Result ShortUrl × World → Type 0
Created input long_url w (ok su, w') =
    (code : Text) × (is_reserved_short_code code ≡ false)
    × IsCreated (new_row input long_url code) su w w'
Created input long_url w (err e, w') = SameLinks w w'

module _ (input : CreateInput) (long_url : Text) where
  Created-Frame :
      (w w' : World) (r : Result ShortUrl × World)
      → Frame w w'
      → Created input long_url w' r
      → Created input long_url w r
  Created-Frame w w' (ok su, v) (f, g, h) (code, free, c) = (
    code,
    free,
    record {
      stored =
          c.stored
          ∙ ap (λ (t : ℕ). record (new_row input long_url code) { id = su.id; created_at = t }) h;
      free = rw (← f) c.free;
      added = c.added ∙ ap (λ (l : List ShortUrl). su ∷ l) f;
      owned = ground (arith, c.owned);
    },
  )
  Created-Frame w w' (err e, v) (f, g, h) (k, l) = (k ∙ f, l ∙ g)

  insert-Created :
      (code : Text) (w : World) (r : Result ShortUrl × World)
      → insert input long_url code w ≡ r
      → is_reserved_short_code code ≡ false
      → Created input long_url w r
  unfolding insert
  insert-Created code w (ok su, v) e usable = (
    code,
    usable,
    rw (ap (λ (p : Result ShortUrl × World). p.1) e) at (
        create_short_url_ok (new_row input long_url code) w su
          (ap (λ (p : Result ShortUrl × World). p.0) e)),
  )
  insert-Created code w (err x, v) e usable = rw (ap (λ (p : Result ShortUrl × World). p.1) e) at (
      create_short_url_error (new_row input long_url code) w x
        (ap (λ (p : Result ShortUrl × World). p.0) e))

  -- A collision leaves the loop with the tables as they were.
  or_again-Created :
      (code : Text) (again : World → Result ShortUrl × World) (w : World)
      (r : Result ShortUrl × World)
      → r.1.clock ≡ w.clock
      → ((v : World) → Frame w v → Created input long_url w (again v))
      → Created input long_url w r
      → Created input long_url w (next (or_again again) (attempt (λ (_ : World). r) w))
  or_again-Created code again w (ok su, v) clock go c = c
  or_again-Created code again w (err code_collision, v) clock go (f, g) = go v (f, g, clock)
  or_again-Created code again w (err _, v) clock go c = c

  insert_clock : (code : Text) (w : World) → (insert input long_url code w).1.clock ≡ w.clock
  unfolding insert create_short_url transaction insert_short_url insert_url_permission statement
  insert_clock code w = ground arith

  try_code-Created :
      (again : World → Result ShortUrl × World) (code : Text) (w : World)
      → ((v : World) → Frame w v → Created input long_url w (again v))
      → Created input long_url w (try_code input long_url again code w)
  unfolding try_code
  try_code-Created again code w go = elim (Bool-cases (is_reserved_short_code code)) [
    | inl reserved ↦ rw reserved (go w (refl, refl, refl))
    | inr usable ↦ rw usable (
        or_again-Created code again w (insert input long_url code w) (insert_clock code w) go
          (insert-Created code w (insert input long_url code w) refl usable))
  ]

random_char-Frame : (charset : Text) (w : World) → Frame w (random_char charset w).1
unfolding random_char draw
random_char-Frame charset w = ground arith

random_chars-Frame : (charset : Text) (n : ℕ) (w : World) → Frame w (random_chars charset n w).1
unfolding random_chars
random_chars-Frame charset zero w = (refl, refl, refl)
random_chars-Frame charset (suc n) w =
    ground
      (arith, random_char-Frame charset w, random_chars-Frame charset n (random_char charset w).1)

random_code-Frame : (charset : Text) (n : ℕ) (w : World) → Frame w (random_code charset n w).1
unfolding random_code
random_code-Frame charset n w = ground (arith, random_chars-Frame charset n w)

module _ (input : CreateInput) (long_url : Text) where
  next-Created :
      (f : Text → World → Result ShortUrl × World) (w : World) (r : Result Text × World)
      → Frame w r.1
      → ((code : Text) → Created input long_url r.1 (f code r.1))
      → Created input long_url w (next f r)
  next-Created f w (ok code, v) e go = Created-Frame input long_url w v (f code v) e (go code)
  next-Created f w (err x, v) (f', g, h) go = (f', g)

  create_random-Created :
      (charset : Text) (n left : ℕ) (w : World)
      → Created input long_url w (create_random input long_url charset n left w)
  unfolding create_random
  create_random-Created charset n zero w = (refl, refl)
  create_random-Created charset n (suc left) w =
      let again = λ (v : World). create_random input long_url charset n left v in
      next-Created (try_code input long_url again) w (random_code charset n w)
        (random_code-Frame charset n w)
        (λ code. try_code-Created input long_url again code (random_code charset n w).1 (λ v e.
          Created-Frame input long_url (random_code charset n w).1 v (again v) e
            (create_random-Created charset n left v)))

normalize_alias_usable :
    (raw alias : Text)
    → normalize_alias raw ≡ ok alias
    → (is_reserved_short_code alias ≡ false) × (matches_alias_pattern alias ≡ true)
unfolding normalize_alias
normalize_alias_usable raw alias h = ground arith

module _ (input : CreateInput) (long_url : Text) where
  or_alias_taken-Created :
      (w : World) (r : Result ShortUrl × World)
      → Created input long_url w r
      → Created input long_url w (next or_alias_taken (attempt (λ (_ : World). r) w))
  or_alias_taken-Created w (ok su, v) c = c
  or_alias_taken-Created w (err code_collision, v) c = c
  or_alias_taken-Created w (err _, v) c = c

  with_alias-Created :
      (w : World) (r : Result Text)
      → normalize_alias input.custom_alias ≡ r
      → Created input long_url w
          ((lift r >>= λ alias. attempt (insert input long_url alias) >>= or_alias_taken) w)
  with_alias-Created w (ok alias) e = or_alias_taken-Created w (insert input long_url alias w) (
      insert-Created input long_url alias w (insert input long_url alias w) refl
        (normalize_alias_usable input.custom_alias alias e).0)
  with_alias-Created w (err x) e = (refl, refl)

  pub create_with_alias-Created :
      (w : World) → Created input long_url w (create_with_alias input long_url w)
  unfolding create_with_alias
  create_with_alias-Created w = with_alias-Created w (normalize_alias input.custom_alias) refl

  pub settings-Created :
      (w : World)
      → Created input long_url w
          ((short_code_settings >>= λ (s : Text × ℕ). create_random input long_url s.0 s.1 5) w)
  unfolding short_code_settings statement
  settings-Created w =
      let after = create_random-Created input long_url w.charset w.code_length 5 (called w) in
      elim (Bool-cases (failing w.faults)) [
        | inl f ↦ rw f (refl, refl)
        | inr f ↦ rw f (Created-Frame input long_url w (called w) _ (refl, refl, refl) after)
      ]
