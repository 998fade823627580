-- ===== src/Redirect/Limiter/Isolation.antt =====
-- The limiter of one address against the requests of all.
use knives.Prelude.{
  ℕ, ◌+◌, ◌≤◌, ◌≡◌, refl, ap, sym, ◌⊎◌, inl, inr, Text, text_eq, text_eq_iff, text_eq_refl, Bool,
  true, false, not, ltb, List, [], ◌∷◌, none, some, find, find_test, select, count, Bool-cases,
  arith,
}
use knives.Redirect.Limiter.Events.{
  Event, request, tick, IsOrdered, IsUsed, never, again, Refills, answers, answers_alone,
}
use knives.Redirect.Limiter.{
  Bucket, LimiterEntry, idle_timeout, is_ip, limiter_of, without_ip, allow_ip, cleanup,
}

module _ {A : Type 0} (p q : A → Bool) where
  count-select-bound : (xs : List A) → count p (select q xs) ≤ count p xs
  unfolding count select
  count-select-bound [] = ground arith
  count-select-bound (x ∷ xs) = ground (arith, count-select-bound xs)

  find-none : (xs : List A) → count p xs ≡ 0 → find p (select q xs) ≡ none
  unfolding count find select
  find-none [] h = refl
  find-none (x ∷ xs) h = ground (arith, find-none xs)

  find_gone : (xs : List A) → find p xs ≡ none → find p (select q xs) ≡ none
  unfolding find select
  find_gone [] h = refl
  find_gone (x ∷ xs) h = ground (arith, find_gone xs)

  -- The one row that passes a test is found among the selected ones if it is selected.
  find_kept :
      (xs : List A) {x : A} → find p xs ≡ some x → q x ≡ true → find p (select q xs) ≡ some x
  unfolding find select
  find_kept [] h k = cc
  find_kept (y ∷ ys) {x} h k = ground (arith, find_kept ys {x = x})

  find_dropped :
      (xs : List A) {x : A}
      → find p xs ≡ some x
      → q x ≡ false
      → count p xs ≤ 1
      → find p (select q xs) ≡ none
  unfolding find select count
  find_dropped [] h k one = cc
  find_dropped (y ∷ ys) {x} h k one = ground (arith, find_dropped ys {x = x}, find-none ys)

module _ (b : Bucket) (refills : Refills b) (me : Text) where
  -- The map has the address's limiter, or none and that limiter is as good as new.
  abbrev HasEntry : ℕ → List (LimiterEntry b) → b.Limiter → Type 0
  HasEntry t entries l =
      (e : LimiterEntry b) × (find (is_ip me) entries ≡ some e)
      × (e.limiter ≡ l)
      × (e.last_seen ≡ t)

  abbrev IsLikeNew : ℕ → List (LimiterEntry b) → b.Limiter → Type 0
  IsLikeNew time entries l =
      (find (is_ip me) entries ≡ none)
      × ((now : ℕ) → time ≤ now → b.allow now l ≡ b.allow now b.new_limiter)

  abbrev Matches : ℕ → List (LimiterEntry b) → b.Limiter → Type 0
  Matches time entries l =
      (count (is_ip me) entries ≤ 1)
      × (t : ℕ) × (t ≤ time)
      × IsUsed b t l
      × (HasEntry t entries l ⊎ IsLikeNew time entries l)

  asked :
      (time now : ℕ) (entries : List (LimiterEntry b)) (l : b.Limiter)
      → time ≤ now
      → Matches time entries l
      → b.allow now (limiter_of (find (is_ip me) entries)) ≡ b.allow now l
  asked time now entries l later (one, t, before, used, inl (e, k, same, seen)) = rw (k, same) refl
  asked time now entries l later (one, t, before, used, inr (gone, new)) =
      rw gone (sym (new now later))

  cons_both : {a c : Bool} {xs ys : List Bool} → a ≡ c → xs ≡ ys → a ∷ xs ≡ c ∷ ys
  cons_both h k = cc

  below_one : {m n : ℕ} → m ≤ n → n ≤ 1 → m ≤ 1
  below_one h k = ground arith

  none_of_me :
      (ip : Text) (entries : List (LimiterEntry b))
      → text_eq ip me ≡ true
      → count (is_ip me) (without_ip ip entries) ≡ 0
  unfolding count without_ip select
  none_of_me ip [] same = refl
  none_of_me ip (e ∷ es) same =
      ground (arith, none_of_me ip es, text_eq_iff ip me, text_eq_iff e.ip ip, text_eq_iff e.ip me)

  my_request :
      (time now : ℕ) (entries : List (LimiterEntry b)) (l : b.Limiter)
      → time ≤ now
      → Matches time entries l
      → Matches now (allow_ip now me entries).1 (b.allow now l).1
  unfolding allow_ip find count
  my_request time now entries l later h =
      let same = text_eq_refl me in
      let entry : LimiterEntry b = record {
        ip = me;
        limiter = (b.allow now (limiter_of (find (is_ip me) entries))).1;
        last_seen = now;
      } in
      let none_left = none_of_me me entries same in
      (
        rw (same, none_left) (ground arith),
        now,
        ground arith,
        again h.3 (ground (arith, h.2)),
        inl (
          entry,
          rw same refl,
          ap (λ (r : Bool × b.Limiter). r.1) (asked time now entries l later h),
          refl,
        ),
      )

  kept_entry :
      (ip : Text) (e : LimiterEntry b)
      → text_eq ip me ≡ false
      → text_eq e.ip me ≡ true
      → not (text_eq e.ip ip) ≡ true
  kept_entry ip e other mine =
      ground (arith, text_eq_iff ip me, text_eq_iff e.ip ip, text_eq_iff e.ip me)

  other_request :
      (time now : ℕ) (ip : Text) (entries : List (LimiterEntry b)) (l : b.Limiter)
      → text_eq ip me ≡ false
      → time ≤ now
      → Matches time entries l
      → Matches now (allow_ip now ip entries).1 l
  unfolding allow_ip without_ip find count
  other_request time now ip entries l other later (one, t, before, used, inl (e, k, same, seen)) =
      let mine = find_test (is_ip me) entries k in
      let kept =
        find_kept (is_ip me) (λ x. not (is_ip ip x)) entries k (kept_entry ip e other mine) in
      let fewer = count-select-bound (is_ip me) (λ x. not (is_ip ip x)) entries in
      (rw other (ground arith), t, ground arith, used, inl (e, rw other kept, same, seen))
  other_request time now ip entries l other later (one, t, before, used, inr (gone, new)) =
      let fewer = count-select-bound (is_ip me) (λ x. not (is_ip ip x)) entries in
      let still = find_gone (is_ip me) (λ x. not (is_ip ip x)) entries gone in
      (
        rw other (ground arith),
        t,
        ground arith,
        used,
        inr (rw other still, λ at le. new at (ground arith)),
      )

  cleaned :
      (time now : ℕ) (entries : List (LimiterEntry b)) (l : b.Limiter)
      → time ≤ now
      → Matches time entries l
      → Matches now (cleanup now entries) l
  unfolding cleanup
  cleaned time now entries l later (one, t, before, used, inl (e, k, same, seen)) =
      let fresh = λ (x : LimiterEntry b). not (ltb (x.last_seen + idle_timeout) now) in
      let fewer = below_one (count-select-bound (is_ip me) fresh entries) one in
      elim (Bool-cases (ltb (e.last_seen + idle_timeout) now)) [
        | inl idle ↦ (
          fewer,
          t,
          ground arith,
          used,
          inr (
            find_dropped (is_ip me) fresh entries k (rw idle refl) one,
            λ at le. refills t at l used (ground arith),
          ),
        )
        | inr busy ↦ (
          fewer,
          t,
          ground arith,
          used,
          inl (e, find_kept (is_ip me) fresh entries k (rw busy refl), same, seen),
        )
      ]
  cleaned time now entries l later (one, t, before, used, inr (gone, new)) =
      let fresh = λ (x : LimiterEntry b). not (ltb (x.last_seen + idle_timeout) now) in
      let fewer = below_one (count-select-bound (is_ip me) fresh entries) one in
      (
        fewer,
        t,
        ground arith,
        used,
        inr (find_gone (is_ip me) fresh entries gone, λ at le. new at (ground arith)),
      )

  run :
      (time : ℕ) (es : List Event) (entries : List (LimiterEntry b)) (l : b.Limiter)
      → IsOrdered time es
      → Matches time entries l
      → answers b me es entries ≡ answers_alone b me es l
  unfolding answers answers_alone allow_ip
  run time [] entries l o h = refl
  run time (tick now ∷ es) entries l (later, o) h =
      run now es (cleanup now entries) l o (cleaned time now entries l later h)
  run time (request ip now ∷ es) entries l (later, o) h = elim (Bool-cases (text_eq ip me)) [
    | inl same ↦
        rw ((text_eq_iff ip me).0 same, text_eq_refl me)
          (cons_both (ap (λ (r : Bool × b.Limiter). r.0) (asked time now entries l later h)) (
            run now es (allow_ip now me entries).1 (b.allow now l).1 o
              (my_request time now entries l later h)))
    | inr other ↦ rw other (
        run now es (allow_ip now ip entries).1 l o
          (other_request time now ip entries l other later h))
  ]

-- Requests of many addresses and ticks of the cleanup, in any order: the answers to one address are
-- those of a single limiter that sees that address's requests alone and is never removed, if a
-- limiter that has been idle for the timeout answers as a new one.
pub limiter_isolated :
    (b : Bucket) (me : Text) (time : ℕ) (es : List Event)
    → Refills b
    → IsOrdered time es
    → answers b me es [] ≡ answers_alone b me es b.new_limiter
unfolding find count
limiter_isolated b me time es refills o =
    run b refills me time es [] b.new_limiter o
      (ground arith, time, ground arith, never, inr (refl, λ now le. refl))
