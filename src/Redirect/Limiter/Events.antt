-- ===== src/Redirect/Limiter/Events.antt =====
-- The requests that reach the limiters of a redirect process, and the reference to judge them by.
use knives.Prelude.{ℕ, ◌+◌, ◌≤◌, ◌<◌, ◌≡◌, Text, text_eq, Bool, if◌then◌else◌, List, [], ◌∷◌}
use knives.Redirect.Limiter.{Bucket, LimiterEntry, idle_timeout, allow_ip, cleanup}

-- A request of an address, or a tick of the cleanup, each at its time.
pub data Event : Type 0 where
  request : Text → ℕ → Event
  tick : ℕ → Event

abbrev pub time_of : Event → ℕ
time_of (request ip now) = now
time_of (tick now) = now

-- The times do not go back.
abbrev pub IsOrdered : ℕ → List Event → Type 0
IsOrdered t [] = Unit
IsOrdered t (e ∷ es) = (t ≤ time_of e) × IsOrdered (time_of e) es

module _ (b : Bucket) where
  -- A limiter that was last asked at a time, or never.
  pub data IsUsed : ℕ → b.Limiter → Type 0 where
    never : {t : ℕ} → IsUsed t b.new_limiter
    again : {t now : ℕ} {l : b.Limiter} → IsUsed t l → t ≤ now → IsUsed now (b.allow now l).1

  -- What golang.org/x/time/rate documents, for a bucket that is full again within the timeout.
  abbrev pub Refills : Type 0
  Refills =
      (t now : ℕ) (l : b.Limiter)
      → IsUsed t l
      → t + idle_timeout < now
      → b.allow now l ≡ b.allow now b.new_limiter

  -- The answers to one address, when all share the map.
  unfoldable pub answers : Text → List Event → List (LimiterEntry b) → List Bool
  answers me [] entries = []
  answers me (tick now ∷ es) entries = answers me es (cleanup now entries)
  answers me (request ip now ∷ es) entries =
      let (allowed, entries') = allow_ip now ip entries in
      let rest = answers me es entries' in if text_eq ip me then allowed ∷ rest else rest

  -- The answers of one limiter to the address alone, with nothing ever removed.
  unfoldable pub answers_alone : Text → List Event → b.Limiter → List Bool
  answers_alone me [] l = []
  answers_alone me (tick now ∷ es) l = answers_alone me es l
  answers_alone me (request ip now ∷ es) l =
      let (allowed, l') = b.allow now l in
      let rest = answers_alone me es l' in
      if text_eq ip me then allowed ∷ rest else answers_alone me es l
