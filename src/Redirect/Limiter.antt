-- ===== src/Redirect/Limiter.antt =====
-- cmd/redirect/ratelimit.go: a token bucket for each address, and the removal of idle ones.
pub mod Events
pub mod Isolation
use knives.Prelude.{
  ℕ, ◌+◌, ◌-◌, Text, text_eq, Bool, true, false, not, ltb, if◌then◌else◌, List, [], ◌∷◌, Option,
  none, some, find, select,
}

-- golang.org/x/time/rate: a new limiter, and `Allow` at a time.
pub record Bucket : Type 1 where
  pub Limiter : Type 0
  pub new_limiter : Limiter
  pub allow : ℕ → Limiter → Bool × Limiter

pub record LimiterEntry (b : Bucket) : Type 0 where
  pub ip : Text
  pub limiter : b.Limiter
  pub last_seen : ℕ

-- 10 minutes, in nanoseconds
abbrev pub idle_timeout : ℕ
idle_timeout = 600000000000

module _ {b : Bucket} where
  abbrev pub is_ip : Text → LimiterEntry b → Bool
  is_ip ip e = text_eq e.ip ip

  abbrev pub limiter_of : Option (LimiterEntry b) → b.Limiter
  limiter_of none = b.new_limiter
  limiter_of (some e) = e.limiter

  unfoldable pub without_ip : Text → List (LimiterEntry b) → List (LimiterEntry b)
  without_ip ip = select (λ e. not (is_ip ip e))

  -- The map holds one entry for each address, the one that was written last.
  unfoldable pub allow_ip : ℕ → Text → List (LimiterEntry b) → Bool × List (LimiterEntry b)
  allow_ip now ip entries =
      let (allowed, limiter) = b.allow now (limiter_of (find (is_ip ip) entries)) in
      (allowed, record { ip = ip; limiter = limiter; last_seen = now } ∷ without_ip ip entries)

  -- One tick of the loop: `entry.lastSeen.Before(now - idleTimeout)` is deleted.
  unfoldable pub cleanup : ℕ → List (LimiterEntry b) → List (LimiterEntry b)
  cleanup now = select (λ e. not (ltb (e.last_seen + idle_timeout) now))
