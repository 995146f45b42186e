-- ===== src/RateLimit.antt =====
-- packages/queue/src/ratelimit.ts (MemoryRateLimiter; Script has the other) and toRateLimitState of
-- packages/shared/src/ratelimit.ts. The limiter keeps the times of the recent hits of each key; the
-- model is the list of one key, empty where the map has none. Times are milliseconds of the epoch.
pub mod Window
pub mod Waiting
pub mod Script
mod Tests
use self_consistency_answer.Common.{
  ℕ, ◌+◌, ◌-◌, max, Bool, true, false, Option, none, some, List, [], ◌∷◌, ◌++◌, String, length,
  head?, filter, replicate, ltb, leb, ceil_div, if◌then◌else◌,
}

-- `RateLimitRequest`, less its key.
pub record RateLimitRequest : Type 0 where
  pub limit : ℕ
  pub window_ms : ℕ
  pub cost : ℕ
  pub now : ℕ

pub record RateLimitResult : Type 0 where
  pub allowed : Bool
  pub limit : ℕ
  pub remaining : ℕ
  pub reset_at_ms : ℕ

-- `at > now - windowMs`, with nothing subtracted.
unfoldable pub in_window : ℕ → ℕ → ℕ → Bool
in_window window_ms now hit = ltb now (hit + window_ms)

abbrev pub reset_at : ℕ → ℕ → Option ℕ → ℕ
reset_at window_ms now none = now + window_ms
reset_at window_ms now (some oldest) = oldest + window_ms

-- `consume`: the hits kept, and the decision.
unfoldable pub consume : RateLimitRequest → List ℕ → List ℕ × RateLimitResult
unfolding in_window
consume request hits =
    let recent = filter (in_window request.window_ms request.now) hits in
    let allowed = leb (length recent + request.cost) request.limit in
    let kept = if allowed then recent ++ replicate request.cost request.now else recent in
    (
      kept,
      record {
        allowed = allowed;
        limit = request.limit;
        remaining = request.limit - length kept;
        reset_at_ms = reset_at request.window_ms request.now (head? kept);
      },
    )

-- `reset` forgets the key.
abbrev pub reset : List ℕ → List ℕ
reset hits = []

-- `RateLimitState`, its reset time in milliseconds in place of the ISO text.
pub record RateLimitState : Type 0 where
  pub bucket : String
  pub limit : ℕ
  pub remaining : ℕ
  pub reset_at : ℕ
  pub retry_after_seconds : ℕ

unfoldable pub to_rate_limit_state : String → RateLimitResult → ℕ → RateLimitState
to_rate_limit_state bucket result now = record {
  bucket = bucket;
  limit = result.limit;
  remaining = result.remaining;
  reset_at = result.reset_at_ms;
  retry_after_seconds = max 1 (ceil_div (result.reset_at_ms - now) 1000);
}
