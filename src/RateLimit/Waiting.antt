-- ===== src/RateLimit/Waiting.antt =====
-- A refused request: what it leaves behind, and how long it has to wait.
use self_consistency_answer.Common.{
  ℕ, ◌+◌, ◌*◌, ◌≤◌, ◌≡◌, refl, true, false, List, [], ◌∷◌, String, arith, length, filter, head?,
  length-filter-le, leb,
}
use self_consistency_answer.RateLimit.{
  RateLimitRequest, RateLimitResult, in_window, consume, reset_at, to_rate_limit_state,
}
use self_consistency_answer.RateLimit.Window.{filter-filter, in_window_mono}

-- A request that was refused does not count: whatever is asked later, under the same window, is
-- answered as if it had never been made.
pub refused_leaves_no_trace :
    (refused later : RateLimitRequest) (hits : List ℕ)
    → refused.window_ms ≡ later.window_ms
    → refused.now ≤ later.now
    → (consume refused hits).1.allowed ≡ false
    → consume later (consume refused hits).0 ≡ consume later hits
unfolding consume
refused_leaves_no_trace refused later hits same h e =
    let keep = in_window later.window_ms refused.now in
    let twice : filter (in_window later.window_ms later.now) (filter keep hits)
        ≡ filter (in_window later.window_ms later.now) hits =
      filter-filter keep (in_window later.window_ms later.now)
        (in_window_mono later.window_ms refused.now later.now h) hits in
    rw (e, same, twice) refl

-- The oldest hit has left the window when its reset time comes.
room_at_reset :
    (w now asked limit : ℕ) (recent : List ℕ)
    → 1 ≤ limit
    → length recent ≤ limit
    → reset_at w asked (head? recent) ≤ now
    → leb (length (filter (in_window w now) recent) + 1) limit ≡ true
unfolding in_window
room_at_reset w now asked limit [] positive within waited = ground (arith, positive)
room_at_reset w now asked limit (oldest ∷ hits) positive within waited =
    ground (arith, length-filter-le (in_window w now) hits)

-- A refused request for one slot that comes again at the reset time it was told, or later, is
-- admitted, if nothing else was admitted in between, window and limit are the same, and the limit is
-- one or more and not below the hits already kept.
pub admitted_at_reset :
    (refused later : RateLimitRequest) (hits : List ℕ)
    → refused.window_ms ≡ later.window_ms
    → refused.limit ≡ later.limit
    → later.cost ≡ 1
    → 1 ≤ later.limit
    → length hits ≤ later.limit
    → refused.now ≤ later.now
    → (consume refused hits).1.allowed ≡ false
    → (consume refused hits).1.reset_at_ms ≤ later.now
    → (consume later (consume refused hits).0).1.allowed ≡ true
unfolding consume
admitted_at_reset refused later hits same same_limit one positive within h e waited =
    rw (e, same, one)
      (room_at_reset later.window_ms later.now refused.now later.limit
        (filter (in_window later.window_ms refused.now) hits) positive
        (omega (arith, length-filter-le (in_window later.window_ms refused.now) hits))
        (rw (e, same) at waited))

-- Who waits for as many seconds as the state says has waited until the reset time, and never less
-- than a second.
pub retry_after_reaches_reset :
    (bucket : String) (result : RateLimitResult) (now : ℕ)
    → let state = to_rate_limit_state bucket result now in
      (1 ≤ state.retry_after_seconds)
      × (result.reset_at_ms ≤ now + state.retry_after_seconds * 1000)
unfolding to_rate_limit_state
retry_after_reaches_reset bucket result now = (omega arith, omega arith)
