-- ===== src/Breaker/Tests.antt =====
-- A history of the breaker, and the theorems at it.
use self_consistency_answer.Common.{
  ◌+◌, ◌≡◌, refl, false, ◌&&◌, some, none, List, [], ◌∷◌, arith, ltb, leb, if◌then◌else◌,
}
use self_consistency_answer.Breaker.{
  ErrorFacts, Settings, closed, open_until, ok, failed, breaker_state,
}
use self_consistency_answer.Breaker.Outcomes.{
  Event, streak, last_failure, store_after, open_iff_streak,
}

abbrev settings : Settings
settings = record {
  threshold = 2;
  cooldown_ms = 30_000;
  is_transient = λ message. false;
  to_text = λ n. "n";
}

abbrev limited : ErrorFacts
limited = record {
  message = "slow down";
  name = "Error";
  status = some 429;
  retry_after_ms = some 9_000;
}

abbrev malformed : ErrorFacts
malformed = record { message = "no"; name = "Error"; status = some 400; retry_after_ms = none }

-- A success, then two rate limits with a malformed request between them; the latest first.
abbrev history : List Event
history =
    record { outcome = failed limited; now = 3_000 }
    ∷ record { outcome = failed malformed; now = 2_000 }
    ∷ record { outcome = failed limited; now = 1_000 }
    ∷ record { outcome = ok; now = 500 }
    ∷ []

opens : breaker_state settings 4_000 (store_after settings history) ≡ open_until 33_000
unfolding breaker_state store_after
opens = refl

open_iff_streak_example :
    let until = last_failure settings history + settings.cooldown_ms in
    breaker_state settings 4_000 (store_after settings history) ≡ (
      if leb settings.threshold (streak settings history) && ltb 4_000 until
      then open_until until
      else closed)
open_iff_streak_example = open_iff_streak settings history 4_000 (omega arith)
