-- ===== src/Pricing.antt =====
-- packages/shared/src/pricing.ts and estimate.ts: the price list, the cost of a call in micro-cents and
-- the estimate of a run. The dates and the order of their texts are parameters (Host). The quotients that
-- are rounded are taken as exact, which doubles are where a cost is below 2 ^ 53.
pub mod Newest
pub mod Estimates
mod Tests
use self_consistency_answer.Common.{
  ℕ, ◌+◌, ◌*◌, ◌/◌, min, max, Bool, true, false, not, ◌&&◌, Option, none, some, String, List, [],
  ◌∷◌, ◌++◌, map, filter, any, head?, length, is_some, or_else, ceil_div, leb, ltb, str_eq,
  if◌then◌else◌,
}
use self_consistency_answer.Events.{ProviderId, openai, anthropic, google}

-- `Date.parse` of a text, and `a.localeCompare(b) > 0`.
pub record Host : Type 0 where
  pub time_of : String → ℕ
  pub is_later : String → String → Bool

pub record ModelPrice : Type 0 where
  pub provider : ProviderId
  pub model : String
  pub input_per_million : ℕ
  pub output_per_million : ℕ
  pub effective_from : String
  pub verified : Bool

-- Micro-cents for a price in thousandths of a dollar.
abbrev pub price : ProviderId → String → ℕ → ℕ → String → Bool → ModelPrice
price provider model milli_in milli_out effective_from verified = record {
  provider = provider;
  model = model;
  input_per_million = milli_in * 100_000;
  output_per_million = milli_out * 100_000;
  effective_from = effective_from;
  verified = verified;
}

unfoldable pub model_prices : List ModelPrice
model_prices =
    price anthropic "claude-opus-5" 5_000 25_000 "2026-01-01" true
    ∷ price anthropic "claude-opus-4-8" 5_000 25_000 "2026-01-01" true
    ∷ price anthropic "claude-sonnet-5" 3_000 15_000 "2026-01-01" true
    ∷ price anthropic "claude-sonnet-4-6" 3_000 15_000 "2026-01-01" true
    ∷ price anthropic "claude-haiku-4-5" 1_000 5_000 "2026-01-01" true
    ∷ price openai "gpt-5.5" 1_250 10_000 "2026-01-01" false
    ∷ price google "gemini-3.7-flash" 300 2_500 "2026-01-01" false
    ∷ []

module _ (host : Host) where
  abbrev pub is_applicable : String → ℕ → ModelPrice → Bool
  is_applicable model at p = str_eq p.model model && leb (host.time_of p.effective_from) at

  -- The stable sort by descending date.
  abbrev pub place : ModelPrice → List ModelPrice → List ModelPrice
  place p [] = p ∷ []
  place p (q ∷ prices) =
      let rest = place p prices in
      if host.is_later q.effective_from p.effective_from then q ∷ rest else p ∷ q ∷ prices

  abbrev pub newest_first : List ModelPrice → List ModelPrice
  newest_first [] = []
  newest_first (p ∷ prices) = place p (newest_first prices)

  unfoldable pub find_model_price : String → ℕ → List ModelPrice → Option ModelPrice
  find_model_price model at prices = head? (newest_first (filter (is_applicable model at) prices))

-- `Math.round(n / d)` of numbers that are not negative.
abbrev pub round_div : ℕ → ℕ → ℕ
round_div n d = (2 * n + d) / (2 * d)

unfoldable pub compute_cost_micro_cents : Option ℕ → Option ℕ → Option ModelPrice → ℕ
compute_cost_micro_cents input_tokens output_tokens none = 0
compute_cost_micro_cents input_tokens output_tokens (some p) =
    round_div
      (or_else input_tokens 0 * p.input_per_million
        + or_else output_tokens 0 * p.output_per_million)
      1_000_000

abbrev pub is_provider : ProviderId → ProviderId → Bool
is_provider openai openai = true
is_provider anthropic anthropic = true
is_provider google google = true
is_provider _ _ = false

unfoldable pub providers_with_verified_pricing : List ModelPrice → List ProviderId
providers_with_verified_pricing prices =
    filter (λ id. any (λ (p : ModelPrice). is_provider p.provider id && p.verified) prices)
      (openai ∷ anthropic ∷ google ∷ [])

abbrev pub chars_per_token : ℕ
chars_per_token = 4

abbrev pub candidate_system_tokens : ℕ
candidate_system_tokens = 220

abbrev pub evaluator_system_tokens : ℕ
evaluator_system_tokens = 480

abbrev pub expected_output_tokens : ℕ
expected_output_tokens = 700

-- Of a text of so many UTF-16 code units.
unfoldable pub estimate_tokens : ℕ → ℕ
estimate_tokens text_length = ceil_div text_length chars_per_token

pub record ProviderEstimate : Type 0 where
  pub provider : ProviderId
  pub model : String
  pub input_tokens : ℕ
  pub output_tokens : ℕ
  pub cost_micro_cents : ℕ
  pub priced : Bool
  pub unverified : Bool

pub record RunEstimate : Type 0 where
  pub candidates : List ProviderEstimate
  pub evaluator : ProviderEstimate
  pub total_input_tokens : ℕ
  pub total_output_tokens : ℕ
  pub cost_micro_cents : ℕ
  pub low_micro_cents : ℕ
  pub high_micro_cents : ℕ
  pub unpriced_models : List String
  pub unverified : Bool

pub data EstimateConfidence : Type 0 where
  rough partial unpriced : EstimateConfidence

unfoldable pub estimate_confidence : RunEstimate → EstimateConfidence
estimate_confidence estimate =
    if ltb 0 (length estimate.unpriced_models)
    then unpriced
    else if estimate.unverified
    then partial
    else rough

abbrev pub default_model : ProviderId → String
default_model openai = "gpt-5.5"
default_model anthropic = "claude-sonnet-5"
default_model google = "gemini-3.7-flash"

-- `calls.reduce((sum, call) => sum + f(call), 0)`.
abbrev pub sum_of {ℓ} : {A : Type ℓ} → (A → ℕ) → List A → ℕ
sum_of f [] = 0
sum_of f (call ∷ calls) = f call + sum_of f calls

abbrev pub is_unverified : Option ModelPrice → Bool
is_unverified none = false
is_unverified (some p) = not p.verified

-- One call's share of `scale`, for a factor that is a fraction.
unfoldable pub scaled : ℕ → ℕ → ProviderEstimate → ℕ
scaled numerator denominator call =
    round_div
      (call.cost_micro_cents * (denominator * call.input_tokens + numerator * call.output_tokens))
      (denominator * max 1 (call.input_tokens + call.output_tokens))

pub record EstimateInput : Type 0 where
  pub prompt_length : ℕ
  pub providers : List ProviderId
  pub models : ProviderId → Option String
  pub evaluator_model : Option String
  pub at : ℕ
  pub prices : List ModelPrice

module _ (host : Host) where
  unfoldable pub estimate_call :
      ProviderId → String → ℕ → ℕ → ℕ → List ModelPrice → ProviderEstimate
  estimate_call provider model input_tokens output_tokens at prices =
      let found = find_model_price host model at prices in
      record {
        provider = provider;
        model = model;
        input_tokens = input_tokens;
        output_tokens = output_tokens;
        cost_micro_cents = compute_cost_micro_cents (some input_tokens) (some output_tokens) found;
        priced = is_some found;
        unverified = is_unverified found;
      }

  abbrev pub candidate_call : EstimateInput → ProviderId → ProviderEstimate
  candidate_call input provider =
      estimate_call provider (or_else (input.models provider) (default_model provider))
        (estimate_tokens input.prompt_length + candidate_system_tokens) expected_output_tokens
        input.at input.prices

  abbrev pub candidate_calls : EstimateInput → List ProviderEstimate
  candidate_calls input = map (candidate_call input) input.providers

  abbrev pub evaluator_call : EstimateInput → ProviderEstimate
  evaluator_call input =
      estimate_call anthropic (or_else input.evaluator_model "claude-opus-5")
        (estimate_tokens input.prompt_length
          + sum_of (λ (c : ProviderEstimate). c.output_tokens) (candidate_calls input)
          + evaluator_system_tokens)
        expected_output_tokens input.at input.prices

  -- The factors of the band are 0.35 and 2.5.
  unfoldable pub estimate_run : EstimateInput → RunEstimate
  estimate_run input =
      let calls = candidate_calls input ++ evaluator_call input ∷ [] in
      let cost : ℕ = sum_of (λ (c : ProviderEstimate). c.cost_micro_cents) calls in
      record {
        candidates = candidate_calls input;
        evaluator = evaluator_call input;
        total_input_tokens = sum_of (λ (c : ProviderEstimate). c.input_tokens) calls;
        total_output_tokens = sum_of (λ (c : ProviderEstimate). c.output_tokens) calls;
        cost_micro_cents = cost;
        low_micro_cents = min cost (sum_of (scaled 7 20) calls);
        high_micro_cents = max cost (sum_of (scaled 5 2) calls);
        unpriced_models =
            map (λ (c : ProviderEstimate). c.model)
              (filter (λ (c : ProviderEstimate). not c.priced) calls);
        unverified = any (λ (c : ProviderEstimate). c.unverified) calls;
      }
