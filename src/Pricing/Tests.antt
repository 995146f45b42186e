-- ===== src/Pricing/Tests.antt =====
-- Two prices of one model, and a panel that grows.
use self_consistency_answer.Common.{
  ◌≡◌, refl, true, false, not, ◌&&◌, none, some, [], ◌∷◌, str_eq, ltb, arith, if◌then◌else◌,
}
use self_consistency_answer.Events.{openai, anthropic}
use self_consistency_answer.Pricing.{
  Host, ModelPrice, price, model_prices, find_model_price, compute_cost_micro_cents, EstimateInput,
  estimate_call, scaled,
}
use self_consistency_answer.Pricing.Newest.{IsOrder, IsFound, find_model_price-IsFound}

-- Every date but "2027" is of 2026.
abbrev host : Host
host = record {
  time_of = λ text. if str_eq text "2027" then 2 else 1;
  is_later = λ a b. str_eq a "2027" && not (str_eq b "2027");
}

is_order : IsOrder host.is_later
is_order = record {
  asymmetric = λ a b h. ground (arith, h);
  transitive = λ a b c h k. ground (arith, h, k);
}

abbrev old : ModelPrice
old = price openai "gpt-5.5" 1_250 10_000 "2026-01-01" false

abbrev new : ModelPrice
new = price openai "gpt-5.5" 2_000 12_000 "2027" true

find_model_price-IsFound_example :
    IsFound host "gpt-5.5" 2 (old ∷ new ∷ []) (find_model_price host "gpt-5.5" 2 (old ∷ new ∷ []))
find_model_price-IsFound_example =
    find_model_price-IsFound host "gpt-5.5" 2 (old ∷ new ∷ []) is_order

newer_wins : find_model_price host "gpt-5.5" 2 (old ∷ new ∷ []) ≡ some new
unfolding find_model_price
newer_wins = refl

not_yet : find_model_price host "gpt-5.5" 1 (new ∷ old ∷ []) ≡ some old
unfolding find_model_price
not_yet = refl

abbrev asked : EstimateInput
asked = record {
  prompt_length = 400;
  providers = openai ∷ anthropic ∷ [];
  models = λ provider. none;
  evaluator_model = none;
  at = 1;
  prices = model_prices;
}

-- A call of 1,000 tokens to the default evaluator: an answer of 2.5 times the expected length costs more
-- than the upper end of the band.
band_is_too_narrow :
    ltb (scaled 5 2 (estimate_call host anthropic "claude-opus-5" 1_000 700 1 model_prices)) (
      compute_cost_micro_cents
        (some 1_000)
        (some 1_750)
        (find_model_price host "claude-opus-5" 1 model_prices))
    ≡ true
unfolding scaled estimate_call compute_cost_micro_cents find_model_price model_prices
band_is_too_narrow = refl
