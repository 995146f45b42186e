-- ===== src/Pricing/Estimates.antt =====
-- What the estimate of a run adds up to.
use self_consistency_answer.Common.{[], ◌∷◌, ◌++◌}
use self_consistency_answer.Events.{ProviderId}
use self_consistency_answer.Pricing.{EstimateInput}

-- The panel with one more member.
abbrev pub with_member : EstimateInput → ProviderId → EstimateInput
with_member input p = record input { providers = input.providers ++ p ∷ [] }
