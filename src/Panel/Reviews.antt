-- ===== src/Panel/Reviews.antt =====
-- One review per candidate.
use self_consistency_answer.Common.{
  ◌≡◌, refl, sym, ap, ◌∙◌, inl, inr, true, some, List, [], ◌∷◌, map, Bool-cases, Option-cases,
}
use self_consistency_answer.Events.{
  ProviderId, openai, anthropic, google, Candidate, CandidateReview,
}
use self_consistency_answer.Panel.{provider_eq, review_of, normalise_reviews}

provider_eq-eq : (p q : ProviderId) → provider_eq p q ≡ true → p ≡ q
provider_eq-eq openai openai h = refl
provider_eq-eq anthropic anthropic h = refl
provider_eq-eq google google h = refl
provider_eq-eq openai _ h = cc
provider_eq-eq anthropic _ h = cc
provider_eq-eq google _ h = cc

review_of-provider :
    (provider : ProviderId) (reviews : List CandidateReview) (review : CandidateReview)
    → review_of provider reviews ≡ some review
    → review.provider ≡ provider
unfolding review_of
review_of-provider provider [] review h = cc
review_of-provider provider (r ∷ reviews) review h =
    elim (Option-cases (review_of provider reviews)) [
      | inl none_later ↦ elim (Bool-cases (provider_eq r.provider provider)) [
        | inl same ↦
            let found : some r ≡ some review = rw (none_later, same) at h in
            let e : r ≡ review = cc in
            sym (ap (λ (x : CandidateReview). x.provider) e)
            ∙ provider_eq-eq r.provider provider same
        | inr other ↦ cc
      ]
      | inr (later, e) ↦ review_of-provider provider reviews review (e ∙ (rw e at h))
    ]

-- However many reviews the evaluator returned and of whom: the reviews that are stored are as many
-- as the candidates, in their order, each of its candidate's provider.
pub reviews_align :
    (reviews : List CandidateReview) (candidates : List Candidate)
    → map (λ (review : CandidateReview). review.provider) (normalise_reviews reviews candidates)
      ≡ map (λ (candidate : Candidate). candidate.provider) candidates
unfolding normalise_reviews
reviews_align reviews [] = refl
reviews_align reviews (candidate ∷ candidates) =
    let rest = reviews_align reviews candidates in
    elim (Option-cases (review_of candidate.provider reviews)) [
      | inl none_found ↦ rw (none_found, rest) refl
      | inr (review, found) ↦
          rw (found, rest, review_of-provider candidate.provider reviews review found) refl
    ]
