-- ===== src/RateLimit/Tests.antt =====
-- Runs of the limiter on small inputs, and the theorems at inputs that meet their conditions.
use self_consistency_answer.Common.{
  ℕ, suc, ◌≤◌, ◌≡◌, refl, ap, inl, inr, Bool, false, not, ◌&&◌, ◌||◌, List, [], ◌∷◌, ◌++◌, arith,
  length, head?, filter, leb, ◌==◌, str_eq, Bool-cases, if◌then◌else◌,
}
use self_consistency_answer.RateLimit.{RateLimitRequest, RateLimitResult, in_window, consume}
use self_consistency_answer.RateLimit.Window.{Attempt, serve, within, window_bound}
use self_consistency_answer.RateLimit.Script.{
  Member, SortedSets, IsSorted, consume_script, script_agrees,
}

-- Two slots in a second.
abbrev ask : ℕ → RateLimitRequest
ask now = record { limit = 2; window_ms = 1_000; cost = 1; now = now }

abbrev attempts : List Attempt
attempts =
    record { cost = 1; now = 1_600 }
    ∷ record { cost = 1; now = 900 }
    ∷ record { cost = 1; now = 800 }
    ∷ record { cost = 1; now = 500 }
    ∷ []

serves : serve 2 1_000 attempts ≡ (800 ∷ 1_600 ∷ [], 500 ∷ 800 ∷ 1_600 ∷ [])
unfolding serve
serves = refl

window_bound_example : length (within 2 1_000 1_650 (serve 2 1_000 attempts).1) ≤ 2
window_bound_example =
    window_bound 2 1_000 attempts 1_650 (omega arith, (omega arith, (omega arith, tt)))

refuses : (consume (ask 900) (500 ∷ 800 ∷ [])).1.allowed ≡ false
unfolding consume
refuses = refl

tells_reset : (consume (ask 900) (500 ∷ 800 ∷ [])).1.reset_at_ms ≤ 1_500
unfolding consume in_window
tells_reset = omega arith

abbrev answer : RateLimitResult
answer = record { allowed = false; limit = 2; remaining = 0; reset_at_ms = 1_500 }

-- A sorted set as the list of its entries, for calls that never go back in time.
abbrev Entries : Type 0
Entries = List (ℕ × Member)

abbrev member_eq : Member → Member → Bool
member_eq m m' = m.index == m'.index && m.at == m'.at && str_eq m.nonce m'.nonce

abbrev has_member : Member → Entries → Bool
has_member m [] = false
has_member m ((score, m') ∷ entries) = member_eq m' m || has_member m entries

abbrev scores_of : Entries → List ℕ
scores_of [] = []
scores_of ((score, m) ∷ entries) = score ∷ scores_of entries

abbrev remove_range : ℕ → ℕ → Entries → Entries
remove_range low high [] = []
remove_range low high ((score, m) ∷ entries) =
    let rest = remove_range low high entries in
    if leb low score && leb score high then rest else (score, m) ∷ rest

abbrev entries : SortedSets
entries = record {
  Z = Entries;
  zremrangebyscore = remove_range;
  zcard = λ z. length z;
  zadd = λ score m z. if has_member m z then z else z ++ (score, m) ∷ [];
  first_score = λ z. head? (scores_of z);
  scores = scores_of;
  has = has_member;
}

length-scores_of : (z : Entries) → length z ≡ length (scores_of z)
length-scores_of [] = refl
length-scores_of ((score, m) ∷ z) = ap suc (length-scores_of z)

scores_of-remove_range :
    (low high : ℕ) (z : Entries)
    → scores_of (remove_range low high z)
      ≡ filter (λ s. not (leb low s && leb s high)) (scores_of z)
scores_of-remove_range low high [] = refl
scores_of-remove_range low high ((score, m) ∷ z) =
    let rest = scores_of-remove_range low high z in
    elim (Bool-cases (leb low score && leb score high)) [
      | inl out ↦ rw (out, rest) refl
      | inr kept ↦ rw (kept, rest) refl
    ]

remove_range-has_member :
    (low high : ℕ) (m : Member) (z : Entries)
    → has_member m z ≡ false
    → has_member m (remove_range low high z) ≡ false
remove_range-has_member low high m [] h = refl
remove_range-has_member low high m ((score, m') ∷ z) h =
    let other : member_eq m' m ≡ false = ground (arith, h) in
    let rest : has_member m (remove_range low high z) ≡ false =
      remove_range-has_member low high m z (rw other at h) in
    elim (Bool-cases (leb low score && leb score high)) [
      | inl out ↦ rw (out, rest) refl
      | inr kept ↦ rw (kept, other, rest) refl
    ]

scores_of-append :
    (z : Entries) (score : ℕ) (m : Member)
    → scores_of (z ++ (score, m) ∷ []) ≡ scores_of z ++ score ∷ []
scores_of-append [] score m = refl
scores_of-append ((s, m') ∷ z) score m = ap (λ ss. s ∷ ss) (scores_of-append z score m)

has_member-append :
    (m m' : Member) (z : Entries) (score : ℕ)
    → member_eq m m' ≡ false
    → has_member m' z ≡ false
    → has_member m' (z ++ (score, m) ∷ []) ≡ false
has_member-append m m' [] score other h = rw other refl
has_member-append m m' ((s, m'') ∷ z) score other h =
    let apart : member_eq m'' m' ≡ false = ground (arith, h) in
    let rest : has_member m' (z ++ (score, m) ∷ []) ≡ false =
      has_member-append m m' z score other (rw apart at h) in
    rw (apart, rest) refl

entries-IsSorted : IsSorted entries
entries-IsSorted = record {
  zcard-scores = length-scores_of;
  first-scores = λ z. refl;
  zrem-scores = scores_of-remove_range;
  zrem-has = remove_range-has_member;
  zadd-scores = λ score m z new past. rw new (scores_of-append z score m);
  zadd-has = λ score m m' z apart h. elim (Bool-cases (has_member m z)) [
    | inl there ↦ rw there h
    | inr new ↦ rw new (has_member-append m m' z score (ground (arith, apart)) h)
  ];
}

abbrev hits : Entries
hits =
    (500, record { at = 500; nonce = "a"; index = 1 })
    ∷ (800, record { at = 800; nonce = "b"; index = 1 })
    ∷ []

script_agrees_example :
    (scores_of (consume_script entries (ask 1_600) "c" hits).0
      ≡ (consume (ask 1_600) (500 ∷ 800 ∷ [])).0)
    × ((consume_script entries (ask 1_600) "c" hits).1 ≡ (consume (ask 1_600) (500 ∷ 800 ∷ [])).1)
script_agrees_example =
    script_agrees entries entries-IsSorted (ask 1_600) "c" hits (λ index. ground arith)
      (omega arith, (omega arith, tt))
