-- ===== src/RateLimit/Script.antt =====
-- packages/queue/src/ratelimit.ts: the Lua script of RedisRateLimiter, which runs atomically, against
-- the limiter in memory. Redis' sorted sets are a parameter with the laws of its documentation. Not
-- modelled: PEXPIRE, which drops a key that nobody has asked about for a whole window.
use self_consistency_answer.Common.{
  ℕ, zero, suc, ◌+◌, ◌-◌, ◌≤◌, ◌≡◌, ◌≢◌, inl, inr, refl, sym, ap, ◌∙◌, Bool, true, false, not, ◌&&◌,
  Option, String, List, [], ◌∷◌, ◌++◌, append-nil, append_assoc, arith, length, length-append,
  length-replicate, head?, filter, replicate, All, All-append, leb, Bool-cases, if◌then◌else◌,
}
use self_consistency_answer.RateLimit.{
  RateLimitRequest, RateLimitResult, in_window, reset_at, consume,
}

-- The parts of the text `now .. '-' .. nonce .. '-' .. i`.
pub record Member : Type 0 where
  pub at : ℕ
  pub nonce : String
  pub index : ℕ

-- The commands that the script calls.
pub record SortedSets : Type 1 where
  pub Z : Type 0
  pub zremrangebyscore : ℕ → ℕ → Z → Z
  pub zcard : Z → ℕ
  pub zadd : ℕ → Member → Z → Z
  pub first_score : Z → Option ℕ
  pub scores : Z → List ℕ
  pub has : Member → Z → Bool

-- What Redis promises of them: scores stand in order, and adding a new member with a score that is
-- not below the others puts it last.
pub record IsSorted (R : SortedSets) : Type 0 where
  pub zcard-scores : (z : R.Z) → R.zcard z ≡ length (R.scores z)
  pub first-scores : (z : R.Z) → R.first_score z ≡ head? (R.scores z)
  pub zrem-scores :
      (low high : ℕ) (z : R.Z)
      → R.scores (R.zremrangebyscore low high z)
        ≡ filter (λ s. not (leb low s && leb s high)) (R.scores z)
  pub zrem-has :
      (low high : ℕ) (m : Member) (z : R.Z)
      → R.has m z ≡ false
      → R.has m (R.zremrangebyscore low high z) ≡ false
  pub zadd-scores :
      (score : ℕ) (m : Member) (z : R.Z)
      → R.has m z ≡ false
      → All (λ s. s ≤ score) (R.scores z)
      → R.scores (R.zadd score m z) ≡ R.scores z ++ score ∷ []
  pub zadd-has :
      (score : ℕ) (m m' : Member) (z : R.Z)
      → m.index ≢ m'.index
      → R.has m' z ≡ false
      → R.has m' (R.zadd score m z) ≡ false

module _ (R : SortedSets) where
  -- ZREMRANGEBYSCORE from 0 to now - window; a range below zero holds no score.
  unfoldable pub trim_hits : RateLimitRequest → R.Z → R.Z
  trim_hits request z =
      if leb request.window_ms request.now
      then R.zremrangebyscore 0 (request.now - request.window_ms) z
      else z

  -- The loop over `cost`, from the index it has reached.
  unfoldable pub add_hits : ℕ → ℕ → ℕ → String → R.Z → R.Z
  add_hits zero index now nonce z = z
  add_hits (suc more) index now nonce z =
      add_hits more (suc index) now nonce
        (R.zadd now (record { at = now; nonce = nonce; index = index }) z)

  unfoldable pub consume_script : RateLimitRequest → String → R.Z → R.Z × RateLimitResult
  unfolding trim_hits add_hits
  consume_script request nonce z =
      let trimmed = trim_hits request z in
      let used = R.zcard trimmed in
      let allowed = leb (used + request.cost) request.limit in
      let z' = if allowed then add_hits request.cost 1 request.now nonce trimmed else trimmed in
      let used' = if allowed then used + request.cost else used in
      (
        z',
        record {
          allowed = allowed;
          limit = request.limit;
          remaining = request.limit - used';
          reset_at_ms = reset_at request.window_ms request.now (R.first_score z');
        },
      )

  -- The members of this call are new.
  abbrev pub IsFresh : ℕ → String → R.Z → Type 0
  IsFresh now nonce z =
      (index : ℕ) → R.has (record { at = now; nonce = nonce; index = index }) z ≡ false

filter-same :
    (keep keep' : ℕ → Bool)
    → ((s : ℕ) → keep s ≡ keep' s)
    → (xs : List ℕ) → filter keep xs ≡ filter keep' xs
filter-same keep keep' same [] = refl
filter-same keep keep' same (x ∷ xs) = rw (same x, filter-same keep keep' same xs) refl

filter-all : (keep : ℕ → Bool) → ((s : ℕ) → keep s ≡ true) → (xs : List ℕ) → filter keep xs ≡ xs
filter-all keep h [] = refl
filter-all keep h (x ∷ xs) = rw (h x, filter-all keep h xs) refl

All-filter :
    (n : ℕ) (keep : ℕ → Bool) (xs : List ℕ)
    → All (λ s. s ≤ n) xs
    → All (λ s. s ≤ n) (filter keep xs)
All-filter n keep [] h = tt
All-filter n keep (x ∷ xs) (p, h) = elim (Bool-cases (keep x)) [
  | inl kept ↦ rw kept (p, All-filter n keep xs h)
  | inr gone ↦ rw gone (All-filter n keep xs h)
]

module _ (R : SortedSets) (laws : IsSorted R) where
  trim_hits-scores :
      (request : RateLimitRequest) (z : R.Z)
      → R.scores (trim_hits R request z)
        ≡ filter (in_window request.window_ms request.now) (R.scores z)
  unfolding trim_hits in_window
  trim_hits-scores request z = elim (Bool-cases (leb request.window_ms request.now)) [
    | inl late ↦ rw late (
        laws.zrem-scores 0 (request.now - request.window_ms) z
        ∙ filter-same (λ s. not (leb 0 s && leb s (request.now - request.window_ms)))
            (in_window request.window_ms request.now) (λ s. ground (arith, late)) (R.scores z))
    | inr early ↦ rw early (
        sym (
          filter-all (in_window request.window_ms request.now) (λ s. ground (arith, early))
            (R.scores z)))
  ]

  -- The later members of a call stay new while the earlier ones are added.
  add_hits-scores :
      (more index now : ℕ) (nonce : String) (z : R.Z)
      → ((later : ℕ)
          → index ≤ later
          → R.has (record { at = now; nonce = nonce; index = later }) z ≡ false)
      → All (λ s. s ≤ now) (R.scores z)
      → R.scores (add_hits R more index now nonce z) ≡ R.scores z ++ replicate more now
  unfolding add_hits
  add_hits-scores zero index now nonce z new past = rw append-nil refl
  add_hits-scores (suc more) index now nonce z new past =
      let m : Member = record { at = now; nonce = nonce; index = index } in
      let added = laws.zadd-scores now m z (new index (omega arith)) past in
      let rest =
        add_hits-scores more (suc index) now nonce (R.zadd now m z)
          (λ later h.
            laws.zadd-has now m (record { at = now; nonce = nonce; index = later }) z
              (λ e. omega (arith, h, e)) (new later (omega (arith, h))))
          (rw added (All-append (λ s. s ≤ now) (R.scores z) (now ∷ []) past (omega arith, tt))) in
      rest ∙ rw (added, append_assoc) refl

  trim_hits-has :
      (request : RateLimitRequest) (m : Member) (z : R.Z)
      → R.has m z ≡ false
      → R.has m (trim_hits R request z) ≡ false
  unfolding trim_hits
  trim_hits-has request m z h = elim (Bool-cases (leb request.window_ms request.now)) [
    | inl late ↦ rw late (laws.zrem-has 0 (request.now - request.window_ms) m z h)
    | inr early ↦ rw early h
  ]

  add_hits-trim_hits :
      (request : RateLimitRequest) (nonce : String) (z : R.Z)
      → IsFresh R request.now nonce z
      → All (λ s. s ≤ request.now) (R.scores z)
      → R.scores (add_hits R request.cost 1 request.now nonce (trim_hits R request z))
        ≡ filter (in_window request.window_ms request.now) (R.scores z)
          ++ replicate request.cost request.now
  add_hits-trim_hits request nonce z new past =
      add_hits-scores request.cost 1 request.now nonce (trim_hits R request z)
        (λ later h.
          trim_hits-has request (record { at = request.now; nonce = nonce; index = later }) z
            (new later))
        (rw (trim_hits-scores request z)
          (All-filter request.now (in_window request.window_ms request.now) (R.scores z) past))
      ∙ rw (trim_hits-scores request z) refl

  -- While the clock does not go back and the nonce is new, the script decides as the limiter in
  -- memory does, and keeps the same hits.
  pub script_agrees :
      (request : RateLimitRequest) (nonce : String) (z : R.Z)
      → IsFresh R request.now nonce z
      → All (λ s. s ≤ request.now) (R.scores z)
      → (R.scores (consume_script R request nonce z).0 ≡ (consume request (R.scores z)).0)
        × ((consume_script R request nonce z).1 ≡ (consume request (R.scores z)).1)
  unfolding consume_script consume
  script_agrees request nonce z new past =
      let recent = filter (in_window request.window_ms request.now) (R.scores z) in
      let used : R.zcard (trim_hits R request z) ≡ length recent =
        laws.zcard-scores (trim_hits R request z) ∙ ap length (trim_hits-scores request z) in
      let added = add_hits-trim_hits request nonce z new past in
      elim (Bool-cases (leb (length recent + request.cost) request.limit)) [
        | inl room ↦
            rw (used, room)
              (added, rw (laws.first-scores, added, length-append, length-replicate) refl)
        | inr full ↦
            rw (used, full)
              (trim_hits-scores request z, rw (laws.first-scores, trim_hits-scores request z) refl)
      ]
