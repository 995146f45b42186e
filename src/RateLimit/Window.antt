-- ===== src/RateLimit/Window.antt =====
-- The sliding window: what the limiter admits within any window of time.
use self_consistency_answer.Common.{
  ℕ, zero, suc, ◌+◌, ◌≤◌, ◌<◌, ◌≡◌, refl, sym, inl, inr, Bool, true, false, ◌&&◌, List, [], ◌∷◌,
  ◌++◌, append-nil, arith, length, filter, replicate, length-append, length-replicate,
  length-filter-le, filter-append, leb, leb→le, Bool-cases, if◌then◌else◌,
}
use self_consistency_answer.RateLimit.{RateLimitRequest, in_window, consume}

module _ {ℓ} {A : Type ℓ} (keep keep' : A → Bool)
    (weaker : (a : A) → keep' a ≡ true → keep a ≡ true) where
  pub filter-filter : (xs : List A) → filter keep' (filter keep xs) ≡ filter keep' xs
  filter-filter [] = refl
  filter-filter (x ∷ xs) = ground (arith, filter-filter xs, weaker x)

  pub length-filter_mono : (xs : List A) → length (filter keep' xs) ≤ length (filter keep xs)
  length-filter_mono [] = omega arith
  length-filter_mono (x ∷ xs) = ground (arith, length-filter_mono xs, weaker x)

pub filter-replicate_none :
    {A : Type 0} (keep : A → Bool) (n : ℕ) (a : A)
    → keep a ≡ false
    → filter keep (replicate n a) ≡ []
filter-replicate_none keep zero a h = refl
filter-replicate_none keep (suc n) a h = ground (arith, filter-replicate_none keep n a h)

-- A hit that is in the window at a later time was in it at an earlier one.
pub in_window_mono :
    (w t u : ℕ) → t ≤ u → (hit : ℕ) → in_window w u hit ≡ true → in_window w t hit ≡ true
unfolding in_window
in_window_mono w t u h hit e = ground arith

-- What a client asks for: how many slots, and when.
pub record Attempt : Type 0 where
  pub cost : ℕ
  pub now : ℕ

-- The latest attempt stands first; no attempt is made before an earlier one.
abbrev pub IsTimely : List Attempt → Type 0
IsTimely [] = Unit {0}
IsTimely (a ∷ []) = Unit {0}
IsTimely (a ∷ b ∷ attempts) = (b.now ≤ a.now) × IsTimely (b ∷ attempts)

abbrev last_time : List Attempt → ℕ
last_time [] = 0
last_time (a ∷ attempts) = a.now

module _ (limit window_ms : ℕ) where
  abbrev pub request_of : Attempt → RateLimitRequest
  request_of a = record { limit = limit; window_ms = window_ms; cost = a.cost; now = a.now }

  -- The limiter's hits, and the times of all slots that it has ever admitted.
  unfoldable pub serve : List Attempt → List ℕ × List ℕ
  unfolding consume
  serve [] = ([], [])
  serve (a ∷ attempts) =
      let (hits, admitted) = serve attempts in
      let (kept, result) = consume (request_of a) hits in
      (kept, if result.allowed then admitted ++ replicate a.cost a.now else admitted)

  -- The slots admitted in the window that ends at `t`.
  abbrev pub within : ℕ → List ℕ → List ℕ
  within t = filter (λ hit. in_window window_ms t hit && leb hit t)

  abbrev recent : ℕ → List ℕ → List ℕ
  recent t = filter (in_window window_ms t)

  record IsBounded (last : ℕ) (hits admitted : List ℕ) : Type 0 where
    -- From now on the hits stand for all that was admitted.
    agrees : (t : ℕ) → last ≤ t → recent t hits ≡ recent t admitted
    bounded : (t : ℕ) → length (within t admitted) ≤ limit

  recent-recent : (t u : ℕ) (hits : List ℕ) → t ≤ u → recent u (recent t hits) ≡ recent u hits
  recent-recent t u hits h =
      filter-filter (in_window window_ms t) (in_window window_ms u) (in_window_mono window_ms t u h)
        hits

  length-within-le : (t : ℕ) (hits : List ℕ) → length (within t hits) ≤ length (recent t hits)
  length-within-le t =
      length-filter_mono (in_window window_ms t) (λ hit. in_window window_ms t hit && leb hit t)
        (λ hit e. ground (arith, e))

  length-recent_mono :
      (t u : ℕ) (hits : List ℕ) → t ≤ u → length (recent u hits) ≤ length (recent t hits)
  length-recent_mono t u hits h =
      length-filter_mono (in_window window_ms t) (in_window window_ms u)
        (in_window_mono window_ms t u h) hits

  -- New slots do not count in a window that ends before them.
  within-past :
      (t now cost : ℕ) (admitted : List ℕ)
      → t < now
      → within t (admitted ++ replicate cost now) ≡ within t admitted
  within-past t now cost admitted h =
      let e : (in_window window_ms t now && leb now t) ≡ false = ground arith in
      rw
        (
          filter-append,
          filter-replicate_none (λ hit. in_window window_ms t hit && leb hit t) cost now e,
          append-nil,
        )
        refl

  within-new :
      (t now cost : ℕ) (admitted : List ℕ)
      → now ≤ t
      → length (recent now admitted) + cost ≤ limit
      → length (within t (admitted ++ replicate cost now)) ≤ limit
  within-new t now cost admitted h room =
      let keep : ℕ → Bool = λ hit. in_window window_ms t hit && leb hit t in
      rw (filter-append keep admitted (replicate cost now), length-append)
        (omega (
          arith,
          length-within-le t admitted,
          length-recent_mono now t admitted h,
          length-filter-le keep (replicate cost now),
          length-replicate cost now,
          room,
        ))

  step-IsBounded :
      (last : ℕ) (a : Attempt) (hits admitted : List ℕ)
      → last ≤ a.now
      → IsBounded last hits admitted
      → let (kept, result) = consume (request_of a) hits in
        IsBounded a.now kept
          (if result.allowed then admitted ++ replicate a.cost a.now else admitted)
  unfolding consume
  step-IsBounded last a hits admitted h inv =
      let same = inv.agrees a.now h in
      elim (Bool-cases (leb (length (recent a.now hits) + a.cost) limit)) [
        | inl room ↦ rw room (record {
          agrees = λ t late.
              rw
                (
                  filter-append,
                  filter-append,
                  recent-recent a.now t hits late,
                  inv.agrees t (omega (arith, h, late)),
                )
                refl;
          bounded = λ t. elim (Bool-cases (leb a.now t)) [
            | inl after ↦
                within-new t a.now a.cost admitted (leb→le a.now t after)
                  (rw (sym same) (leb→le (length (recent a.now hits) + a.cost) limit room))
            | inr before ↦
                rw (within-past t a.now a.cost admitted (ground (arith, before))) (inv.bounded t)
          ];
        })
        | inr full ↦ rw full (record {
          agrees = λ t late.
              rw (recent-recent a.now t hits late, inv.agrees t (omega (arith, h, late))) refl;
          bounded = inv.bounded;
        })
      ]

  serve-IsBounded :
      (attempts : List Attempt)
      → IsTimely attempts
      → let (hits, admitted) = serve attempts in IsBounded (last_time attempts) hits admitted
  unfolding serve
  serve-IsBounded [] timely = record { agrees = λ t late. refl; bounded = λ t. omega arith }
  serve-IsBounded (a ∷ []) timely = step-IsBounded 0 a [] [] (omega arith) (serve-IsBounded [] tt)
  serve-IsBounded (a ∷ b ∷ attempts) (h, timely) =
      let (hits, admitted) = serve (b ∷ attempts) in
      step-IsBounded b.now a hits admitted h (serve-IsBounded (b ∷ attempts) timely)

  -- Whatever clients ask for and when: no window of `window_ms` milliseconds, wherever it ends,
  -- holds more than `limit` admitted slots, provided the clock does not go back.
  pub window_bound :
      (attempts : List Attempt) (t : ℕ)
      → IsTimely attempts
      → length (within t (serve attempts).1) ≤ limit
  window_bound attempts t timely = (serve-IsBounded attempts timely).bounded t
