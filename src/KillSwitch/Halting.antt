-- ===== src/KillSwitch/Halting.antt =====
-- packages/worker/src/context.ts: how a worker learns that the kill switch is engaged, through a reading
-- that it keeps for a while. A read of the switch that throws is `none`.
use self_consistency_answer.Common.{
  ℕ, ◌+◌, ◌≤◌, ◌≡◌, refl, sym, subst, inl, inr, true, Option, none, some, String, List, [], ◌∷◌,
  arith, is_some, or_else, ltb, ltb→lt, if◌then◌else◌, All, Bool-cases,
}
use self_consistency_answer.KillSwitch.{KillSwitch, is_engaged}

pub record HaltCache : Type 0 where
  pub read_at : ℕ
  pub reason : Option String

unfoldable pub halt_reason : KillSwitch → Option String
halt_reason kill_switch =
    if kill_switch.engaged
    then some (
        or_else kill_switch.reason
          "Spending is paused by an operator — the install-wide budget guard is engaged.")
    else none

-- The `try`: a switch that cannot be read does not halt, and leaves the reading.
unfoldable pub read_switch :
    ℕ → Option KillSwitch → Option HaltCache → Option HaltCache × Option String
read_switch now none cache = (cache, none)
read_switch now (some kill_switch) cache =
    let reason = halt_reason kill_switch in
    (some (record { read_at = now; reason = reason }), reason)

-- `refresh` is KILL_SWITCH_REFRESH_MS.
unfoldable pub install_halted :
    ℕ → ℕ → Option KillSwitch → Option HaltCache → Option HaltCache × Option String
install_halted refresh now read none = read_switch now read none
install_halted refresh now read (some cache) =
    if ltb now (cache.read_at + refresh)
    then (some cache, cache.reason)
    else read_switch now read (some cache)

-- One check of a worker: its time, and what a read of the switch would give then.
pub record Check : Type 0 where
  pub now : ℕ
  pub read : Option KillSwitch

-- The reading that a worker has after its checks.
unfoldable pub after_checks : ℕ → List Check → Option HaltCache → Option HaltCache
unfolding install_halted
after_checks refresh [] cache = cache
after_checks refresh (c ∷ checks) cache =
    after_checks refresh checks (install_halted refresh c.now c.read cache).0

-- From a moment on, a read of the switch finds it engaged.
abbrev pub IsEngagedFrom : ℕ → Check → Type 0
IsEngagedFrom since c = since ≤ c.now → is_engaged c.read ≡ true

abbrev IsHonest : ℕ → Option HaltCache → Type 0
IsHonest since none = Unit
IsHonest since (some cache) = since ≤ cache.read_at → is_some cache.reason ≡ true

halt_reason_some : (s : KillSwitch) → s.engaged ≡ true → is_some (halt_reason s) ≡ true
unfolding halt_reason
halt_reason_some s engaged = rw engaged refl

read_switch-IsHonest :
    (since now : ℕ) (read : Option KillSwitch) (cache : Option HaltCache)
    → (since ≤ now → is_engaged read ≡ true)
    → IsHonest since cache
    → IsHonest since (read_switch now read cache).0
unfolding read_switch
read_switch-IsHonest since now none cache engaged honest = honest
read_switch-IsHonest since now (some s) cache engaged honest =
    λ late. halt_reason_some s (engaged late)

install_halted-IsHonest :
    (since refresh now : ℕ) (read : Option KillSwitch) (cache : Option HaltCache)
    → (since ≤ now → is_engaged read ≡ true)
    → IsHonest since cache
    → IsHonest since (install_halted refresh now read cache).0
unfolding install_halted
install_halted-IsHonest since refresh now read none engaged honest =
    read_switch-IsHonest since now read none engaged honest
install_halted-IsHonest since refresh now read (some cache) engaged honest =
    elim (Bool-cases (ltb now (cache.read_at + refresh))) [
      | inl fresh ↦
          subst
            (λ b.
              IsHonest since
                (if b then (some cache, cache.reason) else read_switch now read (some cache)).0)
            (sym fresh) honest
      | inr stale ↦
          subst
            (λ b.
              IsHonest since
                (if b then (some cache, cache.reason) else read_switch now read (some cache)).0)
            (sym stale) (read_switch-IsHonest since now read (some cache) engaged honest)
    ]

after_checks-IsHonest :
    (since refresh : ℕ) (checks : List Check) (cache : Option HaltCache)
    → All (IsEngagedFrom since) checks
    → IsHonest since cache
    → IsHonest since (after_checks refresh checks cache)
unfolding after_checks
after_checks-IsHonest since refresh [] cache engaged honest = honest
after_checks-IsHonest since refresh (c ∷ checks) cache (first, engaged) honest =
    after_checks-IsHonest since refresh checks (install_halted refresh c.now c.read cache).0 engaged
      (install_halted-IsHonest since refresh c.now c.read cache first honest)

read_switch_some :
    (now : ℕ) (read : Option KillSwitch) (cache : Option HaltCache)
    → is_engaged read ≡ true
    → is_some (read_switch now read cache).1 ≡ true
unfolding read_switch
read_switch_some now none cache engaged = absurd cc
read_switch_some now (some s) cache engaged = halt_reason_some s engaged

halts :
    (since refresh now : ℕ) (read : Option KillSwitch) (cache : Option HaltCache)
    → IsHonest since cache
    → is_engaged read ≡ true
    → since + refresh ≤ now
    → is_some (install_halted refresh now read cache).1 ≡ true
unfolding install_halted
halts since refresh now read none honest engaged late = read_switch_some now read none engaged
halts since refresh now read (some cache) honest engaged late =
    elim (Bool-cases (ltb now (cache.read_at + refresh))) [
      | inl fresh ↦
          rw fresh (honest (omega (arith, ltb→lt now (cache.read_at + refresh) fresh, late)))
      | inr stale ↦ rw stale (read_switch_some now read (some cache) engaged)
    ]

-- Once the switch is engaged for good and can be read, every worker halts within one refresh period:
-- whatever it read in its earlier checks, a check that comes at least that long after the switch was
-- engaged gives a reason to stop.
pub halts_within_refresh :
    (since refresh : ℕ) (past : List Check) (now : ℕ) (read : Option KillSwitch)
    → All (IsEngagedFrom since) past
    → is_engaged read ≡ true
    → since + refresh ≤ now
    → is_some (install_halted refresh now read (after_checks refresh past none)).1 ≡ true
halts_within_refresh since refresh past now read engaged last late =
    halts since refresh now read (after_checks refresh past none)
      (after_checks-IsHonest since refresh past none engaged tt) last late
