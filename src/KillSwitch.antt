-- ===== src/KillSwitch.antt =====
-- The kill switch of packages/db/src/billing.ts, one scope's row. `engageKillSwitch` reads the row
-- and then writes it; each of the two statements is atomic, and calls of several replicas interleave
-- between them.
pub mod Engaging
pub mod Halting
mod Tests
use self_consistency_answer.Common.{
  ℕ, ◌≡◌, refl, Bool, true, false, Option, none, some, String, List, [], ◌∷◌, ◌++◌, if◌then◌else◌,
}

pub record KillSwitch : Type 0 where
  pub engaged : Bool
  pub reason : Option String
  pub engaged_at : Option ℕ
  pub released_at : Option ℕ

pub record EngageCall : Type 0 where
  pub reason : String
  pub now : ℕ

-- `getKillSwitch`: a switch that nobody has touched is idle.
unfoldable pub get_kill_switch : Option KillSwitch → KillSwitch
get_kill_switch none = record {
  engaged = false;
  reason = none;
  engaged_at = none;
  released_at = none;
}
get_kill_switch (some row) = row

-- The first statement: whether the call is done.
abbrev pub is_engaged : Option KillSwitch → Bool
is_engaged none = false
is_engaged (some row) = row.engaged

-- The second.
unfoldable pub write_engaged : EngageCall → Option KillSwitch → Option KillSwitch
write_engaged call row = some (record {
  engaged = true;
  reason = some call.reason;
  engaged_at = some call.now;
  released_at = none;
})

unfoldable pub engage_kill_switch : EngageCall → Option KillSwitch → Option KillSwitch
unfolding write_engaged
engage_kill_switch call row = if is_engaged row then row else write_engaged call row

unfoldable pub release_kill_switch : ℕ → Option KillSwitch → Option KillSwitch
release_kill_switch now none =
    some (record { engaged = false; reason = none; engaged_at = none; released_at = some now })
release_kill_switch now (some row) =
    some (record row { engaged = false; reason = none; released_at = some now })

-- The row, and the calls that have read it idle and are to write it.
pub record Sys : Type 0 where
  pub row : Option KillSwitch
  pub writing : List EngageCall

pub data Step : Sys → Sys → Type 0 where
  reads :
      (s : Sys) (call : EngageCall)
      → is_engaged s.row ≡ false
      → Step s (record s { writing = call ∷ s.writing })
  writes :
      (s : Sys) (before : List EngageCall) (call : EngageCall) (after : List EngageCall)
      → s.writing ≡ before ++ call ∷ after
      → Step s (record { row = write_engaged call s.row; writing = before ++ after })
  released : (s : Sys) (now : ℕ) → Step s (record s { row = release_kill_switch now s.row })

pub data Reach (s : Sys) : Sys → Type 0 where
  here : Reach s s
  next : {t u : Sys} → Reach s t → Step t u → Reach s u
