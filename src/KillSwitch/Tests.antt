-- ===== src/KillSwitch/Tests.antt =====
-- Two replicas that see one budget breach.
use self_consistency_answer.Common.{◌≡◌, refl, true, none, some, [], ◌∷◌, is_some, arith}
use self_consistency_answer.KillSwitch.{EngageCall, KillSwitch, get_kill_switch}
use self_consistency_answer.KillSwitch.Halting.{
  Check, install_halted, after_checks, read_switch, halt_reason, halts_within_refresh,
}

abbrev alarm : EngageCall
alarm = record { reason = "daily budget"; now = 100 }

abbrev echo : EngageCall
echo = record { reason = "daily budget again"; now = 140 }

abbrev tripped : KillSwitch
tripped = record {
  engaged = true;
  reason = some "daily budget";
  engaged_at = some 100;
  released_at = none;
}

-- A worker that read the idle switch just before it was engaged.
abbrev early : Check
early = record { now = 95; read = some (get_kill_switch none) }

unaware_for_a_while :
    (install_halted 50 140 (some tripped) (after_checks 50 (early ∷ []) none)).1 ≡ none
unfolding install_halted after_checks read_switch halt_reason get_kill_switch
unaware_for_a_while = refl

halts_within_refresh_example :
    is_some (install_halted 50 150 (some tripped) (after_checks 50 (early ∷ []) none)).1 ≡ true
halts_within_refresh_example =
    halts_within_refresh 100 50 (early ∷ []) 150 (some tripped) ((λ late. absurd (omega arith)), tt)
      refl (omega arith)
