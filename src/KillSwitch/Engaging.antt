-- ===== src/KillSwitch/Engaging.antt =====
-- Who is recorded as having stopped the install.
use self_consistency_answer.Common.{◌≡◌, refl, true, false, Option, none, some, List, [], ◌∷◌}
use self_consistency_answer.KillSwitch.{
  KillSwitch, EngageCall, is_engaged, write_engaged, engage_kill_switch, get_kill_switch, Sys,
  reads, writes, Reach, here, next,
}

-- Calls of `engageKillSwitch` one after the other.
abbrev pub engage_all : List EngageCall → Option KillSwitch → Option KillSwitch
engage_all [] row = row
engage_all (call ∷ calls) row = engage_all calls (engage_kill_switch call row)

engage_engaged :
    (calls : List EngageCall) (row : Option KillSwitch)
    → is_engaged row ≡ true
    → engage_all calls row ≡ row
unfolding engage_kill_switch
engage_engaged [] row h = refl
engage_engaged (call ∷ calls) row h = rw h (engage_engaged calls row h)

-- Of calls that engage a released switch one after the other, the first call's reason and time are
-- kept, and the switch is engaged.
pub first_is_kept :
    (call : EngageCall) (calls : List EngageCall) (row : Option KillSwitch)
    → is_engaged row ≡ false
    → get_kill_switch (engage_all (call ∷ calls) row) ≡ record {
      engaged = true;
      reason = some call.reason;
      engaged_at = some call.now;
      released_at = none;
    }
unfolding engage_kill_switch get_kill_switch
first_is_kept call calls row idle =
    rw idle (rw (engage_engaged calls (write_engaged call row) refl) refl)

-- From a switch that is not engaged, two calls whose statements interleave end with the reason and
-- the time of the one that writes last, though the other had engaged the switch before that.
pub last_write_wins :
    (first second : EngageCall) (row : Option KillSwitch)
    → is_engaged row ≡ false
    → (end : Sys) × Reach (record { row = row; writing = [] }) end
      × (get_kill_switch end.row ≡ record {
        engaged = true;
        reason = some second.reason;
        engaged_at = some second.now;
        released_at = none;
      })
unfolding get_kill_switch write_engaged
last_write_wins first second row idle =
    let start : Sys = record { row = row; writing = [] } in
    let one : Sys = record { row = row; writing = first ∷ [] } in
    let both : Sys = record { row = row; writing = second ∷ first ∷ [] } in
    let engaged : Sys = record { row = write_engaged first row; writing = second ∷ [] } in
    (
      record { row = write_engaged second (write_engaged first row); writing = [] },
      next
          (next (next (next here (reads start first idle)) (reads one second idle))
            (writes both (second ∷ []) first [] refl))
          (writes engaged [] second [] refl),
      refl,
    )
