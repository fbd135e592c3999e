-- ===== src/Maintenance/Tests.antt =====
-- Runs of the model of internal/engine/maintenance.go: a read of the flag that overlaps with the
-- switch to maintenance.
use ddcore.Common.{true, false, ◌≡◌, refl, none, some, [], ◌∷◌}
use ddcore.Cerr.{ok, err, retry_after}
use ddcore.Maintenance.{
  MaintenanceState, waiting, never_paused, maintenance_found, maintenance_refreshing,
  maintenance_read, read_maintenance, set_maintenance_flag, publish, check_writable,
  maintenance_error, paused,
}
use ddcore.Maintenance.Steps.{
  World, Steps, Reached, begins, reads, ends, set_reads, no_step, then_step, at_once, starts, steps,
  writes,
}
use ddcore.Maintenance.Refused.{check_writable-refused}

abbrev cutover : MaintenanceState
cutover = record { enabled = true; reason = "restore"; since = some 5; actor = "cli" }

-- a call has read the flag before it was switched on, and is not done
abbrev raced : World
raced = record {
  now = 5;
  stored = some cutover;
  cache = record { state = never_paused; read = none; known = false; refreshing = true };
  reader = some (record { started = none; found = some (some never_paused) });
  setters = cutover ∷ [];
}

abbrev published : World
published = record raced {
  cache = record { state = cutover; read = some 5; known = true; refreshing = true };
  setters = [];
}

raced-Reached : Reached raced
unfolding maintenance_found read_maintenance set_maintenance_flag maintenance_refreshing
raced-Reached =
    steps
      (writes true "restore" "cli"
        (steps (steps (starts 5 none) (begins none refl)) (reads _ refl)))
      (set_reads cutover refl)

-- the read ends after the switch, and the next call of Maintenance is answered from the cache
late_read : Steps published (record published {
  cache = record { state = cutover; read = some 5; known = true; refreshing = false };
  reader = none;
})
unfolding maintenance_read
late_read = then_step no_step (
    ends (record { started = none; found = some (some never_paused) }) (some never_paused) refl
      refl)

check_writable-refused_example :
    check_writable "Order" true false cutover ≡ err (maintenance_error cutover)
unfolding publish maintenance_found
check_writable-refused_example =
    check_writable-refused "Order" raced-Reached refl refl refl (refl, tt) late_read (at_once refl)
      refl

error_log : check_writable "Error Log" true false cutover ≡ ok tt
unfolding check_writable
error_log = refl

command_line : check_writable "Order" false false cutover ≡ ok tt
unfolding check_writable
command_line = refl

waits_a_minute : retry_after (maintenance_error cutover) ≡ some 60
unfolding maintenance_error retry_after
waits_a_minute = refl

-- switching it on once more keeps the time since when it is on
still_on :
    set_maintenance_flag true "longer" "ana" 9 (some cutover)
    ≡ record cutover { reason = "longer"; actor = "ana" }
unfolding set_maintenance_flag
still_on = refl

first_read :
    maintenance_found 5
      (record { state = never_paused; read = none; known = false; refreshing = true })
    ≡ waiting
unfolding maintenance_found
first_read = refl

held : paused true cutover ≡ true
unfolding paused
held = refl
