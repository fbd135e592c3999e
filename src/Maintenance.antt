-- ===== src/Maintenance.antt =====
-- Maintenance mode: internal/engine/maintenance.go and SetMaintenanceFlag of
-- internal/db/schema.go. Times are nanoseconds. Maintenance is in two parts, one under the lock
-- before the flag is read and one under the lock after it, since other calls run between them.
pub mod Steps
pub mod Timely
pub mod Refused
mod Tests
use ddcore.Common.{
  ℕ, ◌+◌, ◌*◌, String, Bool, true, false, not, ◌&&◌, ◌||◌, Option, none, some, [], if◌then◌else◌,
  str_eq, ltb, ◌==◌,
}
use ddcore.Cerr.{Error, Result, ok, err, Wait, Extra}
use ddcore.Cerr

pub record MaintenanceState : Type 0 where
  pub enabled : Bool
  pub reason : String
  pub since : Option ℕ
  pub actor : String

-- the value of a MaintenanceState that nothing has set
abbrev pub never_paused : MaintenanceState
never_paused = record { enabled = false; reason = ""; since = none; actor = "" }

abbrev pub maintenance_ttl : ℕ
maintenance_ttl = 2 * 1_000_000_000

-- a time that nothing has set is none
pub record MaintenanceCache : Type 0 where
  pub state : MaintenanceState
  pub read : Option ℕ
  pub known : Bool
  pub refreshing : Bool

-- time.Since(m.read) < maintenanceTTL
unfoldable pub is_fresh : ℕ → Option ℕ → Bool
is_fresh now none = false
is_fresh now (some t) = ltb now (t + maintenance_ttl)

-- what a call of Maintenance finds: an answer, another call that is reading the flag and that it
-- waits for, or that it reads the flag itself; `started` is the last attempt before its own
pub data Found : Type 0 where
  answered : MaintenanceState → Found
  waiting : Found
  reading : (started : Option ℕ) → Found

unfoldable pub maintenance_found : ℕ → MaintenanceCache → Found
unfolding is_fresh
maintenance_found now m =
    if is_fresh now m.read
    then answered m.state
    else if m.refreshing
    then (if m.known then answered m.state else waiting)
    else reading m.read

unfoldable pub maintenance_refreshing : MaintenanceCache → MaintenanceCache
maintenance_refreshing m = record m { refreshing = true }

-- m.read == started
unfoldable pub same_read : Option ℕ → Option ℕ → Bool
same_read none none = true
same_read (some a) (some b) = a == b
same_read _ _ = false

-- the cache after a read that failed, or that gave a state
unfoldable pub with_answer : ℕ → Option MaintenanceState → MaintenanceCache → MaintenanceCache
with_answer now none m = record m { read = some now }
with_answer now (some st) m = record m { state = st; read = some now; known = true }

-- Maintenance, from the read of the flag on: it returns the state that the cache is left with
unfoldable pub maintenance_read :
    ℕ → Option ℕ → Option MaintenanceState → MaintenanceCache → MaintenanceCache
unfolding same_read with_answer
maintenance_read now started found m =
    let m = record m { refreshing = false } in
    if not (same_read m.read started) then m else with_answer now found m

-- what the query for the row of ddcore_maintenance answers
pub data Row : Type 0 where
  row : MaintenanceState → Row
  no_row : Row
  failed : Row

-- readMaintenance, of an engine with a database
unfoldable pub read_maintenance : Row → Option MaintenanceState
read_maintenance (row st) = some st
read_maintenance no_row = some never_paused
read_maintenance failed = none

-- since, of SetMaintenanceFlag
unfoldable pub since_of : Bool → ℕ → Option MaintenanceState → Option ℕ
since_of false now old = none
since_of true now none = some now
since_of true now (some old) = if old.enabled then old.since else some now

-- SetMaintenanceFlag: the row that is stored over the old one
unfoldable pub set_maintenance_flag :
    Bool → String → String → ℕ → Option MaintenanceState → MaintenanceState
unfolding since_of
set_maintenance_flag on reason actor now old = record {
  enabled = on;
  reason = if on then reason else "";
  since = since_of on now old;
  actor = actor;
}

-- SetMaintenance, what it does to the cache when it has read the flag again
unfoldable pub publish : ℕ → MaintenanceState → MaintenanceCache → MaintenanceCache
publish now st m = record m { state = st; read = some now; known = true }

unfoldable pub maintenance_error : MaintenanceState → Error
maintenance_error st =
    record (Cerr.maintenance
      "The site is in maintenance mode; changes are paused. Try again shortly." []) {
        extra = some (record {
          retry_after = Wait.whole 60;
          reason = if str_eq st.reason "" then none else some st.reason;
        });
      }

-- Paused, of the state that Maintenance returns
unfoldable pub paused : Bool → MaintenanceState → Bool
paused enforce st = enforce && st.enabled

-- checkWritable, of Config.EnforceMaintenance, the bypass flag and the state that Maintenance
-- returns
unfoldable pub check_writable : String → Bool → Bool → MaintenanceState → Result (Unit {0})
unfolding maintenance_error
check_writable doctype enforce bypass st =
    if str_eq doctype "Error Log" || not enforce || bypass
    then ok tt
    else if st.enabled
    then err (maintenance_error st)
    else ok tt
