-- ===== src/Maintenance/Steps.antt =====
-- The calls of internal/engine/maintenance.go beside each other: one process with its cache, the
-- row that every process writes, and the reads that are under way.
use ddcore.Common.{◌++◌, ℕ, ◌+◌, Bool, false, ◌≡◌, Option, none, some, List, [], ◌∷◌, String}
use ddcore.Maintenance.{
  never_paused, MaintenanceState, MaintenanceCache, answered, reading, maintenance_found,
  maintenance_refreshing, maintenance_read, Row, row, no_row, failed, read_maintenance,
  set_maintenance_flag, publish,
}

-- the call of Maintenance that reads the flag: the last attempt before it, and what its read gave
-- once it has read
pub record Reader : Type 0 where
  pub started : Option ℕ
  pub found : Option (Option MaintenanceState)

-- `setters` are the states that calls of SetMaintenance have read and not yet put into the cache
pub record World : Type 0 where
  pub now : ℕ
  pub stored : Option MaintenanceState
  pub cache : MaintenanceCache
  pub reader : Option Reader
  pub setters : List MaintenanceState

abbrev pub row_of : Option MaintenanceState → Row
row_of none = no_row
row_of (some st) = row st

-- what happens without a write of the flag
pub data Step : World → World → Type 0 where
  time_passes : {w : World} (d : ℕ) → Step w (record w { now = w.now + d })
  begins :
      {w : World} (started : Option ℕ)
      → maintenance_found w.now w.cache ≡ reading started
      → Step w (record w {
        cache = maintenance_refreshing w.cache;
        reader = some (record { started = started; found = none });
      })
  reads :
      {w : World} (r : Reader)
      → w.reader ≡ some r
      → Step w (record w {
        reader = some (record r { found = some (read_maintenance (row_of w.stored)) });
      })
  read_fails :
      {w : World} (r : Reader)
      → w.reader ≡ some r
      → Step w (record w { reader = some (record r { found = some (read_maintenance failed) }) })
  ends :
      {w : World} (r : Reader) (found : Option MaintenanceState)
      → w.reader ≡ some r
      → r.found ≡ some found
      → Step w (record w { cache = maintenance_read w.now r.started found w.cache; reader = none })
  set_reads :
      {w : World} (st : MaintenanceState)
      → read_maintenance (row_of w.stored) ≡ some st
      → Step w (record w { setters = st ∷ w.setters })
  set_publishes :
      {w : World} (st : MaintenanceState) (rest : List MaintenanceState)
      → w.setters ≡ st ∷ rest
      → Step w (record w { cache = publish w.now st w.cache; setters = rest })
  -- which of the calls comes next is open
  set_waits :
      {w : World} (st : MaintenanceState) (rest : List MaintenanceState)
      → w.setters ≡ st ∷ rest
      → Step w (record w { setters = rest ++ (st ∷ []) })

pub data Steps : World → World → Type 0 where
  no_step : {w : World} → Steps w w
  then_step : {u v w : World} → Steps u v → Step v w → Steps u w

-- a state that Maintenance may return in a world
pub data Returns : World → MaintenanceState → Type 0 where
  at_once :
      {w : World} {st : MaintenanceState}
      → maintenance_found w.now w.cache ≡ answered st
      → Returns w st
  has_waited : {w : World} → Returns w w.cache.state
  has_read :
      {w : World} (r : Reader) (found : Option MaintenanceState)
      → w.reader ≡ some r
      → r.found ≡ some found
      → Returns w (maintenance_read w.now r.started found w.cache).state

-- the same, with writes of the flag, from a process that has just started
pub data Reached : World → Type 0 where
  starts :
      (now : ℕ) (stored : Option MaintenanceState)
      → Reached (record {
        now = now;
        stored = stored;
        cache = record { state = never_paused; read = none; known = false; refreshing = false };
        reader = none;
        setters = [];
      })
  steps : {v w : World} → Reached v → Step v w → Reached w
  writes :
      {w : World} (on : Bool) (reason actor : String)
      → Reached w
      → Reached (record w { stored = some (set_maintenance_flag on reason actor w.now w.stored) })
