-- ===== src/Jobs/Retention.antt =====
-- The purge of internal/engine/jobs_admin.go.
use ddcore.Common.{ℕ, ◌≡◌, Bool, true, false, arith, not, ◌⊎◌}
use ddcore.Jobs.{is_queued, is_running, is_done, is_unfinished, Job}
use ddcore.Jobs.Admin.{expired}

abbrev pub others : (Job → Bool) → Job → Bool
others p j = not (p j)

-- No purge, whatever its window, deletes a job that is queued or running.
pub purge-unended :
    (now days : ℕ) (j : Job)
    → (is_queued j.status ≡ true) ⊎ (is_running j.status ≡ true)
    → (expired is_done now days j ≡ false) × (expired is_unfinished now days j ≡ false)
purge-unended now days j h = ground arith
