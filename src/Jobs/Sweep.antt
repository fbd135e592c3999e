-- ===== src/Jobs/Sweep.antt =====
-- requeueStale of internal/engine/jobs.go: the sweep of the rows whose lease has run out.
use ddcore.Common.{
  ℕ, ◌+◌, Bool, true, false, not, ◌&&◌, Option, none, some, List, [], ◌∷◌, ◌++◌, map, if◌then◌else◌,
  select, update_where, ltb, is_some,
}
use ddcore.Jobs.{
  Status, queued, failed, cancelled, is_queued, is_running, Job, Db, retry_delay, commit, Failure,
  JobDone, run_on_failure,
}
use ddcore.Jobs.Work.{Report}

-- WHERE status = 'running' AND lease_until IS NOT NULL AND lease_until < now()
abbrev pub stale : ℕ → Job → Bool
stale now j = is_running j.status && elim j.lease_until [ none ↦ false | some t ↦ ltb t now ]

-- the row's SET of requeueStale; cancel_requested IS NULL AND attempts < max_attempts is `again`
abbrev pub sweep : ℕ → Job → Job
sweep now j =
    let asked = is_some j.cancel_requested in
    let left = ltb j.attempts j.max_attempts in
    let again = not asked && left in
    record j {
      status = if asked then cancelled else if left then queued else failed;
      lease_until = none;
      finished = if again then none else some now;
      started = if again then none else j.started;
      run_after = if again then now + retry_delay j.backoff j.attempts else j.run_after;
      error =
          if asked
          then j.error
          else if left
          then none
          else some "worker interrupted: lease expired";
    }

abbrev is_cancelled : Status → Bool
is_cancelled cancelled = true
is_cancelled _ = false

abbrev swept_failure : Job → Failure
swept_failure r = record {
  id = r.id;
  hook = r.on_failure;
  attempt = r.attempts;
  max_attempts = r.max_attempts;
  starts = r.starts;
  reason = if is_cancelled r.status then "cancelled" else "error";
  err = "worker interrupted: lease expired";
  final = not (is_queued r.status);
}

-- the loop over the rows that the statement returned
unfoldable pub announce : List Job → Report
announce [] = record { callbacks = []; published = []; error_logged = false }
announce (r ∷ rows) =
    let rest = announce rows in
    let event : JobDone = record {
      id = r.id;
      ok = false;
      was_cancelled = is_cancelled r.status;
      err = some "worker interrupted: lease expired";
    } in
    record rest {
      callbacks = run_on_failure (swept_failure r) ++ rest.callbacks;
      published = if is_queued r.status then rest.published else event ∷ rest.published;
    }

-- `none` is the statement's error, on which nothing changes and nobody is told.
unfoldable pub requeue_stale : ℕ → Db → Option (Report × Db)
unfolding announce
requeue_stale now db = elim (commit (update_where (stale now) (sweep now) db.jobs)) [
  | none ↦ none
  | some js ↦
      some (announce (map (sweep now) (select (stale now) db.jobs)), record db { jobs = js })
]
