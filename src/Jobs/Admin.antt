-- ===== src/Jobs/Admin.antt =====
-- CancelJob, RetryJob and PurgeJobs of internal/engine/jobs_admin.go.
use Prim.Native.String.{◌++◌ as join}
use ddcore.Common.{
  ℕ, zero, suc, ◌+◌, ◌*◌, String, Bool, true, false, not, ◌&&◌, ◌||◌, Option, none, some, List, [],
  ◌∷◌, ◌++◌, length, if◌then◌else◌, find, select, update_where, coalesce, ltb, ◌==◌, is_some,
}
use ddcore.Cerr.{Error, validation, not_found}
use ddcore.Jobs.{
  Status, queued, running, done, failed, cancelled, is_queued, is_running, is_done, is_unfinished,
  Job, Db, second, Failure, run_on_failure,
}

pub data Action : Type 0 where
  cancelled_now cancelling : Action
  retried_as : ℕ → Action
  refused : Error → Action

abbrev pub status_text : Status → String
status_text queued = "queued"
status_text running = "running"
status_text done = "done"
status_text failed = "failed"
status_text cancelled = "cancelled"

-- the SET of CancelJob
abbrev pub ask_cancel : ℕ → String → Job → Job
ask_cancel now user j = record j {
  cancel_requested = some (coalesce j.cancel_requested now);
  cancelled_by = some (coalesce j.cancelled_by user);
  status = if is_queued j.status then cancelled else j.status;
  finished = if is_queued j.status then some now else j.finished;
  lease_until = if is_queued j.status then none else j.lease_until;
}

-- the failure that a job which no worker will run is told
abbrev cancel_failure : String → Job → Failure
cancel_failure user j = record {
  id = j.id;
  hook = j.on_failure;
  attempt = 0;
  max_attempts = j.max_attempts;
  starts = j.starts;
  reason = "cancelled";
  err = join "cancelled by " user;
  final = true;
}

-- `printed` is the id as the message prints it
unfoldable pub cancel_job : ℕ → ℕ → String → String → Db → Action × List Failure × Db
cancel_job now id printed user db = elim (find (λ j. j.id == id) db.jobs) [
  | none ↦ (refused (not_found "Job {0} does not exist" (printed ∷ [])), [], db)
  | some j ↦
      let db' = record db { jobs = update_where (λ r. r.id == id) (ask_cancel now user) db.jobs } in
      if is_queued j.status
      then (cancelled_now, run_on_failure (cancel_failure user j), db')
      else if is_running j.status
      then (cancelling, [], db')
      else (
        refused (
            validation "Job {0} is already {1} and cannot be cancelled"
              (printed ∷ status_text j.status ∷ [])),
        [],
        db,
      )
]

-- the columns that the INSERT of RetryJob copies; the others take their defaults
abbrev pub copy_of : ℕ → ℕ → Job → Job
copy_of now new_id j = record j {
  id = new_id;
  status = queued;
  run_after = now;
  started = none;
  finished = none;
  attempts = 0;
  error = none;
  result = none;
  lease_until = none;
  cancel_requested = none;
  cancelled_by = none;
  retry_of = some j.id;
  retried_as = none;
  unique_key = none;
  starts = 0;
}

-- explainRetryRefusal, of the row that is there
abbrev pub retry_refusal : String → (ℕ → String) → Job → Error
retry_refusal printed print j = elim j.retried_as [
  | some n ↦ validation "Job {0} was already retried as {1}" (printed ∷ print n ∷ [])
  | none ↦
      validation "Job {0} is {1}; only a failed or cancelled job can be retried"
        (printed ∷ status_text j.status ∷ [])
]

unfoldable pub retry_job : ℕ → ℕ → (ℕ → String) → Bool → Db → Action × Db
retry_job now id print force db = elim (find (λ j. j.id == id) db.jobs) [
  | none ↦ (refused (not_found "Job {0} does not exist" (print id ∷ [])), db)
  | some j ↦
      if is_unfinished j.status && (force || not (is_some j.retried_as))
      then (
        retried_as db.next_id,
        record {
          jobs =
              update_where (λ r. r.id == id) (λ r. record r { retried_as = some db.next_id })
                (db.jobs ++ copy_of now db.next_id j ∷ []);
          next_id = db.next_id + 1;
        },
      )
      else (refused (retry_refusal (print id) print j), db)
]

abbrev day : ℕ
day = 86400 * second

-- status = ANY(…) AND finished IS NOT NULL AND finished < now() - days
abbrev pub expired : (Status → Bool) → ℕ → ℕ → Job → Bool
expired statuses now days j =
    statuses j.status && elim j.finished [ none ↦ false | some t ↦ ltb (t + days * day) now ]

-- DELETE of the first `n` rows that fit, with the number of rows deleted
unfoldable pub delete_batch : ℕ → (Job → Bool) → List Job → List Job × ℕ
delete_batch zero p js = (js, 0)
delete_batch (suc n) p [] = ([], 0)
delete_batch (suc n) p (j ∷ js) =
    let (kept, count) = delete_batch (suc n) p js in
    let (kept', count') = delete_batch n p js in
    if p j then (kept', count' + 1) else (j ∷ kept, count)

abbrev pub purge_batch : ℕ
purge_batch = 5000

-- The loop of purge: batches of `size` until one is short. `none` when the fuel runs out.
unfoldable pub purge_rounds : ℕ → ℕ → (Job → Bool) → List Job → ℕ → Option (List Job × ℕ)
purge_rounds zero size p js total = none
purge_rounds (suc fuel) size p js total =
    let (js', n) = delete_batch size p js in
    let more = purge_rounds fuel size p js' (total + n) in
    if ltb n size then some (js', total + n) else more

-- A window of no days keeps everything; a dry run counts. A row that another transaction holds is
-- skipped.
unfoldable pub purge : ℕ → (ℕ → Bool) → (Status → Bool) → ℕ → Bool → Db → Option (ℕ × Db)
purge now locked statuses zero dry db = some (0, db)
purge now locked statuses (suc days) true db =
    some (length (select (expired statuses now (suc days)) db.jobs), db)
purge now locked statuses (suc days) false db =
    elim (purge_rounds (suc (length db.jobs)) purge_batch
      (λ j. expired statuses now (suc days) j && not (locked j.id)) db.jobs 0) [
        | none ↦ none
        | some (js, n) ↦ some (n, record db { jobs = js })
      ]

pub record PurgeOpts : Type 0 where
  pub done_days : ℕ
  pub failed_days : ℕ
  pub dry_run : Bool

abbrev pub then_purge : ℕ → (ℕ → Bool) → PurgeOpts → Option (ℕ × Db) → Option (ℕ × ℕ × Db)
then_purge now locked o none = none
then_purge now locked o (some (n, db)) =
    elim (purge now locked is_unfinished o.failed_days o.dry_run db) [
      | none ↦ none
      | some (m, db') ↦ some (n, m, db')
    ]

unfoldable pub purge_jobs : ℕ → (ℕ → Bool) → PurgeOpts → Db → Option (ℕ × ℕ × Db)
purge_jobs now locked o db =
    then_purge now locked o (purge now locked is_done o.done_days o.dry_run db)
