-- ===== src/Jobs/Work.antt =====
-- claimAndRun and heartbeat of internal/engine/jobs.go: the worker's side of the queue. What the job's code does is the value `Ending`.
use Prim.Native.String.{◌++◌ as join}
use ddcore.Common.{
  ℕ, zero, suc, ◌+◌, ◌-◌, ◌*◌, String, Bool, true, false, not, ◌&&◌, ◌||◌, Option, none, some, List,
  [], ◌∷◌, if◌then◌else◌, str_eq, find, update_where, coalesce, ltb, leb, ◌==◌, is_some,
}
use ddcore.Jobs.{
  queued, running, done, failed, cancelled, is_queued, Job, Db, second, default_job_timeout,
  job_lease, retry_delay, commit, fence, Failure, JobDone, run_on_failure,
}
use ddcore.Jobs.Queues.{QueueFilter, in_queues}

-- the rows that the claim's SELECT reads; `enabled` tells of a tenant ('' is the site) and
-- `locked` of a row that another transaction holds
abbrev pub claimable : ℕ → (String → Bool) → (ℕ → Bool) → QueueFilter → Job → Bool
claimable now enabled locked queues j =
    is_queued j.status
    && (leb j.run_after now
        && (not (is_some j.cancel_requested)
            && (enabled j.tenant && (in_queues queues j.queue && not (locked j.id)))))

abbrev pub begin_run : ℕ → Job → Job
begin_run now j = record j {
  status = running;
  started = some now;
  attempts = j.attempts + 1;
  starts = j.starts + 1;
  lease_until = some (now + job_lease);
}

-- what the worker that claimed a row goes on with
pub record Claim : Type 0 where
  pub row : Job
  pub attempt : ℕ
  pub starts : ℕ
  pub timeout : ℕ

abbrev pub timeout_of : ℕ → ℕ
timeout_of zero = default_job_timeout * second
timeout_of (suc n) = suc n * second

-- The rows stand in the order of their ids, so the first that fits is the one that
-- ORDER BY id LIMIT 1 takes. `stopped` is the claim context before the transaction and once the
-- row is picked.
unfoldable pub claim :
    Bool × Bool → ℕ → (String → Bool) → (ℕ → Bool) → QueueFilter → Db → Option Claim × Db
claim (early, late) now enabled locked queues db =
    if early then (none, db) else elim (find (claimable now enabled locked queues) db.jobs) [
      | none ↦ (none, db)
      | some j ↦ if late then (none, db) else (
        some (record {
          row = j;
          attempt = j.attempts + 1;
          starts = j.starts + 1;
          timeout = timeout_of j.timeout_seconds;
        }),
        record db { jobs = update_where (λ r. r.id == j.id) (begin_run now) db.jobs },
      )
    ]

pub data Beat : Type 0 where
  goes_on : Beat
  lease_lost : Beat
  cancel_seen : Beat

-- the renewal of the lease, fenced on the attempt
unfoldable pub renew : ℕ → ℕ → ℕ → Db → Beat × Db
renew now id attempt db =
    let db' = record db {
      jobs =
          update_where (fence id attempt) (λ j. record j { lease_until = some (now + job_lease) })
            db.jobs;
    } in
    elim (find (fence id attempt) db.jobs) [
      | none ↦ (lease_lost, db)
      | some j ↦ if is_some j.cancel_requested then (cancel_seen, db') else (goes_on, db')
    ]

-- the cancellation poll, which reads the row by its id alone
unfoldable pub poll : ℕ → Db → Beat
poll id db = elim (find (λ j. j.id == id) db.jobs) [
  | none ↦ goes_on
  | some j ↦ if is_some j.cancel_requested then cancel_seen else goes_on
]

-- How a run ended: the result, or the error's text and whether it is a MaintenanceError; and the
-- three flags, of a cancellation seen by the heartbeat, a worker that is stopping, and a job past
-- its deadline.
pub data Ran : Type 0 where
  returned : String → Ran
  threw : String → Bool → Ran

pub record Ending : Type 0 where
  pub ran : Ran
  pub was_cancelled : Bool
  pub stopping : Bool
  pub timed_out : Bool

-- what a worker or a sweep does beside its write
pub record Report : Type 0 where
  pub callbacks : List Failure
  pub published : List JobDone
  pub error_logged : Bool

-- A write that fails is logged, and the row stays as it was.
abbrev pub write_or_log : (Job → Bool) → (Job → Job) → Db → Db
write_or_log p f db = elim (commit (update_where p f db.jobs)) [
  | none ↦ db
  | some js ↦ record db { jobs = js }
]

-- the four writes of the `switch`
abbrev pub to_done : ℕ → String → Job → Job
to_done now res j = record j {
  status = done;
  finished = some now;
  lease_until = none;
  result = some res;
}

abbrev pub to_cancelled : ℕ → Job → Job
to_cancelled now j = record j {
  status = cancelled;
  finished = some now;
  lease_until = none;
  error = some (join "cancelled by " (coalesce j.cancelled_by "an admin"));
}

abbrev pub give_back : ℕ → Job → Job
give_back now j = record j {
  status = queued;
  attempts = j.attempts - 1;
  started = none;
  lease_until = none;
  error = none;
  run_after = now;
}

abbrev pub to_failed : ℕ → Bool → String → Job → Job
to_failed now retried msg j = record j {
  status = if retried then queued else failed;
  error = some msg;
  finished = if retried then none else some now;
  lease_until = none;
  run_after = now + retry_delay j.backoff j.attempts;
}

-- the error that the row shows after the write
abbrev shown_error : ℕ → Db → String
shown_error id db = elim (find (λ j. j.id == id) db.jobs) [
  | none ↦ "cancelled"
  | some j ↦ coalesce j.error "cancelled"
]

abbrev failure_of : Claim → String → Bool → String → Failure
failure_of c reason final msg = record {
  id = c.row.id;
  hook = c.row.on_failure;
  attempt = c.attempt;
  max_attempts = c.row.max_attempts;
  starts = c.starts;
  reason = reason;
  err = msg;
  final = final;
}

-- the branches of the `switch`, in its order
pub data Branch : Type 0 where
  success : String → Branch
  cancel given_back : Branch
  failure : String → Branch

unfoldable pub branch : Ending → Branch
branch e = elim e.ran [
  | returned res ↦ success (if str_eq res "" then "null" else res)
  | threw msg paused ↦
      if e.was_cancelled
      then cancel
      else if paused || (e.stopping && not e.timed_out)
      then given_back
      else failure msg
]

-- the end of claimAndRun, from the `switch`
unfoldable pub finish : ℕ → Claim → Bool → Branch → Db → Report × Db
finish now c timed_out (success res) db = (
  record {
    callbacks = [];
    published = record { id = c.row.id; ok = true; was_cancelled = false; err = none } ∷ [];
    error_logged = false;
  },
  write_or_log (fence c.row.id c.attempt) (to_done now res) db,
)
finish now c timed_out cancel db =
    let db' = write_or_log (fence c.row.id c.attempt) (to_cancelled now) db in
    (
      record {
        callbacks = run_on_failure (failure_of c "cancelled" true (shown_error c.row.id db'));
        published = record { id = c.row.id; ok = false; was_cancelled = true; err = none } ∷ [];
        error_logged = false;
      },
      db',
    )
finish now c timed_out given_back db = (
  record { callbacks = []; published = []; error_logged = false },
  write_or_log (fence c.row.id c.attempt) (give_back now) db,
)
finish now c timed_out (failure msg) db =
    let retried = ltb c.attempt c.row.max_attempts in
    let reason : String = if timed_out then "timeout" else "error" in
    (
      record {
        callbacks = run_on_failure (failure_of c reason (not retried) msg);
        published =
            record { id = c.row.id; ok = false; was_cancelled = false; err = some msg } ∷ [];
        error_logged = true;
      },
      write_or_log (fence c.row.id c.attempt) (to_failed now retried msg) db,
    )
