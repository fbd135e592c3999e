-- ===== src/Jobs.antt =====
-- The job queue: internal/engine/jobs.go and jobs_admin.go over the table ddcore_job
-- (internal/db/schema.go). A row is a record, the table a list of rows in the order of their ids,
-- and each SQL statement a function on it. Times are microseconds since an epoch, PostgreSQL's
-- resolution, and `now` is the statement's now().
pub mod Enqueue
pub mod Queues
pub mod Work
pub mod Sweep
pub mod Admin
pub mod Sound
pub mod Steps
pub mod Ids
pub mod Invariant
pub mod Keeps
pub mod Claiming
pub mod Ending
pub mod Exclusion
pub mod Outcomes
pub mod Stuck
pub mod Retention
pub mod Pools
pub mod Retry
mod Tests
use ddcore.Common.{
  ℕ, suc, ◌+◌, ◌-◌, ◌*◌, ◌^◌, min, String, ◌≡◌, Bool, true, false, not, ◌&&◌, ◌||◌, Option, none,
  some, List, [], ◌∷◌, ◌++◌, length, any, if◌then◌else◌, ◌==◌, str_eq, is_some,
}

pub data Status : Type 0 where
  queued running done failed cancelled : Status

abbrev pub is_queued : Status → Bool
is_queued queued = true
is_queued _ = false

abbrev pub is_running : Status → Bool
is_running running = true
is_running _ = false

abbrev pub is_done : Status → Bool
is_done done = true
is_done _ = false

-- status IN ('failed', 'cancelled')
abbrev pub is_unfinished : Status → Bool
is_unfinished failed = true
is_unfinished cancelled = true
is_unfinished _ = false

pub data Backoff : Type 0 where
  fixed exponential : Backoff

-- The columns of ddcore_job. `enqueued` and `args` beyond its text play no part in a decision.
pub record Job : Type 0 where
  pub id : ℕ
  pub method : String
  pub args : String
  pub queue : String
  pub user : String
  pub status : Status
  pub run_after : ℕ
  pub started : Option ℕ
  pub finished : Option ℕ
  pub attempts : ℕ
  pub max_attempts : ℕ
  pub error : Option String
  pub result : Option String
  pub lease_until : Option ℕ
  pub timeout_seconds : ℕ
  pub request_id : Option String
  pub cancel_requested : Option ℕ
  pub cancelled_by : Option String
  pub retry_of : Option ℕ
  pub retried_as : Option ℕ
  pub backoff : Backoff
  pub on_start : Option String
  pub on_failure : Option String
  pub unique_key : Option String
  pub run_as : Option String
  pub starts : ℕ
  pub tenant : String

-- the table, and the number that its sequence gives next
pub record Db : Type 0 where
  pub jobs : List Job
  pub next_id : ℕ

abbrev pub second : ℕ
second = 1000000

abbrev pub default_job_timeout : ℕ
default_job_timeout = 300

abbrev pub job_lease : ℕ
job_lease = 120 * second

-- least(30 * power(2, greatest(attempts - 1, 0)), 3600) seconds, or 30 seconds
unfoldable pub retry_delay : Backoff → ℕ → ℕ
retry_delay exponential attempts = min (30 * 2 ^ (attempts - 1)) 3600 * second
retry_delay fixed attempts = 30 * second

-- equality of keys in the unique index: NULL equals nothing
abbrev pub same_key : Option String → Option String → Bool
same_key (some a) (some b) = str_eq a b
same_key _ _ = false

-- both rows are in the index ddcore_job_unique, under one tenant and key
unfoldable pub clashes : Job → Job → Bool
clashes a b =
    is_queued a.status
    && (is_queued b.status && (str_eq a.tenant b.tenant && same_key a.unique_key b.unique_key))

unfoldable pub unique_ok : List Job → Bool
unique_ok [] = true
unique_ok (j ∷ js) = not (any (clashes j) js) && unique_ok js

-- A statement that would break the unique index fails as a whole.
unfoldable pub commit : List Job → Option (List Job)
commit js = if unique_ok js then some js else none

-- WHERE id = … AND status = 'running' AND attempts = …
abbrev pub fence : ℕ → ℕ → Job → Bool
fence id attempt j = j.id == id && (is_running j.status && j.attempts == attempt)

-- what onFailure is told (jobFailure)
pub record Failure : Type 0 where
  pub id : ℕ
  pub hook : Option String
  pub attempt : ℕ
  pub max_attempts : ℕ
  pub starts : ℕ
  pub reason : String
  pub err : String
  pub final : Bool

-- the payload of a job_done event
pub record JobDone : Type 0 where
  pub id : ℕ
  pub ok : Bool
  pub was_cancelled : Bool
  pub err : Option String

-- runOnFailure calls a hook only if the job has one
unfoldable pub run_on_failure : Failure → List Failure
run_on_failure f = if is_some f.hook then f ∷ [] else []
