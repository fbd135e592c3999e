-- ===== src/Jobs/Tests.antt =====
-- Runs of the queue of internal/engine/jobs.go at concrete tables.
use ddcore.Common.{
  ℕ, ◌+◌, ◌*◌, ◌≡◌, refl, Bool, true, false, some, none, [], ◌∷◌, ◌≤◌, ◌<◌, ◌⊎◌, arith, String, All,
  find, is_some,
}
use ddcore.Cerr.{Error}
use ddcore.Jobs.{
  Status, queued, failed, cancelled, exponential, Job, Db, second, retry_delay, unique_ok, commit,
}
use ddcore.Jobs.Enqueue.{
  absent, text, Options, ok, Caller, Users, job_of, insert, holds_key, job_id, enqueue_rounds,
}
use ddcore.Jobs.Queues.{QueueFilter, in_queues}
use ddcore.Jobs.Sweep.{sweep, requeue_stale}
use ddcore.Jobs.Work.{claimable, begin_run, Claim, claim, failure, finish, to_failed, give_back}
use ddcore.Jobs.Admin.{refused, retry_job}
use ddcore.Jobs.Sound.{IsSound}
use ddcore.Jobs.Steps.{System, put, Reach, here, then_step, enqueues, claims, sweeps, empty}
use ddcore.Jobs.Exclusion.{reachable-IsSound, overtaken-finish}
use ddcore.Jobs.Outcomes.{retry_delay_bounds, sweep_outcome, claim-least}
use ddcore.Jobs.Stuck.{asked-requeued_stuck, enqueue-held, requeue_stale-clash}
use ddcore.Jobs.Retry.{retry_job_once}

abbrev nobody : Users
nobody _ = none

abbrev caller : Caller
caller = record { user = "ana"; request_id = ""; tenant = "" }

abbrev keyed : Options
keyed = record {
  queue = absent;
  run_after = none;
  run_after_seconds = none;
  timeout = none;
  max_attempts = none;
  backoff = text "exponential";
  on_start = absent;
  on_failure = absent;
  unique_key = text "k";
  run_as = absent;
}

abbrev row : Job
row = record {
  id = 0;
  method = "app.m";
  args = "{}";
  queue = "default";
  user = "ana";
  status = queued;
  run_after = 7;
  started = none;
  finished = none;
  attempts = 0;
  max_attempts = 3;
  error = none;
  result = none;
  lease_until = none;
  timeout_seconds = 300;
  request_id = none;
  cancel_requested = none;
  cancelled_by = none;
  retry_of = none;
  retried_as = none;
  backoff = exponential;
  on_start = none;
  on_failure = none;
  unique_key = some "k";
  run_as = none;
  starts = 0;
  tenant = "";
}

keyed_row : job_of caller nobody 7 "app.m" "{}" keyed ≡ ok row
unfolding job_of
keyed_row = refl

abbrev everywhere : String → Bool
everywhere _ = true

abbrev unlocked : ℕ → Bool
unlocked _ = false

abbrev all_queues : QueueFilter
all_queues = record { only = ""; except = [] }

abbrev of_job : Job → Claim
of_job j = record {
  row = j;
  attempt = j.attempts + 1;
  starts = j.starts + 1;
  timeout = 300 * second;
}

abbrev first : Job
first = record row { id = 1 }

abbrev first_run : Job
first_run = begin_run 8 first

abbrev lost : ℕ
lost = 200 * second

abbrev back : Job
back = sweep lost first_run

abbrev second_run : Job
second_run = begin_run (300 * second) back

abbrev one : Job → Db
one j = record { jobs = j ∷ []; next_id = 2 }

abbrev queue_1 : System
queue_1 = record { db = one first; workers = λ w. none }

abbrev queue_2 : System
queue_2 = record { db = one first_run; workers = put 1 (some (of_job first)) queue_1.workers }

abbrev queue_3 : System
queue_3 = record { db = one back; workers = queue_2.workers }

abbrev queue_4 : System
queue_4 = record { db = one second_run; workers = put 2 (some (of_job back)) queue_3.workers }

Reach-queue_1 : Reach empty queue_1
unfolding empty insert
Reach-queue_1 = then_step here (enqueues caller nobody 7 "app.m" "{}" keyed keyed_row)

Reach-queue_2 : Reach empty queue_2
unfolding claim in_queues
Reach-queue_2 =
    then_step Reach-queue_1 (claims 1 8 (false, false) everywhere unlocked all_queues refl refl)

Reach-queue_3 : Reach empty queue_3
unfolding requeue_stale commit unique_ok retry_delay
Reach-queue_3 = then_step Reach-queue_2 (sweeps lost refl)

Reach-queue_4 : Reach empty queue_4
unfolding claim in_queues retry_delay
Reach-queue_4 =
    then_step Reach-queue_3
      (claims 2 (300 * second) (false, false) everywhere unlocked all_queues refl refl)

reachable-IsSound_example : All IsSound (second_run ∷ [])
reachable-IsSound_example = reachable-IsSound Reach-queue_4

overtaken-finish_example :
    (finish (301 * second) (of_job first) false (failure "boom") (one second_run)).1
    ≡ one second_run
overtaken-finish_example =
    overtaken-finish Reach-queue_4 1 2 (of_job first) (of_job back) (omega arith) refl refl refl
      refl (301 * second) false (failure "boom")

claim-least_example :
    (claimable 8 everywhere unlocked all_queues first ≡ true)
    × All (λ r. claimable 8 everywhere unlocked all_queues r ≡ true → 1 ≤ r.id) (first ∷ [])
unfolding claim in_queues
claim-least_example =
    claim-least Reach-queue_1 (false, false) 8 everywhere unlocked all_queues {c = of_job first}
      refl

retry_delay_bounds_example :
    (30 * second ≤ retry_delay exponential 4)
    × (retry_delay exponential 4 ≤ 3600 * second)
    × (retry_delay exponential 4 ≤ retry_delay exponential (4 + 1))
retry_delay_bounds_example = retry_delay_bounds exponential 4

retry_delay_4 : retry_delay exponential 4 ≡ 240 * second
unfolding retry_delay
retry_delay_4 = refl

sweep_outcome_example :
    ((is_some first_run.cancel_requested ≡ true) × ((sweep lost first_run).status ≡ cancelled)
      ⊎ (first_run.cancel_requested ≡ none)
        × (first_run.attempts < first_run.max_attempts)
        × ((sweep lost first_run).status ≡ queued)
        × (lost < (sweep lost first_run).run_after)
      ⊎ (first_run.cancel_requested ≡ none)
        × (first_run.attempts ≡ first_run.max_attempts)
        × ((sweep lost first_run).status ≡ failed)
        × ((sweep lost first_run).run_after ≡ first_run.run_after))
    × ((sweep lost first_run).attempts ≡ first_run.attempts)
    × ((sweep lost first_run).lease_until ≡ none)
sweep_outcome_example = sweep_outcome lost first_run (reachable-IsSound Reach-queue_2).0 refl

abbrev asked : Job
asked = record first_run { cancel_requested = some 9; cancelled_by = some "ana" }

asked-requeued_stuck_example :
    ((to_failed 10 true "boom" asked).status ≡ queued)
    × (claimable (900 * second) everywhere unlocked all_queues (to_failed 10 true "boom" asked)
        ≡ false)
    × ((give_back 10 asked).status ≡ queued)
    × (claimable (900 * second) everywhere unlocked all_queues (give_back 10 asked) ≡ false)
asked-requeued_stuck_example =
    asked-requeued_stuck 10 (900 * second) "boom" everywhere unlocked all_queues asked refl refl

enqueue-held_example :
    (j : Job) × (find (holds_key row) (one first).jobs ≡ some j)
    × (enqueue_rounds 5 (λ _ d. d) row (one first)
        ≡ (job_id j.id, record (one first) { next_id = 3 }))
enqueue-held_example = enqueue-held 4 (λ _ d. d) row (one first) (λ _ _. refl) refl

abbrev rival : Job
rival = record row { id = 2 }

requeue_stale-clash_example :
    requeue_stale lost (record { jobs = first_run ∷ rival ∷ []; next_id = 3 }) ≡ none
requeue_stale-clash_example =
    requeue_stale-clash lost (record { jobs = first_run ∷ rival ∷ []; next_id = 3 }) [] first_run []
      rival [] refl refl refl (omega arith) refl

abbrev finished_job : Job
finished_job = record first_run { status = Status.done; finished = some 20; lease_until = none }

abbrev old_and_new : Db
old_and_new = record { jobs = finished_job ∷ rival ∷ []; next_id = 3 }

abbrev later : ℕ
later = 864000 * second

abbrev lost_cause : Job
lost_cause = record first { status = failed; finished = some 20; attempts = 3; starts = 3 }

retry_job_once_example :
    (e : Error) × (retry_job 40 1
        (λ _. "1")
        false
        (retry_job 30 1 (λ _. "1") false (one lost_cause)).1
      ≡ (refused e, (retry_job 30 1 (λ _. "1") false (one lost_cause)).1))
unfolding retry_job
retry_job_once_example = retry_job_once 30 40 1 (λ _. "1") false (one lost_cause) {n = 2} refl
