-- ===== src/Jobs/Steps.antt =====
-- The queue as a whole: the table and the workers, each with the claim that it is running, and the
-- steps that change them. Times, locks, what the jobs' code does and who acts are chosen freely,
-- so a run of steps is any interleaving of any number of processes.
use ddcore.Common.{ℕ, String, ◌≡◌, Bool, Option, none, some, [], if◌then◌else◌, ◌==◌}
use ddcore.Jobs.{Job, Db}
use ddcore.Jobs.Enqueue.{Caller, Users, Options, ok, job_of, insert}
use ddcore.Jobs.Queues.{QueueFilter}
use ddcore.Jobs.Sweep.{requeue_stale}
use ddcore.Jobs.Work.{Claim, claim, renew, Ending, branch, finish, Report}
use ddcore.Jobs.Admin.{cancel_job, retry_job, PurgeOpts, purge_jobs}

-- A worker holds the claim that it runs, from the commit of the claim to the write that ends it.
pub record System : Type 0 where
  pub db : Db
  pub workers : ℕ → Option Claim

abbrev pub put : ℕ → Option Claim → (ℕ → Option Claim) → ℕ → Option Claim
put w c workers v = if w == v then c else workers v

pub data Step (s : System) : System → Type 0 where
  enqueues :
      (caller : Caller) (users : Users) (now : ℕ) (method args : String) (opts : Options)
      {row : Job}
      → job_of caller users now method args opts ≡ ok row
      → Step s (record s { db = (insert row s.db).1 })
  claims :
      (w now : ℕ) (stopped : Bool × Bool) (enabled : String → Bool) (locked : ℕ → Bool)
      (queues : QueueFilter) {c : Claim} {db' : Db}
      → s.workers w ≡ none
      → claim stopped now enabled locked queues s.db ≡ (some c, db')
      → Step s (record { db = db'; workers = put w (some c) s.workers })
  renews :
      (w now : ℕ) {c : Claim}
      → s.workers w ≡ some c
      → Step s (record s { db = (renew now c.row.id c.attempt s.db).1 })
  ends :
      (w now : ℕ) (e : Ending) {c : Claim}
      → s.workers w ≡ some c
      → Step s (record {
        db = (finish now c e.timed_out (branch e) s.db).1;
        workers = put w none s.workers;
      })
  -- a worker that dies writes nothing
  dies : (w : ℕ) → Step s (record s { workers = put w none s.workers })
  sweeps :
      (now : ℕ) {r : Report} {db' : Db}
      → requeue_stale now s.db ≡ some (r, db')
      → Step s (record s { db = db' })
  cancels :
      (now id : ℕ) (printed user : String)
      → Step s (record s { db = (cancel_job now id printed user s.db).2 })
  retries :
      (now id : ℕ) (print : ℕ → String) (force : Bool)
      → Step s (record s { db = (retry_job now id print force s.db).1 })
  purges :
      (now : ℕ) (locked : ℕ → Bool) (o : PurgeOpts) {n m : ℕ} {db' : Db}
      → purge_jobs now locked o s.db ≡ some (n, m, db')
      → Step s (record s { db = db' })

pub data Reach (s : System) : System → Type 0 where
  here : Reach s s
  then_step : {t u : System} → Reach s t → Step t u → Reach s u

-- an empty table and idle workers
unfoldable pub empty : System
empty = record { db = record { jobs = []; next_id = 1 }; workers = λ w. none }
