-- ===== src/Jobs/Exclusion.antt =====
-- Runs of the queue of internal/engine/jobs.go, and two workers of one job.
use ddcore.Common.{
  ℕ, zero, suc, ◌≡◌, ◌≢◌, sym, ap, subst, Bool, true, false, Option, some, none, List, arith,
  Bool-cases, Option-cases, inl, inr, All, All-find, find-any, update_where, update_where-none, any,
  length, not, ◌&&◌,
}
use ddcore.Jobs.{Status, is_done, is_unfinished, Job, Db, commit, unique_ok, fence}
use ddcore.Jobs.Work.{
  Claim, claimable, Branch, success, cancel, given_back, failure, branch, finish, write_or_log,
}
use ddcore.Jobs.Admin.{PurgeOpts, purge_jobs, then_purge, purge, purge_rounds, expired, purge_batch}
use ddcore.Jobs.Sound.{IsSound}
use ddcore.Jobs.Ids.{Sorted, find_unique, purge_rounds_keep, All-delete_batch, delete_batch-Sorted}
use ddcore.Jobs.Invariant.{Inv, drop-Inv, delete-Inv}
use ddcore.Jobs.Keeps.{
  job_of-IsSound, insert-Inv, renew-Inv, requeue_stale-Inv, cancel_job-Inv, retry_job-Inv,
}
use ddcore.Jobs.Claiming.{claim_lem, claim-Inv}
use ddcore.Jobs.Ending.{finish-Inv}
use ddcore.Jobs.Steps.{
  System, put, Step, enqueues, claims, renews, ends, dies, sweeps, cancels, retries, purges, Reach,
  here, then_step, empty,
}

right_of : {n m : ℕ} {d d' : Db} → ◌≡◌ {A = Option (ℕ × Db)} (some (n, d)) (some (m, d')) → d ≡ d'
right_of h = cc

no_purge : {x : ℕ × Db} → ◌≡◌ {A = Option (ℕ × Db)} none (some x) → ⊥
no_purge h = cc

abbrev goes : ℕ → (ℕ → Bool) → (Status → Bool) → ℕ → Job → Bool
goes now locked statuses days j = expired statuses now (suc days) j && not (locked j.id)

purge-Inv :
    {s : System} (i : Inv s) (now : ℕ) (locked : ℕ → Bool) (statuses : Status → Bool) (days : ℕ)
    (dry : Bool) {n : ℕ} {db' : Db}
    → purge now locked statuses days dry s.db ≡ some (n, db')
    → Inv (record s { db = db' })
unfolding purge
purge-Inv {s} i now locked statuses zero dry h =
    subst (λ d. Inv (record s { db = d })) (right_of h) i
purge-Inv {s} i now locked statuses (suc days) true h =
    subst (λ d. Inv (record s { db = d })) (right_of h) i
purge-Inv {s} i now locked statuses (suc days) false h =
    elim (Option-cases (
      purge_rounds (suc (length s.db.jobs)) purge_batch (goes now locked statuses days) s.db.jobs
        0)) [
          | inl e ↦ absurd (no_purge (rw (e, purge) at h))
          | inr ((js, k), e) ↦
              subst (λ d. Inv (record s { db = d })) (right_of (rw (e, purge) at h))
                (delete-Inv i js
                  (purge_rounds_keep Sorted purge_batch (goes now locked statuses days)
                    (delete_batch-Sorted purge_batch (goes now locked statuses days))
                    (suc (length s.db.jobs)) s.db.jobs 0 i.ordered.sorted e)
                  (λ P h'.
                    purge_rounds_keep (All P) purge_batch (goes now locked statuses days)
                      (All-delete_batch P purge_batch (goes now locked statuses days))
                      (suc (length s.db.jobs)) s.db.jobs 0 h' e))
        ]

three :
    {a b a' b' : ℕ} {d d' : Db}
    → ◌≡◌ {A = Option (ℕ × ℕ × Db)} (some (a, b, d)) (some (a', b', d'))
    → d ≡ d'
three h = cc

no_three : {x : ℕ × ℕ × Db} → ◌≡◌ {A = Option (ℕ × ℕ × Db)} none (some x) → ⊥
no_three h = cc

purge_jobs-Inv :
    {s : System} (i : Inv s) (now : ℕ) (locked : ℕ → Bool) (o : PurgeOpts) {n m : ℕ} {db' : Db}
    → purge_jobs now locked o s.db ≡ some (n, m, db')
    → Inv (record s { db = db' })
unfolding purge_jobs
purge_jobs-Inv {s} i now locked o h =
    elim (Option-cases (purge now locked is_done o.done_days o.dry_run s.db)) [
      | inl e ↦ absurd (no_three (rw (e, purge_jobs) at h))
      | inr ((k, db), e) ↦
          elim (Option-cases (purge now locked is_unfinished o.failed_days o.dry_run db)) [
            | inl e' ↦ absurd (no_three (rw (e, purge_jobs, e', then_purge) at h))
            | inr ((k', db''), e') ↦
                subst (λ d. Inv (record s { db = d }))
                  (three (rw (e, purge_jobs, e', then_purge) at h))
                  (purge-Inv (purge-Inv i now locked is_done o.done_days o.dry_run e) now locked
                    is_unfinished o.failed_days o.dry_run e')
          ]
    ]

-- Every step of the queue keeps the invariant.
pub Step-Inv : {s t : System} → Step s t → Inv s → Inv t
Step-Inv (enqueues caller users now method args opts h) i =
    insert-Inv i _ (λ id. job_of-IsSound caller users now method args opts id h)
Step-Inv {s} (claims w now stopped enabled locked queues {c} idle h) i =
    let k = claim_lem stopped now enabled locked queues _ h in
    subst (λ d. Inv (record { db = d; workers = put w (some c) s.workers })) (sym k.written)
      (claim-Inv i w now (claimable now enabled locked queues) c (λ j t. ground arith) k.picked
        k.attempt_next)
Step-Inv (renews w now e) i = renew-Inv i now _ _
Step-Inv (ends w now e h) i = finish-Inv i w now e.timed_out (branch e) h
Step-Inv (dies w) i = drop-Inv i w
Step-Inv (sweeps now h) i = requeue_stale-Inv i now h
Step-Inv (cancels now id printed user) i = cancel_job-Inv i now id printed user
Step-Inv (retries now id print force) i = retry_job-Inv i now id print force
Step-Inv (purges now locked o h) i = purge_jobs-Inv i now locked o h

pub empty-Inv : Inv empty
unfolding empty
empty-Inv = record {
  ordered = record { sorted = tt; below = tt };
  sound = tt;
  held = λ w c e. absurd (nobody e);
  distinct = λ w v c d ne e k. absurd (nobody e);
}
  where
    nobody : {c : Claim} → ◌≡◌ {A = Option Claim} none (some c) → ⊥
    nobody h = cc

pub Reach-Inv : {s t : System} → Inv s → Reach s t → Inv t
Reach-Inv i here = i
Reach-Inv i (then_step r st) = Step-Inv st (Reach-Inv i r)

-- Whatever the processes have done since the table was empty, every row of ddcore_job is sound:
-- its attempts stay within max_attempts and starts, a queued row has attempts left and neither
-- lease nor finish, a running row has a lease and no finish, and a row that is done, failed or
-- cancelled has a finish and no lease.
pub reachable-IsSound : {s : System} → Reach empty s → All IsSound s.db.jobs
reachable-IsSound r = (Reach-Inv empty-Inv r).sound

same_attempt :
    (id a b : ℕ) (js : List Job)
    → Sorted js
    → any (fence id a) js ≡ true
    → any (fence id b) js ≡ true
    → a ≡ b
same_attempt id a b js sorted h k =
    let (j, e, t) = find-any (fence id a) js h in
    let (j', e', t') = find-any (fence id b) js k in
    let same =
      (All-find (λ r. r.id ≡ j.id → r ≡ j) (fence id b) js (find_unique (fence id a) js sorted e)
        e').0 in
    ground (arith, ap (λ (x : Job). x.attempts) (same (ground arith)))

write_or_log-none :
    (p : Job → Bool) (f : Job → Job) (db : Db) → any p db.jobs ≡ false → write_or_log p f db ≡ db
unfolding commit
write_or_log-none p f db h = elim (Bool-cases (unique_ok (update_where p f db.jobs))) [
  | inl t ↦
      rw (write_or_log, t) (ap (λ js. record db { jobs = js }) (update_where-none p f db.jobs h))
  | inr t ↦ rw (write_or_log, t)
]

-- The write that ends a run is fenced on its attempt: where the job is not running under that
-- attempt any more, no ending changes the table.
pub finish_fenced :
    (now : ℕ) (c : Claim) (timed_out : Bool) (b : Branch) (db : Db)
    → any (fence c.row.id c.attempt) db.jobs ≡ false
    → (finish now c timed_out b db).1 ≡ db
unfolding finish
finish_fenced now c timed_out (success res) db h = write_or_log-none _ _ db h
finish_fenced now c timed_out cancel db h = write_or_log-none _ _ db h
finish_fenced now c timed_out given_back db h = write_or_log-none _ _ db h
finish_fenced now c timed_out (failure msg) db h = write_or_log-none _ _ db h

-- In a queue that any interleaving of processes has reached, let two workers hold claims of one
-- job, and let the job be running under the claim of the second. However the first one's run ends,
-- its write changes nothing.
pub overtaken-finish :
    {s : System}
    → Reach empty s
    → (w v : ℕ) (c d : Claim) → w ≢ v
    → s.workers w ≡ some c
    → s.workers v ≡ some d
    → c.row.id ≡ d.row.id
    → any (fence d.row.id d.attempt) s.db.jobs ≡ true
    → (now : ℕ) (timed_out : Bool) (b : Branch) → (finish now c timed_out b s.db).1 ≡ s.db
overtaken-finish {s} r w v c d ne e k same owned now timed_out b =
    elim (Bool-cases (any (fence c.row.id c.attempt) s.db.jobs)) [
      | inl t ↦ absurd (
          i.distinct w v c d ne e k same (
            same_attempt d.row.id c.attempt d.attempt s.db.jobs i.ordered.sorted
              (subst (λ n. any (fence n c.attempt) s.db.jobs ≡ true) same t) owned))
      | inr t ↦ finish_fenced now c timed_out b s.db t
    ]
  where
    i : Inv s
    i = Reach-Inv empty-Inv r
