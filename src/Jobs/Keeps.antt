-- ===== src/Jobs/Keeps.antt =====
-- The steps of the queue of internal/engine/jobs.go against the invariant of Jobs/Invariant.
use ddcore.Common.{
  ℕ, ◌+◌, ◌≤◌, ◌≡◌, refl, subst, Bool, true, Option, some, none, arith, Bool-cases, Option-cases,
  inl, inr, All-map, All-find, find, update_where, any, not, ◌&&◌, ◌||◌, is_some, ◌==◌, String,
}
use ddcore.Jobs.{is_queued, is_running, is_unfinished, job_lease, Job, Db, unique_ok, commit, fence}
use ddcore.Jobs.Enqueue.{
  Caller, Users, Options, ok, job_of, insert, Yields, Yields-ok, Yields-bind, job_run_after,
  backoff_of, hook_of, unique_key_of, run_as_of, holds_key,
}
use ddcore.Jobs.Sweep.{requeue_stale, stale, sweep}
use ddcore.Jobs.Work.{renew, Report}
use ddcore.Jobs.Admin.{cancel_job, retry_job, ask_cancel, copy_of}
use ddcore.Jobs.Sound.{IsSound, sweep-IsSound, ask_cancel-IsSound, copy_of-IsSound}
use ddcore.Jobs.Invariant.{Agrees, Inv, IsWrite, update-Inv, bump-Inv, append-Inv, with_jobs}
use ddcore.Jobs.Steps.{System}

-- a write that keeps the ids and the limits, and takes no attempt back, keeps every claim
module _ (s : System) (i : Inv s) (p : Job → Bool) (f : Job → Job) where
  pub grows-IsWrite :
      ((j : Job) → (f j).id ≡ j.id)
      → ((j : Job) → (j.attempts ≤ (f j).attempts) × ((f j).max_attempts ≡ j.max_attempts))
      → ((j : Job) → IsSound j → p j ≡ true → IsSound (f j))
      → IsWrite s p f
  grows-IsWrite same grows sound = record {
    same_id = same;
    sound_kept = All-map IsSound (λ j. p j ≡ true → IsSound (f j)) sound s.db.jobs i.sound;
    claims_kept = λ w c e.
        All-map (Agrees c) (λ j. p j ≡ true → Agrees c (f j))
          (λ j a t. ground (arith, same j, grows j)) s.db.jobs (i.held w c e).agrees;
  }

-- A new row is sound.
pub job_of-IsSound :
    (caller : Caller) (users : Users) (now : ℕ) (method args : String) (opts : Options) {row : Job}
    (id : ℕ)
    → job_of caller users now method args opts ≡ ok row
    → IsSound (record row { id = id })
unfolding job_of
job_of-IsSound caller users now method args opts {row} id h = made.at row h
  where
    Sound : Job → Type 0
    Sound j = IsSound (record j { id = id })

    made : Yields Sound (job_of caller users now method args opts)
    made = Yields-bind (job_run_after opts.run_after opts.run_after_seconds now) λ run_after.
        Yields-bind (backoff_of opts.backoff) λ backoff.
          Yields-bind (hook_of "onStart" opts.on_start) λ on_start.
            Yields-bind (hook_of "onFailure" opts.on_failure) λ on_failure.
              Yields-bind (unique_key_of opts.unique_key) λ unique_key.
                Yields-bind (run_as_of users opts.run_as) λ run_as. Yields-ok (ground arith)

pub insert-Inv :
    {s : System} (i : Inv s) (row : Job)
    → ((id : ℕ) → IsSound (record row { id = id }))
    → Inv (record s { db = (insert row s.db).1 })
unfolding insert
insert-Inv {s} i row sound = elim (Bool-cases (any (holds_key row) s.db.jobs)) [
  | inl t ↦ rw t (bump-Inv i)
  | inr t ↦ rw t (append-Inv i (record row { id = s.db.next_id }) (sound s.db.next_id) refl)
]

abbrev leased_to : ℕ → Job → Job
leased_to now j = record j { lease_until = some (now + job_lease) }

pub renew-Inv :
    {s : System} (i : Inv s) (now id attempt : ℕ)
    → Inv (record s { db = (renew now id attempt s.db).1 })
unfolding renew
renew-Inv {s} i now id attempt =
    let written : Inv (with_jobs s (update_where (fence id attempt) (leased_to now) s.db.jobs)) =
      update-Inv i (fence id attempt) (leased_to now) (
        grows-IsWrite s i _ (leased_to now) (λ j. refl) (λ j. omega arith)
          (λ j h t. ground arith)) in
    elim (Option-cases (find (fence id attempt) s.db.jobs)) [
      | inl e ↦ rw (e, renew) i
      | inr (j, e) ↦ elim (Bool-cases (is_some j.cancel_requested)) [
        | inl t ↦ rw (e, t, renew) written
        | inr t ↦ rw (e, t, renew) written
      ]
    ]

stale-running : (now : ℕ) (j : Job) → stale now j ≡ true → is_running j.status ≡ true
stale-running now j h = ground arith

swept_db :
    {r r' : Report} {d d' : Db}
    → ◌≡◌ {A = Option (Report × Db)} (some (r, d)) (some (r', d'))
    → d ≡ d'
swept_db h = cc

none_swept : {x : Report × Db} → ◌≡◌ {A = Option (Report × Db)} none (some x) → ⊥
none_swept h = cc

pub requeue_stale-Inv :
    {s : System} (i : Inv s) (now : ℕ) {r : Report} {db' : Db}
    → requeue_stale now s.db ≡ some (r, db')
    → Inv (record s { db = db' })
unfolding requeue_stale commit
requeue_stale-Inv {s} i now h =
    let written : Inv (with_jobs s (update_where (stale now) (sweep now) s.db.jobs)) =
      update-Inv i (stale now) (sweep now) (
        grows-IsWrite s i (stale now) (sweep now) (λ j. refl) (λ j. omega arith)
          (λ j k t. sweep-IsSound j k now (stale-running now j t))) in
    elim (Bool-cases (unique_ok (update_where (stale now) (sweep now) s.db.jobs))) [
      | inl t ↦
          subst (λ d. Inv (record s { db = d })) (swept_db (rw (t, requeue_stale) at h)) written
      | inr t ↦ absurd (none_swept (rw (t, requeue_stale) at h))
    ]

pub cancel_job-Inv :
    {s : System} (i : Inv s) (now id : ℕ) (printed user : String)
    → Inv (record s { db = (cancel_job now id printed user s.db).2 })
unfolding cancel_job
cancel_job-Inv {s} i now id printed user =
    let asked : Inv (with_jobs s (update_where (λ r. r.id == id) (ask_cancel now user) s.db.jobs)) =
      update-Inv i (λ r. r.id == id) (ask_cancel now user)
        (grows-IsWrite s i _ (ask_cancel now user) (λ j. refl) (λ j. omega arith)
          (λ j k t. ask_cancel-IsSound j k now user)) in
    elim (Option-cases (find (λ (j : Job). j.id == id) s.db.jobs)) [
      | inl e ↦ rw (e, cancel_job) i
      | inr (j, e) ↦ elim (Bool-cases (is_queued j.status)) [
        | inl q ↦ rw (e, q, cancel_job) asked
        | inr q ↦ elim (Bool-cases (is_running j.status)) [
          | inl r ↦ rw (e, q, r, cancel_job) asked
          | inr r ↦ rw (e, q, r, cancel_job) i
        ]
      ]
    ]

abbrev marked : ℕ → Job → Job
marked n r = record r { retried_as = some n }

pub retry_job-Inv :
    {s : System} (i : Inv s) (now id : ℕ) (print : ℕ → String) (force : Bool)
    → Inv (record s { db = (retry_job now id print force s.db).1 })
unfolding retry_job
retry_job-Inv {s} i now id print force =
    elim (Option-cases (find (λ (j : Job). j.id == id) s.db.jobs)) [
      | inl e ↦ rw (e, retry_job) i
      | inr (j, e) ↦
          elim (Bool-cases (is_unfinished j.status && (force || not (is_some j.retried_as)))) [
            | inl t ↦
                let copied =
                  append-Inv i (copy_of now s.db.next_id j)
                    (copy_of-IsSound j (All-find IsSound _ s.db.jobs i.sound e).0 now s.db.next_id)
                    refl in
                rw (e, t, retry_job)
                  (update-Inv copied (λ r. r.id == id) (marked s.db.next_id)
                    (grows-IsWrite _ copied _ (marked s.db.next_id) (λ r. refl) (λ r. omega arith)
                      (λ r k m. ground arith)))
            | inr t ↦ rw (e, t, retry_job) i
          ]
    ]
