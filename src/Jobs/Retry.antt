-- ===== src/Jobs/Retry.antt =====
-- RetryJob of internal/engine/jobs_admin.go, once and again.
use ddcore.Common.{
  ℕ, ◌+◌, ◌≡◌, Bool, true, false, some, List, [], ◌∷◌, ◌++◌, if◌then◌else◌, arith, String, find,
  is_some, not, ◌&&◌, ◌||◌, ◌==◌, update_where, subst, sym, ap, Bool-cases, Option-cases, inl, inr,
}
use ddcore.Cerr.{Error}
use ddcore.Jobs.{is_unfinished, Job, Db}
use ddcore.Jobs.Admin.{Action, retried_as, refused, retry_job, retry_refusal, copy_of}

abbrev has_id : ℕ → Job → Bool
has_id id j = j.id == id

abbrev mark : ℕ → Job → Job
mark n j = record j { retried_as = some n }

some_eq : {x j : Job} → some x ≡ some j → x ≡ j
some_eq h = cc

-- the row with an id is still the first with it when it has been marked, and rows were appended
find-marked :
    (id n : ℕ) (js ys : List Job) {j : Job}
    → find (has_id id) js ≡ some j
    → find (has_id id) (update_where (has_id id) (mark n) (js ++ ys)) ≡ some (mark n j)
find-marked id n [] ys h = cc
find-marked id n (x ∷ js) ys {j} h = elim (Bool-cases (has_id id x)) [
  | inl t ↦ let same : x ≡ j = some_eq (rw t at h) in rw t (rw t (ap (λ r. some (mark n r)) same))
  | inr t ↦ rw t (rw t (find-marked id n js ys (rw t at h)))
]

abbrev retried_db : ℕ → ℕ → Job → Db → Db
retried_db now id j db = record {
  jobs = update_where (has_id id) (mark db.next_id) (db.jobs ++ copy_of now db.next_id j ∷ []);
  next_id = db.next_id + 1;
}

-- the database after a retry that was made
retry_made :
    (now id : ℕ) (print : ℕ → String) (force : Bool) (db : Db) {n : ℕ} {db' : Db}
    → retry_job now id print force db ≡ (retried_as n, db')
    → (j : Job) × (find (has_id id) db.jobs ≡ some j) × (db' ≡ retried_db now id j db)
unfolding retry_job
retry_made now id print force db {n} {db'} h = elim (Option-cases (find (has_id id) db.jobs)) [
  | inl e ↦ absurd (not_refused (rw (e, retry_job) at h))
  | inr (j, e) ↦ (
    j,
    e,
    made j (is_unfinished j.status && (force || not (is_some j.retried_as)))
        (rw (e, retry_job) at h),
  )
]
  where
    not_refused :
        {e : Error} {d : Db} {m : ℕ} {d' : Db}
        → ◌≡◌ {A = Action × Db} (refused e, d) (retried_as m, d')
        → ⊥
    not_refused k = ground arith

    made :
        (j : Job) (b : Bool)
        → ◌≡◌ {A = Action × Db}
            (if b
              then (retried_as db.next_id, retried_db now id j db)
              else (refused (retry_refusal (print id) print j), db))
            (retried_as n, db')
        → db' ≡ retried_db now id j db
    made j true k = ground arith
    made j false k = absurd (not_refused k)

-- A row that was retried once is refused an unforced retry.
refused_again :
    (later id n : ℕ) (print : ℕ → String) (db : Db) (j : Job)
    → find (has_id id) db.jobs ≡ some (mark n j)
    → retry_job later id print false db ≡ (refused (retry_refusal (print id) print (mark n j)), db)
unfolding retry_job
refused_again later id n print db j e = rw (e, retry_job) (ground arith)

-- After a retry, a second one that is not forced is refused and changes nothing.
pub retry_job_once :
    (now later id : ℕ) (print : ℕ → String) (force : Bool) (db : Db) {n : ℕ} {db' : Db}
    → retry_job now id print force db ≡ (retried_as n, db')
    → (e : Error) × (retry_job later id print false db' ≡ (refused e, db'))
unfolding retry_job
retry_job_once now later id print force db {n} {db'} h =
    let (j, e, made) = retry_made now id print force db h in
    (
      retry_refusal (print id) print (mark db.next_id j),
      refused_again later id db.next_id print db' j (
          subst (λ d. find (has_id id) d.jobs ≡ some (mark db.next_id j)) (sym made)
            (find-marked id db.next_id db.jobs (copy_of now db.next_id j ∷ []) e)),
    )
