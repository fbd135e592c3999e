-- ===== src/Jobs/Enqueue.antt =====
-- jobRunAfter and Enqueue of internal/engine/jobs.go, and checkActingUser of
-- internal/engine/asuser.go. The options come from a dynamic language: each is given here as the
-- code reads it.
use ddcore.Common.{
  ◌≡◌, subst, ℕ, zero, suc, ◌+◌, String, Bool, ◌&&◌, Option, none, some, [], ◌∷◌, ◌++◌,
  if◌then◌else◌, str_eq, find, any,
}
use ddcore.Cerr.{Error, validation, permission}
pub use ddcore.Cerr.{Result, ok, err, ◌>>=◌}
use ddcore.Jobs.{
  queued, is_queued, Backoff, fixed, exponential, Job, Db, default_job_timeout, same_key,
}

-- An option that should be a text: not given (or null), a text, or another value.
pub data TextOption : Type 0 where
  absent other : TextOption
  text : String → TextOption

-- runAfter: its text, with the moment that it names if it can be read; runAfterSeconds: the wait in microseconds, if
-- it is a finite number that is not negative. `timeout` and `max_attempts` are int(toFloat(v)),
-- with 0 for a negative number, which the code treats as 0.
pub record Options : Type 0 where
  pub queue : TextOption
  pub run_after : Option (String × Option ℕ)
  pub run_after_seconds : Option (Option ℕ)
  pub timeout : Option ℕ
  pub max_attempts : Option ℕ
  pub backoff : TextOption
  pub on_start : TextOption
  pub on_failure : TextOption
  pub unique_key : TextOption
  pub run_as : TextOption

abbrev pub job_run_after : Option (String × Option ℕ) → Option (Option ℕ) → ℕ → Result ℕ
job_run_after (some _) (some _) now =
    err (validation "enqueue: give runAfter or runAfterSeconds, not both" [])
job_run_after (some (given, none)) none now =
    err (validation "enqueue: runAfter is not a date and time: {0}" (given ∷ []))
job_run_after (some (given, some t)) none now = ok t
job_run_after none (some none) now =
    err (validation "enqueue: runAfterSeconds must be a number of seconds, zero or more" [])
job_run_after none (some (some wait)) now = ok (now + wait)
job_run_after none none now = ok now

abbrev pub queue_of : TextOption → String
queue_of (text q) = if str_eq q "" then "default" else q
queue_of _ = "default"

abbrev pub positive_or : Option ℕ → ℕ → ℕ
positive_or (some (suc n)) d = suc n
positive_or _ d = d

abbrev pub backoff_of : TextOption → Result Backoff
backoff_of (text v) =
    if str_eq v ""
    then ok fixed
    else if str_eq v "fixed"
    then ok fixed
    else if str_eq v "exponential"
    then ok exponential
    else err (validation "enqueue: backoff must be {0} or {1}" ("fixed" ∷ "exponential" ∷ []))
backoff_of _ = ok fixed

-- NULLIF(x, '')
abbrev pub nullif : String → Option String
nullif s = if str_eq s "" then none else some s

abbrev pub hook_of : String → TextOption → Result (Option String)
hook_of k absent = ok none
hook_of k other = err (validation "enqueue: {0} must be a method path" (k ∷ []))
hook_of k (text s) = ok (nullif s)

abbrev pub unique_key_of : TextOption → Result (Option String)
unique_key_of absent = ok none
unique_key_of other = err (validation "enqueue: uniqueKey must be a non-empty string" [])
unique_key_of (text s) =
    if str_eq s ""
    then err (validation "enqueue: uniqueKey must be a non-empty string" [])
    else ok (some s)

-- The users of the site: `none` for one that does not exist, else whether it is enabled, where a
-- NULL `enabled` counts as enabled.
abbrev pub Users : Type 0
Users = String → Option Bool

abbrev pub check_acting_user : Users → String → Result (Unit {0})
check_acting_user users user =
    if str_eq user ""
    then err (validation "runAs needs a user" [])
    else if str_eq user "Admin"
    then ok tt
    else if str_eq user "Guest"
    then ok tt
    else elim (users user) [
      | none ↦ err (validation "runAs: user {0} does not exist" (user ∷ []))
      | some enabled ↦
          if enabled then ok tt else err (permission "runAs: user {0} is disabled" (user ∷ []))
    ]

abbrev pub run_as_of : Users → TextOption → Result (Option String)
run_as_of users absent = ok none
run_as_of users other = err (validation "enqueue: runAs must be a user" [])
run_as_of users (text s) =
    if str_eq s ""
    then err (validation "enqueue: runAs must be a user" [])
    else check_acting_user users s >>= λ _. ok (some s)

-- who enqueues, under which request and in which tenant ('' is the site itself)
pub record Caller : Type 0 where
  pub user : String
  pub request_id : String
  pub tenant : String

-- The row that a valid call inserts; the sequence gives its id.
unfoldable pub job_of : Caller → Users → ℕ → String → String → Options → Result Job
job_of caller users now method args opts = do
  run_after ← job_run_after opts.run_after opts.run_after_seconds now
  backoff ← backoff_of opts.backoff
  on_start ← hook_of "onStart" opts.on_start
  on_failure ← hook_of "onFailure" opts.on_failure
  unique_key ← unique_key_of opts.unique_key
  run_as ← run_as_of users opts.run_as
  ok (record {
    id = 0;
    method = method;
    args = args;
    queue = queue_of opts.queue;
    user = caller.user;
    status = queued;
    run_after = run_after;
    started = none;
    finished = none;
    attempts = 0;
    max_attempts = positive_or opts.max_attempts 3;
    error = none;
    result = none;
    lease_until = none;
    timeout_seconds = positive_or opts.timeout default_job_timeout;
    request_id = nullif caller.request_id;
    cancel_requested = none;
    cancelled_by = none;
    retry_of = none;
    retried_as = none;
    backoff = backoff;
    on_start = on_start;
    on_failure = on_failure;
    unique_key = unique_key;
    run_as = run_as;
    starts = 0;
    tenant = caller.tenant;
  })

-- the queued row under the new row's key, which ON CONFLICT … DO NOTHING meets
abbrev pub holds_key : Job → Job → Bool
holds_key row j =
    is_queued j.status && (str_eq j.tenant row.tenant && same_key row.unique_key j.unique_key)

-- INSERT … ON CONFLICT DO NOTHING RETURNING id: the sequence moves on a conflict too.
unfoldable pub insert : Job → Db → Option ℕ × Db
insert row db =
    if any (holds_key row) db.jobs then (none, record db { next_id = db.next_id + 1 }) else (
      some db.next_id,
      record { jobs = db.jobs ++ record row { id = db.next_id } ∷ []; next_id = db.next_id + 1 },
    )

-- What Enqueue returns: an id, an error, or pgx.ErrNoRows after five rounds.
pub data Enqueued : Type 0 where
  job_id : ℕ → Enqueued
  refused : Error → Enqueued
  no_rows : Enqueued

-- The end of a round: the id inserted or, after what other transactions commit meanwhile, the id
-- of the row that holds the key, or another round.
abbrev pub answered : (Db → Enqueued × Db) → (Db → Db) → Job → Option ℕ × Db → Enqueued × Db
answered again meanwhile row (some k, db) = (job_id k, db)
answered again meanwhile row (none, db) =
    let db' = meanwhile db in
    let next = again db' in
    elim (find (holds_key row) db'.jobs) [ some j ↦ (job_id j.id, db') | none ↦ next ]

-- A round is the insert, what other transactions commit before the lookup (`between`, by the
-- rounds that are left), and the lookup of the row that holds the key.
unfoldable pub enqueue_rounds : ℕ → (ℕ → Db → Db) → Job → Db → Enqueued × Db
enqueue_rounds zero between row db = (no_rows, db)
enqueue_rounds (suc n) between row db =
    answered (enqueue_rounds n between row) (between n) row (insert row db)

-- `paused` is checkWritable(""): the error of a site in maintenance. Five rounds are made.
unfoldable pub enqueue :
    Option Error
    → Caller
    → Users
    → (ℕ → Db → Db)
    → ℕ
    → String
    → String
    → Options
    → Db
    → Enqueued × Db
enqueue paused caller users between now method args opts db =
    if str_eq method ""
    then (refused (validation "enqueue: provide the method" []), db)
    else elim paused [
      | some e ↦ (refused e, db)
      | none ↦ elim (job_of caller users now method args opts) [
        | err e ↦ (refused e, db)
        | ok row ↦ enqueue_rounds 5 between row db
      ]
    ]

-- What holds of the value, if there is one.
pub record Yields {ℓ} {A : Type ℓ} (P : A → Type ℓ) (r : Result A) : Type ℓ where
  pub at : (a : A) → r ≡ ok a → P a

ok_eq {ℓ} : {A : Type ℓ} {x y : A} → ok x ≡ ok y → x ≡ y
ok_eq h = cc

module _ {ℓ} {A : Type ℓ} {P : A → Type ℓ} where
  pub Yields-ok : {a : A} → P a → Yields P (ok a)
  Yields-ok p = record { at = λ b e. subst P (ok_eq e) p }

  pub Yields-err : (e : Error) → Yields P (err e)
  Yields-err e = record { at = λ b h. cc }

  pub Yields-bind {μ} :
      {B : Type μ} (m : Result B) {f : B → Result A}
      → ((b : B) → Yields P (f b))
      → Yields P (m >>= f)
  Yields-bind (ok b) h = h b
  Yields-bind (err x) h = Yields-err x
