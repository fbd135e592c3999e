-- ===== src/Jobs/Stuck.antt =====
-- What a cancellation and a key mean for a job that goes back to the queue, in
-- internal/engine/jobs.go.
use ddcore.Common.{
  ℕ, suc, ◌+◌, ◌<◌, ◌≡◌, refl, Bool, true, false, some, none, List, [], ◌∷◌, ◌++◌, if◌then◌else◌,
  arith, String, find, find-any, any, is_some, update_where, subst, sym, ap, eq_iff,
}
use ddcore.Jobs.{queued, is_running, Job, Db, commit, unique_ok, clashes}
use ddcore.Jobs.Enqueue.{Enqueued, job_id, answered, enqueue_rounds, insert, holds_key}
use ddcore.Jobs.Queues.{QueueFilter}
use ddcore.Jobs.Sweep.{requeue_stale, stale, sweep}
use ddcore.Jobs.Work.{claimable, give_back, to_failed}

-- A row whose cancellation was asked for is never claimable, whatever its status.
asked_unclaimable :
    (now : ℕ) (enabled : String → Bool) (locked : ℕ → Bool) (queues : QueueFilter) (j : Job)
    → is_some j.cancel_requested ≡ true
    → claimable now enabled locked queues j ≡ false
asked_unclaimable now enabled locked queues j h = ground arith

-- Let a running row have attempts left, and let its cancellation have been asked for. The write of
-- a failed attempt and the write that gives an attempt back both make it a queued row that no
-- claim takes, at any time.
pub asked-requeued_stuck :
    (now later : ℕ) (msg : String) (enabled : String → Bool) (locked : ℕ → Bool)
    (queues : QueueFilter) (j : Job)
    → is_running j.status ≡ true
    → is_some j.cancel_requested ≡ true
    → ((to_failed now true msg j).status ≡ queued)
      × (claimable later enabled locked queues (to_failed now true msg j) ≡ false)
      × ((give_back now j).status ≡ queued)
      × (claimable later enabled locked queues (give_back now j) ≡ false)
asked-requeued_stuck now later msg enabled locked queues j r h = ground arith

insert-held :
    (row : Job) (db : Db)
    → any (holds_key row) db.jobs ≡ true
    → insert row db ≡ (none, record db { next_id = db.next_id + 1 })
unfolding insert
insert-held row db h = rw h

insert-free :
    (row : Job) (db : Db)
    → any (holds_key row) db.jobs ≡ false
    → insert row db ≡ (
      some db.next_id,
      record { jobs = db.jobs ++ record row { id = db.next_id } ∷ []; next_id = db.next_id + 1 },
    )
unfolding insert
insert-free row db h = rw h

answered_held :
    (again : Db → Enqueued × Db) (meanwhile : Db → Db) (row : Job) (db : Db) (j : Job)
    → meanwhile db ≡ db
    → find (holds_key row) db.jobs ≡ some j
    → answered again meanwhile row (none, db) ≡ (job_id j.id, db)
answered_held again meanwhile row db j q e =
    subst
      (λ d.
        ◌≡◌ {A = Enqueued × Db}
          (elim (find (holds_key row) d.jobs) [ some k ↦ (job_id k.id, d) | none ↦ again d ])
          (job_id j.id, db))
      (sym q) (rw e refl)

-- While a queued row holds a key and nothing else is committed, an enqueue under that key inserts
-- nothing: it answers with the id of the first row that holds it, in the first of any number of
-- rounds.
pub enqueue-held :
    (rounds : ℕ) (between : ℕ → Db → Db) (row : Job) (db : Db)
    → ((n : ℕ) (d : Db) → between n d ≡ d)
    → any (holds_key row) db.jobs ≡ true
    → (j : Job) × (find (holds_key row) db.jobs ≡ some j)
      × (enqueue_rounds (suc rounds) between row db
          ≡ (job_id j.id, record db { next_id = db.next_id + 1 }))
unfolding enqueue_rounds
enqueue-held rounds between row db quiet h =
    let (j, e, t) = find-any (holds_key row) db.jobs h in (j, e, met j e)
  where
    met :
        (j : Job)
        → find (holds_key row) db.jobs ≡ some j
        → enqueue_rounds (suc rounds) between row db
          ≡ (job_id j.id, record db { next_id = db.next_id + 1 })
    met j e =
        subst
          (λ x.
            answered (enqueue_rounds rounds between row) (between rounds) row x
            ≡ (job_id j.id, record db { next_id = db.next_id + 1 }))
          (sym (insert-held row db h))
          (answered_held (enqueue_rounds rounds between row) (between rounds) row
            (record db { next_id = db.next_id + 1 }) j (quiet rounds _) e)

-- An enqueue under a key that no queued row holds, or under none, inserts the row with the next id
-- in the first round.
pub enqueue-free :
    (rounds : ℕ) (between : ℕ → Db → Db) (row : Job) (db : Db)
    → any (holds_key row) db.jobs ≡ false
    → enqueue_rounds (suc rounds) between row db ≡ (
      job_id db.next_id,
      record { jobs = db.jobs ++ record row { id = db.next_id } ∷ []; next_id = db.next_id + 1 },
    )
unfolding enqueue_rounds
enqueue-free rounds between row db h =
    ap (answered (enqueue_rounds rounds between row) (between rounds) row) (insert-free row db h)

update_where-append :
    (p : Job → Bool) (f : Job → Job) (xs ys : List Job)
    → update_where p f (xs ++ ys) ≡ update_where p f xs ++ update_where p f ys
update_where-append p f [] ys = refl
update_where-append p f (x ∷ xs) ys =
    ap (λ l. (if p x then f x else x) ∷ l) (update_where-append p f xs ys)

any-middle :
    (p : Job → Bool) (xs : List Job) (y : Job) (ys : List Job)
    → p y ≡ true
    → any p (xs ++ y ∷ ys) ≡ true
any-middle p [] y ys h = rw h
any-middle p (x ∷ xs) y ys h = ground (arith, any-middle p xs y ys h)

not_unique :
    (before : List Job) (x : Job) (between : List Job) (y : Job) (after : List Job)
    → clashes x y ≡ true
    → unique_ok (before ++ x ∷ (between ++ y ∷ after)) ≡ false
unfolding unique_ok
not_unique [] x between y after h = rw (any-middle (clashes x) between y after h)
not_unique (b ∷ before) x between y after h = ground (arith, not_unique before x between y after h)

swept_clash :
    (now : ℕ) (lost held : Job)
    → stale now lost ≡ true
    → lost.cancel_requested ≡ none
    → lost.attempts < lost.max_attempts
    → holds_key lost held ≡ true
    → clashes (sweep now lost) held ≡ true
unfolding clashes
swept_clash now lost held st unasked left key =
    ground (arith, eq_iff lost.tenant held.tenant, eq_iff held.tenant lost.tenant)

queued_not_stale : (now : ℕ) (row held : Job) → holds_key row held ≡ true → stale now held ≡ false
queued_not_stale now row held h = ground arith

-- Let a stale row have attempts left and no cancellation asked for, and let a later row be queued
-- under its tenant and key. Then the sweep's one statement breaks the unique index and fails: no
-- row of the site is swept.
pub requeue_stale-clash :
    (now : ℕ) (db : Db) (before : List Job) (lost : Job) (between : List Job) (held : Job)
    (after : List Job)
    → db.jobs ≡ before ++ lost ∷ (between ++ held ∷ after)
    → stale now lost ≡ true
    → lost.cancel_requested ≡ none
    → lost.attempts < lost.max_attempts
    → holds_key lost held ≡ true
    → requeue_stale now db ≡ none
unfolding requeue_stale commit
requeue_stale-clash now db before lost between held after e st unasked left key =
    let held_stays : stale now held ≡ false = queued_not_stale now lost held key in
    let there : update_where (stale now) (sweep now) db.jobs
        ≡ update_where (stale now) (sweep now) before
          ++ sweep now lost
            ∷ (update_where (stale now) (sweep now) between
                ++ held ∷ update_where (stale now) (sweep now) after) =
      rw (e, update_where-append (stale now) (sweep now) before _)
        (rw (st, update_where-append (stale now) (sweep now) between _, held_stays) refl) in
    let broken =
      not_unique (update_where (stale now) (sweep now) before) (sweep now lost)
        (update_where (stale now) (sweep now) between) held
        (update_where (stale now) (sweep now) after)
        (swept_clash now lost held st unasked left key) in
    rw (there, broken, requeue_stale) refl
