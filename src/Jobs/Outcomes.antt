-- ===== src/Jobs/Outcomes.antt =====
-- retryDelaySQL, requeueStale and the claim of internal/engine/jobs.go.
use native.Mathlib.Nat.{pow-suc}
use ddcore.Common.{
  ℕ, zero, suc, ◌+◌, ◌-◌, ◌*◌, ◌^◌, ◌≤◌, ◌<◌, ◌≡◌, ◌⊎◌, inl, inr, Bool, true, some, none, List, [],
  ◌∷◌, arith, Bool-cases, String, All, All-find, find, is_some, subst,
}
use ddcore.Jobs.{
  queued, failed, cancelled, Backoff, fixed, exponential, Job, Db, second, retry_delay,
}
use ddcore.Jobs.Queues.{QueueFilter}
use ddcore.Jobs.Sweep.{stale, sweep}
use ddcore.Jobs.Work.{Claim, claim, claimable}
use ddcore.Jobs.Sound.{IsSound}
use ddcore.Jobs.Ids.{Sorted}
use ddcore.Jobs.Claiming.{claim_lem}
use ddcore.Jobs.Steps.{System, empty, Reach}
use ddcore.Jobs.Exclusion.{Reach-Inv, empty-Inv}

doubles : (n : ℕ) → 2 ^ suc n ≡ 2 * 2 ^ n
doubles n = simp pow-suc (omega arith)

pos_pow : (n : ℕ) → 1 ≤ 2 ^ n
pos_pow zero = omega arith
pos_pow (suc n) = omega (arith, doubles n, pos_pow n)

-- A retry waits between thirty seconds and an hour, whatever the backoff; and another attempt
-- never shortens the wait.
pub retry_delay_bounds :
    (b : Backoff) (attempts : ℕ)
    → (30 * second ≤ retry_delay b attempts)
      × (retry_delay b attempts ≤ 3600 * second)
      × (retry_delay b attempts ≤ retry_delay b (attempts + 1))
unfolding retry_delay
retry_delay_bounds fixed attempts = omega arith
retry_delay_bounds exponential zero = omega arith
retry_delay_bounds exponential (suc n) =
    let this : suc n - 1 ≡ n = omega arith in
    let next : suc n + 1 - 1 ≡ suc n = omega arith in
    rw (this, next) (omega (arith, doubles n, pos_pow n))

-- What a sweep makes of a stale row: a row whose cancellation was asked for is cancelled, however
-- many attempts it has left; any other goes back to the queue, later than now, exactly if it has
-- attempts left, and has failed otherwise. No attempt is taken or given, and none runs any more.
pub sweep_outcome :
    (now : ℕ) (j : Job)
    → IsSound j
    → stale now j ≡ true
    → ((is_some j.cancel_requested ≡ true) × ((sweep now j).status ≡ cancelled)
        ⊎ (j.cancel_requested ≡ none)
          × (j.attempts < j.max_attempts)
          × ((sweep now j).status ≡ queued)
          × (now < (sweep now j).run_after)
        ⊎ (j.cancel_requested ≡ none)
          × (j.attempts ≡ j.max_attempts)
          × ((sweep now j).status ≡ failed)
          × ((sweep now j).run_after ≡ j.run_after))
      × ((sweep now j).attempts ≡ j.attempts)
      × ((sweep now j).lease_until ≡ none)
sweep_outcome now j s h = ground (arith, retry_delay_bounds j.backoff j.attempts)

same_id : {x j : Job} → some x ≡ some j → x.id ≡ j.id
same_id h = ground arith

above :
    (n : ℕ) (P : Job → Type 0) (js : List Job)
    → All (λ r. n < r.id) js
    → All (λ r. P r → n ≤ r.id) js
above n P [] h = tt
above n P (x ∷ js) h = (λ _. omega (arith, h.0), above n P js h.1)

-- in a list in order, the first row that fits has the least id of those that fit
find-first :
    (p : Job → Bool) (js : List Job) {j : Job}
    → Sorted js
    → find p js ≡ some j
    → All (λ r. p r ≡ true → j.id ≤ r.id) js
find-first p [] s e = tt
find-first p (x ∷ js) {j} s e = elim (Bool-cases (p x)) [
  | inl t ↦
      let same = same_id (rw t at e) in
      subst (λ n. All (λ r. p r ≡ true → n ≤ r.id) (x ∷ js)) same
        (λ _. omega arith, above x.id (λ r. p r ≡ true) js s.0)
  | inr t ↦ (λ k. cc, find-first p js s.1 (rw t at e))
]

-- In a reachable queue the row that a claim takes is claimable, and no claimable row has a lower
-- id.
pub claim-least :
    {s : System}
    → Reach empty s
    → (stopped : Bool × Bool) (now : ℕ) (enabled : String → Bool) (locked : ℕ → Bool)
      (queues : QueueFilter) {c : Claim} {db' : Db}
    → claim stopped now enabled locked queues s.db ≡ (some c, db')
    → (claimable now enabled locked queues c.row ≡ true)
      × All (λ r. claimable now enabled locked queues r ≡ true → c.row.id ≤ r.id) s.db.jobs
claim-least {s} r stopped now enabled locked queues {c} h =
    let k = claim_lem stopped now enabled locked queues s.db h in
    (
      (All-find IsSound _ s.db.jobs (Reach-Inv empty-Inv r).sound k.picked).1,
      find-first (claimable now enabled locked queues) s.db.jobs
          (Reach-Inv empty-Inv r).ordered.sorted k.picked,
    )
