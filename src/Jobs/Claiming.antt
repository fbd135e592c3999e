-- ===== src/Jobs/Claiming.antt =====
-- The claim of claimAndRun, internal/engine/jobs.go.
use ddcore.Common.{
  ℕ, ◌+◌, ◌<◌, ◌≡◌, refl, subst, sym, ap, Bool, true, false, Option, some, none, arith,
  if◌then◌else◌, Bool-cases, Option-cases, ◌⊎◌, inl, inr, All, All-map, All-becomes, All-zip,
  All-find, find, update_where, ◌==◌, ==→eq, ◌∙◌, String,
}
use ddcore.Jobs.{is_queued, Job, Db}
use ddcore.Jobs.Queues.{QueueFilter}
use ddcore.Jobs.Work.{Claim, claim, claimable, begin_run, timeout_of}
use ddcore.Jobs.Sound.{IsSound, begin_run-IsSound}
use ddcore.Jobs.Ids.{find_unique}
use ddcore.Jobs.Invariant.{Agrees, Holds, Inv, IsWrite, update-Inv, with_jobs}
use ddcore.Jobs.Steps.{System, put}

-- What a successful claim is: the row picked, its attempt, and the row's UPDATE.
pub record Claimed (now : ℕ) (p : Job → Bool) (db : Db) (c : Claim) (db' : Db) : Type 0 where
  pub picked : find p db.jobs ≡ some c.row
  pub attempt_next : c.attempt ≡ c.row.attempts + 1
  pub written :
      db' ≡ record db { jobs = update_where (λ r. r.id == c.row.id) (begin_run now) db.jobs }

abbrev the_claim : Job → Claim
the_claim j = record {
  row = j;
  attempt = j.attempts + 1;
  starts = j.starts + 1;
  timeout = timeout_of j.timeout_seconds;
}

no_claim : {d d' : Db} {c : Claim} → ◌≡◌ {A = Option Claim × Db} (none, d) (some c, d') → ⊥
no_claim h = ground arith

abbrev claimed_or_left : ℕ → Db → Job → Bool → Option Claim × Db
claimed_or_left now db j late = if late then (none, db) else (
  some (the_claim j),
  record db { jobs = update_where (λ r. r.id == j.id) (begin_run now) db.jobs },
)

picked_claim :
    (now : ℕ) (p : Job → Bool) (db : Db) (j : Job) (late : Bool) {c : Claim} {db' : Db}
    → find p db.jobs ≡ some j
    → claimed_or_left now db j late ≡ (some c, db')
    → Claimed now p db c db'
picked_claim now p db j true e h = absurd (no_claim h)
picked_claim now p db j false e h = ground arith

pub claim_lem :
    (stopped : Bool × Bool) (now : ℕ) (enabled : String → Bool) (locked : ℕ → Bool)
    (queues : QueueFilter) (db : Db) {c : Claim} {db' : Db}
    → claim stopped now enabled locked queues db ≡ (some c, db')
    → Claimed now (claimable now enabled locked queues) db c db'
unfolding claim
claim_lem (true, late) now enabled locked queues db h = ground arith
claim_lem (false, late) now enabled locked queues db h =
    elim (Option-cases (find (claimable now enabled locked queues) db.jobs)) [
      | inl e ↦ absurd (no_claim (rw (e, claim) at h))
      | inr (j, e) ↦
          picked_claim now (claimable now enabled locked queues) db j late e (rw (e, claim) at h)
    ]

put_cases :
    (workers : ℕ → Option Claim) (w v : ℕ) {c d : Claim}
    → put w (some c) workers v ≡ some d
    → (w ≡ v) × (c ≡ d) ⊎ (workers v ≡ some d)
put_cases workers w v e = elim (Bool-cases (w == v)) [
  | inl t ↦ inl (==→eq w v t, some_eq (rw t at e))
  | inr t ↦ inr (rw t at e)
]
  where
    some_eq : {x y : Claim} → some x ≡ some y → x ≡ y
    some_eq h = cc

differs : (a b : ℕ) → (a == b) ≡ false → a ≡ b → ⊥
differs a b h k = ground arith

module _ {s : System} (i : Inv s) (w now : ℕ) (p : Job → Bool) (c : Claim)
    (queued_only : (j : Job) → p j ≡ true → is_queued j.status ≡ true)
    (picked : find p s.db.jobs ≡ some c.row) (next : c.attempt ≡ c.row.attempts + 1) where
  abbrev same_row : Job → Bool
  same_row r = r.id == c.row.id

  alone : All (λ r. r.id ≡ c.row.id → r ≡ c.row) s.db.jobs
  alone = find_unique p s.db.jobs i.ordered.sorted picked

  row_queued : is_queued c.row.status ≡ true
  row_queued = queued_only c.row (All-find IsSound p s.db.jobs i.sound picked).1

  begun : IsWrite s same_row (begin_run now)
  begun = record {
    same_id = λ j. refl;
    sound_kept =
        All-zip IsSound (λ r. r.id ≡ c.row.id → r ≡ c.row)
          (λ r. same_row r ≡ true → IsSound (begin_run now r))
          (λ r k u t.
            begin_run-IsSound r k now
              (subst (λ x. is_queued x.status ≡ true) (sym (u (==→eq _ _ t))) row_queued))
          s.db.jobs i.sound alone;
    claims_kept = λ v d e.
        All-map (Agrees d) (λ r. same_row r ≡ true → Agrees d (begin_run now r))
          (λ r a t. ground arith) s.db.jobs (i.held v d e).agrees;
  }

  ahead : (v : ℕ) (d : Claim) → s.workers v ≡ some d → c.row.id ≡ d.row.id → d.attempt < c.attempt
  ahead v d e same =
      omega (arith, (All-find (Agrees d) p s.db.jobs (i.held v d e).agrees picked).0 same)

  becomes :
      (r : Job)
      → (r.id ≡ c.row.id → r ≡ c.row)
      → Agrees c (if same_row r then begin_run now r else r)
  becomes r u = elim (Bool-cases (same_row r)) [
    | inl t ↦
        rw t (
          subst (λ x. Agrees c (begin_run now x)) (sym (u (==→eq _ _ t)))
            (λ _. (omega arith, refl)))
    | inr t ↦ rw t (λ k. absurd (differs _ _ t k))
  ]

  new_held : Holds c (with_jobs s (update_where same_row (begin_run now) s.db.jobs)).db
  new_held = record {
    positive = omega arith;
    known = (All-find (λ r. r.id < s.db.next_id) p s.db.jobs i.ordered.below picked).0;
    agrees = All-becomes (Agrees c) same_row (begin_run now) s.db.jobs (
        All-map (λ r. r.id ≡ c.row.id → r ≡ c.row)
          (λ r. Agrees c (if same_row r then begin_run now r else r)) becomes s.db.jobs alone);
  }

  pub claim-Inv : Inv (record {
    db = (with_jobs s (update_where same_row (begin_run now) s.db.jobs)).db;
    workers = put w (some c) s.workers;
  })
  claim-Inv = record {
    ordered = (update-Inv i same_row (begin_run now) begun).ordered;
    sound = (update-Inv i same_row (begin_run now) begun).sound;
    held = λ v d e. elim (put_cases s.workers w v e) [
      | inl (_, same) ↦
          subst (λ x. Holds x (with_jobs s (update_where same_row (begin_run now) s.db.jobs)).db)
            same new_held
      | inr k ↦ (update-Inv i same_row (begin_run now) begun).held v d k
    ];
    distinct = λ v u d e ne k l same. elim (put_cases s.workers w v k) [
      | inl (w_v, c_d) ↦ elim (put_cases s.workers w u l) [
        | inl (w_u, _) ↦ absurd (ne (sym w_v ∙ w_u))
        | inr l' ↦ λ eq. omega (
          arith,
          ahead u e l' (ap (λ (x : Claim). x.row.id) c_d ∙ same),
          ap (λ (x : Claim). x.attempt) c_d,
        )
      ]
      | inr k' ↦ elim (put_cases s.workers w u l) [
        | inl (_, c_e) ↦ λ eq. omega (
          arith,
          ahead v d k' (ap (λ (x : Claim). x.row.id) c_e ∙ sym same),
          ap (λ (x : Claim). x.attempt) c_e,
        )
        | inr l' ↦ i.distinct v u d e ne k' l' same
      ]
    ];
  }
