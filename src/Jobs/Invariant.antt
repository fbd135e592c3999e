-- ===== src/Jobs/Invariant.antt =====
-- The invariant of the queue of internal/engine/jobs.go: the rows, their order, and the attempts that
-- the workers hold.
use ddcore.Common.{
  ℕ, ◌+◌, ◌≤◌, ◌<◌, ◌≡◌, ◌≢◌, subst, sym, Bool, true, Option, some, none, List, [], ◌∷◌, ◌++◌,
  arith, Bool-cases, inl, inr, All, All-append, All-write, update_where,
}
use ddcore.Jobs.{Job, Db, unique_ok, commit}
use ddcore.Jobs.Sound.{IsSound}
use ddcore.Jobs.Ids.{
  Sorted, IsOrdered, update_where-Sorted, update_where-below, append-Sorted, All-bump,
}
use ddcore.Jobs.Work.{Claim, write_or_log}
use ddcore.Jobs.Steps.{System, put}

-- the row has not gone back behind the claim, and its limit is the one that the worker read
abbrev pub Agrees : Claim → Job → Type 0
Agrees c j = j.id ≡ c.row.id → (c.attempt ≤ j.attempts) × (j.max_attempts ≡ c.row.max_attempts)

pub record Holds (c : Claim) (db : Db) : Type 0 where
  pub positive : 1 ≤ c.attempt
  pub known : c.row.id < db.next_id
  pub agrees : All (Agrees c) db.jobs

pub record Inv (s : System) : Type 0 where
  pub ordered : IsOrdered s.db
  pub sound : All IsSound s.db.jobs
  pub held : (w : ℕ) (c : Claim) → s.workers w ≡ some c → Holds c s.db
  pub distinct :
      (w v : ℕ) (c d : Claim)
      → w ≢ v
      → s.workers w ≡ some c
      → s.workers v ≡ some d
      → c.row.id ≡ d.row.id
      → c.attempt ≢ d.attempt

-- An UPDATE that keeps the ids, and row by row the soundness and every claim.
pub record IsWrite (s : System) (p : Job → Bool) (f : Job → Job) : Type 0 where
  pub same_id : (j : Job) → (f j).id ≡ j.id
  pub sound_kept : All (λ j. p j ≡ true → IsSound (f j)) s.db.jobs
  pub claims_kept :
      (w : ℕ) (c : Claim) → s.workers w ≡ some c → All (λ j. p j ≡ true → Agrees c (f j)) s.db.jobs

abbrev pub with_jobs : System → List Job → System
with_jobs s js = record s { db = record s.db { jobs = js } }

pub left_there :
    (workers : ℕ → Option Claim) (w v : ℕ) {c : Claim}
    → put w none workers v ≡ some c
    → workers v ≡ some c
left_there workers w v e = ground arith

module _ {s : System} (i : Inv s) where
  pub update-Inv :
      (p : Job → Bool) (f : Job → Job)
      → IsWrite s p f
      → Inv (with_jobs s (update_where p f s.db.jobs))
  update-Inv p f k = record {
    ordered = record {
      sorted = update_where-Sorted f k.same_id p s.db.jobs i.ordered.sorted;
      below = update_where-below f k.same_id p s.db.next_id s.db.jobs i.ordered.below;
    };
    sound = All-write IsSound p f s.db.jobs k.sound_kept i.sound;
    held = λ w c e. record {
      positive = (i.held w c e).positive;
      known = (i.held w c e).known;
      agrees = All-write (Agrees c) p f s.db.jobs (k.claims_kept w c e) (i.held w c e).agrees;
    };
    distinct = i.distinct;
  }

  pub write_or_log-Inv :
      (p : Job → Bool) (f : Job → Job)
      → IsWrite s p f
      → Inv (record s { db = write_or_log p f s.db })
  unfolding commit
  write_or_log-Inv p f k = elim (Bool-cases (unique_ok (update_where p f s.db.jobs))) [
    | inl t ↦ rw (write_or_log, t) (update-Inv p f k)
    | inr t ↦ rw (write_or_log, t) i
  ]

  -- a worker that lets go of its claim
  pub drop-Inv : (w : ℕ) → Inv (record s { workers = put w none s.workers })
  drop-Inv w = record {
    ordered = i.ordered;
    sound = i.sound;
    held = λ v c e. i.held v c (left_there s.workers w v e);
    distinct = λ v u c d ne e k.
        i.distinct v u c d ne (left_there s.workers w v e) (left_there s.workers w u k);
  }

  -- the sequence moves on
  pub bump-Inv : Inv (record s { db = record s.db { next_id = s.db.next_id + 1 } })
  bump-Inv = record {
    ordered = record {
      sorted = i.ordered.sorted;
      below = All-bump s.db.next_id s.db.jobs i.ordered.below;
    };
    sound = i.sound;
    held = λ w c e. record {
      positive = (i.held w c e).positive;
      known = omega (arith, (i.held w c e).known);
      agrees = (i.held w c e).agrees;
    };
    distinct = i.distinct;
  }

  -- a row inserted under the next id
  pub append-Inv :
      (j : Job)
      → IsSound j
      → j.id ≡ s.db.next_id
      → Inv (record s { db = record { jobs = s.db.jobs ++ j ∷ []; next_id = s.db.next_id + 1 } })
  append-Inv j sound e = record {
    ordered = record {
      sorted =
          append-Sorted s.db.jobs j i.ordered.sorted
            (subst (λ n. All (λ r. r.id < n) s.db.jobs) (sym e) i.ordered.below);
      below =
          All-append (λ r. r.id < s.db.next_id + 1) s.db.jobs (j ∷ [])
            (All-bump s.db.next_id s.db.jobs i.ordered.below) (omega arith, tt);
    };
    sound = All-append IsSound s.db.jobs (j ∷ []) i.sound (sound, tt);
    held = λ w c k. record {
      positive = (i.held w c k).positive;
      known = omega (arith, (i.held w c k).known);
      agrees =
          All-append (Agrees c) s.db.jobs (j ∷ []) (i.held w c k).agrees
            (λ same. absurd (omega (arith, (i.held w c k).known)), tt);
    };
    distinct = i.distinct;
  }

  -- a DELETE: rows are left out, and nothing else changes
  pub delete-Inv :
      (js : List Job)
      → Sorted js
      → ((P : Job → Type 0) → All P s.db.jobs → All P js)
      → Inv (with_jobs s js)
  delete-Inv js sorted kept = record {
    ordered = record { sorted = sorted; below = kept _ i.ordered.below };
    sound = kept IsSound i.sound;
    held = λ w c e. record {
      positive = (i.held w c e).positive;
      known = (i.held w c e).known;
      agrees = kept (Agrees c) (i.held w c e).agrees;
    };
    distinct = i.distinct;
  }
