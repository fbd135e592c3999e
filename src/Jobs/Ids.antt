-- ===== src/Jobs/Ids.antt =====
-- The ids of ddcore_job and their order (internal/db/schema.go, Enqueue of internal/engine/jobs.go).
use ddcore.Common.{
  ℕ, zero, suc, ◌+◌, ◌<◌, ◌≡◌, subst, sym, ap, ltb, Bool, Option, some, List, [], ◌∷◌, ◌++◌, arith,
  Bool-cases, inl, inr, All, All-append, All-update_where, All-find, of_if, find, update_where,
}
use ddcore.Jobs.{Job, Db}
use ddcore.Jobs.Admin.{delete_batch, purge_rounds}

abbrev pub Sorted : List Job → Type 0
Sorted [] = Unit
Sorted (j ∷ js) = All (λ r. j.id < r.id) js × Sorted js

-- in the order of the ids, all below the sequence
pub record IsOrdered (db : Db) : Type 0 where
  pub sorted : Sorted db.jobs
  pub below : All (λ r. r.id < db.next_id) db.jobs

module _ (f : Job → Job) (same_id : (j : Job) → (f j).id ≡ j.id) (p : Job → Bool) where
  All-id-update_where :
      (P : ℕ → Type 0) (js : List Job)
      → All (λ r. P r.id) js
      → All (λ r. P r.id) (update_where p f js)
  All-id-update_where P js h =
      All-update_where (λ r. P r.id) p f (λ x _ k. subst P (sym (same_id x)) k) js h

  pub update_where-Sorted : (js : List Job) → Sorted js → Sorted (update_where p f js)
  update_where-Sorted [] s = s
  update_where-Sorted (j ∷ js) s = (
    of_if (λ (x : Job). All (λ r. x.id < r.id) (update_where p f js)) (p j) (f j) j
        (λ _.
          subst (λ n. All (λ r. n < r.id) (update_where p f js)) (sym (same_id j))
            (All-id-update_where (λ n. j.id < n) js s.0))
        (λ _. All-id-update_where (λ n. j.id < n) js s.0),
    update_where-Sorted js s.1,
  )

  pub update_where-below :
      (n : ℕ) (js : List Job) → All (λ r. r.id < n) js → All (λ r. r.id < n) (update_where p f js)
  update_where-below n = All-id-update_where (λ k. k < n)

pub append-Sorted :
    (js : List Job) (j : Job) → Sorted js → All (λ r. r.id < j.id) js → Sorted (js ++ j ∷ [])
append-Sorted [] j s h = (tt, tt)
append-Sorted (k ∷ js) j s h =
    (All-append (λ r. k.id < r.id) js (j ∷ []) s.0 (h.0, tt), append-Sorted js j s.1 h.1)

pub All-bump : (n : ℕ) (js : List Job) → All (λ r. r.id < n) js → All (λ r. r.id < n + 1) js
All-bump n [] h = h
All-bump n (j ∷ js) h = (omega arith, All-bump n js h.1)

no_other :
    (n : ℕ) (j : Job) (js : List Job)
    → All (λ r. n < r.id) js
    → n ≡ j.id
    → All (λ r. r.id ≡ j.id → r ≡ j) js
no_other n j [] h e = tt
no_other n j (x ∷ js) h e = (λ k. absurd (omega (arith, h.0)), no_other n j js h.1 e)

some_eq : {x j : Job} → some x ≡ some j → x ≡ j
some_eq h = cc

-- With ids in order, the row that is found is the only one with its id.
pub find_unique :
    (p : Job → Bool) (js : List Job) {j : Job}
    → Sorted js
    → find p js ≡ some j
    → All (λ r. r.id ≡ j.id → r ≡ j) js
find_unique p [] s e = tt
find_unique p (x ∷ js) {j} s e = elim (Bool-cases (p x)) [
  | inl t ↦
      let same : x ≡ j = some_eq (rw t at e) in
      (λ _. same, no_other x.id j js s.0 (ap (λ (r : Job). r.id) same))
  | inr t ↦
      let rest : find p js ≡ some j = rw t at e in
      let below : x.id < j.id = (All-find (λ r. x.id < r.id) p js s.0 rest).0 in
      (λ k. absurd (omega arith), find_unique p js s.1 rest)
]

-- What a DELETE leaves of a list in order is in order.
pair_left :
    {a b : List Job} {m n : ℕ} → ◌≡◌ {A = Option (List Job × ℕ)} (some (a, m)) (some (b, n)) → a ≡ b
pair_left h = cc

module _ (P : Job → Type 0) where
  pub All-delete_batch :
      (n : ℕ) (p : Job → Bool) (js : List Job) → All P js → All P (delete_batch n p js).0
  unfolding delete_batch
  All-delete_batch zero p js h = h
  All-delete_batch (suc n) p [] h = h
  All-delete_batch (suc n) p (j ∷ js) h = elim (Bool-cases (p j)) [
    | inl t ↦ rw t (All-delete_batch n p js h.1)
    | inr t ↦ rw t (h.0, All-delete_batch (suc n) p js h.1)
  ]

pub delete_batch-Sorted :
    (n : ℕ) (p : Job → Bool) (js : List Job) → Sorted js → Sorted (delete_batch n p js).0
unfolding delete_batch
delete_batch-Sorted zero p js h = h
delete_batch-Sorted (suc n) p [] h = h
delete_batch-Sorted (suc n) p (j ∷ js) h = elim (Bool-cases (p j)) [
  | inl t ↦ rw t (delete_batch-Sorted n p js h.1)
  | inr t ↦
      rw t
        (All-delete_batch (λ r. j.id < r.id) (suc n) p js h.0, delete_batch-Sorted (suc n) p js h.1)
]

-- The loop of purge keeps what one batch keeps.
module _ (Q : List Job → Type 0) (size : ℕ) (p : Job → Bool)
    (keep : (js : List Job) → Q js → Q (delete_batch size p js).0) where
  pub purge_rounds_keep :
      (fuel : ℕ) (js : List Job) (total : ℕ) {left : List Job} {n : ℕ}
      → Q js
      → purge_rounds fuel size p js total ≡ some (left, n)
      → Q left
  unfolding purge_rounds
  purge_rounds_keep zero js total h e = cc
  purge_rounds_keep (suc fuel) js total h e =
      let (js', k) = delete_batch size p js in
      elim (Bool-cases (ltb k size)) [
        | inl t ↦ subst Q (pair_left (rw t at e)) (keep js h)
        | inr t ↦ purge_rounds_keep fuel js' (total + k) (keep js h) (rw t at e)
      ]
