-- ===== src/Jobs/Ending.antt =====
-- The write that ends a run, in claimAndRun of internal/engine/jobs.go.
use ddcore.Common.{
  ℕ, ◌≡◌, ◌≢◌, refl, Bool, true, Option, some, none, arith, All-map, All-zip, String, ltb,
}
use ddcore.Jobs.{Job, fence}
use ddcore.Jobs.Work.{
  Claim, Branch, success, cancel, given_back, failure, finish, to_done, to_cancelled, give_back,
  to_failed,
}
use ddcore.Jobs.Sound.{IsSound, to_done-IsSound, to_cancelled-IsSound, give_back-IsSound}
use ddcore.Jobs.Invariant.{Agrees, Inv, write_or_log-Inv, drop-Inv, left_there}
use ddcore.Jobs.Keeps.{grows-IsWrite}
use ddcore.Jobs.Steps.{System, put}

left_other :
    (workers : ℕ → Option Claim) (w v : ℕ) {c : Claim} → put w none workers v ≡ some c → w ≢ v
left_other workers w v e = ground arith

-- another worker's attempt at the job is behind the one that is given back
behind :
    (now : ℕ) (j : Job) (c d : Claim)
    → Agrees d j
    → fence c.row.id c.attempt j ≡ true
    → (c.row.id ≡ d.row.id → c.attempt ≢ d.attempt)
    → Agrees d (give_back now j)
behind now j c d a t apart same = ground (arith, a same)

failed-IsSound :
    (now : ℕ) (msg : String) (j : Job) (c : Claim)
    → IsSound j
    → Agrees c j
    → fence c.row.id c.attempt j ≡ true
    → IsSound (to_failed now (ltb c.attempt c.row.max_attempts) msg j)
failed-IsSound now msg j c k a t = ground arith

pub finish-Inv :
    {s : System} (i : Inv s) (w now : ℕ) {c : Claim} (timed_out : Bool) (b : Branch)
    → s.workers w ≡ some c
    → Inv (record { db = (finish now c timed_out b s.db).1; workers = put w none s.workers })
unfolding finish
finish-Inv {s} i w now {c} timed_out (success res) e =
    write_or_log-Inv (drop-Inv i w) (fence c.row.id c.attempt) (to_done now res) (
      grows-IsWrite _ (drop-Inv i w) _ (to_done now res) (λ j. refl) (λ j. omega arith)
        (λ j k t. to_done-IsSound j k now res (ground arith)))
finish-Inv {s} i w now {c} timed_out cancel e =
    write_or_log-Inv (drop-Inv i w) (fence c.row.id c.attempt) (to_cancelled now) (
      grows-IsWrite _ (drop-Inv i w) _ (to_cancelled now) (λ j. refl) (λ j. omega arith)
        (λ j k t. to_cancelled-IsSound j k now (ground arith)))
finish-Inv {s} i w now {c} timed_out given_back e =
    write_or_log-Inv (drop-Inv i w) (fence c.row.id c.attempt) (give_back now) (record {
      same_id = λ j. refl;
      sound_kept =
          All-map IsSound (λ j. fence c.row.id c.attempt j ≡ true → IsSound (give_back now j))
            (λ j k t. give_back-IsSound j k now (ground arith)) s.db.jobs i.sound;
      claims_kept = λ v d k.
          let apart : c.row.id ≡ d.row.id → c.attempt ≢ d.attempt =
            i.distinct w v c d (left_other s.workers w v k) e (left_there s.workers w v k) in
          All-map (Agrees d) (λ j. fence c.row.id c.attempt j ≡ true → Agrees d (give_back now j))
            (λ j a t. behind now j c d a t apart) s.db.jobs
            (i.held v d (left_there s.workers w v k)).agrees;
    })
finish-Inv {s} i w now {c} timed_out (failure msg) e =
    write_or_log-Inv (drop-Inv i w) (fence c.row.id c.attempt)
      (to_failed now (ltb c.attempt c.row.max_attempts) msg)
      (record {
        same_id = λ j. refl;
        sound_kept =
            All-zip IsSound (Agrees c)
              (λ j.
                fence c.row.id c.attempt j ≡ true
                → IsSound (to_failed now (ltb c.attempt c.row.max_attempts) msg j))
              (λ j k a t. failed-IsSound now msg j c k a t) s.db.jobs i.sound (i.held w c e).agrees;
        claims_kept = λ v d k.
            All-map (Agrees d)
              (λ j.
                fence c.row.id c.attempt j ≡ true
                → Agrees d (to_failed now (ltb c.attempt c.row.max_attempts) msg j))
              (λ j a t. a) s.db.jobs (i.held v d (left_there s.workers w v k)).agrees;
      })
