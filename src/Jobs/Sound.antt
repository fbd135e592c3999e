-- ===== src/Jobs/Sound.antt =====
-- What a row of ddcore_job (internal/db/schema.go) is between two statements.
use ddcore.Common.{ℕ, ◌≤◌, ◌<◌, String, ◌≡◌, Bool, true, false, none, arith, is_some, ltb}
use ddcore.Jobs.{Status, queued, running, is_queued, is_running, Job}
use ddcore.Jobs.Sweep.{sweep}
use ddcore.Jobs.Work.{begin_run, to_done, to_cancelled, give_back, to_failed}
use ddcore.Jobs.Admin.{ask_cancel, copy_of}

abbrev pub is_ended : Status → Bool
is_ended queued = false
is_ended running = false
is_ended _ = true

pub record IsSound (j : Job) : Type 0 where
  pub allowed : 1 ≤ j.max_attempts
  pub bounded : j.attempts ≤ j.max_attempts
  pub counted : j.attempts ≤ j.starts
  pub waiting :
      is_queued j.status ≡ true
      → (j.attempts < j.max_attempts) × (j.finished ≡ none) × (j.lease_until ≡ none)
  pub leased :
      is_running j.status ≡ true
      → (1 ≤ j.attempts) × (j.finished ≡ none) × (is_some j.lease_until ≡ true)
  pub closed : is_ended j.status ≡ true → (is_some j.finished ≡ true) × (j.lease_until ≡ none)

module _ (j : Job) (s : IsSound j) where
  pub begin_run-IsSound : (now : ℕ) → is_queued j.status ≡ true → IsSound (begin_run now j)
  begin_run-IsSound now h = ground arith

  pub to_done-IsSound :
      (now : ℕ) (res : String) → is_running j.status ≡ true → IsSound (to_done now res j)
  to_done-IsSound now res h = ground arith

  pub to_cancelled-IsSound : (now : ℕ) → is_running j.status ≡ true → IsSound (to_cancelled now j)
  to_cancelled-IsSound now h = ground arith

  pub give_back-IsSound : (now : ℕ) → is_running j.status ≡ true → IsSound (give_back now j)
  give_back-IsSound now h = ground arith

  pub to_failed-IsSound :
      (now : ℕ) (msg : String)
      → is_running j.status ≡ true
      → IsSound (to_failed now (ltb j.attempts j.max_attempts) msg j)
  to_failed-IsSound now msg h = ground arith

  pub sweep-IsSound : (now : ℕ) → is_running j.status ≡ true → IsSound (sweep now j)
  sweep-IsSound now h = ground arith

  pub ask_cancel-IsSound : (now : ℕ) (user : String) → IsSound (ask_cancel now user j)
  ask_cancel-IsSound now user = ground arith

  pub copy_of-IsSound : (now new_id : ℕ) → IsSound (copy_of now new_id j)
  copy_of-IsSound now new_id = ground arith
