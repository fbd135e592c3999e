-- ===== src/Throttle/Bounded.antt =====
-- Sign-ins one after the other, over the table of attempts that Login, of internal/engine/auth.go,
-- and the clean-up of attempts leave, and how many failures of one identity a window can hold.
use ddcore.Common.{
  ap, ltb→lt, ℕ, ◌≤◌, ◌<◌, ◌≡◌, refl, Bool, true, false, ◌||◌, some, List, [], ltb, ◌==◌, length,
  select, Bool-cases, inl, inr, arith, String,
}
use ddcore.Text.{Text, text_eq, trim_space}
use ddcore.Cerr.{Result, ok, err, ◌>>=◌}
use ddcore.Throttle.{
  Attempt, Policy, is_counted, counted, refusal, check_throttle, login_key, record_login,
  guard_login, login, after_guard, is_ok,
}
use ddcore.Throttle.Window.{is_counted_earlier, length-select_mono}
use ddcore.Throttle.Counts.{text_eq→≡, passed_logged, failed_logged, other_failed, count_select}

pub record Server : Type 0 where
  pub now : ℕ
  pub rows : List Attempt

-- What happens to the table: time passes, a sign-in is answered, or a clean-up takes rows away
-- (SweepAuth, ClearAttempts).
pub data Step (sprint : ℕ → String) (lower : ℕ → ℕ) (p : Policy) : Server → Server → Type 0 where
  passes :
      {s : Server} (later : ℕ)
      → s.now ≤ later
      → Step sprint lower p s (record { now = later; rows = s.rows })
  signs_in :
      {s : Server} (clock : ℕ) (user : Text) (ip : String) (session : Result String)
      → Step sprint lower p s (record {
        now = s.now;
        rows = (login sprint lower p s.now clock user ip session s.rows).1;
      })
  cleaned :
      {s : Server} (keep : Attempt → Bool)
      → Step sprint lower p s (record { now = s.now; rows = select keep s.rows })

pub data Run (sprint : ℕ → String) (lower : ℕ → ℕ) (p : Policy) : Server → Server → Type 0 where
  no_step : {s : Server} → Run sprint lower p s s
  then_step :
      {s t u : Server} → Run sprint lower p s t → Step sprint lower p t u → Run sprint lower p s u

-- at most the limit of failures of the identity in the window
abbrev pub IsBounded : (ℕ → ℕ) → Policy → Text → Server → Type 0
IsBounded lower p identity s =
    length (counted (login_key lower identity) p.lockout_window s.now s.rows) ≤ p.max_login_attempts

on_limit : (limit window : ℕ) → 0 < limit → 0 < window → (limit == 0 || window == 0) ≡ false
on_limit limit window l w = ground arith

-- a check that lets pass found less than the limit
check_throttle_less :
    (sprint : ℕ → String) (rows : List Attempt) (now clock : ℕ) (key : Text) (limit window : ℕ)
    → 0 < limit
    → 0 < window
    → check_throttle sprint (some (ok rows)) now clock key limit window ≡ ok tt
    → length (counted key window now rows) < limit
unfolding check_throttle refusal
check_throttle_less sprint rows now clock key limit window l w h =
    elim (Bool-cases (ltb (length (counted key window now rows)) limit)) [
      | inl e ↦ ltb→lt (length (counted key window now rows)) limit e
      | inr e ↦ absurd (cc (rw (on_limit limit window l w, e) at h))
    ]

guard_login-check :
    (first : Result (Unit {0})) (next : Unit {0} → Result (Unit {0}))
    → (first >>= next) ≡ ok tt
    → first ≡ ok tt
guard_login-check (ok u) next h = refl
guard_login-check (err e) next h = absurd (cc h)

after_guard_rows :
    (P : List Attempt → Type 0) (guard : Result (Unit {0})) (session : Result String)
    (recorded : Bool → List Attempt) (rows : List Attempt)
    → P rows
    → (guard ≡ ok tt → (b : Bool) → P (recorded b))
    → P (after_guard guard session recorded rows).1
after_guard_rows P (err e) session recorded rows h k = h
after_guard_rows P (ok u) session recorded rows h k = k refl (is_ok session)

module _ (sprint : ℕ → String) (lower : ℕ → ℕ) (p : Policy) (l : 0 < p.max_login_attempts)
    (w : 0 < p.lockout_window) (who : Text) where
  signed_in :
      (now clock : ℕ) (identity : Text) (ip : String) (rows : List Attempt)
      → IsBounded lower p who (record { now = now; rows = rows })
      → guard_login sprint lower p (some (ok rows)) now clock identity ip ≡ ok tt
      → (b : Bool)
      → IsBounded lower p who
          (record { now = now; rows = record_login lower now identity ip b rows })
  unfolding guard_login
  signed_in now clock identity ip rows h g true =
      omega (arith, passed_logged lower p.lockout_window now who identity ip rows)
  signed_in now clock identity ip rows h g false =
      elim (Bool-cases (text_eq (login_key lower identity) (login_key lower who))) [
        | inr e ↦ omega (arith, other_failed lower p.lockout_window now who identity ip rows e)
        | inl e ↦
            let less =
              check_throttle_less sprint rows now clock (login_key lower identity)
                p.max_login_attempts p.lockout_window l w (guard_login-check _ _ g) in
            let same =
              ap (λ k. length (counted k p.lockout_window now rows))
                (text_eq→≡ (login_key lower identity) (login_key lower who) e) in
            omega (arith, failed_logged lower p.lockout_window now who identity ip rows)
      ]

  Step-IsBounded :
      {s t : Server} → Step sprint lower p s t → IsBounded lower p who s → IsBounded lower p who t
  unfolding login counted
  Step-IsBounded {s} (passes later m) h = omega (
    arith,
    h,
    length-select_mono (is_counted (login_key lower who) p.lockout_window later)
        (is_counted (login_key lower who) p.lockout_window s.now)
        (is_counted_earlier (login_key lower who) p.lockout_window m) s.rows,
  )
  Step-IsBounded {s} (signs_in clock user ip session) h =
      after_guard_rows (λ rows. IsBounded lower p who (record { now = s.now; rows = rows }))
        (guard_login sprint lower p (some (ok s.rows)) s.now clock (trim_space user) ip) session
        (λ passed. record_login lower s.now (trim_space user) ip passed s.rows) s.rows h
        (signed_in s.now clock (trim_space user) ip s.rows h)
  Step-IsBounded {s} (cleaned keep) h =
      omega (arith, h, count_select p.lockout_window s.now (login_key lower who) keep s.rows)

  -- However the sign-ins, one after the other, and the clean-ups of the attempts follow each other
  -- from an empty table, a window never holds more failures of one identity than the limit, if the
  -- limit and the window are not 0.
  pub Run-IsBounded :
      {s t : Server} → s.rows ≡ [] → Run sprint lower p s t → IsBounded lower p who t
  unfolding counted
  Run-IsBounded {s} e no_step = rw e (omega arith)
  Run-IsBounded e (then_step r x) = Step-IsBounded x (Run-IsBounded e r)
