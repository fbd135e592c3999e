-- ===== src/Throttle/Tests.antt =====
-- Someone who guesses a password three times in a minute, with a limit of three.
use ddcore.Common.{ℕ, ◌+◌, ◌*◌, ◌≡◌, refl, String, some, List, [], ◌∷◌, arith, length}
use ddcore.Text.{Text, codes, trim_space}
use ddcore.Cerr.{Error, Result, ok, err, auth, retry_after, too_many, with_retry_after}
use ddcore.Throttle.{
  Attempt, Policy, second, login, login_key, counted, check_throttle, guard_login, throttle_key,
}
use ddcore.Throttle.Waited.{check_throttle_waited}
use ddcore.Throttle.Bounded.{no_step, then_step, signs_in, passes, Run-IsBounded, IsBounded}
use ddcore.Throttle.Cleared.{login-guard_login}

abbrev lower : ℕ → ℕ
lower c = c

abbrev sprint : ℕ → String
sprint n = "n"

abbrev policy : Policy
policy = record { max_login_attempts = 3; lockout_window = 60 * second }

abbrev who : Text
who = codes "ana"

abbrev wrong : Result String
wrong = err (auth "Invalid username or password" [])

abbrev guess : ℕ → List Attempt → List Attempt
guess t rows = (login sprint lower policy t t who "10.0.0.1" wrong rows).1

abbrev guessed : List Attempt
guessed = guess (30 * second) (guess (20 * second) (guess (10 * second) []))

three_counted : length (counted (login_key lower who) (60 * second) (30 * second) guessed) ≡ 3
unfolding counted login guard_login check_throttle ddcore.Throttle.refusal
    ddcore.Throttle.record_login ddcore.Throttle.record_attempt throttle_key trim_space
    ddcore.Throttle.interval_of
three_counted = refl

-- the fourth is not even looked at
still_three : length (guess (40 * second) guessed) ≡ 6
unfolding login guard_login check_throttle ddcore.Throttle.refusal counted
    ddcore.Throttle.record_login ddcore.Throttle.record_attempt throttle_key trim_space
    ddcore.Throttle.interval_of
still_three = refl

abbrev refused : Error
refused = with_retry_after (too_many "Too many attempts. Try again in {0} second(s)" ("n" ∷ [])) 40

check_throttle_waited_example :
    (secs : ℕ) × (retry_after refused ≡ some secs)
    × (check_throttle sprint
          (some (ok guessed))
          (30 * second + secs * second)
          (30 * second + secs * second)
          (login_key lower who)
          3
          (60 * second)
        ≡ ok tt)
unfolding counted login guard_login check_throttle ddcore.Throttle.refusal
    ddcore.Throttle.record_login ddcore.Throttle.record_attempt throttle_key trim_space
    ddcore.Throttle.interval_of ddcore.Throttle.whole_seconds ddcore.Throttle.wait_left
    ddcore.Throttle.oldest
check_throttle_waited_example =
    check_throttle_waited (login_key lower who) (60 * second) (30 * second) guessed sprint 3 refused
      (omega arith)
      (omega arith, (omega arith, (omega arith, (omega arith, (omega arith, (omega arith, tt))))))
      (omega arith) refl

Run-IsBounded_example :
    IsBounded lower policy who
      (record { now = 20 * second; rows = guess (20 * second) (guess (10 * second) []) })
Run-IsBounded_example = Run-IsBounded sprint lower policy (omega arith) (omega arith) who refl (
    then_step
      (then_step
        (then_step
          (then_step (no_step {s = record { now = 0; rows = [] }})
            (passes (10 * second) (omega arith)))
          (signs_in (10 * second) who "10.0.0.1" wrong))
        (passes (20 * second) (omega arith)))
      (signs_in (20 * second) who "10.0.0.1" wrong))

login-guard_login_example :
    guard_login sprint lower policy
      (some (
        ok
          (login sprint lower policy
            (30 * second)
            (30 * second)
            who
            "10.0.0.1"
            (ok "sid")
            (guess (20 * second) [])).1))
      (31 * second)
      (31 * second)
      (trim_space who)
      "10.0.0.1"
    ≡ ok tt
unfolding login guard_login check_throttle ddcore.Throttle.refusal counted
    ddcore.Throttle.record_login ddcore.Throttle.record_attempt throttle_key trim_space
    ddcore.Throttle.interval_of
login-guard_login_example =
    login-guard_login sprint lower policy (30 * second) (30 * second) (31 * second) (31 * second)
      who "10.0.0.1" "sid" (guess (20 * second) []) refl
