-- ===== src/Throttle.antt =====
-- The login throttle: internal/engine/throttle.go and Login of internal/engine/auth.go. A time is
-- a number of nanoseconds. A limit or a window that is negative stands as 0, which the code treats
-- alike. The seconds of a wait are computed exactly, where the code goes through a float64.
pub mod Window
pub mod Waited
pub mod Counts
pub mod Bounded
pub mod Cleared
mod Tests
use ddcore.Common.{
  ℕ, ◌+◌, ◌-◌, ◌*◌, ◌/◌, min, max, String, Bool, true, false, not, ◌&&◌, ◌||◌, Option, none, some,
  List, [], ◌∷◌, ◌++◌, map, if◌then◌else◌, str_eq, ltb, ◌==◌, length, select,
}
use ddcore.Text.{Text, codes, trim_space, text_eq}
use ddcore.Cerr.{Result, ok, err, ◌>>=◌, too_many, with_retry_after}

-- a row of ddcore_login_attempt
pub record Attempt : Type 0 where
  pub identity : Text
  pub ip : String
  pub passed : Bool
  pub created : ℕ

abbrev pub second : ℕ
second = 1_000_000_000

-- intervalOf: an SQL interval of whole seconds
unfoldable pub interval_of : ℕ → ℕ
interval_of d = d / second * second

-- `lower`: unicode.ToLower
unfoldable pub throttle_key : (ℕ → ℕ) → String → Text → Text
throttle_key lower prefix identity = codes prefix ++ (58 ∷ map lower (trim_space identity))

-- identity = $1 AND NOT ok AND created > now() - $2::interval
abbrev pub is_counted : Text → ℕ → ℕ → Attempt → Bool
is_counted key window now a =
    text_eq a.identity key && not a.passed && ltb now (a.created + interval_of window)

unfoldable pub counted : Text → ℕ → ℕ → List Attempt → List Attempt
counted key window now rows = select (is_counted key window now) rows

abbrev pub earlier : ℕ → Option ℕ → ℕ
earlier t none = t
earlier t (some u) = min t u

-- min(created)
unfoldable pub oldest : List Attempt → Option ℕ
oldest [] = none
oldest (a ∷ rows) = some (earlier a.created (oldest rows))

-- time.Until(oldest.Add(window)), or the window where there is none; below 0 it is 0 here
unfoldable pub wait_left : ℕ → ℕ → Option ℕ → ℕ
wait_left window clock none = window
wait_left window clock (some t) = t + window - clock

unfoldable pub whole_seconds : ℕ → ℕ
whole_seconds w = max 1 ((w + (second - 1)) / second)

-- the answer to a query that found the rows; `sprint` prints a number
unfoldable pub refusal : (ℕ → String) → ℕ → ℕ → ℕ → List Attempt → Result (Unit {0})
refusal sprint limit window clock found =
    let secs = whole_seconds (wait_left window clock (oldest found)) in
    if ltb (length found) limit
    then ok tt
    else err (
        with_retry_after
          (too_many "Too many attempts. Try again in {0} second(s)" (sprint secs ∷ [])) secs)

-- The table of attempts: none where there is no database, an error where the query fails.
-- `now` is the database's clock, `clock` the process's.
unfoldable pub check_throttle :
    (ℕ → String) → Option (Result (List Attempt)) → ℕ → ℕ → Text → ℕ → ℕ → Result (Unit {0})
check_throttle sprint none now clock key limit window = ok tt
check_throttle sprint (some (err e)) now clock key limit window = ok tt
check_throttle sprint (some (ok rows)) now clock key limit window =
    let asked = refusal sprint limit window clock (counted key window now rows) in
    if limit == 0 || window == 0 then ok tt else asked

unfoldable pub record_attempt : ℕ → Text → String → Bool → List Attempt → List Attempt
record_attempt now key ip passed rows =
    record { identity = key; ip = ip; passed = passed; created = now } ∷ rows

-- identity = $1 AND NOT ok
abbrev pub is_failure_of : Text → Attempt → Bool
is_failure_of key a = text_eq a.identity key && not a.passed

-- the rows that stay, and how many go
unfoldable pub clear_attempts : Text → List Attempt → ℕ × List Attempt
clear_attempts key rows =
    (length (select (is_failure_of key) rows), select (λ a. not (is_failure_of key a)) rows)

-- config.AuthPolicy, as far as the throttle reads it
pub record Policy : Type 0 where
  pub max_login_attempts : ℕ
  pub lockout_window : ℕ

abbrev pub login_key : (ℕ → ℕ) → Text → Text
login_key lower identity = throttle_key lower "login" identity

abbrev pub ip_key : (ℕ → ℕ) → String → Text
ip_key lower ip = throttle_key lower "loginip" (codes ip)

unfoldable pub guard_login :
    (ℕ → String)
    → (ℕ → ℕ)
    → Policy
    → Option (Result (List Attempt))
    → ℕ
    → ℕ
    → Text
    → String
    → Result (Unit {0})
guard_login sprint lower p rows now clock identity ip =
    check_throttle sprint rows now clock (login_key lower identity) p.max_login_attempts
      p.lockout_window
    >>= λ _.
        if str_eq ip ""
        then ok tt
        else check_throttle sprint rows now clock (ip_key lower ip) (p.max_login_attempts * 5)
            p.lockout_window

abbrev pub on_address : String → (List Attempt → List Attempt) → List Attempt → List Attempt
on_address ip f rows = let done = f rows in if str_eq ip "" then rows else done

unfoldable pub record_login : (ℕ → ℕ) → ℕ → Text → String → Bool → List Attempt → List Attempt
record_login lower now identity ip passed rows =
    let logged =
      on_address ip (record_attempt now (ip_key lower ip) ip passed)
        (record_attempt now (login_key lower identity) ip passed rows) in
    let cleared =
      on_address ip (λ rs. (clear_attempts (ip_key lower ip) rs).1)
        (clear_attempts (login_key lower identity) logged).1 in
    if passed then cleared else logged

abbrev pub is_ok : {A : Type 0} → Result A → Bool
is_ok (ok x) = true
is_ok (err e) = false

abbrev pub after_guard :
    Result (Unit {0})
    → Result String
    → (Bool → List Attempt)
    → List Attempt
    → Result String × List Attempt
after_guard (err e) session recorded rows = (err e, rows)
after_guard (ok _) session recorded rows = (session, recorded (is_ok session))

-- Login; `session`: what the check of the password and the session's row come to
unfoldable pub login :
    (ℕ → String)
    → (ℕ → ℕ)
    → Policy
    → ℕ
    → ℕ
    → Text
    → String
    → Result String
    → List Attempt
    → Result String × List Attempt
login sprint lower p now clock user ip session rows =
    let identity = trim_space user in
    after_guard (guard_login sprint lower p (some (ok rows)) now clock identity ip) session
      (λ passed. record_login lower now identity ip passed rows) rows
