-- ===== src/Throttle/Cleared.antt =====
-- The attempts that are left after a sign-in with the right password: recordLogin of
-- internal/engine/throttle.go and Login of internal/engine/auth.go.
use ddcore.Common.{
  ℕ, ◌+◌, ◌*◌, ◌<◌, ◌≡◌, refl, sym, ◌∙◌, Bool, true, false, not, ◌&&◌, ◌||◌, some, List, [], ◌∷◌,
  ltb, ◌==◌, length, select, Bool-cases, inl, inr, arith, String, str_eq,
}
use ddcore.Text.{Text, text_eq, trim_space}
use ddcore.Cerr.{Result, ok, err, ◌>>=◌}
use ddcore.Throttle.{
  after_guard, interval_of, Attempt, Policy, is_counted, counted, check_throttle, login_key, ip_key,
  record_attempt, clear_attempts, is_failure_of, record_login, guard_login, login,
}
use ddcore.Throttle.Window.{length-select_twice}
use ddcore.Throttle.Waited.{passes_less}

not_first :
    {A : Type 0} (p q : A → Bool)
    → ((x : A) → p x ≡ true → q x ≡ true)
    → (x : A) → q x ≡ false
    → p x ≡ false
not_first p q h x e = elim (Bool-cases (p x)) [ inl i ↦ absurd (cc (sym (h x i) ∙ e)) | inr i ↦ i ]

counted_failure : (a b : Bool) → (a && b) ≡ true → a ≡ true
counted_failure a b h = ground arith

below : (limit window : ℕ) {n : ℕ} → (limit == 0 || window == 0) ≡ false → n ≡ 0 → n < limit
below limit window e h = ground arith

length-select-not :
    {A : Type 0} (p q : A → Bool)
    → ((x : A) → p x ≡ true → q x ≡ true)
    → (xs : List A) → length (select p (select (λ x. not (q x)) xs)) ≡ 0
length-select-not p q h [] = refl
length-select-not p q h (x ∷ xs) = elim (Bool-cases (q x)) [
  | inl e ↦ rw e (length-select-not p q h xs)
  | inr e ↦ rw (e, not_first p q h x e) (length-select-not p q h xs)
]

module _ (window now : ℕ) where
  count_cleared :
      (key : Text) (rows : List Attempt)
      → length (counted key window now (clear_attempts key rows).1) ≡ 0
  unfolding counted clear_attempts
  count_cleared key rows =
      length-select-not (is_counted key window now) (is_failure_of key)
        (λ a e.
          counted_failure (text_eq a.identity key && not a.passed)
            (ltb now (a.created + interval_of window)) e)
        rows

  count_cleared_both :
      (key other : Text) (rows : List Attempt)
      → length (counted key window now (clear_attempts other (clear_attempts key rows).1).1) ≡ 0
  unfolding counted clear_attempts
  count_cleared_both key other rows = omega (
    arith,
    count_cleared key rows,
    length-select_twice (is_counted key window now) (λ a. not (is_failure_of other a))
        (clear_attempts key rows).1,
  )

  check_throttle_none :
      (sprint : ℕ → String) (clock : ℕ) (key : Text) (limit : ℕ) (rows : List Attempt)
      → length (counted key window now rows) ≡ 0
      → check_throttle sprint (some (ok rows)) now clock key limit window ≡ ok tt
  unfolding check_throttle
  check_throttle_none sprint clock key limit rows h =
      elim (Bool-cases (limit == 0 || window == 0)) [
        | inl e ↦ rw e refl
        | inr e ↦ rw e (
            passes_less sprint limit window clock (counted key window now rows)
              (below limit window e h))
      ]

both_pass :
    {first next : Result (Unit {0})} → first ≡ ok tt → next ≡ ok tt → (first >>= λ _. next) ≡ ok tt
both_pass e f = rw (e, f) refl

after_guard_ok :
    (P : List Attempt → Type 0) (guard : Result (Unit {0})) (sid : String)
    (recorded : Bool → List Attempt) (rows : List Attempt)
    → (after_guard guard (ok sid) recorded rows).0 ≡ ok sid
    → P (recorded true)
    → P (after_guard guard (ok sid) recorded rows).1
after_guard_ok P (err e) sid recorded rows h k = absurd (cc h)
after_guard_ok P (ok u) sid recorded rows h k = k

module _ (sprint : ℕ → String) (lower : ℕ → ℕ) (p : Policy) where
  recorded_free :
      (now later clock : ℕ) (identity : Text) (ip : String) (rows : List Attempt)
      → guard_login sprint lower p
          (some (ok (record_login lower now identity ip true rows)))
          later
          clock
          identity
          ip
        ≡ ok tt
  unfolding guard_login record_login
  recorded_free now later clock identity ip rows =
      let k = login_key lower identity in
      let first = record_attempt now k ip true rows in
      let logged = record_attempt now (ip_key lower ip) ip true first in
      let once = (clear_attempts k logged).1 in
      let twice = (clear_attempts (ip_key lower ip) once).1 in
      elim (Bool-cases (str_eq ip "")) [
        | inl e ↦ rw e (
            both_pass
              (check_throttle_none p.lockout_window later sprint clock k p.max_login_attempts
                (clear_attempts k first).1 (count_cleared p.lockout_window later k first))
              refl)
        | inr e ↦ rw e (
            both_pass
              (check_throttle_none p.lockout_window later sprint clock k p.max_login_attempts twice
                (count_cleared_both p.lockout_window later k (ip_key lower ip) logged))
              (check_throttle_none p.lockout_window later sprint clock (ip_key lower ip)
                (p.max_login_attempts * 5) twice
                (count_cleared p.lockout_window later (ip_key lower ip) once)))
      ]

  -- Whoever signs in with the right password is not refused afterwards for what failed before,
  -- neither by the account nor by the address, whatever the table holds and whenever he comes back.
  pub login-guard_login :
      (now clock later clock_then : ℕ) (user : Text) (ip sid : String) (rows : List Attempt)
      → (login sprint lower p now clock user ip (ok sid) rows).0 ≡ ok sid
      → guard_login sprint lower p
          (some (ok (login sprint lower p now clock user ip (ok sid) rows).1))
          later
          clock_then
          (trim_space user)
          ip
        ≡ ok tt
  unfolding login
  login-guard_login now clock later clock_then user ip sid rows h =
      after_guard_ok
        (λ rs.
          guard_login sprint lower p (some (ok rs)) later clock_then (trim_space user) ip ≡ ok tt)
        (guard_login sprint lower p (some (ok rows)) now clock (trim_space user) ip) sid
        (λ passed. record_login lower now (trim_space user) ip passed rows) rows h
        (recorded_free now later clock_then (trim_space user) ip rows)
