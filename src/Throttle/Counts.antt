-- ===== src/Throttle/Counts.antt =====
-- The failures of one identity that a window counts, before and after recordLogin, of
-- internal/engine/throttle.go.
use ddcore.Common.{
  &&-true, ap₂, ==→eq, ℕ, suc, ◌+◌, ◌≤◌, ◌≡◌, refl, Bool, true, false, not, ◌&&◌, List, [], ◌∷◌,
  if◌then◌else◌, ltb, ◌==◌, length, select, Bool-cases, inl, inr, arith, String, str_eq,
}
use ddcore.Text.{Text, text_eq}
use ddcore.Throttle.{
  interval_of, Attempt, is_counted, counted, throttle_key, login_key, ip_key, record_attempt,
  clear_attempts, is_failure_of, record_login, on_address,
}
use ddcore.Throttle.Window.{length-select_twice}

pub text_eq→≡ : (s t : Text) → text_eq s t ≡ true → s ≡ t
text_eq→≡ [] [] h = refl
text_eq→≡ [] (d ∷ t) h = absurd (cc h)
text_eq→≡ (c ∷ s) [] h = absurd (cc h)
text_eq→≡ (c ∷ s) (d ∷ t) h =
    let (e, r) = &&-true (c == d) (text_eq s t) h in
    ap₂ (λ x xs. x ∷ xs) (==→eq c d e) (text_eq→≡ s t r)

-- the count of an account is not that of an address
pub apart :
    (lower : ℕ → ℕ) (identity : Text) (ip : String)
    → text_eq (ip_key lower ip) (login_key lower identity) ≡ false
unfolding throttle_key
apart lower identity ip = refl

off :
    (b : Bool) (x : Attempt) (rows : List Attempt)
    → b ≡ false
    → length (if b then x ∷ rows else rows) ≡ length rows
off b x rows h = rw h refl

one_more :
    (b : Bool) (x : Attempt) (rows : List Attempt)
    → length (if b then x ∷ rows else rows) ≤ suc (length rows)
one_more true x rows = omega arith
one_more false x rows = omega arith

no_failure : (a b : Bool) → (a && false && b) ≡ false
no_failure a b = ground arith

no_match : (a b c : Bool) → a ≡ false → (a && b && c) ≡ false
no_match a b c h = ground arith

module _ (window now : ℕ) (key : Text) where
  pub count_select :
      (keep : Attempt → Bool) (rows : List Attempt)
      → length (counted key window now (select keep rows)) ≤ length (counted key window now rows)
  unfolding counted
  count_select keep rows = length-select_twice (is_counted key window now) keep rows

  count_passed :
      (other : Text) (ip : String) (rows : List Attempt)
      → length (counted key window now (record_attempt now other ip true rows))
        ≡ length (counted key window now rows)
  unfolding counted record_attempt
  count_passed other ip rows =
      off _ (record { identity = other; ip = ip; passed = true; created = now })
        (select (is_counted key window now) rows)
        (no_failure (text_eq other key) (ltb now (now + interval_of window)))

  count_apart :
      (other : Text) (ip : String) (passed : Bool) (rows : List Attempt)
      → text_eq other key ≡ false
      → length (counted key window now (record_attempt now other ip passed rows))
        ≡ length (counted key window now rows)
  unfolding counted record_attempt
  count_apart other ip passed rows h =
      off _ (record { identity = other; ip = ip; passed = passed; created = now })
        (select (is_counted key window now) rows)
        (no_match (text_eq other key) (not passed) (ltb now (now + interval_of window)) h)

  count_failed :
      (other : Text) (ip : String) (rows : List Attempt)
      → length (counted key window now (record_attempt now other ip false rows))
        ≤ suc (length (counted key window now rows))
  unfolding counted record_attempt
  count_failed other ip rows =
      one_more _ (record { identity = other; ip = ip; passed = false; created = now })
        (select (is_counted key window now) rows)

  count_address :
      (ip : String) (f : List Attempt → List Attempt) (rows : List Attempt)
      → length (counted key window now (f rows)) ≤ length (counted key window now rows)
      → length (counted key window now (on_address ip f rows))
        ≤ length (counted key window now rows)
  count_address ip f rows h = elim (Bool-cases (str_eq ip "")) [
    | inl e ↦ rw e (omega arith)
    | inr e ↦ rw e h
  ]

le_of_eq : {a b : ℕ} → a ≡ b → a ≤ b
le_of_eq e = omega arith

module _ (lower : ℕ → ℕ) (window now : ℕ) (who : Text) where
  abbrev failures : List Attempt → ℕ
  failures rows = length (counted (login_key lower who) window now rows)

  address_logged :
      (ip : String) (passed : Bool) (rows : List Attempt)
      → failures (on_address ip (record_attempt now (ip_key lower ip) ip passed) rows)
        ≤ failures rows
  address_logged ip passed rows =
      count_address window now (login_key lower who) ip
        (record_attempt now (ip_key lower ip) ip passed) rows
        (le_of_eq (
          count_apart window now (login_key lower who) (ip_key lower ip) ip passed rows
            (apart lower who ip)))

  address_cleared :
      (ip : String) (rows : List Attempt)
      → failures (on_address ip (λ rs. (clear_attempts (ip_key lower ip) rs).1) rows)
        ≤ failures rows
  unfolding clear_attempts
  address_cleared ip rows =
      count_address window now (login_key lower who) ip
        (λ rs. (clear_attempts (ip_key lower ip) rs).1) rows
        (count_select window now (login_key lower who)
          (λ a. not (is_failure_of (ip_key lower ip) a)) rows)

  account_cleared :
      (key : Text) (rows : List Attempt) → failures (clear_attempts key rows).1 ≤ failures rows
  unfolding clear_attempts
  account_cleared key rows =
      count_select window now (login_key lower who) (λ a. not (is_failure_of key a)) rows

  pub passed_logged :
      (identity : Text) (ip : String) (rows : List Attempt)
      → failures (record_login lower now identity ip true rows) ≤ failures rows
  unfolding record_login
  passed_logged identity ip rows =
      let k = login_key lower identity in
      let first = record_attempt now k ip true rows in
      let logged = on_address ip (record_attempt now (ip_key lower ip) ip true) first in
      omega (
        arith,
        address_cleared ip (clear_attempts k logged).1,
        account_cleared k logged,
        address_logged ip true first,
        count_passed window now (login_key lower who) k ip rows,
      )

  pub failed_logged :
      (identity : Text) (ip : String) (rows : List Attempt)
      → failures (record_login lower now identity ip false rows) ≤ suc (failures rows)
  unfolding record_login
  failed_logged identity ip rows =
      let k = login_key lower identity in
      let first = record_attempt now k ip false rows in
      omega (
        arith,
        address_logged ip false first,
        count_failed window now (login_key lower who) k ip rows,
      )

  pub other_failed :
      (identity : Text) (ip : String) (rows : List Attempt)
      → text_eq (login_key lower identity) (login_key lower who) ≡ false
      → failures (record_login lower now identity ip false rows) ≤ failures rows
  unfolding record_login
  other_failed identity ip rows h =
      let k = login_key lower identity in
      omega (
        arith,
        address_logged ip false (record_attempt now k ip false rows),
        count_apart window now (login_key lower who) k ip false rows h,
      )
