-- ===== src/Throttle/Waited.antt =====
-- What waiting as long as CheckThrottle, of internal/engine/throttle.go, says comes to.
use ddcore.Common.{
  ℕ, ◌+◌, ◌-◌, ◌*◌, ◌≤◌, ◌<◌, ◌≡◌, sym, ap, ◌∙◌, subst, false, ◌||◌, some, List, [], ◌∷◌,
  if◌then◌else◌, ltb, ◌==◌, length, Has, All, Bool-cases, inl, inr, arith, String,
}
use ddcore.Text.{Text}
use ddcore.Cerr.{retry_after-with_retry_after, Error, Result, ok, err, retry_after, too_many}
use ddcore.Throttle.{
  Attempt, second, is_counted, counted, interval_of, oldest, wait_left, whole_seconds, refusal,
  check_throttle,
}
use ddcore.Throttle.Window.{
  is_counted_earlier, Has-select, oldest-Has, oldest-some, length-select_less,
}

abbrev pub max_seconds : ℕ
max_seconds = 2147483647

abbrev error_of : Result (Unit {0}) → Error
error_of (err e) = e
error_of (ok _) = too_many "" []

interval_of_le : (d : ℕ) → interval_of d ≤ d
unfolding interval_of
interval_of_le d = omega arith

whole_seconds_enough : (w : ℕ) → w ≤ whole_seconds w * second
unfolding whole_seconds
whole_seconds_enough w = ground arith

whole_seconds_bounded : (w : ℕ) → w ≤ max_seconds * second → whole_seconds w ≤ max_seconds
unfolding whole_seconds
whole_seconds_bounded w h = ground arith

All-Has : (P : Attempt → Type 0) (rows : List Attempt) (a : Attempt) → All P rows → Has a rows → P a
All-Has P (x ∷ rows) a h (inl s) = subst P s h.0
All-Has P (x ∷ rows) a h (inr w) = All-Has P rows a h.1 w
All-Has P [] a h w = absurd w

left_le :
    (created t later window : ℕ)
    → created ≡ t
    → t + window ≤ later
    → created + interval_of window ≤ later
left_le created t later window c h = omega (arith, interval_of_le window)

gone :
    (key : Text) (window : ℕ) (a : Attempt) (later : ℕ)
    → a.created + interval_of window ≤ later
    → is_counted key window later a ≡ false
gone key window a later h = ground arith

err_inj : {a b : Error} → Path (Result (Unit {0})) (err a) (err b) → a ≡ b
err_inj h = ap error_of h

le_trans : {a b c : ℕ} → a ≤ b → b ≤ c → a ≤ c
le_trans h k = omega arith

found_some :
    (limit window n : ℕ) → (limit == 0 || window == 0) ≡ false → ltb n limit ≡ false → 0 < n
found_some limit window n z y = ground arith

pub passes_less :
    (sprint : ℕ → String) (limit window clock : ℕ) (rows : List Attempt)
    → length rows < limit
    → refusal sprint limit window clock rows ≡ ok tt
unfolding refusal
passes_less sprint limit window clock rows h = ground arith

module _ (key : Text) (window now : ℕ) (rows : List Attempt) where
  abbrev found : List Attempt
  found = counted key window now rows

  -- once the wait is over, the oldest failure of the window has left it
  waited_less :
      (t later : ℕ)
      → oldest found ≡ some t
      → t + window ≤ later
      → now ≤ later
      → length (counted key window later rows) < length found
  unfolding counted
  waited_less t later o h n =
      let (a, w, c) = oldest-Has found t o in
      let (m, q) = Has-select (is_counted key window now) rows a w in
      length-select_less (is_counted key window later) (is_counted key window now)
        (is_counted_earlier key window n) rows a m
        (gone key window a later (left_le a.created t later window c h)) q

  wait_bounded : (t : ℕ) → oldest found ≡ some t → All (λ a. a.created ≤ now) rows → t ≤ now
  unfolding counted
  wait_bounded t o h =
      let (a, w, c) = oldest-Has found t o in
      subst (λ z. z ≤ now) c
        (All-Has (λ x. x.created ≤ now) rows a h
          (Has-select (is_counted key window now) rows a w).0)

  wait_le : (t : ℕ) → t ≤ now → wait_left window now (some t) ≤ window
  unfolding wait_left
  wait_le t h = omega arith

  wait_over : (t : ℕ) → t + window ≤ now + whole_seconds (wait_left window now (some t)) * second
  unfolding wait_left
  wait_over t = omega (arith, whole_seconds_enough (t + window - now))

  module _ (sprint : ℕ → String) (limit : ℕ) where
    -- Who is refused with no more failures in the window than the limit, and tries no more until
    -- the seconds are over that the answer carries as Retry-After, passes then. No attempt is in
    -- the future, the two clocks agree, and the window is at most the longest wait that the answer
    -- can carry.
    pub check_throttle_waited :
        (e : Error)
        → window ≤ max_seconds * second
        → All (λ a. a.created ≤ now) rows
        → length found ≤ limit
        → check_throttle sprint (some (ok rows)) now now key limit window ≡ err e
        → (secs : ℕ) × (retry_after e ≡ some secs)
          × (check_throttle sprint
                (some (ok rows))
                (now + secs * second)
                (now + secs * second)
                key
                limit
                window
              ≡ ok tt)
    unfolding check_throttle refusal
    check_throttle_waited e b h n r = elim (Bool-cases (limit == 0 || window == 0)) [
      | inl z ↦ absurd (cc (rw z at r))
      | inr z ↦ elim (Bool-cases (ltb (length found) limit)) [
        | inl y ↦ absurd (cc (rw (z, y) at r))
        | inr y ↦
            let (t, o) = oldest-some found (found_some limit window (length found) z y) in
            let secs = whole_seconds (wait_left window now (some t)) in
            let later = now + secs * second in
            let before = wait_bounded t o h in
            let bounded =
              whole_seconds_bounded (wait_left window now (some t))
                (le_trans (wait_le t before) b) in
            let less = waited_less t later o (wait_over t) (omega arith) in
            (
              secs,
              ap retry_after (sym (err_inj (rw (z, y, o) at r)))
                  ∙ retry_after-with_retry_after
                      (too_many "Too many attempts. Try again in {0} second(s)" (sprint secs ∷ []))
                      secs bounded,
              ap
                    (λ x.
                      if x
                      then ok tt
                      else refusal sprint limit window later (counted key window later rows))
                    z
                  ∙ passes_less sprint limit window later (counted key window later rows)
                      (omega arith),
            )
      ]
    ]
