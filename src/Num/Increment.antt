-- ===== src/Num/Increment.antt =====
-- The value and the digits of what increment and the padding of insertPoint of
-- internal/num/num.go return.
use ddcore.Common.{
  subst, ℕ, suc, ◌+◌, ◌-◌, ◌*◌, ◌^◌, ◌≤◌, ◌≡◌, refl, ap, Bool, true, false, [], ◌∷◌, if◌then◌else◌,
  ltb, arith, Bool-cases, inl, inr, length, ltb→lt,
}
use ddcore.Text.{Text, is_digit, value_from}
use ddcore.Num.{increment_loop, increment}
use ddcore.Num.Digits.{IsDigits, digit-bounds, value-cons}
use native.Mathlib.Nat.{pow-suc}

-- the loop's result has as many digits, and with what it carries it is one more
suc-mul_lem : (k m p : ℕ) → m ≡ suc k → m * p ≡ k * p + p
suc-mul_lem k m p h = rw (h) (omega arith)

record IsNext (d : Text) (carried : Bool) (t : Text) : Type 0 where
  digits : IsDigits t
  same : length t ≡ length d
  next : value_from 0 t + (if carried then 10 ^ length d else 0) ≡ suc (value_from 0 d)

value-cons_same :
    (c : ℕ) (s t : Text)
    → length t ≡ length s
    → value_from 0 (c ∷ t) ≡ (c - 48) * 10 ^ length s + value_from 0 t
value-cons_same c s t e =
    subst (λ k. value_from 0 (c ∷ t) ≡ (c - 48) * 10 ^ k + value_from 0 t) e (value-cons c t)

IsNext-up :
    (c : ℕ) (s t : Text)
    → is_digit c ≡ true
    → ltb c 57 ≡ true
    → IsNext s true t
    → IsNext (c ∷ s) false (suc c ∷ t)
IsNext-up c s t h l n = record {
  digits = (ground (arith, digit-bounds c h, ltb→lt c 57 l), n.digits);
  same = ap suc n.same;
  next = omega (
    arith,
    value-cons_same (suc c) s t n.same,
    value-cons c s,
    n.next,
    suc-mul_lem (c - 48) (suc c - 48) (10 ^ length s) (omega (arith, digit-bounds c h)),
  );
}

IsNext-nine :
    (c : ℕ) (s t : Text)
    → is_digit c ≡ true
    → ltb c 57 ≡ false
    → IsNext s true t
    → IsNext (c ∷ s) true (48 ∷ t)
IsNext-nine c s t h l n =
    let nine : c ≡ 57 = ground (arith, digit-bounds c h) in
    record {
      digits = (refl, n.digits);
      same = ap suc n.same;
      next = omega (
        arith,
        value-cons_same 48 s t n.same,
        subst (λ k. value_from 0 (c ∷ s) ≡ (k - 48) * 10 ^ length s + value_from 0 s) nine
            (value-cons c s),
        n.next,
        pow-suc 10 (length s),
      );
    }

IsNext-keep :
    (c : ℕ) (s t : Text) → is_digit c ≡ true → IsNext s false t → IsNext (c ∷ s) false (c ∷ t)
IsNext-keep c s t h n = record {
  digits = (h, n.digits);
  same = ap suc n.same;
  next = omega (arith, value-cons_same c s t n.same, value-cons c s, n.next);
}

increment_loop_lem : (d : Text) → IsDigits d → IsNext d (increment_loop d).0 (increment_loop d).1
unfolding increment_loop value_from
increment_loop_lem [] h = record { digits = tt; same = refl; next = refl }
increment_loop_lem (c ∷ s) h =
    let rest = increment_loop_lem s h.1 in
    elim (Bool-cases (increment_loop s).0) [
      | inl e ↦ elim (Bool-cases (ltb c 57)) [
        | inl l ↦ rw (e, l) (IsNext-up c s _ h.0 l (rw e at rest))
        | inr l ↦ rw (e, l) (IsNext-nine c s _ h.0 l (rw e at rest))
      ]
      | inr e ↦ rw e (IsNext-keep c s _ h.0 (rw e at rest))
    ]

-- what increment makes of the loop's result
module _ (d : Text) (h : IsDigits d) where
  pub value-increment : value_from 0 (increment d) ≡ suc (value_from 0 d)
  unfolding increment
  value-increment =
      let all = increment_loop_lem d h in
      elim (Bool-cases (increment_loop d).0) [
        | inl e ↦
            let n : IsNext d true (increment_loop d).1 = rw e at all in
            rw e (omega (arith, value-cons_same 49 d _ n.same, n.next))
        | inr e ↦
            let n : IsNext d false (increment_loop d).1 = rw e at all in
            rw e (omega (arith, n.next))
      ]

  pub increment-IsDigits : IsDigits (increment d)
  unfolding increment
  increment-IsDigits =
      let all = increment_loop_lem d h in
      elim (Bool-cases (increment_loop d).0) [
        | inl e ↦ rw e (refl, all.digits)
        | inr e ↦ rw e all.digits
      ]

  -- increment never shortens a text
  pub length-increment : length d ≤ length (increment d)
  unfolding increment
  length-increment =
      let all = increment_loop_lem d h in
      elim (Bool-cases (increment_loop d).0) [
        | inl e ↦ rw e (omega (arith, all.same))
        | inr e ↦ rw e (omega (arith, all.same))
      ]
