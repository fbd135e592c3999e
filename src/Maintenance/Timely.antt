-- ===== src/Maintenance/Timely.antt =====
-- What the first part of Maintenance of internal/engine/maintenance.go finds: a read of the flag
-- starts after the last attempt before it.
use ddcore.Common.{ℕ, ◌+◌, ◌<◌, false, ◌≡◌, subst, Option, none, some, arith, Bool-cases, inl, inr}
use ddcore.Maintenance.{
  MaintenanceState, MaintenanceCache, answered, reading, maintenance_found, is_fresh,
}
use ddcore.Maintenance.Steps.{
  Reader, World, Step, Reached, time_passes, begins, reads, read_fails, ends, set_reads,
  set_publishes, set_waits, starts, steps, writes,
}

-- the attempt before a read that is under way is in the past
abbrev pub IsPast : Option ℕ → ℕ → Type 0
IsPast none now = Unit
IsPast (some t) now = t < now

abbrev pub IsTimely : Option Reader → ℕ → Type 0
IsTimely none now = Unit
IsTimely (some r) now = IsPast r.started now

IsPast-later : (o : Option ℕ) (now d : ℕ) → IsPast o now → IsPast o (now + d)
IsPast-later none now d h = tt
IsPast-later (some t) now d h = omega (arith, h)

IsTimely-later : (o : Option Reader) (now d : ℕ) → IsTimely o now → IsTimely o (now + d)
IsTimely-later none now d h = tt
IsTimely-later (some r) now d h = IsPast-later r.started now d h

stale-IsPast : (o : Option ℕ) (now : ℕ) → is_fresh now o ≡ false → IsPast o now
unfolding is_fresh
stale-IsPast none now h = tt
stale-IsPast (some t) now h = ground (arith, h)

module _ (now : ℕ) (m : MaintenanceCache) where
  found_reading :
      (started : Option ℕ) → maintenance_found now m ≡ reading started → IsPast started now
  unfolding maintenance_found
  found_reading started e = elim (Bool-cases (is_fresh now m.read)) [
    | inl f ↦ absurd (cc (rw f at e))
    | inr f ↦ elim (Bool-cases m.refreshing) [
      | inl g ↦ elim (Bool-cases m.known) [
        | inl k ↦ absurd (cc (rw (f, g, k) at e))
        | inr k ↦ absurd (cc (rw (f, g, k) at e))
      ]
      | inr g ↦
          let same : reading m.read ≡ reading started = rw (f, g) at e in
          let read_started : m.read ≡ started = cc same in
          subst (λ o. IsPast o now) read_started (stale-IsPast m.read now f)
    ]
  ]

  pub found_answered :
      (st : MaintenanceState) → maintenance_found now m ≡ answered st → m.state ≡ st
  unfolding maintenance_found
  found_answered st e = elim (Bool-cases (is_fresh now m.read)) [
    | inl f ↦ let same : answered m.state ≡ answered st = rw f at e in cc same
    | inr f ↦ elim (Bool-cases m.refreshing) [
      | inl g ↦ elim (Bool-cases m.known) [
        | inl k ↦ let same : answered m.state ≡ answered st = rw (f, g, k) at e in cc same
        | inr k ↦ absurd (cc (rw (f, g, k) at e))
      ]
      | inr g ↦ absurd (cc (rw (f, g) at e))
    ]
  ]

pub Step-IsTimely : {v w : World} → Step v w → IsTimely v.reader v.now → IsTimely w.reader w.now
Step-IsTimely {v} (time_passes d) h = IsTimely-later v.reader v.now d h
Step-IsTimely {v} (begins started e) h = found_reading v.now v.cache started e
Step-IsTimely {v} (reads r e) h = subst (λ o. IsTimely o v.now) e h
Step-IsTimely {v} (read_fails r e) h = subst (λ o. IsTimely o v.now) e h
Step-IsTimely (ends r found e f) h = tt
Step-IsTimely (set_reads st e) h = h
Step-IsTimely (set_publishes st rest e) h = h
Step-IsTimely (set_waits st rest e) h = h

pub Reached-IsTimely : {w : World} → Reached w → IsTimely w.reader w.now
Reached-IsTimely (starts now stored) = tt
Reached-IsTimely (steps v s) = Step-IsTimely s (Reached-IsTimely v)
Reached-IsTimely (writes on reason actor v) = Reached-IsTimely v
