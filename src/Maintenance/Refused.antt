-- ===== src/Maintenance/Refused.antt =====
-- Once a process has switched maintenance on, no read of the flag that was under way before
-- opens it again: internal/engine/maintenance.go.
use ddcore.Common.{
  ℕ, true, false, ◌≡◌, refl, subst, Option, none, some, List, [], ◌∷◌, arith, String, Bool-cases,
  inl, inr, ◌⊎◌, All, All-append, str_eq,
}
use ddcore.Cerr.{err}
use ddcore.Maintenance.{
  MaintenanceState, MaintenanceCache, maintenance_refreshing, maintenance_read, read_maintenance,
  publish, same_read, with_answer, check_writable, maintenance_error,
}
use ddcore.Maintenance.Steps.{
  Reader, World, row_of, Step, Steps, Returns, Reached, time_passes, begins, reads, read_fails,
  ends, set_reads, set_publishes, set_waits, no_step, then_step, at_once, has_waited, has_read,
}
use ddcore.Maintenance.Timely.{IsPast, IsTimely, found_answered, Step-IsTimely, Reached-IsTimely}

abbrev pub IsOn : MaintenanceState → Type 0
IsOn st = st.enabled ≡ true

-- the read has not read yet, has failed, or has read that maintenance is on
abbrev IsOnFound : Option (Option MaintenanceState) → Type 0
IsOnFound none = Unit
IsOnFound (some none) = Unit
IsOnFound (some (some st)) = IsOn st

-- ... or a newer state is in the cache
abbrev IsHarmless : Option ℕ → Option Reader → Type 0
IsHarmless read none = Unit
IsHarmless read (some r) = IsOnFound r.found ⊎ (same_read read r.started ≡ false)

-- the table, the cache and every state that may still get into it say that maintenance is on
record IsHeld (w : World) : Type 0 where
  stored : (st : MaintenanceState) × (w.stored ≡ some st) × IsOn st
  cached : IsOn w.cache.state
  setters : All IsOn w.setters
  harmless : IsHarmless w.cache.read w.reader

newer : (o : Option ℕ) (now : ℕ) → IsPast o now → same_read (some now) o ≡ false
unfolding same_read
newer none now h = refl
newer (some t) now h = ground (arith, h)

newer-IsHarmless : (o : Option Reader) (now : ℕ) → IsTimely o now → IsHarmless (some now) o
newer-IsHarmless none now h = tt
newer-IsHarmless (some r) now h = inr (newer r.started now h)

with_answer-IsOn :
    (now : ℕ) (found : Option MaintenanceState) (m : MaintenanceCache)
    → IsOn m.state
    → IsOnFound (some found)
    → IsOn (with_answer now found m).state
unfolding with_answer
with_answer-IsOn now none m c h = c
with_answer-IsOn now (some st) m c h = h

-- what a harmless read leaves in the cache
maintenance_read-IsOn :
    (now : ℕ) (started : Option ℕ) (found : Option MaintenanceState) (m : MaintenanceCache)
    → IsOn m.state
    → IsOnFound (some found) ⊎ (same_read m.read started ≡ false)
    → IsOn (maintenance_read now started found m).state
unfolding maintenance_read
maintenance_read-IsOn now started found m c h = elim (Bool-cases (same_read m.read started)) [
  | inl e ↦ elim h [
    | inl f ↦ rw e (with_answer-IsOn now found (record m { refreshing = false }) c f)
    | inr f ↦ absurd (cc (f, e))
  ]
  | inr e ↦ rw e c
]

ended-IsOn :
    (w : World) (r : Reader) (found : Option MaintenanceState)
    → IsHeld w
    → w.reader ≡ some r
    → r.found ≡ some found
    → IsOn (maintenance_read w.now r.started found w.cache).state
ended-IsOn w r found h e f =
    let harmless : IsOnFound r.found ⊎ (same_read w.cache.read r.started ≡ false) =
      subst (IsHarmless w.cache.read) e h.harmless in
    maintenance_read-IsOn w.now r.started found w.cache h.cached
      (subst (λ o. IsOnFound o ⊎ (same_read w.cache.read r.started ≡ false)) f harmless)

stored-IsOn :
    (w : World) (st : MaintenanceState)
    → IsHeld w
    → read_maintenance (row_of w.stored) ≡ some st
    → IsOn st
unfolding read_maintenance
stored-IsOn w st h e =
    let (s, is, on) = h.stored in
    let same : some s ≡ some st = rw is at e in let s_st : s ≡ st = cc same in subst IsOn s_st on

read-IsOn : (w : World) → IsHeld w → IsOnFound (some (read_maintenance (row_of w.stored)))
unfolding read_maintenance
read-IsOn w h = let (s, is, on) = h.stored in rw is on

Step-IsHeld : {v w : World} → Step v w → IsTimely v.reader v.now → IsHeld v → IsHeld w
unfolding maintenance_refreshing publish read_maintenance
Step-IsHeld {v} (time_passes d) t h = record {
  stored = h.stored;
  cached = h.cached;
  setters = h.setters;
  harmless = h.harmless;
}
Step-IsHeld {v} (begins started e) t h = record {
  stored = h.stored;
  cached = h.cached;
  setters = h.setters;
  harmless = inl tt;
}
Step-IsHeld {v} (reads r e) t h = record {
  stored = h.stored;
  cached = h.cached;
  setters = h.setters;
  harmless = inl (read-IsOn v h);
}
Step-IsHeld {v} (read_fails r e) t h = record {
  stored = h.stored;
  cached = h.cached;
  setters = h.setters;
  harmless = inl tt;
}
Step-IsHeld {v} (ends r found e f) t h = record {
  stored = h.stored;
  cached = ended-IsOn v r found h e f;
  setters = h.setters;
  harmless = tt;
}
Step-IsHeld {v} (set_reads st e) t h = record {
  stored = h.stored;
  cached = h.cached;
  setters = (stored-IsOn v st h e, h.setters);
  harmless = h.harmless;
}
Step-IsHeld {v} (set_publishes st rest e) t h =
    let on : All IsOn (st ∷ rest) = subst (All IsOn) e h.setters in
    record {
      stored = h.stored;
      cached = on.0;
      setters = on.1;
      harmless = newer-IsHarmless v.reader v.now t;
    }
Step-IsHeld {v} (set_waits st rest e) t h =
    let on : All IsOn (st ∷ rest) = subst (All IsOn) e h.setters in
    record {
      stored = h.stored;
      cached = h.cached;
      setters = All-append IsOn rest (st ∷ []) on.1 (on.0, tt);
      harmless = h.harmless;
    }

Steps-IsHeld :
    {v w : World}
    → Steps v w
    → IsTimely v.reader v.now
    → IsHeld v
    → IsTimely w.reader w.now × IsHeld w
Steps-IsHeld no_step t h = (t, h)
Steps-IsHeld (then_step more s) t h =
    let (u, k) = Steps-IsHeld more t h in (Step-IsTimely s u, Step-IsHeld s u k)

Returns-IsOn : {w : World} {st : MaintenanceState} → Returns w st → IsHeld w → IsOn st
Returns-IsOn {w} {st} (at_once e) h = subst IsOn (found_answered w.now w.cache st e) h.cached
Returns-IsOn has_waited h = h.cached
Returns-IsOn {w} (has_read r found e f) h = ended-IsOn w r found h e f

-- From the moment that SetMaintenance has put into the cache of a process that maintenance is on,
-- until the flag is written again, every write in the process that maintenance holds is refused,
-- whatever reads of the flag are under way: also one that read it before it was switched on. The
-- other calls of SetMaintenance that are not done have read that it is on.
pub check_writable-refused :
    {w w' : World} {stored st seen : MaintenanceState} {rest : List MaintenanceState}
    (doctype : String)
    → Reached w
    → w.stored ≡ some stored
    → IsOn stored
    → w.setters ≡ st ∷ rest
    → All IsOn (st ∷ rest)
    → Steps (record w { cache = publish w.now st w.cache; setters = rest }) w'
    → Returns w' seen
    → str_eq doctype "Error Log" ≡ false
    → check_writable doctype true false seen ≡ err (maintenance_error seen)
unfolding check_writable publish
check_writable-refused {w} {w'} {stored} {st} doctype reached is on pending all run answer name =
    let timely = Reached-IsTimely reached in
    let held : IsHeld (record w { cache = publish w.now st w.cache; setters = _ }) = record {
      stored = (stored, is, on);
      cached = all.0;
      setters = all.1;
      harmless = newer-IsHarmless w.reader w.now timely;
    } in
    let (_, later) = Steps-IsHeld run timely held in
    let closed = Returns-IsOn answer later in rw (name, closed) refl
