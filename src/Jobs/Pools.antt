-- ===== src/Jobs/Pools.antt =====
-- poolFilter of internal/engine/jobs.go over all the pools of a site.
use ddcore.Common.{
  ap, ◌≡◌, ◌≢◌, refl, Bool, true, false, List, [], ◌∷◌, arith, String, str_eq, eq_iff, any, not,
  if◌then◌else◌, Bool-cases, inl, inr,
}
use ddcore.Jobs.Queues.{pool_filter, in_queues, named_pools}

-- the pool that a queue belongs to: its own, if it has one, or else the default pool
abbrev pub owner : List String → String → String
owner pools q = if any (λ p. str_eq p q) (named_pools pools) then q else "default"

named_ne_default :
    (pools : List String) (q : String)
    → any (λ p. str_eq p q) (named_pools pools) ≡ true
    → str_eq q "default" ≡ false
named_ne_default [] q h = cc
named_ne_default (p ∷ pools) q h =
    ground (arith, named_ne_default pools q, eq_iff p q, eq_iff p "default", eq_iff q "default")

default_pool :
    (named : Bool) (q : String)
    → (named ≡ true → str_eq q "default" ≡ false)
    → not named ≡ str_eq (if named then q else "default") "default"
default_pool true q h = rw (h refl)
default_pool false q h = refl

other_pool :
    (named : Bool) (q pool : String)
    → str_eq pool "default" ≡ false
    → (named ≡ false → q ≢ pool)
    → str_eq q pool ≡ str_eq (if named then q else "default") pool
other_pool true q pool d h = refl
other_pool false q pool d h =
    ground (arith, h refl, eq_iff q pool, eq_iff "default" pool, eq_iff pool "default")

-- Among pools with names, the filter of a pool lets a queue through exactly if the queue is the
-- pool's: so every queue is some pool's, and no two pools claim from one queue.
in_queues-pool_filter :
    (pools : List String) (pool q : String)
    → pool ≢ ""
    → (str_eq pool "default" ≡ false → any (λ p. str_eq p pool) (named_pools pools) ≡ true)
    → in_queues (pool_filter pools pool) q ≡ str_eq (owner pools q) pool
unfolding in_queues pool_filter
in_queues-pool_filter pools pool q named known = elim (Bool-cases (str_eq pool "default")) [
  | inl d ↦
      let same : pool ≡ "default" = (eq_iff pool "default").0 d in
      rw same (default_pool _ q (named_ne_default pools q))
  | inr d ↦
      let unnamed : str_eq pool "" ≡ false = ground (arith, eq_iff pool "", named) in
      rw (d, in_queues, pool_filter)
        (rw unnamed (
          other_pool (any (λ p. str_eq p q) (named_pools pools)) q pool d
            (λ no_q same. cc (ap (λ x. any (λ p. str_eq p x) (named_pools pools)) same, known d))))
]
