-- ===== src/Jobs/Queues.antt =====
-- The queues of a worker's pool: poolFilter and queueFilter.where of internal/engine/jobs.go.
use ddcore.Common.{String, Bool, not, List, [], if◌then◌else◌, str_eq, any, select}

-- which queues a worker claims from
pub record QueueFilter : Type 0 where
  pub only : String
  pub except : List String

-- the queues other than the default that have a pool of their own
abbrev pub named_pools : List String → List String
named_pools = select (λ q. not (str_eq q "default"))

-- The code sorts `except`, which only sets the order of the statement's parameters.
unfoldable pub pool_filter : List String → String → QueueFilter
pool_filter pools queue =
    if str_eq queue "default"
    then record { only = ""; except = named_pools pools }
    else record { only = queue; except = [] }

-- the condition that queueFilter.where puts on a row
unfoldable pub in_queues : QueueFilter → String → Bool
in_queues f queue =
    if str_eq f.only "" then not (any (λ q. str_eq q queue) f.except) else str_eq queue f.only
