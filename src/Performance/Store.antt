-- ===== src/Performance/Store.antt =====
-- The tables that `PerformanceService` reads and writes, its queue of jobs and its messages.
use teamos_backend.Prelude.{List, Key}
use teamos_backend.Directory.{UserProfile}
use teamos_backend.Outbox.{Effect}
use teamos_backend.Task.{Task}
use teamos_backend.Performance.Model.{Performance, PerformanceSnapshot}

-- The data of a job 'recalculate': the users of an organization whose performance is to be computed
-- again.
pub record Recalculation : Type 0 where
  pub org_id : Key
  pub user_ids : List Key

-- The message of `TaskGateway` on performance.
pub data PerformanceMessage (V : Type 0) : Type 0 where
  performance_updated : Performance V → PerformanceMessage V

pub record PerformanceDb (V : Type 0) : Type 0 where
  pub profiles : List UserProfile
  pub tasks : List Task
  pub performances : List (Performance V)
  pub snapshots : List (PerformanceSnapshot V)
  pub queue : List Recalculation
  pub outbox : List (Effect (PerformanceMessage V))

-- The messages of the exceptions that the service throws.
pub data Fault : Type 0 where
  members_view_own supervisors_view_team no_performance : Fault
