-- ===== src/Health.antt =====
-- internal/cdc/health/health.go: the health checks of components and what the HTTP endpoints answer, and the
-- check of a pipeline (internal/cdc/pipeline/pipeline.go). A check acts on the world `W`, of which the
-- timeout of its context is a part. The map of results is read in an order that the program does not fix:
-- it is the parameter `order`.
mod Tests
pub mod Answers
use Prim.Native.String.{String}
use philotes.Common.{
  ℕ, ◌-◌, Bool, true, false, not, ◌&&◌, ◌||◌, Option, none, some, List, [], ◌∷◌, ◌++◌,
  if◌then◌else◌,
}
use philotes.Common.Errors.{GoError}
use philotes.Common.Maps.{lookup, put}
use philotes.Pipeline.State.{
  State, starting, running, paused, stopping, stopped, failed, StateMachine,
}

-- `Status` is a string: the four that are known, and any other.
pub data HealthStatus : Type 0 where
  healthy unhealthy degraded unknown : HealthStatus
  other_status : String → HealthStatus

abbrev pub is_healthy_status : HealthStatus → Bool
is_healthy_status healthy = true
is_healthy_status unhealthy = false
is_healthy_status degraded = false
is_healthy_status unknown = false
is_healthy_status (other_status s) = false

abbrev pub is_unhealthy_status : HealthStatus → Bool
is_unhealthy_status healthy = false
is_unhealthy_status unhealthy = true
is_unhealthy_status degraded = false
is_unhealthy_status unknown = false
is_unhealthy_status (other_status s) = false

abbrev pub is_degraded_status : HealthStatus → Bool
is_degraded_status healthy = false
is_degraded_status unhealthy = false
is_degraded_status degraded = true
is_degraded_status unknown = false
is_degraded_status (other_status s) = false

-- The error of a check that has none is the empty text.
pub record CheckResult : Type 0 where
  pub name : String
  pub status : HealthStatus
  pub message : String
  pub duration : ℕ
  pub last_check : ℕ
  pub error : Option GoError

-- A checker is its name and its check.
pub record HealthChecker (W : Type 0) : Type 0 where
  pub name : String
  pub check : W → CheckResult × W

abbrev pub Results : Type 0
Results = List (String × CheckResult)

pub record HealthManager (W : Type 0) : Type 0 where
  pub checkers : List (HealthChecker W)
  pub results : Results

module _ {W : Type 0} where
  abbrev pub register : HealthChecker W → HealthManager W → HealthManager W
  register c m = record m { checkers = m.checkers ++ (c ∷ []) }

  -- The loop over the checkers, with the results of this round and those that the manager keeps.
  unfoldable pub check_each : List (HealthChecker W) → Results → Results → W → Results × Results × W
  check_each [] results kept w = (results, kept, w)
  check_each (c ∷ cs) results kept w =
      let (r, w) = c.check w in check_each cs (put c.name r results) (put c.name r kept) w

  unfoldable pub check_all : HealthManager W → W → Results × HealthManager W × W
  unfolding check_each
  check_all m w =
      let (results, kept, w) = check_each m.checkers [] m.results w in
      (results, record m { results = kept }, w)

  abbrev pub get_result : String → HealthManager W → Option CheckResult
  get_result name m = lookup name m.results

-- The loop of `IsHealthy`.
unfoldable pub all_healthy : Results → Bool
all_healthy [] = true
all_healthy ((name, r) ∷ rest) =
    let others = all_healthy rest in
    if not (is_healthy_status r.status) && not (is_degraded_status r.status) then false else others

-- What a result that is not unhealthy makes of the overall status.
abbrev pub next_status : HealthStatus → HealthStatus → HealthStatus
next_status overall degraded = if is_healthy_status overall then degraded else overall
next_status overall unknown = if is_healthy_status overall then unknown else overall
next_status overall healthy = overall
next_status overall unhealthy = unhealthy
next_status overall (other_status s) = overall

-- The loop of `GetOverallStatus`, which ends at a result that is unhealthy.
unfoldable pub overall_status : HealthStatus → Results → HealthStatus
overall_status overall [] = overall
overall_status overall ((name, r) ∷ rest) =
    let last = overall_status (next_status overall r.status) rest in
    if is_unhealthy_status r.status then unhealthy else last

pub record OverallStatus : Type 0 where
  pub status : HealthStatus
  pub components : Results
  pub timestamp : ℕ

-- The code of the answer: 200 is OK, and 503 that the service is not available.
abbrev pub health_code : HealthStatus → ℕ
health_code s = if is_healthy_status s then 200 else if is_degraded_status s then 200 else 503

module _ {W : Type 0} (order : Results → Results) where
  unfoldable pub is_healthy : HealthManager W → W → Bool × HealthManager W × W
  unfolding check_all all_healthy
  is_healthy m w = let (results, m, w) = check_all m w in (all_healthy (order results), m, w)

  abbrev pub is_ready : HealthManager W → W → Bool × HealthManager W × W
  is_ready m w = is_healthy m w

  unfoldable pub get_overall_status : ℕ → HealthManager W → W → OverallStatus × HealthManager W × W
  unfolding check_all overall_status
  get_overall_status now m w =
      let (results, m, w) = check_all m w in
      (
        record {
          status = overall_status healthy (order results);
          components = results;
          timestamp = now;
        },
        m,
        w,
      )

  unfoldable pub handle_health : ℕ → HealthManager W → W → ℕ × OverallStatus
  unfolding get_overall_status
  handle_health now m w =
      let overall = (get_overall_status now m w).0 in (health_code overall.status, overall)

  unfoldable pub handle_readiness : HealthManager W → W → ℕ
  unfolding is_healthy
  handle_readiness m w = if (is_ready m w).0 then 200 else 503

abbrev pub handle_liveness : ℕ
handle_liveness = 200

-- The time at which a check began and that at which it ended come from two readings of the clock.
abbrev pub database_checker :
    {W : Type 0} → String → (W → Option GoError × W) → (W → ℕ) → HealthChecker W
database_checker name ping clock = record {
  name = name;
  check = λ w.
      let (e, w') = ping w in
      (
        record {
          name = name;
          status = elim e [ none ↦ healthy | some x ↦ unhealthy ];
          message = elim e [
            | none ↦ "database connection successful"
            | some x ↦ "database connection failed"
          ];
          duration = clock w' - clock w;
          last_check = clock w;
          error = e;
        },
        w',
      );
}

abbrev pub component_checker :
    {W : Type 0}
    → String
    → (W → (HealthStatus × String × Option GoError) × W)
    → (W → ℕ)
    → HealthChecker W
component_checker name check clock = record {
  name = name;
  check = λ w.
      let (answer, w') = check w in
      (
        record {
          name = name;
          status = answer.0;
          message = answer.1;
          duration = clock w' - clock w;
          last_check = clock w;
          error = answer.2;
        },
        w',
      );
}

abbrev pub pipeline_status : State → HealthStatus × String
pipeline_status running = (healthy, "pipeline is running")
pipeline_status paused = (degraded, "pipeline is paused")
pipeline_status starting = (degraded, "pipeline is starting")
pipeline_status stopping = (degraded, "pipeline is stopping")
pipeline_status stopped = (unhealthy, "pipeline is stopped")
pipeline_status failed = (unhealthy, "pipeline has failed")

-- The check of a pipeline reads its machine, which `machine` finds in the world.
abbrev pub pipeline_checker : {W : Type 0} → (W → StateMachine) → (W → ℕ) → HealthChecker W
pipeline_checker machine clock =
    component_checker "pipeline"
      (λ w. let (s, text) = pipeline_status (machine w).state in ((s, text, none), w)) clock
