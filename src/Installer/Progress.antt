-- ===== src/Installer/Progress.antt =====
-- internal/installer/progress.go: the steps of a deployment, and what is computed from them. Times are
-- readings of the clock in nanoseconds; an index that is not found is none.
pub mod Bounds
use Prim.Native.String.{String}
use text.Mathlib.Text.{◌==◌ as str_eq}
use philotes.Common.{
  ℕ, zero, suc, ◌+◌, ◌-◌, ◌*◌, ◌/◌, Bool, true, false, ◌||◌, Option, none, some, List, [], ◌∷◌, ltb,
  leb, if◌then◌else◌, length, drop,
}
use mathlib.Core.List.{foldl}
use philotes.Common.Int.{ℤ, pos, negsuc, pos_part, sub_ℕ, ltb_ℤ, ◌+ℤ◌, ◌-ℤ◌, ◌*ℤ◌}
use philotes.Common.Maps.{lookup}
use philotes.Installer.Errors.{StepError}

pub data StepStatus : Type 0 where
  pending in_progress completed failed skipped : StepStatus

pub record SubStep : Type 0 where
  pub id : String
  pub name : String
  pub status : StepStatus
  pub details : String
  pub current : ℤ
  pub total : ℤ

pub record DeploymentStep : Type 0 where
  pub id : String
  pub name : String
  pub description : String
  pub status : StepStatus
  pub estimated_time_ms : ℤ
  pub elapsed_time_ms : ℤ
  pub started_at : Option ℕ
  pub completed_at : Option ℕ
  pub sub_steps : List SubStep
  pub current_sub_step : ℤ
  pub error : Option StepError

pub record CreatedResource : Type 0 where
  pub kind : String
  pub name : String
  pub id : String
  pub region : String

pub record DeploymentProgress : Type 0 where
  pub deployment_id : String
  pub overall_progress : ℕ
  pub current_step_index : ℕ
  pub steps : List DeploymentStep
  pub started_at : Option ℕ
  pub estimated_remaining_ms : ℤ
  pub can_retry : Bool
  pub resources_created : List CreatedResource

pub record TimeEstimates : Type 0 where
  pub auth : ℤ
  pub network : ℤ
  pub compute : ℤ
  pub k3s : ℤ
  pub storage : ℤ
  pub catalog : ℤ
  pub philotes : ℤ
  pub health : ℤ
  pub ssl : ℤ

abbrev hetzner : TimeEstimates
hetzner = record {
  auth = pos 5000;
  network = pos 30000;
  compute = pos 60000;
  k3s = pos 120000;
  storage = pos 60000;
  catalog = pos 45000;
  philotes = pos 90000;
  health = pos 30000;
  ssl = pos 30000;
}

abbrev provider_time_estimates : List (String × TimeEstimates)
provider_time_estimates =
    ("hetzner", hetzner)
    ∷ (
      "scaleway",
      record {
        auth = pos 5000;
        network = pos 45000;
        compute = pos 90000;
        k3s = pos 150000;
        storage = pos 60000;
        catalog = pos 45000;
        philotes = pos 90000;
        health = pos 30000;
        ssl = pos 30000;
      },
    )
    ∷ (
      "ovh",
      record {
        auth = pos 5000;
        network = pos 60000;
        compute = pos 120000;
        k3s = pos 180000;
        storage = pos 60000;
        catalog = pos 45000;
        philotes = pos 90000;
        health = pos 30000;
        ssl = pos 30000;
      },
    )
    ∷ (
      "exoscale",
      record {
        auth = pos 5000;
        network = pos 30000;
        compute = pos 45000;
        k3s = pos 120000;
        storage = pos 60000;
        catalog = pos 45000;
        philotes = pos 90000;
        health = pos 30000;
        ssl = pos 30000;
      },
    )
    ∷ (
      "contabo",
      record {
        auth = pos 5000;
        network = pos 30000;
        compute = pos 180000;
        k3s = pos 180000;
        storage = pos 60000;
        catalog = pos 45000;
        philotes = pos 90000;
        health = pos 30000;
        ssl = pos 30000;
      },
    )
    ∷ []

unfoldable get_time_estimates : String → TimeEstimates
get_time_estimates provider = elim (lookup provider provider_time_estimates) [
  | none ↦ hetzner
  | some estimates ↦ estimates
]

abbrev new_sub_step : String → String → SubStep
new_sub_step id name = record {
  id = id;
  name = name;
  status = pending;
  details = "";
  current = pos 0;
  total = pos 0;
}

abbrev new_step : String → String → String → ℤ → List SubStep → DeploymentStep
new_step id name description estimate sub_steps = record {
  id = id;
  name = name;
  description = description;
  status = pending;
  estimated_time_ms = estimate;
  elapsed_time_ms = pos 0;
  started_at = none;
  completed_at = none;
  sub_steps = sub_steps;
  current_sub_step = pos 0;
  error = none;
}

abbrev new_worker : (ℕ → String) → ℕ → ℤ → SubStep
new_worker worker_id i count = record (new_sub_step (worker_id i) "Worker Node") {
  current = pos i;
  total = count;
}

-- The loop over the workers i, i + 1, ...; as many as are left.
worker_sub_steps : (ℕ → String) → ℤ → ℕ → ℕ → List SubStep
worker_sub_steps worker_id count i zero = []
worker_sub_steps worker_id count i (suc left) =
    new_worker worker_id i count ∷ worker_sub_steps worker_id count (suc i) left

-- `worker_id i` is the text `worker-<i>`.
unfoldable generate_compute_sub_steps : (ℕ → String) → ℤ → List SubStep
unfolding worker_sub_steps
generate_compute_sub_steps worker_id workers =
    record (new_sub_step "control-plane" "Control Plane") { current = pos 1; total = pos 1 }
    ∷ worker_sub_steps worker_id workers 1 (pos_part workers)

abbrev steps_of : (ℕ → String) → TimeEstimates → ℤ → List DeploymentStep
steps_of worker_id estimates workers =
    new_step "auth" "Authenticating" "Verifying cloud provider credentials" estimates.auth []
    ∷ new_step "network" "Provisioning Network" "Creating VPC, subnets, and security groups"
        estimates.network
        (new_sub_step "vpc" "Creating VPC"
          ∷ new_sub_step "subnet" "Creating Subnet"
          ∷ new_sub_step "firewall" "Configuring Firewall"
          ∷ [])
    ∷ new_step "compute" "Creating Compute Nodes" "Provisioning servers"
        (estimates.compute *ℤ (workers +ℤ pos 1)) (generate_compute_sub_steps worker_id workers)
    ∷ new_step "k3s" "Installing Kubernetes" "Setting up K3s cluster" estimates.k3s (
        new_sub_step "k3s-server" "Installing K3s Server"
        ∷ new_sub_step "k3s-agents" "Joining Worker Nodes"
        ∷ new_sub_step "kubeconfig" "Retrieving Kubeconfig"
        ∷ [])
    ∷ new_step "storage" "Deploying Storage" "Installing MinIO for object storage" estimates.storage
        []
    ∷ new_step "catalog" "Deploying Catalog" "Installing Lakekeeper for Iceberg catalog"
        estimates.catalog []
    ∷ new_step "philotes" "Deploying Philotes" "Installing Philotes services" estimates.philotes (
        new_sub_step "api" "Deploying API Server"
        ∷ new_sub_step "worker" "Deploying CDC Worker"
        ∷ new_sub_step "dashboard" "Deploying Dashboard"
        ∷ [])
    ∷ new_step "health" "Health Verification" "Running health checks" estimates.health (
        new_sub_step "pods" "Checking Pod Status"
        ∷ new_sub_step "services" "Verifying Services"
        ∷ new_sub_step "endpoints" "Testing Endpoints"
        ∷ [])
    ∷ new_step "ssl" "Configuring SSL/TLS" "Setting up certificates" estimates.ssl []
    ∷ new_step "ready" "Ready!" "Deployment complete" (pos 0) []
    ∷ []

unfoldable pub get_deployment_steps : (ℕ → String) → String → ℤ → List DeploymentStep
unfolding get_time_estimates generate_compute_sub_steps
get_deployment_steps worker_id provider worker_count =
    steps_of worker_id (get_time_estimates provider)
      (if ltb_ℤ (pos 0) worker_count then worker_count else pos 2)

unfoldable pub calculate_total_estimate : List DeploymentStep → ℤ
calculate_total_estimate steps = foldl (λ total s. total +ℤ s.estimated_time_ms) (pos 0) steps

abbrev pub is_done : StepStatus → Bool
is_done completed = true
is_done skipped = true
is_done _ = false

-- How many steps are done, from the loop.
unfoldable pub count_done : List DeploymentStep → ℕ
count_done [] = 0
count_done (s ∷ ss) = let rest = count_done ss in if is_done s.status then suc rest else rest

unfoldable pub calculate_overall_progress : List DeploymentStep → ℕ
unfolding count_done
calculate_overall_progress [] = 0
calculate_overall_progress (s ∷ ss) =
    let done = count_done (s ∷ ss) in
    let count = length (s ∷ ss) in if leb count done then 100 else done * 100 / count

-- A duration in milliseconds, towards 0.
abbrev milliseconds : ℤ → ℤ
milliseconds (pos n) = pos (n / 1000000)
milliseconds (negsuc n) = sub_ℕ 0 (suc n / 1000000)

unfoldable pub elapsed_ms : ℕ → ℕ → ℤ
elapsed_ms now since = milliseconds (sub_ℕ now since)

-- What one step adds to the time that remains.
unfoldable step_remaining : ℕ → DeploymentStep → Option ℤ
unfolding elapsed_ms
step_remaining now s = elim (s.status) [
  | in_progress ↦ elim (s.started_at) [
    | none ↦ some s.estimated_time_ms
    | some t ↦
        if ltb_ℤ (elapsed_ms now t) s.estimated_time_ms
        then some (s.estimated_time_ms -ℤ elapsed_ms now t)
        else none
  ]
  | pending ↦ some s.estimated_time_ms
  | _ ↦ none
]

add_remaining : ℕ → List DeploymentStep → ℤ → ℤ
unfolding step_remaining
add_remaining now [] remaining = remaining
add_remaining now (s ∷ ss) remaining =
    add_remaining now ss
      (elim (step_remaining now s) [ none ↦ remaining | some ms ↦ remaining +ℤ ms ])

unfoldable pub calculate_remaining_time : ℕ → List DeploymentStep → ℕ → ℤ
unfolding add_remaining
calculate_remaining_time now steps current = add_remaining now (drop current steps) (pos 0)

unfoldable pub step_id_to_index : String → List DeploymentStep → Option ℕ
step_id_to_index step_id [] = none
step_id_to_index step_id (s ∷ ss) =
    let rest = step_id_to_index step_id ss in
    if str_eq s.id step_id then some 0 else elim rest [ none ↦ none | some i ↦ some (suc i) ]
