-- ===== src/Installer/Runner.antt =====
-- internal/installer/pulumi.go and websocket.go: what a run of a deployment tells the tracker. What Pulumi
-- answers is a value, with the events that are handled before `Up` returns; one reading of the clock
-- serves a run. The messages of the log are left out.
use Prim.Native.String.{String}
use text.Mathlib.Text.{◌==◌ as str_eq, find?}
use philotes.Common.{ℕ, Bool, ◌||◌, Option, none, some, List, [], ◌∷◌, if◌then◌else◌, is_some}
use philotes.Common.Int.{ℤ}
use philotes.Common.Maps.{lookup}
use philotes.Installer.Progress.{DeploymentStep, DeploymentProgress}
use philotes.Installer.Tracker.{ProgressTracker, at, get_progress}
use philotes.Installer.Tracker.{init_progress}
use philotes.Installer.Tracker.Steps.{
  start_step, complete_step, fail_step, add_resource, mark_complete,
}
use philotes.Installer.Retry.{is_in_progress}

abbrev resource_type_to_step : List (String × String)
resource_type_to_step =
    ("hcloud:index/network:Network", "network")
    ∷ ("hcloud:index/networkSubnet:NetworkSubnet", "network")
    ∷ ("hcloud:index/firewall:Firewall", "network")
    ∷ ("scaleway:index/vpcPrivateNetwork:VpcPrivateNetwork", "network")
    ∷ ("exoscale:index/securityGroup:SecurityGroup", "network")
    ∷ ("hcloud:index/server:Server", "compute")
    ∷ ("hcloud:index/sshKey:SshKey", "compute")
    ∷ ("scaleway:index/instance:Instance", "compute")
    ∷ ("exoscale:index/compute:Compute", "compute")
    ∷ ("hcloud:index/loadBalancer:LoadBalancer", "compute")
    ∷ ("hcloud:index/loadBalancerService:LoadBalancerService", "compute")
    ∷ ("hcloud:index/loadBalancerTarget:LoadBalancerTarget", "compute")
    ∷ ("hcloud:index/volume:Volume", "storage")
    ∷ ("hcloud:index/volumeAttachment:VolumeAttachment", "storage")
    ∷ ("command:remote:Command", "k3s")
    ∷ ("kubernetes:helm.sh/v3:Release", "philotes")
    ∷ []

-- The cases of the switch, for a type in lower case.
abbrev step_of_words : (String → Bool) → String
step_of_words has =
    if has "network" || has "subnet" || has "firewall" || has "security"
    then "network"
    else if has "server" || has "instance" || has "compute" || has "ssh"
    then "compute"
    else if has "loadbalancer" || has "lb"
    then "compute"
    else if has "volume" || has "storage"
    then "storage"
    else if has "command"
    then "k3s"
    else if has "helm" || has "release"
    then "philotes"
    else if has "cert" || has "certificate"
    then "ssl"
    else "provisioning"

-- `lower` is strings.ToLower.
unfoldable pub map_resource_type_to_step : (String → String) → String → String
map_resource_type_to_step lower resource_type = elim (lookup resource_type resource_type_to_step) [
  | some step_id ↦ step_id
  | none ↦ step_of_words (λ word. is_some (find? (lower resource_type) word))
]

-- A resource that is being created comes with its type, one that was created with its friendly name too.
pub data EngineEvent : Type 0 where
  diagnostic summary : EngineEvent
  resource_pre : String → EngineEvent
  resource_outputs : String → String → EngineEvent

abbrev current_step_id : DeploymentProgress → String
current_step_id p = elim (at p.current_step_index p.steps) [ none ↦ "" | some s ↦ s.id ]

-- The step of a resource that is being created, if it is not the current one: that is completed.
unfoldable pub enter_step : ℕ → String → String → ProgressTracker → ProgressTracker
enter_step now id step_id t = elim (get_progress id t) [
  | none ↦ t
  | some p ↦
      let current = current_step_id p in
      if str_eq step_id current
      then t
      else start_step now id step_id
          (if str_eq current "" then t else complete_step now id current t)
]

unfoldable pub process_event_with_tracker :
    (String → String) → ℕ → String → EngineEvent → ProgressTracker → ProgressTracker
unfolding enter_step
process_event_with_tracker lower now id diagnostic t = t
process_event_with_tracker lower now id summary t = t
process_event_with_tracker lower now id (resource_pre resource_type) t =
    if str_eq resource_type ""
    then t
    else let step_id = map_resource_type_to_step lower resource_type in
      if str_eq step_id "" then t else enter_step now id step_id t
process_event_with_tracker lower now id (resource_outputs resource_type name) t =
    if str_eq resource_type ""
    then t
    else add_resource id (record { kind = resource_type; name = name; id = ""; region = "" }) t

unfoldable pub process_events :
    (String → String) → ℕ → String → List EngineEvent → ProgressTracker → ProgressTracker
unfolding process_event_with_tracker
process_events lower now id [] t = t
process_events lower now id (e ∷ es) t =
    process_events lower now id es (process_event_with_tracker lower now id e t)

-- What Pulumi answers: the errors are texts.
pub record Pulumi : Type 0 where
  pub stack_error : Option String
  pub configure_error : Option String
  pub events : List EngineEvent
  pub up_error : Option String

-- The first step that is in progress.
unfoldable pub find_in_progress : List DeploymentStep → Option DeploymentStep
find_in_progress [] = none
find_in_progress (s ∷ ss) =
    let rest = find_in_progress ss in if is_in_progress s.status then some s else rest

unfoldable pub fail_current :
    (String → String) → ℕ → String → String → ProgressTracker → ProgressTracker
unfolding find_in_progress
fail_current lower now id text t = elim (get_progress id t) [
  | none ↦ t
  | some p ↦ elim (find_in_progress p.steps) [
    | none ↦ t
    | some s ↦ fail_step lower now id s.id (some text) t
  ]
]

-- The tracker behind a run, with the text of its error. `DeployFromStep` is the same run: it does not
-- look at the step.
unfoldable pub deploy_with_tracker :
    (String → String) → ℕ → String → Pulumi → ProgressTracker → ProgressTracker × Option String
unfolding process_events fail_current
deploy_with_tracker lower now id pulumi t =
    let begun = start_step now id "network" (complete_step now id "auth" t) in
    elim (pulumi.stack_error) [
      | some text ↦ (fail_step lower now id "network" (some text) begun, some text)
      | none ↦ elim (pulumi.configure_error) [
        | some text ↦ (fail_step lower now id "network" (some text) begun, some text)
        | none ↦
            let up = process_events lower now id pulumi.events begun in
            elim (pulumi.up_error) [
              | some text ↦ (fail_current lower now id text up, some text)
              | none ↦ (complete_step now id "ssl" (complete_step now id "health" up), none)
            ]
      ]
    ]

unfoldable pub finish_run : ℕ → String → ProgressTracker × Option String → ProgressTracker
finish_run now id (t, some text) = t
finish_run now id (t, none) = mark_complete now id t

-- The goroutine of `StartDeployment` and of `RetryDeployment`, from the step that it starts.
unfoldable pub run_from :
    (String → String) → ℕ → String → String → Pulumi → ProgressTracker → ProgressTracker
unfolding deploy_with_tracker finish_run
run_from lower now id step_id pulumi t =
    finish_run now id (deploy_with_tracker lower now id pulumi (start_step now id step_id t))

unfoldable pub start_deployment :
    (String → String)
    → (ℕ → String)
    → ℕ
    → String
    → String
    → ℤ
    → Pulumi
    → ProgressTracker
    → ProgressTracker
unfolding run_from
start_deployment lower worker_id now id provider workers pulumi t =
    run_from lower now id "auth" pulumi (init_progress now worker_id id provider workers t)
