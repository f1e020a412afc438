-- ===== src/Installer/Errors/Suggestions.antt =====
-- internal/installer/errors.go: which pattern an error matches. An error is its text, and none stands for nil;
-- `lower` is strings.ToLower.
use Prim.Native.String.{String}
use text.Mathlib.Text.{find?}
use philotes.Common.{
  Bool, true, false, Option, none, some, List, [], ◌∷◌, ◌++◌, if◌then◌else◌, is_some, ◌≡◌, refl,
  Option-cases, ◌||◌, inl, inr,
}
use philotes.Common.Maps.{lookup}
use philotes.Installer.Errors.{StepError, ErrorPattern}
use philotes.Installer.Errors.Provider.{
  auth_failed_pattern, quota_exceeded_pattern, timeout_pattern, network_error_pattern,
  permission_denied_pattern, resource_not_found_pattern, resource_conflict_pattern,
}
use philotes.Installer.Errors.Cluster.{
  rate_limited_pattern, provider_error_pattern, ssh_error_pattern, k8s_error_pattern,
  storage_error_pattern, ssl_error_pattern,
}

abbrev pub error_patterns : List ErrorPattern
error_patterns =
    auth_failed_pattern ∷ quota_exceeded_pattern ∷ timeout_pattern ∷ network_error_pattern
    ∷ permission_denied_pattern ∷ resource_not_found_pattern ∷ resource_conflict_pattern
    ∷ rate_limited_pattern ∷ provider_error_pattern ∷ ssh_error_pattern ∷ k8s_error_pattern
    ∷ storage_error_pattern ∷ ssl_error_pattern ∷ []

abbrev pub step_specific_errors : List (String × List String)
step_specific_errors =
    (
      "auth",
      "Ensure you've completed the OAuth flow or entered valid API credentials"
          ∷ "Check that your cloud provider account is active and in good standing" ∷ [],
    )
    ∷ (
      "network",
      "Verify your cloud provider account can create VPCs and subnets"
          ∷ "Check if there are any existing networks with conflicting CIDR ranges" ∷ [],
    )
    ∷ (
      "compute",
      "Verify the selected instance types are available in your region"
          ∷ "Check if you have sufficient quota for the number of instances" ∷ [],
    )
    ∷ (
      "k3s",
      "The K3s installation requires servers to be fully provisioned first"
          ∷ "Check if the servers have internet access for downloading K3s" ∷ [],
    )
    ∷ (
      "storage",
      "MinIO requires block storage to be available"
          ∷ "Verify the storage class is supported in your cluster" ∷ [],
    )
    ∷ (
      "catalog",
      "Lakekeeper requires MinIO to be running" ∷ "Check if the Postgres database is accessible"
          ∷ [],
    )
    ∷ (
      "philotes",
      "Ensure all prerequisite services (MinIO, Lakekeeper) are running"
          ∷ "Check if the Helm chart version is compatible" ∷ [],
    )
    ∷ (
      "health",
      "Some services may need additional time to initialize"
          ∷ "Check pod logs for any startup errors" ∷ [],
    )
    ∷ (
      "ssl",
      "SSL certificate issuance requires valid DNS configuration"
          ∷ "Let's Encrypt rate limits may apply if certificates were recently issued" ∷ [],
    )
    ∷ []

-- The inner loop: whether the text contains one of the patterns.
contains_any : String → List String → Bool
contains_any text [] = false
contains_any text (p ∷ ps) = let rest = contains_any text ps in is_some (find? text p) || rest

-- The outer loop: the first pattern that matches.
match_error : String → List ErrorPattern → Option ErrorPattern
unfolding contains_any
match_error text [] = none
match_error text (p ∷ ps) =
    let rest = match_error text ps in if contains_any text p.patterns then some p else rest

-- The suggestions of the step behind those of the error.
unfoldable add_step_suggestions : String → StepError → StepError
add_step_suggestions step e = elim (lookup step step_specific_errors) [
  | none ↦ e
  | some more ↦ record e { suggestions = e.suggestions ++ more }
]

abbrev pub generic_error : String → StepError
generic_error text = record {
  code = "UNKNOWN_ERROR";
  message = "An unexpected error occurred";
  details = text;
  suggestions =
      "Check the deployment logs for more details" ∷ "Try canceling and restarting the deployment"
      ∷ "If the issue persists, contact support" ∷ [];
  retryable = true;
  docs_url = "https://docs.philotes.io/troubleshooting";
}

unfoldable pub get_error_suggestion : (String → String) → Option String → String → Option StepError
unfolding match_error add_step_suggestions
get_error_suggestion lower none step = none
get_error_suggestion lower (some text) step = elim (match_error (lower text) error_patterns) [
  | none ↦ some (add_step_suggestions step (generic_error text))
  | some p ↦ some (add_step_suggestions step (record (p.error) { details = text }))
]

unfoldable pub is_retryable_error : (String → String) → Option String → Bool
unfolding match_error
is_retryable_error lower none = false
is_retryable_error lower (some text) = elim (match_error (lower text) error_patterns) [
  | none ↦ true
  | some p ↦ p.error.retryable
]

add_step_suggestions-retryable :
    (step : String) (e : StepError)
    → ((add_step_suggestions step e).retryable ≡ e.retryable)
      × ((add_step_suggestions step e).details ≡ e.details)
unfolding add_step_suggestions
add_step_suggestions-retryable step e = elim (Option-cases (lookup step step_specific_errors)) [
  | inl x ↦ rw (x, add_step_suggestions) (refl, refl)
  | inr (m, x) ↦ rw (x, add_step_suggestions) (refl, refl)
]

-- The suggestion for an error is of that error: it bears its text, and calls it retryable exactly if
-- `IsRetryableError` does, whatever the step. Without an error there is none.
pub suggestion-agrees :
    (lower : String → String) (step text : String)
    → (get_error_suggestion lower none step ≡ none)
      × (e : StepError) × (get_error_suggestion lower (some text) step ≡ some e)
      × (e.retryable ≡ is_retryable_error lower (some text))
      × (e.details ≡ text)
unfolding get_error_suggestion is_retryable_error
suggestion-agrees lower step text = elim (Option-cases (match_error (lower text) error_patterns)) [
  | inl x ↦
      rw (x, get_error_suggestion, is_retryable_error)
        (let kept = add_step_suggestions-retryable step (generic_error text) in
          (refl, add_step_suggestions step (generic_error text), refl, kept.0, kept.1))
  | inr (p, x) ↦
      rw (x, get_error_suggestion, is_retryable_error)
        (let kept = add_step_suggestions-retryable step (record (p.error) { details = text }) in
          (
            refl,
            add_step_suggestions step (record (p.error) { details = text }),
            refl,
            kept.0,
            kept.1,
          ))
]
