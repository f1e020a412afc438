-- ===== src/Installer/Errors.antt =====
-- internal/installer/errors.go: the errors of a step, with what a user can do about them.
use Prim.Native.String.{String}
use philotes.Common.{Bool, List}
pub mod Provider
pub mod Cluster
pub mod Suggestions

pub record StepError : Type 0 where
  pub code : String
  pub message : String
  pub details : String
  pub suggestions : List String
  pub retryable : Bool
  pub docs_url : String

pub record ErrorPattern : Type 0 where
  pub patterns : List String
  pub error : StepError
