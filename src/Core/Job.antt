-- ===== src/Core/Job.antt =====
-- internal/core/types.go: a queue slot at a revision, and a check to run against an exported tree.
use gauntlet.Prelude.{ℕ, Bool, String, List}

pub record Candidate : Type 0 where
  pub admission_blocked : String
  pub skip_checks : Bool
  pub override_pause : Bool
  pub requester : String
  pub request_reason : String
  pub emergency_id : String
  pub request_id : String
  pub requested_count : ℕ
  pub ref : String
  pub target : String
  pub user : String
  pub topic : String
  pub sha : String
  pub source : String
  pub source_base : String
  pub message : String
  pub review_url : String
  pub version : String
  pub depends_on : String
  pub urgent : Bool
  pub priority : String
  pub preempt : Bool

-- Bytes are numbers below 256.
pub record CheckJob : Type 0 where
  pub record_logs : Bool
  pub history_mtimes : Bool
  pub service_specs : List ℕ
  pub service_needs : List String
  pub priority : String
  pub previous_execution : String
  pub test_results : String
  pub retry_command : List String
  pub retry_tests : List String
  pub verification_id : String
  pub inputs_capture : Bool
  pub git_dir : String
  pub candidates : List Candidate
  pub run_id : String
  pub target : String
  pub name : String
  pub command : List String
  pub executor : String
  pub operator_owned : Bool
  pub image_build : Bool
  pub image : String
  pub receipt_capture : Bool
  pub receipt_max_bytes : ℕ
  pub deploy_env : String
  pub deploy_node : String
  pub deployed_sha : String
  pub dir : String
  pub log_path : String
  pub base_sha : String
  pub merge_sha : String
  pub candidate : Candidate
  pub clean : Bool
  pub service_env : List String
  pub networks : List String
