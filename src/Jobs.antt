-- ===== src/Jobs.antt =====
-- internal/jobs/model.go and the types of manager.go. Times are numbers.
pub mod Remote
pub mod Parse
pub mod Resolve
pub mod Manager
pub mod Start
pub mod Scripts
pub mod Pages
pub mod Logs
pub mod Launch
pub mod Tracking
pub mod Tests
pub mod ReadTests
use mcp_execmesh.Base.{ℕ, Bool, Option, List, Str, ℤ}
use mcp_execmesh.Target.{TargetError}
use mcp_execmesh.Target.Registry.{Registry}
use mcp_execmesh.Security.Policy.{CommandPolicy, PolicyError}

pub data JobState : Type 0 where
  pending running succeeded failed cancelled unknown : JobState

pub record JobMeta : Type 0 where
  pub job_id : Str
  pub target_id : Str
  pub command : Str
  pub cwd : Str
  pub started_at : ℕ
  pub pid : ℤ
  pub command_hash : Str

pub record JobStartRequest : Type 0 where
  pub target : Str
  pub command : Str
  pub cwd : Str
  pub env : List (Str × Str)

pub record JobStartResponse : Type 0 where
  pub job_id : Str
  pub target : Str
  pub state : JobState
  pub started_at : Str

pub record JobStatusResponse : Type 0 where
  pub job_id : Str
  pub target : Str
  pub state : JobState
  pub pid : Option ℤ
  pub exit_code : Option ℤ
  pub started_at : Str
  pub finished_at : Str
  pub stdout_bytes : ℤ
  pub stderr_bytes : ℤ

pub record JobOutputRequest : Type 0 where
  pub job_id : Str
  pub target : Str
  pub stream : Str
  pub offset : ℤ
  pub limit : ℤ

-- The offsets are never negative.
pub record JobOutputResponse : Type 0 where
  pub job_id : Str
  pub stream : Str
  pub data_read : Str
  pub offset : ℕ
  pub next_offset : ℕ
  pub eof : Bool

pub record JobCancelResponse : Type 0 where
  pub job_id : Str
  pub target : Str
  pub state : JobState
  pub message : Str

pub record LocalJobIndexEntry : Type 0 where
  pub job_id : Str
  pub target_id : Str
  pub created_at : ℕ
  pub command_hash : Str

pub data JobError : Type 0 where
  invalid_job_id : Str → JobError
  invalid_stream : Str → JobError
  jobs_disabled : Str → JobError
  command_rejected : PolicyError → JobError
  outside_allowed_paths : Str → JobError
  meta_not_serialized : JobError
  connect_failed : Str → JobError
  exec_failed : JobError
  launch_exited : ℤ → JobError
  job_not_found : Str → JobError
  log_not_found : Str → JobError
  invalid_read_output : JobError
  invalid_total_size : Str → JobError
  target_error : TargetError → JobError
  job_not_resolved : Str → JobError

-- The state of the Manager, and the parts of its configuration that it reads.
pub record JobManager (A : Type 0) (H : Type 0) : Type 0 where
  pub job_index : List (Str × LocalJobIndexEntry)
  pub registry : Registry A H
  pub remote_base_dir : Str
  pub max_job_output_read_bytes : ℤ
  pub policy : CommandPolicy
