-- ===== src/Tools.antt =====
-- internal/mcp/tools/authz.go and jobs.go: the handlers of the job tools, with the principal of the
-- request's context as an argument; `none` is a nil principal.
pub mod Files
pub mod Targets
pub mod Access
pub mod Tests
use mcp_execmesh.Base.{
  ℕ, Bool, true, false, ◌||◌, Option, none, some, List, [], ◌∷◌, Str, codes, is_empty, ℤ, Result,
  ok, err, if◌then◌else◌,
}
use mcp_execmesh.Security.Scope.{
  Principal, AuthError, authorize, allows_target, scope_exec_run, scope_jobs_read, scope_jobs_write,
}
use mcp_execmesh.Ssh.Client.{ConnectOptions, SessionRun}
use mcp_execmesh.Target.{Target, TargetSummary, TargetError, require_active}
use mcp_execmesh.Target.Registry.{get}
use mcp_execmesh.Jobs.{
  JobMeta, JobManager, JobError, JobStartRequest, JobStartResponse, JobStatusResponse,
  JobOutputRequest, JobOutputResponse, JobCancelResponse,
}
use mcp_execmesh.Jobs.Manager.{status, output, cancel}
use mcp_execmesh.Jobs.Start.{start}

pub data ToolError : Type 0 where
  target_required : ToolError
  command_required : ToolError
  job_id_required : ToolError
  unauthorized : AuthError → ToolError
  bad_target : TargetError → ToolError
  job_failed : JobError → ToolError

abbrev is_nil : Option Principal → Bool
is_nil none = true
is_nil (some _) = false

unfoldable pub filter_targets : Option Principal → List TargetSummary → List TargetSummary
filter_targets p [] = []
filter_targets p (s ∷ summaries) =
    let rest = filter_targets p summaries in
    if is_nil p || allows_target p s.id then s ∷ rest else rest

abbrev pub lift_job {ℓ κ} :
    {S : Type κ} {B : Type ℓ} → S × Result JobError B → S × Result ToolError B
lift_job (m, ok b) = (m, ok b)
lift_job (m, err e) = (m, err (job_failed e))

-- The handler's call, if the principal may do it.
abbrev pub authorized {ℓ κ} :
    {S : Type κ} {B : Type ℓ}
    → S
    → Option AuthError
    → S × Result ToolError B
    → S × Result ToolError B
authorized m none r = r
authorized m (some e) r = (m, err (unauthorized e))

module _ {A : Type 0} {H : Type 0}
    (dial : ConnectOptions A H → Option (Str → Option ℕ → SessionRun)) where
  module _ (decode_meta : Str → Option JobMeta) (format_time : ℕ → Str) where
    unfoldable pub job_status :
        Option Principal
        → JobManager A H
        → Str
        → Str
        → JobManager A H × Result ToolError JobStatusResponse
    job_status p m job_id target =
        if is_empty job_id
        then (m, err job_id_required)
        else authorized m (authorize p scope_jobs_read target)
            (lift_job (status dial decode_meta format_time m job_id target))

  abbrev pub stream_or_stdout : JobOutputRequest → JobOutputRequest
  stream_or_stdout req = if is_empty req.stream then record req { stream = codes "stdout" } else req

  unfoldable pub job_output :
      Option Principal
      → JobManager A H
      → JobOutputRequest
      → JobManager A H × Result ToolError JobOutputResponse
  job_output p m req =
      if is_empty req.job_id
      then (m, err job_id_required)
      else authorized m (authorize p scope_jobs_read req.target)
          (lift_job (output dial m (stream_or_stdout req) req.target))

  unfoldable pub job_cancel :
      Option Principal
      → JobManager A H
      → Str
      → Str
      → JobManager A H × Result ToolError JobCancelResponse
  job_cancel p m job_id target =
      if is_empty job_id
      then (m, err job_id_required)
      else authorized m (authorize p scope_jobs_write target)
          (lift_job (cancel dial m job_id target))

  module _ (hash : Str → Str) (encode_meta : JobMeta → Option Str) (format_time : ℕ → Str) where
    abbrev pub start_active :
        JobManager A H
        → Str
        → ℕ
        → JobStartRequest
        → Target A H
        → Option TargetError
        → JobManager A H × Result ToolError JobStartResponse
    start_active m job_id now req t none =
        lift_job (start dial hash encode_meta format_time m job_id now t req)
    start_active m job_id now req t (some e) = (m, err (bad_target e))

    abbrev pub start_on :
        JobManager A H
        → Str
        → ℕ
        → JobStartRequest
        → Result TargetError (Target A H)
        → JobManager A H × Result ToolError JobStartResponse
    start_on m job_id now req (err e) = (m, err (bad_target e))
    start_on m job_id now req (ok t) = start_active m job_id now req t (require_active (some t))

    unfoldable pub exec_start :
        Option Principal
        → JobManager A H
        → Str
        → ℕ
        → JobStartRequest
        → JobManager A H × Result ToolError JobStartResponse
    exec_start p m job_id now req =
        if is_empty req.target
        then (m, err target_required)
        else if is_empty req.command
        then (m, err command_required)
        else authorized m (authorize p scope_exec_run req.target)
            (start_on m job_id now req (get m.registry req.target))
