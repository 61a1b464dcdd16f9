-- ===== src/Jobs/Resolve.antt =====
-- internal/jobs/manager.go: running a script on a target, and resolveTarget. What the remote hosts do is
-- `dial`: it refuses a connection, or gives the client's sessions. Durations are in nanoseconds.
use mcp_execmesh.Base.{
  ℕ, ◌*◌, Bool, true, false, not, Option, none, some, List, [], ◌∷◌, Str, codes, is_empty, contains,
  lookup, insert, ◌==◌, ℤ, pos, Result, ok, err, if◌then◌else◌,
}
use mcp_execmesh.Ssh.Client.{
  ConnectOptions, ExecOptions, ExecResult, ExecOutcome, completed, SessionRun, exec,
  shell_or_default,
}
use mcp_execmesh.Target.{Target, TargetSummary, TargetError, connect_options}
use mcp_execmesh.Target.Registry.{get, list_targets}
use mcp_execmesh.Jobs.{
  JobManager, JobError, connect_failed, exec_failed, target_error, job_not_resolved,
}
use mcp_execmesh.Jobs.Remote.{concat}

abbrev pub seconds : ℕ → ℤ
seconds n = pos (n * 1000000000)

abbrev pub is_zero : ℤ → Bool
is_zero (pos n) = n == 0
is_zero _ = false

abbrev pub lift_target {ℓ} : {A : Type ℓ} → Result TargetError A → Result JobError A
lift_target (ok t) = ok t
lift_target (err e) = err (target_error e)

abbrev pub ran : ExecOutcome → Result JobError ExecResult
ran (completed r) = ok r
ran _ = err exec_failed

abbrev pub options : Str → ℤ → ℕ → ExecOptions
options command max_stdout timeout = record {
  command = command;
  cwd = [];
  env = [];
  max_stdout_bytes = max_stdout;
  max_stderr_bytes = pos 4096;
  timeout = seconds timeout;
}

abbrev pub exists_script : Str → Str → Str
exists_script base_dir job_id =
    concat (codes "[ -d '" ∷ base_dir ∷ codes "/" ∷ job_id ∷ codes "' ] && echo 'EXISTS'" ∷ [])

module _ {A : Type 0} {H : Type 0} where
  abbrev pub found_target :
      JobManager A H → Str → Option (Target A H) → JobManager A H × Result JobError (Target A H)
  found_target m job_id none = (m, err (job_not_resolved job_id))
  found_target m job_id (some t) = (
    record m {
      job_index =
          insert job_id
            (record { job_id = job_id; target_id = t.id; created_at = 0; command_hash = [] })
            m.job_index;
    },
    ok t,
  )

module _ {A : Type 0} {H : Type 0}
    (dial : ConnectOptions A H → Option (Str → Option ℕ → SessionRun)) where
  -- Acquire and Exec on the client, whose release does not show here.
  unfoldable pub run_on : Target A H → ℤ → ExecOptions → Result JobError ExecResult
  run_on t connect_timeout opts = elim (dial (connect_options t connect_timeout)) [
    | none ↦ err (connect_failed t.id)
    | some run ↦ ran (exec run (shell_or_default t.shell) opts)
  ]

  unfoldable pub holds_job : Str → Str → Target A H → Bool
  holds_job base_dir job_id t =
      elim (run_on t (seconds 5) (record {
        command = exists_script base_dir job_id;
        cwd = [];
        env = [];
        max_stdout_bytes = pos 1024;
        max_stderr_bytes = pos 1024;
        timeout = seconds 5;
      })) [ ok res ↦ contains res.stdout (codes "EXISTS") | err _ ↦ false ]

  -- The scan of all targets for the job's directory.
  unfoldable pub scan_targets : JobManager A H → Str → List TargetSummary → Option (Target A H)
  scan_targets m job_id [] = none
  scan_targets m job_id (ts ∷ summaries) = elim (get m.registry ts.id) [
    | err _ ↦ scan_targets m job_id summaries
    | ok t ↦ elim (holds_job m.remote_base_dir job_id t) [
      | true ↦ some t
      | false ↦ scan_targets m job_id summaries
    ]
  ]

  abbrev pub search_targets :
      JobManager A H → Str → List TargetSummary → JobManager A H × Result JobError (Target A H)
  search_targets m job_id (ts ∷ []) = (m, lift_target (get m.registry ts.id))
  search_targets m job_id summaries = found_target m job_id (scan_targets m job_id summaries)

  unfoldable pub resolve_target :
      JobManager A H → Str → Str → JobManager A H × Result JobError (Target A H)
  resolve_target m job_id target_hint =
      if not (is_empty target_hint)
      then (m, lift_target (get m.registry target_hint))
      else elim (lookup job_id m.job_index) [
        | some entry ↦ (m, lift_target (get m.registry entry.target_id))
        | none ↦ search_targets m job_id (list_targets m.registry.targets)
      ]
