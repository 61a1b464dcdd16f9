-- ===== src/Jobs/Start.antt =====
-- internal/jobs/manager.go: Start. The hash and the job id are arguments, as are the clock's reading and
-- its format.
use mcp_execmesh.Base.{
  ℕ, not, ◌&&◌, Option, none, some, List, [], ◌∷◌, Str, is_empty, insert, pos, Result, ok, err,
  ◌>>=◌, ◌>>◌, guard, if◌then◌else◌,
}
use mcp_execmesh.Security.Path.{clean_and_validate_path, is_path_allowed}
use mcp_execmesh.Security.Policy.{PolicyError, validate_command}
use mcp_execmesh.Ssh.Client.{ConnectOptions, ExecResult, SessionRun}
use mcp_execmesh.Target.{Target}
use mcp_execmesh.Jobs.{
  JobMeta, running, JobStartRequest, JobStartResponse, JobManager, JobError, jobs_disabled,
  command_rejected, outside_allowed_paths, meta_not_serialized, launch_exited,
}
use mcp_execmesh.Jobs.Remote.{build_launch_script}
use mcp_execmesh.Jobs.Resolve.{is_zero, seconds, run_on, options}

-- The directory in which a command runs on a target: the request's, or the target's own.
unfoldable pub resolve_cwd : Str → Str → List Str → Result JobError Str
resolve_cwd cwd default_cwd allowed_paths =
    let chosen = if is_empty cwd then default_cwd else cwd in
    if is_empty chosen
    then ok []
    else let cleaned = clean_and_validate_path chosen default_cwd in
      if not (is_empty allowed_paths) && not (is_path_allowed cleaned allowed_paths)
      then err (outside_allowed_paths cleaned)
      else ok cleaned

unfoldable pub merge_env : List (Str × Str) → List (Str × Str) → List (Str × Str)
merge_env env [] = env
merge_env env ((k, v) ∷ more) = merge_env (insert k v env) more

abbrev pub policy_check : Option PolicyError → Result JobError (Unit {0})
policy_check none = ok tt
policy_check (some e) = err (command_rejected e)

module _ {A : Type 0} {H : Type 0}
    (dial : ConnectOptions A H → Option (Str → Option ℕ → SessionRun)) where
  module _ (hash : Str → Str) (encode_meta : JobMeta → Option Str) (format_time : ℕ → Str) where
    abbrev pub meta_text : Option Str → Result JobError Str
    meta_text none = err meta_not_serialized
    meta_text (some s) = ok s

    abbrev pub launched : ExecResult → Result JobError (Unit {0})
    launched res = guard (is_zero res.exit_code) (launch_exited res.exit_code)

    -- The steps of Start before the index is written; `job_id` is the generated id.
    unfoldable pub launch :
        JobManager A H → Str → ℕ → Target A H → JobStartRequest → Result JobError (Unit {0})
    launch m job_id now t req = do
      guard t.capabilities.jobs (jobs_disabled t.id)
      policy_check (validate_command m.policy req.command)
      cwd ← resolve_cwd req.cwd t.default_cwd t.allowed_paths
      meta_json ← meta_text (
          encode_meta (record {
            job_id = job_id;
            target_id = t.id;
            command = req.command;
            cwd = cwd;
            started_at = now;
            pid = pos 0;
            command_hash = hash req.command;
          }))
      res ← run_on dial t (seconds 10) (
          options
            (build_launch_script m.remote_base_dir job_id meta_json req.command cwd
              (merge_env (merge_env [] t.env) req.env))
            (pos 4096) 15)
      launched res

    abbrev pub record_job :
        JobManager A H
        → Str
        → ℕ
        → Target A H
        → JobStartRequest
        → Result JobError (Unit {0})
        → JobManager A H × Result JobError JobStartResponse
    record_job m job_id now t req (err e) = (m, err e)
    record_job m job_id now t req (ok _) = (
      record m {
        job_index =
            insert job_id
              (record {
                job_id = job_id;
                target_id = t.id;
                created_at = now;
                command_hash = hash req.command;
              })
              m.job_index;
      },
      ok (record { job_id = job_id; target = t.id; state = running; started_at = format_time now }),
    )

    unfoldable pub start :
        JobManager A H
        → Str
        → ℕ
        → Target A H
        → JobStartRequest
        → JobManager A H × Result JobError JobStartResponse
    start m job_id now t req = record_job m job_id now t req (launch m job_id now t req)
