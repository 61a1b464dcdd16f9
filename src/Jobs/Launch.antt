-- ===== src/Jobs/Launch.antt =====
-- internal/jobs/manager.go: what Start lets through, and what a failure leaves.
use mcp_execmesh.Base.{
  guard-eq-ok, ◌≡◌, refl, ◌⊎◌, inl, inr, ℕ, true, Option, none, List, [], ◌∷◌, Str, pos, Result, ok,
  err, guard, >>=-eq-ok, arith,
}
use mcp_execmesh.Security.Path.{is_path_allowed}
use mcp_execmesh.Security.Policy.{PolicyError, validate_command}
use mcp_execmesh.Ssh.Client.{ConnectOptions, ExecResult, SessionRun}
use mcp_execmesh.Target.{Target}
use mcp_execmesh.Jobs.{
  JobMeta, JobManager, JobError, JobStartRequest, JobStartResponse, jobs_disabled,
}
use mcp_execmesh.Jobs.Remote.{build_launch_script}
use mcp_execmesh.Jobs.Resolve.{seconds, is_zero, options, run_on}
use mcp_execmesh.Jobs.Start.{
  merge_env, resolve_cwd, policy_check, meta_text, record_job, launch, start,
}

-- A directory is not set, or lies within the allowed paths, where there are any.
abbrev pub IsWithin : List Str → Str → Type 0
IsWithin allowed_paths cwd =
    (cwd ≡ []) ⊎ (allowed_paths ≡ []) ⊎ (is_path_allowed cwd allowed_paths ≡ true)

pub resolve_cwd-IsWithin :
    (cwd default_cwd : Str) (allowed_paths : List Str) {w : Str}
    → resolve_cwd cwd default_cwd allowed_paths ≡ ok w
    → IsWithin allowed_paths w
unfolding resolve_cwd
resolve_cwd-IsWithin cwd default_cwd [] h = inr (inl refl)
resolve_cwd-IsWithin cwd default_cwd (p ∷ ps) h = ground arith

-- The tests of Start that stand in front of its script.
policy_check-eq-ok :
    (e : Option PolicyError)
    → ◌≡◌ {A = Result JobError (Unit {0})} (policy_check e) (ok tt)
    → e ≡ none
policy_check-eq-ok e h = ground arith

module _ {A : Type 0} {H : Type 0}
    (dial : ConnectOptions A H → Option (Str → Option ℕ → SessionRun)) where
  module _ (hash : Str → Str) (encode_meta : JobMeta → Option Str) (format_time : ℕ → Str) where
    record_job-err :
        (m : JobManager A H) (job_id : Str) (now : ℕ) (t : Target A H) (req : JobStartRequest)
        (r : Result JobError (Unit {0})) {e : JobError}
        → (record_job dial hash encode_meta format_time m job_id now t req r).1 ≡ err e
        → (record_job dial hash encode_meta format_time m job_id now t req r).0 ≡ m
    record_job-err m job_id now t req (ok tt) h = absurd cc
    record_job-err m job_id now t req (err e) h = refl

    pub record_job-ok :
        (m : JobManager A H) (job_id : Str) (now : ℕ) (t : Target A H) (req : JobStartRequest)
        (r : Result JobError (Unit {0})) {res : JobStartResponse}
        → (record_job dial hash encode_meta format_time m job_id now t req r).1 ≡ ok res
        → r ≡ ok tt
    record_job-ok m job_id now t req (ok tt) h = refl
    record_job-ok m job_id now t req (err e) h = absurd cc

    -- The launch script of a request, as it ran on a target: in a directory within the allowed paths.
    pub record Launched (m : JobManager A H) (job_id : Str) (t : Target A H) (req : JobStartRequest)
        : Type 0 where
      pub cwd : Str
      pub within : IsWithin t.allowed_paths cwd
      pub meta_json : Str
      pub env : List (Str × Str)
      pub result : ExecResult
      pub ran :
          run_on dial t (seconds 10) (
            options
              (build_launch_script m.remote_base_dir job_id meta_json req.command cwd env)
              (pos 4096)
              15)
          ≡ ok result
      pub exited : is_zero result.exit_code ≡ true

    -- A job that Start accepts is on a target that allows jobs, and its command passes the policy; the launch
    -- script of that command has run there, and exited with 0, with a directory that is not set or lies
    -- within the target's allowed paths, where there are any.
    pub start-Permitted :
        (m : JobManager A H) (job_id : Str) (now : ℕ) (t : Target A H) (req : JobStartRequest)
        {res : JobStartResponse}
        → (start dial hash encode_meta format_time m job_id now t req).1 ≡ ok res
        → (t.capabilities.jobs ≡ true)
          × (validate_command m.policy req.command ≡ none)
          × Launched m job_id t req
    unfolding start launch
    start-Permitted m job_id now t req h =
        let passed = record_job-ok m job_id now t req _ h in
        let (_, jobs_on, passed2) =
          >>=-eq-ok (guard t.capabilities.jobs (jobs_disabled t.id)) _ passed in
        let (_, policy_on, passed3) =
          >>=-eq-ok (policy_check (validate_command m.policy req.command)) _ passed2 in
        let (cwd, within, passed4) =
          >>=-eq-ok (resolve_cwd req.cwd t.default_cwd t.allowed_paths) _ passed3 in
        let meta = encode_meta (record {
          job_id = job_id;
          target_id = t.id;
          command = req.command;
          cwd = cwd;
          started_at = now;
          pid = pos 0;
          command_hash = hash req.command;
        }) in
        let env = merge_env (merge_env [] t.env) req.env in
        let (meta_json, _, passed5) =
          >>=-eq-ok (meta_text dial hash encode_meta format_time meta) _ passed4 in
        let (result, ran, last) =
          >>=-eq-ok
            (run_on dial t (seconds 10) (
              options (build_launch_script m.remote_base_dir job_id meta_json req.command cwd env)
                (pos 4096) 15))
            _ passed5 in
        (
          guard-eq-ok t.capabilities.jobs _ jobs_on,
          policy_check-eq-ok _ policy_on,
          record {
            cwd = cwd;
            within = resolve_cwd-IsWithin req.cwd t.default_cwd t.allowed_paths within;
            meta_json = meta_json;
            env = env;
            result = result;
            ran = ran;
            exited = guard-eq-ok (is_zero result.exit_code) _ last;
          },
        )

  -- A start that fails leaves the manager as it was.
  pub start_failure :
      (hash : Str → Str) (encode_meta : JobMeta → Option Str) (format_time : ℕ → Str)
      (m : JobManager A H) (job_id : Str) (now : ℕ) (t : Target A H) (req : JobStartRequest)
      {e : JobError}
      → (start dial hash encode_meta format_time m job_id now t req).1 ≡ err e
      → (start dial hash encode_meta format_time m job_id now t req).0 ≡ m
  unfolding start
  start_failure hash encode_meta format_time m job_id now t req h =
      record_job-err hash encode_meta format_time m job_id now t req
        (launch dial hash encode_meta format_time m job_id now t req) h
