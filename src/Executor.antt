-- ===== src/Executor.antt =====
-- internal/executor/exec.go: Exec, over the same function of the remote hosts as the jobs. Durations are
-- int64 nanoseconds, and a product of them wraps.
pub mod Limits
pub mod Tests
use mcp_execmesh.Base.{
  ℕ, ◌+◌, ◌*◌, ◌%◌, Bool, true, false, not, ◌&&◌, Option, none, some, List, [], ◌∷◌, Str, is_empty,
  ltb, ℤ, pos, negsuc, sub_ℕ, ltb_ℤ, leb_ℤ, Result, ok, err, ◌>>=◌, ◌>>◌, guard, int64_bound,
  if◌then◌else◌,
}
use mcp_execmesh.Security.Path.{clean_and_validate_path, is_path_allowed}
use mcp_execmesh.Security.Policy.{CommandPolicy, PolicyError, validate_command}
use mcp_execmesh.Ssh.Client.{
  ConnectOptions, ExecOptions, ExecOutcome, completed, timed_out, exec_failed, SessionRun, exec,
  shell_or_default,
}
use mcp_execmesh.Target.{Target, connect_options}
use mcp_execmesh.Jobs.Start.{merge_env}

pub record ExecRequest : Type 0 where
  pub target : Str
  pub command : Str
  pub cwd : Str
  pub timeout_seconds : ℤ
  pub env : List (Str × Str)

-- The parts of the RuntimeConfig that Exec reads, and the policy.
pub record Executor : Type 0 where
  pub sync_exec_timeout : ℤ
  pub max_stdout_bytes : ℤ
  pub max_stderr_bytes : ℤ
  pub policy : CommandPolicy

pub data ExecError : Type 0 where
  exec_disabled : Str → ExecError
  command_rejected : PolicyError → ExecError
  outside_allowed_paths : Str → ExecError
  connect_failed : Str → ExecError

-- A number as an int64.
abbrev pub wrap_int64 : ℕ → ℤ
wrap_int64 n =
    if ltb (n % (2 * int64_bound)) int64_bound
    then pos (n % (2 * int64_bound))
    else sub_ℕ (n % (2 * int64_bound)) (2 * int64_bound)

-- time.Duration(n) * time.Second, for a positive n
abbrev pub times_second : ℤ → ℤ
times_second (pos n) = wrap_int64 (n * 1000000000)
times_second (negsuc n) = negsuc n

-- The shorter of the timeout so far and a limit in seconds, where that is positive.
abbrev pub cap : ℤ → ℤ → ℤ
cap timeout limit_seconds =
    if ltb_ℤ (pos 0) limit_seconds
    then (if ltb_ℤ (times_second limit_seconds) timeout
        then times_second limit_seconds
        else timeout)
    else timeout

unfoldable pub exec_timeout : ℤ → ℤ → ℤ → ℤ
exec_timeout configured requested max_exec =
    cap (cap (if leb_ℤ configured (pos 0) then pos 30000000000 else configured) requested) max_exec

abbrev pub bytes_or_default : ℤ → ℤ
bytes_or_default max_bytes = if leb_ℤ max_bytes (pos 0) then pos 65536 else max_bytes

unfoldable pub exec_cwd : Str → Str → List Str → Result ExecError Str
exec_cwd cwd default_cwd allowed_paths =
    let chosen = if is_empty cwd then default_cwd else cwd in
    if is_empty chosen
    then ok []
    else let cleaned = clean_and_validate_path chosen default_cwd in
      if not (is_empty allowed_paths) && not (is_path_allowed cleaned allowed_paths)
      then err (outside_allowed_paths cleaned)
      else ok cleaned

abbrev pub policy_check : Option PolicyError → Result ExecError (Unit {0})
policy_check none = ok tt
policy_check (some e) = err (command_rejected e)

module _ {A : Type 0} {H : Type 0}
    (dial : ConnectOptions A H → Option (Str → Option ℕ → SessionRun)) where
  abbrev pub session_of : Target A H → Result ExecError (Str → Option ℕ → SessionRun)
  session_of t = elim (dial (connect_options t (pos 10000000000))) [
    | none ↦ err (connect_failed t.id)
    | some run ↦ ok run
  ]

  -- Exec, up to what the client's Exec answers: a result, a result with the context's error, or an
  -- error.
  unfoldable pub exec_on : Executor → Target A H → ExecRequest → Result ExecError ExecOutcome
  exec_on e t req = do
    guard t.capabilities.exec (exec_disabled t.id)
    policy_check (validate_command e.policy req.command)
    cwd ← exec_cwd req.cwd t.default_cwd t.allowed_paths
    run ← session_of t
    ok (
        exec run (shell_or_default t.shell) (record {
          command = req.command;
          cwd = cwd;
          env = merge_env (merge_env [] t.env) req.env;
          max_stdout_bytes = bytes_or_default e.max_stdout_bytes;
          max_stderr_bytes = bytes_or_default e.max_stderr_bytes;
          timeout = exec_timeout e.sync_exec_timeout req.timeout_seconds t.limits.max_exec_seconds;
        }))
