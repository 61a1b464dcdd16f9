-- ===== src/Executor/Tests.antt =====
-- Tests of internal/executor/exec.go, and its theorems at concrete inputs.
use mcp_execmesh.Base.{
  ◌≡◌, refl, ◌*◌, ◌≤◌, true, false, none, some, Option, [], ◌∷◌, Str, codes, pos, ◌≤ℤ◌, ok, arith,
  str_eq, has_prefix, has_suffix, contains, trim_space, trim_left, split, split_first, join, insert,
  replace_byte, show_ℤ, show_ℕ, digits_before, ℕ,
}
use mcp_execmesh.Security.Path.{
  is_abs, pop_part, push_part, resolve_parts, segments, clean, file_join, with_slash, under_prefix,
  under_any, is_path_allowed, clean_and_validate_path,
}
use mcp_execmesh.Security.Policy.{default_command_policy, find_banned, validate_command}
use mcp_execmesh.Ssh.LimitedBuffer.{new_limited_buffer, keep, write, write_all}
use mcp_execmesh.Ssh.Client.{
  ExecOutcome, time_limit, ConnectOptions, SessionRun, completed, finished, build_command, exports,
  change_dir, escape_quotes, exec,
}
use mcp_execmesh.Target.{Target, address, connect_options}
use mcp_execmesh.Jobs.Start.{merge_env}
use mcp_execmesh.Executor.{Executor, ExecRequest, exec_timeout, exec_cwd, exec_on}
use mcp_execmesh.Executor.Limits.{
  HandedOver, exec_timeout-bounds, exec_timeout-wrapped, exec_on-Permitted,
}

-- A host that prints the command it was given.
abbrev echoing : ConnectOptions (Unit {0}) (Unit {0}) → Option (Str → Option ℕ → SessionRun)
echoing _ = some (λ cmd timeout. record {
  stdout_writes = cmd ∷ [];
  stderr_writes = [];
  run_end = finished;
  duration_ms = 5;
})

abbrev host : Target (Unit {0}) (Unit {0})
host = record {
  id = codes "db-01";
  name = codes "db";
  host = codes "db.internal";
  port = pos 2222;
  user = codes "ops";
  auth_method = [];
  host_key_callback = tt;
  default_cwd = codes "/srv/db";
  shell = codes "/bin/bash";
  tags = [];
  limits = record { max_exec_seconds = pos 60; max_upload_bytes = pos 1000 };
  capabilities = record { exec = true; upload = false; jobs = false };
  allowed_paths = codes "/srv" ∷ [];
  env = [];
  enabled = true;
  auth_ref = [];
  known_host_ref = [];
}

abbrev executor : Executor
executor = record {
  sync_exec_timeout = pos 30000000000;
  max_stdout_bytes = pos 100;
  max_stderr_bytes = pos 0;
  policy = default_command_policy;
}

abbrev request : ExecRequest
request = record {
  target = codes "db-01";
  command = codes "ls";
  cwd = [];
  timeout_seconds = pos 5;
  env = (codes "K", codes "a b") ∷ [];
}

all_open : Unit {0}
unfolding str_eq has_prefix has_suffix contains trim_space trim_left split split_first join insert
    replace_byte show_ℤ show_ℕ digits_before is_abs pop_part push_part resolve_parts segments clean
    file_join with_slash under_prefix under_any is_path_allowed clean_and_validate_path find_banned
    validate_command new_limited_buffer keep write write_all build_command exports change_dir
    escape_quotes exec address connect_options merge_env exec_timeout exec_cwd exec_on
all_open = tt

exec_test :
    exec_on echoing executor host request
    ≡ ok (
        completed (record {
          exit_code = pos 0;
          stdout = codes "export K='a b'; cd '/srv/db' && ls";
          stderr = [];
          stdout_truncated = false;
          stderr_truncated = false;
          duration_ms = 5;
        }))
unfolding all_open
exec_test = refl

abbrev answered : ExecOutcome
answered = completed (record {
  exit_code = pos 0;
  stdout = codes "export K='a b'; cd '/srv/db' && ls";
  stderr = [];
  stdout_truncated = false;
  stderr_truncated = false;
  duration_ms = 5;
})

exec_on-Permitted_example :
    (host.capabilities.exec ≡ true)
    × (validate_command default_command_policy (codes "ls") ≡ none)
    × HandedOver echoing host request answered
exec_on-Permitted_example = exec_on-Permitted echoing executor host request exec_test

exec_timeout-bounds_example :
    (pos 1 ≤ℤ exec_timeout (pos 30000000000) (pos 5) (pos 60))
    × (1 ≤ 30000000000 → exec_timeout (pos 30000000000) (pos 5) (pos 60) ≤ℤ pos 30000000000)
    × (1 ≤ 5 → exec_timeout (pos 30000000000) (pos 5) (pos 60) ≤ℤ pos (5 * 1000000000))
    × (1 ≤ 60 → exec_timeout (pos 30000000000) (pos 5) (pos 60) ≤ℤ pos (60 * 1000000000))
exec_timeout-bounds_example = exec_timeout-bounds 30000000000 5 60 (omega arith) (omega arith)

exec_timeout-wrapped_example :
    time_limit (exec_timeout (pos 30000000000) (pos 10000000000) (pos 60)) ≡ none
exec_timeout-wrapped_example =
    exec_timeout-wrapped (pos 30000000000) (pos 60) 10000000000 (omega arith) (omega arith)
