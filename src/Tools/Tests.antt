-- ===== src/Tools/Tests.antt =====
-- Tests of internal/mcp/tools/jobs.go, and its theorems at concrete inputs.
use mcp_execmesh.Base.{
  ◌≡◌, refl, true, some, Option, [], ◌∷◌, Str, codes, pos, ok, str_eq, has_prefix, has_suffix,
  contains, trim_space, trim_left, trim_prefix, split, split_first, join, insert, lookup, member,
  replace_byte, show_ℤ, show_ℕ, digits_before, ℕ, ◌⊎◌, In,
}
use mcp_execmesh.Security.Scope.{
  Principal, is_unrestricted, has_scope, allows_target, authorize, scope_exec_run, scope_jobs_write,
}
use mcp_execmesh.Security.Path.{
  is_abs, pop_part, push_part, resolve_parts, segments, clean, file_join, with_slash, under_prefix,
  under_any, is_path_allowed, clean_and_validate_path,
}
use mcp_execmesh.Security.Policy.{default_command_policy, find_banned, validate_command}
use mcp_execmesh.Security.Digest.{all_token_bytes}
use mcp_execmesh.Ssh.LimitedBuffer.{new_limited_buffer, keep, write, write_all}
use mcp_execmesh.Ssh.Client.{
  ConnectOptions, SessionRun, finished, build_command, exports, change_dir, escape_quotes, exec,
}
use mcp_execmesh.Target.{Target, address, connect_options, require_active}
use mcp_execmesh.Target.Registry.{get}
use mcp_execmesh.Jobs.{JobManager, LocalJobIndexEntry, JobStartRequest, JobMeta, running}
use mcp_execmesh.Jobs.Remote.{concat, job_exports, job_cd, launch_script, build_launch_script}
use mcp_execmesh.Jobs.Resolve.{run_on}
use mcp_execmesh.Jobs.Manager.{valid_job_id}
use mcp_execmesh.Jobs.Start.{resolve_cwd, merge_env, launch, start}
use mcp_execmesh.Tools.{exec_start}
use mcp_execmesh.Tools.Access.{StartedOn, exec_start-authorized}
use mcp_execmesh.Security.Access.{IsUnrestricted, CoversTarget}
use mcp_execmesh.Jobs.{JobStartResponse}

-- A principal of one target only.
abbrev operator : Principal
operator = record {
  id = codes "cap-1";
  subject = codes "chatgpt";
  auth_type = codes "capability";
  remote_ip = codes "10.0.0.9";
  scopes = scope_exec_run ∷ scope_jobs_write ∷ [];
  targets = codes "web-01" ∷ [];
}

abbrev target_named : Str → Target (Unit {0}) (Unit {0})
target_named id = record {
  id = id;
  name = [];
  host = codes "10.0.0.7";
  port = pos 22;
  user = codes "root";
  auth_method = [];
  host_key_callback = tt;
  default_cwd = [];
  shell = [];
  tags = [];
  limits = record { max_exec_seconds = pos 0; max_upload_bytes = pos 0 };
  capabilities = record { exec = true; upload = true; jobs = true };
  allowed_paths = [];
  env = [];
  enabled = true;
  auth_ref = [];
  known_host_ref = [];
}

abbrev entry : LocalJobIndexEntry
entry = record {
  job_id = codes "job_7";
  target_id = codes "db-01";
  created_at = 1;
  command_hash = [];
}

abbrev manager : JobManager (Unit {0}) (Unit {0})
manager = record {
  job_index = (codes "job_7", entry) ∷ [];
  registry = record {
    targets =
        (codes "web-01", target_named (codes "web-01"))
        ∷ (codes "db-01", target_named (codes "db-01"))
        ∷ [];
  };
  remote_base_dir = codes "jobs";
  max_job_output_read_bytes = pos 0;
  policy = default_command_policy;
}

abbrev cancelling : ConnectOptions (Unit {0}) (Unit {0}) → Option (Str → Option ℕ → SessionRun)
cancelling _ = some (λ cmd timeout. record {
  stdout_writes = codes "CANCELLED" ∷ [];
  stderr_writes = [];
  run_end = finished;
  duration_ms = 1;
})

all_open : Unit {0}
unfolding str_eq has_prefix has_suffix contains trim_space trim_left trim_prefix split split_first
    join insert lookup member replace_byte show_ℤ show_ℕ digits_before is_abs pop_part push_part
    resolve_parts segments clean file_join with_slash under_prefix under_any is_path_allowed
    clean_and_validate_path find_banned validate_command all_token_bytes new_limited_buffer keep
    write write_all build_command exports change_dir escape_quotes exec address connect_options
    require_active get concat job_exports job_cd launch_script build_launch_script run_on
    valid_job_id resolve_cwd merge_env launch start is_unrestricted has_scope allows_target
    authorize exec_start
all_open = tt

abbrev request : JobStartRequest
request = record { target = codes "web-01"; command = codes "make"; cwd = []; env = [] }

abbrev hash : Str → Str
hash s = s

abbrev encode_meta : JobMeta → Option Str
encode_meta meta = some meta.command

abbrev exec_start_answer : JobStartResponse
exec_start_answer = record {
  job_id = codes "job_8";
  target = codes "web-01";
  state = running;
  started_at = codes "7";
}

exec_start_test :
    (exec_start cancelling hash encode_meta show_ℕ
      (some operator)
      manager
      (codes "job_8")
      7
      request).1
    ≡ ok exec_start_answer
unfolding all_open
exec_start_test = refl

exec_start-authorized_example :
    (IsUnrestricted operator
      ⊎ (In scope_exec_run operator.scopes × CoversTarget operator (codes "web-01")))
    × StartedOn cancelling hash encode_meta show_ℕ manager
        (codes "job_8")
        7
        request
        exec_start_answer
exec_start-authorized_example =
    exec_start-authorized cancelling hash encode_meta show_ℕ operator manager (codes "job_8") 7
      request exec_start_test
