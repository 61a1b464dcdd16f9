-- ===== src/Jobs/Tests.antt =====
-- Tests of internal/jobs, internal/target and internal/ssh/client.go, and their theorems at concrete
-- inputs.
use mcp_execmesh.Base.{
  ◌≡◌, refl, ℕ, Bool, true, Option, none, some, List, [], ◌∷◌, Str, codes, pos, ok, lookup, join,
  has_suffix, insert, str_eq, has_prefix, trim_prefix, trim_space, trim_left, split, split_first,
  parse_int, read_number, read_digits, show_ℕ, show_ℤ, digits_before, cut_at, replace_byte,
  contains,
}
use mcp_execmesh.Security.Policy.{default_command_policy, find_banned, validate_command}
use mcp_execmesh.Security.Path.{
  is_abs, pop_part, push_part, resolve_parts, segments, clean, file_join, with_slash, under_prefix,
  under_any, is_path_allowed, clean_and_validate_path,
}
use mcp_execmesh.Ssh.LimitedBuffer.{new_limited_buffer, keep, write, write_all}
use mcp_execmesh.Ssh.Client.{
  ConnectOptions, SessionRun, finished, change_dir, build_command, exports, escape_quotes, exec,
}
use mcp_execmesh.Target.{address, connect_options, Target}
use mcp_execmesh.Target.Registry.{TargetAuthConfig, TargetConfig, get, build_map, target_of, reload}
use mcp_execmesh.Target.Registry.Lookups.{Configured, reload-get}
use mcp_execmesh.Jobs.{JobMeta, JobManager, running, JobStartRequest}
use mcp_execmesh.Jobs.Remote.{concat, job_exports, job_cd, launch_script, build_launch_script}
use mcp_execmesh.Jobs.Resolve.{run_on, resolve_target}
use mcp_execmesh.Jobs.Start.{resolve_cwd, merge_env, launch, start}
use mcp_execmesh.Jobs.Launch.{Launched, start-Permitted}
use mcp_execmesh.Jobs.Tracking.{start-resolve_target}

text : Unit {0}
unfolding str_eq has_prefix join has_suffix trim_prefix trim_space trim_left split split_first
    contains lookup insert parse_int read_number read_digits show_ℕ show_ℤ digits_before cut_at
    replace_byte
text = tt

scripts : Unit {0}
unfolding text is_abs pop_part push_part resolve_parts segments clean file_join with_slash
    under_prefix under_any is_path_allowed clean_and_validate_path find_banned validate_command exec
    build_command exports change_dir escape_quotes concat job_exports job_cd launch_script
    build_launch_script address connect_options run_on resolve_cwd merge_env new_limited_buffer
    write_all write keep launch start get
scripts = tt

abbrev no_secrets : TargetAuthConfig
no_secrets = record {
  type = codes "password";
  private_key_file = [];
  private_key_passphrase_file = [];
  password_file = codes "/etc/pw";
}

abbrev web_config : TargetConfig
web_config = record {
  id = codes "web-01";
  name = codes "web";
  host = codes "10.0.0.5";
  port = pos 22;
  user = codes "deploy";
  auth = no_secrets;
  host_key = record { known_hosts_file = codes "/etc/kh"; strict = true };
  default_cwd = codes "/srv/app";
  shell = codes "/bin/sh";
  tags = [];
  limits = record { max_exec_seconds = pos 30; max_upload_bytes = pos 1000 };
  capabilities = record { exec = true; upload = true; jobs = true };
  allowed_paths = codes "/srv" ∷ [];
  env = [];
  auth_ref = [];
  known_host_ref = [];
  enabled = none;
}

abbrev web : Target (Unit {0}) (Unit {0})
web = record {
  id = codes "web-01";
  name = codes "web";
  host = codes "10.0.0.5";
  port = pos 22;
  user = codes "deploy";
  auth_method = [];
  host_key_callback = tt;
  default_cwd = codes "/srv/app";
  shell = codes "/bin/sh";
  tags = [];
  limits = record { max_exec_seconds = pos 30; max_upload_bytes = pos 1000 };
  capabilities = record { exec = true; upload = true; jobs = true };
  allowed_paths = codes "/srv" ∷ [];
  env = [];
  enabled = true;
  auth_ref = [];
  known_host_ref = [];
}

abbrev manager : JobManager (Unit {0}) (Unit {0})
manager = record {
  job_index = [];
  registry = record { targets = (codes "web-01", web) ∷ [] };
  remote_base_dir = codes ".remote-mcp/jobs";
  max_job_output_read_bytes = pos 131072;
  policy = default_command_policy;
}

-- Every host accepts every script and prints nothing.
abbrev quiet : ConnectOptions (Unit {0}) (Unit {0}) → Option (Str → Option ℕ → SessionRun)
quiet _ = some (λ cmd timeout. record {
  stdout_writes = [];
  stderr_writes = [];
  run_end = finished;
  duration_ms = 5;
})

abbrev request : JobStartRequest
request = record { target = codes "web-01"; command = codes "make"; cwd = []; env = [] }

abbrev hash : Str → Str
hash s = s

abbrev encode_meta : JobMeta → Option Str
encode_meta meta = some meta.command

abbrev format_time : ℕ → Str
format_time n = codes "now"

start_test :
    (start quiet hash encode_meta format_time manager (codes "job_1") 7 web request).1
    ≡ ok (record {
      job_id = codes "job_1";
      target = codes "web-01";
      state = running;
      started_at = codes "now";
    })
unfolding scripts
start_test = refl

start-Permitted_example :
    (web.capabilities.jobs ≡ true)
    × (validate_command default_command_policy (codes "make") ≡ none)
    × Launched quiet hash encode_meta format_time manager (codes "job_1") web request
start-Permitted_example =
    start-Permitted quiet hash encode_meta format_time manager (codes "job_1") 7 web request
      start_test

start-resolve_target_example :
    resolve_target quiet
      (start quiet hash encode_meta format_time manager (codes "job_1") 7 web request).0
      (codes "job_1")
      []
    ≡ ((start quiet hash encode_meta format_time manager (codes "job_1") 7 web request).0, ok web)
unfolding scripts
start-resolve_target_example =
    start-resolve_target quiet hash encode_meta format_time manager (codes "job_1") 7 web request
      start_test refl

abbrev no_methods : TargetAuthConfig → Option (List (Unit {0}))
no_methods auth = some []

abbrev any_host_key : Str → Bool → Option (Unit {0})
any_host_key file strict = some tt

reload-get_example :
    Configured no_methods any_host_key (web_config ∷ []) (codes "web-01") web
    × (web.id ≡ codes "web-01")
unfolding text reload build_map target_of get
reload-get_example =
    reload-get no_methods any_host_key manager.registry (web_config ∷ []) (codes "web-01") web refl
      refl
