-- ===== src/Management/Add.antt =====
-- AddTarget of internal/management/service.go: the checks of a new target, its test and its commit.
use mcp_execmesh.Base.{
  Bool, true, false, ◌||◌, not, Option, none, some, List, [], ◌∷◌, ◌++◌, Str, str_eq, is_empty,
  trim_space, member, ℤ, pos, if◌then◌else◌, Result, ok, err, ◌>>=◌, ◌>>◌, guard,
}
use mcp_execmesh.Config.{check_targets}
use mcp_execmesh.Config.Sidecars.{
  CredentialConfig, is_zero, target_defaults, apply_target_defaults, credential_auth,
  credential_by_id,
}
use mcp_execmesh.Security.Scope.{Principal, scope_admin_targets, authorize}
use mcp_execmesh.Target.Registry.{TargetConfig}
use mcp_execmesh.Management.{
  Config, State, TestOutcome, Env, ManageError, default_known_hosts, commit, authorized, passed,
  failed, broken, fields_required, lock_failed, already_exists, unknown_credential,
  no_known_hosts_file, known_hosts_unreadable, host_not_known, invalid_config, test_broken,
  test_failed, no_targets_file,
}

pub record TargetAddInput : Type 0 where
  pub id : Str
  pub name : Str
  pub host : Str
  pub port : ℤ
  pub user : Str
  pub auth_ref : Str
  pub known_host_ref : Str
  pub default_cwd : Str
  pub shell : Str
  pub tags : List Str
  pub validate_only : Bool

unfoldable pub has_id : Str → List TargetConfig → Bool
has_id id [] = false
has_id id (t ∷ ts) = if str_eq t.id id then true else has_id id ts

abbrev pub is_blank : Str → Bool
is_blank s = is_empty (trim_space s)

abbrev pub or_manage_error : {A : Type 0} → ManageError → Option A → Result ManageError A
or_manage_error e none = err e
or_manage_error e (some a) = ok a

unfoldable pub new_target : TargetAddInput → CredentialConfig → Str → TargetConfig
new_target input cred kh_file = record {
  id = input.id;
  name = input.name;
  host = input.host;
  port = if is_zero input.port then pos 22 else input.port;
  user = input.user;
  auth = credential_auth cred;
  host_key = record { known_hosts_file = kh_file; strict = true };
  default_cwd = input.default_cwd;
  shell = input.shell;
  tags = input.tags;
  limits = record { max_exec_seconds = pos 0; max_upload_bytes = pos 0 };
  capabilities = record { exec = false; upload = false; jobs = false };
  allowed_paths = [];
  env = [];
  auth_ref = input.auth_ref;
  known_host_ref = if is_empty input.known_host_ref then input.host else input.known_host_ref;
  enabled = some true;
}

abbrev pub answer : State × Option ManageError → State × Result ManageError Bool
answer (s, none) = (s, ok true)
answer (s, some e) = (s, err e)

-- `known_names` are the names in a known_hosts file, and `none` if it cannot be read; `readable` is what
-- checkFileReadable finds.
module _ (readable : Str → Bool) (known_names : Str → Option (List Str)) where
  -- Validate, of what it checks of the targets.
  abbrev pub is_valid : Config → List TargetConfig → Bool
  is_valid cfg ts = is_empty (check_targets true readable cfg.require_known_hosts [] ts)

  -- AddTarget up to the test: the targets with the new one behind them, their defaults filled in, and the new
  -- one.
  unfoldable pub check_add :
      Env
      → State
      → Option Principal
      → TargetAddInput
      → Result ManageError (List TargetConfig × TargetConfig)
  check_add env s p input = do
    authorized (authorize p scope_admin_targets input.id)
    guard
        (not (
          is_blank input.id
          || is_blank input.host
          || is_blank input.user
          || is_blank input.auth_ref))
        fields_required
    guard env.lock_taken lock_failed
    guard (not (has_id input.id s.running.targets)) (already_exists input.id)
    cred ←
        or_manage_error (unknown_credential input.auth_ref)
          (credential_by_id s.running.credentials input.auth_ref)
    guard (not (is_empty (default_known_hosts s.running))) no_known_hosts_file
    names ← or_manage_error known_hosts_unreadable (known_names (default_known_hosts s.running))
    guard
        (member (new_target input cred (default_known_hosts s.running)).known_host_ref names
          || member input.host names)
        (host_not_known (new_target input cred (default_known_hosts s.running)).known_host_ref)
    guard
        (is_valid s.running (
          apply_target_defaults s.running.runtime
            (s.running.targets ++ (new_target input cred (default_known_hosts s.running) ∷ []))))
        invalid_config
    ok (
      apply_target_defaults s.running.runtime
          (s.running.targets ++ (new_target input cred (default_known_hosts s.running) ∷ [])),
      target_defaults s.running.runtime (new_target input cred (default_known_hosts s.running)),
    )

  -- Behind the checks. The targets written are the running ones, without the defaults of this call, and the
  -- new one with them; `false` is what a call that only validates answers.
  abbrev pub tested_add :
      Env → State → TargetAddInput → TargetConfig → TestOutcome → State × Result ManageError Bool
  tested_add env s input t (failed e) = (s, err (test_failed e))
  tested_add env s input t broken = (s, err test_broken)
  tested_add env s input t passed =
      if input.validate_only
      then (s, ok false)
      else if is_blank s.running.targets_file
      then (s, err no_targets_file)
      else answer (commit env s (s.running.targets ++ (t ∷ [])))

  abbrev pub checked_add :
      Env
      → State
      → TargetAddInput
      → Result ManageError (List TargetConfig × TargetConfig)
      → State × Result ManageError Bool
  checked_add env s input (err e) = (s, err e)
  checked_add env s input (ok (ts, t)) = tested_add env s input t (env.test t)

  unfoldable pub add_target :
      Env → State → Option Principal → TargetAddInput → State × Result ManageError Bool
  add_target env s p input = checked_add env s input (check_add env s p input)
