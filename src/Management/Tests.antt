-- ===== src/Management/Tests.antt =====
-- Tests of internal/management/service.go and internal/config/files.go, and their theorems at concrete
-- inputs.
use mcp_execmesh.Base.{
  ◌≡◌, refl, true, false, Bool, none, some, Option, List, [], ◌∷◌, ◌++◌, Str, codes, pos, ok, err,
  arith, All, is_empty, str_eq, has_prefix, has_suffix, split, split_first, join, trim_space,
  trim_left, member, set_add, lookup, insert,
}
use mcp_execmesh.Config.{
  empty_host, all_id_bytes, valid_target_id, check_id, check_allowed_paths, check_auth,
  check_host_key, check_rest, check_targets,
}
use mcp_execmesh.Config.Sidecars.{
  CredentialConfig, RuntimeDefaults, default_capabilities, target_defaults, apply_target_defaults,
  credential_by_id, index_credentials, resolve_target, resolve_targets, resolve_auth_refs,
  load_sidecars,
}
use mcp_execmesh.Security.Path.{is_abs, pop_part, push_part, resolve_parts, segments, clean}
use mcp_execmesh.Security.Scope.{
  Principal, scope_admin_targets, is_unrestricted, has_scope, allows_target, authorize,
  target_denied,
}
use mcp_execmesh.Target.Registry.{TargetConfig}
use mcp_execmesh.Management.{
  Config, State, Env, passed, denied, stripped, strip_resolved_auth, first_known_hosts,
  default_known_hosts, commit, next_targets, mutate_targets, change_first, set_enabled, without,
  remove_target,
}
use mcp_execmesh.Management.Update.{
  Change, text, needs_test, apply_changes, with_credential, with_known_hosts, update_one,
  update_target,
}
use mcp_execmesh.Management.Add.{TargetAddInput, has_id, new_target, check_add, add_target}
use mcp_execmesh.Management.Written.{IsWritten}
use mcp_execmesh.Management.Changes.{IsChanged}
use mcp_execmesh.Management.Updated.{IsUpdate, update_target-IsUpdate}
use mcp_execmesh.Management.Added.{IsAddable, add_target-IsAddable}
use mcp_execmesh.Management.Restored.{IsResolved, HasDefaults, load_sidecars-strip_resolved_auth}

all_open : Unit {0}
unfolding str_eq has_prefix has_suffix split split_first join trim_space trim_left member set_add
    lookup insert all_id_bytes valid_target_id check_id check_allowed_paths check_auth
    check_host_key check_rest check_targets default_capabilities target_defaults
    apply_target_defaults credential_by_id index_credentials resolve_target resolve_targets
    resolve_auth_refs load_sidecars is_abs pop_part push_part resolve_parts segments clean
    is_unrestricted has_scope allows_target authorize stripped strip_resolved_auth first_known_hosts
    default_known_hosts commit next_targets mutate_targets change_first set_enabled without
    remove_target needs_test apply_changes with_credential with_known_hosts update_one update_target
    has_id new_target check_add add_target
all_open = tt

abbrev key : CredentialConfig
key = record {
  id = codes "key";
  type = codes "private_key";
  private_key_file = codes "/k";
  private_key_passphrase_file = [];
  password_file = [];
}

abbrev target : Str → Str → TargetConfig
target id host = record {
  id = id;
  name = [];
  host = host;
  port = pos 22;
  user = codes "ops";
  auth = record {
    type = codes "private_key";
    private_key_file = codes "/k";
    private_key_passphrase_file = [];
    password_file = [];
  };
  host_key = record { known_hosts_file = codes "/kh"; strict = true };
  default_cwd = [];
  shell = codes "/bin/sh";
  tags = [];
  limits = record { max_exec_seconds = pos 300; max_upload_bytes = pos 9 };
  capabilities = record { exec = true; upload = true; jobs = true };
  allowed_paths = [];
  env = [];
  auth_ref = codes "key";
  known_host_ref = host;
  enabled = some true;
}

abbrev runtime : RuntimeDefaults
runtime = record { sync_exec_timeout = pos 0; max_upload_bytes = pos 9 }

abbrev config_of : List TargetConfig → Config
config_of ts = record {
  targets = ts;
  credentials = key ∷ [];
  targets_file = codes "/t";
  known_hosts_file = codes "/kh";
  require_known_hosts = true;
  runtime = runtime;
}

abbrev a : TargetConfig
a = target (codes "a") (codes "a.host")

abbrev b : TargetConfig
b = target (codes "b") (codes "b.host")

abbrev state : State
state = record { running = config_of (a ∷ b ∷ []); stored = strip_resolved_auth (a ∷ b ∷ []) }

-- Everything works, and what is loaded is the written targets with their credentials.
abbrev env : Env
env = record {
  lock_taken = true;
  backed_up = true;
  write_left = none;
  reload =
      λ ts. elim (resolve_auth_refs (key ∷ []) ts) [ ok us ↦ some (config_of us) | err _ ↦ none ];
  test = λ _. passed;
}

abbrev admin : Principal
admin = record {
  id = codes "adm";
  subject = codes "adm";
  auth_type = codes "bearer";
  remote_ip = [];
  scopes = scope_admin_targets ∷ [];
  targets = codes "a" ∷ codes "c" ∷ [];
}

abbrev input : TargetAddInput
input = record {
  id = codes "c";
  name = [];
  host = codes "c.host";
  port = pos 0;
  user = codes "ops";
  auth_ref = codes "key";
  known_host_ref = [];
  default_cwd = [];
  shell = [];
  tags = [];
  validate_only = false;
}

abbrev readable : Str → Bool
readable _ = true

abbrev names : Str → Option (List Str)
names _ = some (codes "c.host" ∷ [])

abbrev changes : List (Str × Change)
changes = (codes "host", text (codes "a2.host")) ∷ []

succeeded :
    ((set_enabled env state (some admin) (codes "a") false).1 ≡ none)
    × ((remove_target env state (some admin) (codes "a")).1 ≡ none)
    × ((update_target env state (some admin) (codes "a") changes).1 ≡ none)
    × ((add_target readable names env state (some admin) input).1 ≡ ok true)
unfolding all_open
succeeded = (refl, refl, refl, refl)

abbrev blank_host : List (Str × Change)
blank_host = (codes "host", text []) ∷ []

-- An update is not validated: a blank host is written and runs. A target with every capability off comes back
-- with all of them on.
update_tests :
    (let after = update_target env state (some admin) (codes "a") blank_host in
      (after.1 ≡ none)
      × (check_targets true readable true [] after.0.running.targets ≡ empty_host ∷ []))
    × (default_capabilities (record { exec = false; upload = false; jobs = false })
        ≡ record { exec = true; upload = true; jobs = true })
unfolding all_open
update_tests = ((refl, refl), refl)

management_tests :
    ((set_enabled env state (some admin) (codes "b") false)
      ≡ (state, some (denied (target_denied (codes "b")))))
    × ((add_target readable names env state (some admin) input).0.running
        ≡ config_of (a ∷ b ∷ target (codes "c") (codes "c.host") ∷ []))
    × ((remove_target env state (some admin) (codes "a")).0.running ≡ config_of (b ∷ []))
unfolding all_open
management_tests = (refl, refl, refl)

update_target-IsUpdate_example :
    (authorize (some admin) scope_admin_targets (codes "a") ≡ none)
    × ((next : List TargetConfig) × (old : TargetConfig) × (new : TargetConfig) × IsUpdate env
          state.running changes old new
        × IsChanged (codes "a") old new state.running.targets next
        × IsWritten env next (update_target env state (some admin) (codes "a") changes).0)
update_target-IsUpdate_example =
    update_target-IsUpdate env state (some admin) (codes "a") changes succeeded.2

add_target-IsAddable_example :
    (t : TargetConfig) × IsAddable readable names env state (some admin) input t
    × (env.test t ≡ passed)
    × IsWritten env
        (state.running.targets ++ (t ∷ []))
        (add_target readable names env state (some admin) input).0
add_target-IsAddable_example =
    add_target-IsAddable readable names env state (some admin) input succeeded.3

kept :
    (is_empty (trim_space (codes "/c")) ≡ false)
    × (index_credentials [] (key ∷ []) ≡ ok ((codes "key", key) ∷ []))
    × All (IsResolved ((codes "key", key) ∷ [])) (a ∷ b ∷ [])
    × All (HasDefaults runtime) (a ∷ b ∷ [])
unfolding all_open
kept = (
  refl,
  refl,
  (
    (λ e. absurd (ground arith), λ _. (key, refl, refl)),
    ((λ e. absurd (ground arith), λ _. (key, refl, refl)), tt),
  ),
  (refl, (refl, tt)),
)

load_sidecars-strip_resolved_auth_example :
    load_sidecars runtime
      (codes "/c")
      []
      (some (key ∷ []))
      (codes "/c")
      []
      (some (strip_resolved_auth (a ∷ b ∷ [])))
    ≡ ok (key ∷ [], a ∷ b ∷ [])
load_sidecars-strip_resolved_auth_example =
    load_sidecars-strip_resolved_auth runtime (codes "/c") (codes "/c") (key ∷ [])
      ((codes "key", key) ∷ []) (a ∷ b ∷ []) kept.0 kept.0 kept.1 kept.2 kept.3
