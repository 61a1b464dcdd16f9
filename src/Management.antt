-- ===== src/Management.antt =====
-- internal/management/service.go: the administration of targets. The state is the running configuration and
-- what the targets file holds. The file lock, the backup, what a failed write leaves in the file, the
-- reload, and the connection test are arguments; the audit log is left out.
pub mod Update
pub mod Add
pub mod Changes
pub mod Written
pub mod Updated
pub mod Added
pub mod Restored
pub mod Tests
use mcp_execmesh.Base.{
  ℕ, Bool, true, false, ◌&&◌, ◌||◌, not, Option, none, some, List, [], ◌∷◌, ◌++◌, Str, codes,
  str_eq, is_empty, trim_space, member, lookup, ℤ, pos, if◌then◌else◌, Result, ok, err, ◌>>=◌, ◌>>◌,
  guard,
}
use mcp_execmesh.Config.{check_targets}
use mcp_execmesh.Config.Sidecars.{
  CredentialConfig, RuntimeDefaults, is_zero, target_defaults, apply_target_defaults,
  credential_auth, credential_by_id,
}
use mcp_execmesh.Security.Scope.{Principal, AuthError, scope_admin_targets, authorize}
use mcp_execmesh.Target.{TargetLimits, TargetCapabilities}
use mcp_execmesh.Target.Registry.{TargetConfig, TargetAuthConfig, HostKeyConfig}

-- The parts of the Config that the operations read.
pub record Config : Type 0 where
  pub targets : List TargetConfig
  pub credentials : List CredentialConfig
  pub targets_file : Str
  pub known_hosts_file : Str
  pub require_known_hosts : Bool
  pub runtime : RuntimeDefaults

pub record State : Type 0 where
  pub running : Config
  pub stored : List TargetConfig

pub data TestOutcome : Type 0 where
  passed : TestOutcome
  failed : Str → TestOutcome
  broken : TestOutcome

-- What happens around an operation. `write_left` is `none` for a write that succeeded, and otherwise what
-- the file holds behind it.
pub record Env : Type 0 where
  pub lock_taken : Bool
  pub backed_up : Bool
  pub write_left : Option (List TargetConfig)
  pub reload : List TargetConfig → Option Config
  pub test : TargetConfig → TestOutcome

pub data ManageError : Type 0 where
  denied : AuthError → ManageError
  fields_required : ManageError
  lock_failed : ManageError
  already_exists : Str → ManageError
  unknown_credential : Str → ManageError
  no_known_hosts_file : ManageError
  known_hosts_unreadable : ManageError
  host_not_known : Str → ManageError
  invalid_config : ManageError
  test_broken : ManageError
  test_failed : Str → ManageError
  no_targets_file : ManageError
  backup_failed : ManageError
  write_failed : ManageError
  reload_failed : ManageError
  target_missing : Str → ManageError
  id_fixed : ManageError

abbrev pub no_auth : TargetAuthConfig
no_auth = record {
  type = [];
  private_key_file = [];
  private_key_passphrase_file = [];
  password_file = [];
}

unfoldable pub stripped : TargetConfig → TargetConfig
stripped t = if not (is_empty t.auth_ref) then record t { auth = no_auth } else t

unfoldable pub strip_resolved_auth : List TargetConfig → List TargetConfig
unfolding stripped
strip_resolved_auth [] = []
strip_resolved_auth (t ∷ ts) = stripped t ∷ strip_resolved_auth ts

unfoldable pub first_known_hosts : List TargetConfig → Str
first_known_hosts [] = []
first_known_hosts (t ∷ ts) =
    if not (is_empty t.host_key.known_hosts_file)
    then t.host_key.known_hosts_file
    else first_known_hosts ts

unfoldable pub default_known_hosts : Config → Str
unfolding first_known_hosts
default_known_hosts cfg =
    if not (is_empty (trim_space cfg.known_hosts_file))
    then cfg.known_hosts_file
    else first_known_hosts cfg.targets

abbrev pub reloaded : State → Option Config → State × Option ManageError
reloaded s none = (s, some reload_failed)
reloaded s (some cfg) = (record s { running = cfg }, none)

abbrev pub written :
    Env → State → List TargetConfig → Option (List TargetConfig) → State × Option ManageError
written env s next (some left) = (record s { stored = left }, some write_failed)
written env s next none =
    reloaded (record s { stored = strip_resolved_auth next })
      (env.reload (strip_resolved_auth next))

-- The backup, the write and the reload.
unfoldable pub commit : Env → State → List TargetConfig → State × Option ManageError
commit env s next =
    if not env.backed_up then (s, some backup_failed) else written env s next env.write_left

abbrev pub committed :
    Env → State → Result ManageError (List TargetConfig) → State × Option ManageError
committed env s (err e) = (s, some e)
committed env s (ok next) = commit env s next

abbrev pub authorized : Option AuthError → Result ManageError (Unit {0})
authorized none = ok tt
authorized (some e) = err (denied e)

-- What mutateTargets does up to the backup.
unfoldable pub next_targets :
    Env
    → State
    → Option Principal
    → Str
    → (List TargetConfig → Result ManageError (List TargetConfig))
    → Result ManageError (List TargetConfig)
next_targets env s p id fn = do
  authorized (authorize p scope_admin_targets id)
  guard env.lock_taken lock_failed
  guard (not (is_empty (trim_space s.running.targets_file))) no_targets_file
  fn s.running.targets

unfoldable pub mutate_targets :
    Env
    → State
    → Option Principal
    → Str
    → (List TargetConfig → Result ManageError (List TargetConfig))
    → State × Option ManageError
mutate_targets env s p id fn = committed env s (next_targets env s p id fn)

abbrev pub map_ok : {A B : Type 0} → (A → B) → Result ManageError A → Result ManageError B
map_ok f (err e) = err e
map_ok f (ok a) = ok (f a)

-- The first target with an id, changed.
unfoldable pub change_first :
    Str
    → (TargetConfig → Result ManageError TargetConfig)
    → List TargetConfig
    → Result ManageError (List TargetConfig)
change_first id f [] = err (target_missing id)
change_first id f (t ∷ ts) =
    let rest = change_first id f ts in
    if str_eq t.id id then map_ok (λ u. u ∷ ts) (f t) else map_ok (λ us. t ∷ us) rest

unfoldable pub set_enabled :
    Env → State → Option Principal → Str → Bool → State × Option ManageError
set_enabled env s p id enabled =
    mutate_targets env s p id (change_first id (λ t. ok (record t { enabled = some enabled })))

abbrev pub enable_target : Env → State → Option Principal → Str → State × Option ManageError
enable_target env s p id = set_enabled env s p id true

abbrev pub disable_target : Env → State → Option Principal → Str → State × Option ManageError
disable_target env s p id = set_enabled env s p id false

-- The targets that RemoveTarget keeps, and whether it found one to remove.
unfoldable pub without : Str → List TargetConfig → List TargetConfig × Bool
without id [] = ([], false)
without id (t ∷ ts) =
    let (out, found) = without id ts in if str_eq t.id id then (out, true) else (t ∷ out, found)

abbrev pub removed : Str → List TargetConfig × Bool → Result ManageError (List TargetConfig)
removed id (out, found) = if not found then err (target_missing id) else ok out

unfoldable pub remove_target : Env → State → Option Principal → Str → State × Option ManageError
remove_target env s p id = mutate_targets env s p id (λ ts. removed id (without id ts))
