-- ===== src/Security/Scope.antt =====
-- internal/security/scope.go and the Principal of internal/security/auth.go.
use mcp_execmesh.Base.{
  Bool, true, false, ◌&&◌, not, Option, none, some, List, [], ◌∷◌, ◌++◌, Str, codes, str_eq, member,
  set_add, is_empty, if◌then◌else◌,
}

abbrev pub scope_targets_read : Str
scope_targets_read = codes "targets:read"

abbrev pub scope_exec_run : Str
scope_exec_run = codes "exec:run"

abbrev pub scope_jobs_read : Str
scope_jobs_read = codes "jobs:read"

abbrev pub scope_jobs_write : Str
scope_jobs_write = codes "jobs:write"

abbrev pub scope_files_read : Str
scope_files_read = codes "files:read"

abbrev pub scope_files_write : Str
scope_files_write = codes "files:write"

abbrev pub scope_admin_targets : Str
scope_admin_targets = codes "admin:targets"

abbrev pub scope_admin_credentials : Str
scope_admin_credentials = codes "admin:credentials"

abbrev pub scope_admin_known_hosts : Str
scope_admin_known_hosts = codes "admin:known_hosts"

abbrev pub data_plane_scopes : List Str
data_plane_scopes =
    scope_targets_read ∷ scope_exec_run ∷ scope_jobs_read ∷ scope_jobs_write ∷ scope_files_read
    ∷ scope_files_write ∷ []

abbrev pub admin_scopes : List Str
admin_scopes = scope_admin_targets ∷ scope_admin_credentials ∷ scope_admin_known_hosts ∷ []

abbrev pub all_scopes : List Str
all_scopes = data_plane_scopes ++ admin_scopes

pub record Principal : Type 0 where
  pub id : Str
  pub subject : Str
  pub auth_type : Str
  pub remote_ip : Str
  pub scopes : List Str
  pub targets : List Str

-- The two sentinels that Authorize and AuthorizeAny wrap, with what they are wrapped with.
pub data AuthError : Type 0 where
  missing_scope : Str → AuthError
  missing_scopes : List Str → AuthError
  target_denied : Str → AuthError

unfoldable pub is_unrestricted : Principal → Bool
is_unrestricted p =
    if str_eq p.auth_type (codes "none") then true else is_empty p.scopes && is_empty p.targets

-- A nil *Principal is `none`.
unfoldable pub has_scope : Option Principal → Str → Bool
unfolding is_unrestricted
has_scope none scope = true
has_scope (some p) scope = if is_unrestricted p then true else member scope p.scopes

unfoldable pub allows_target : Option Principal → Str → Bool
unfolding is_unrestricted
allows_target none target_id = true
allows_target (some p) target_id =
    if is_unrestricted p
    then true
    else if member (codes "*") p.targets
    then true
    else member target_id p.targets

-- `none` is a nil error.
unfoldable pub authorize : Option Principal → Str → Str → Option AuthError
unfolding is_unrestricted has_scope allows_target
authorize none scope target_id = none
authorize (some p) scope target_id =
    if is_unrestricted p
    then none
    else if not (has_scope (some p) scope)
    then some (missing_scope scope)
    else if not (is_empty target_id) && not (allows_target (some p) target_id)
    then some (target_denied target_id)
    else none

-- errors.Is(err, ErrTargetDenied)
abbrev pub is_target_denied : AuthError → Bool
is_target_denied (target_denied _) = true
is_target_denied _ = false

-- The loop of AuthorizeAny, with the last error.
unfoldable pub authorize_loop :
    Option Principal → Str → List Str → Option AuthError → Option AuthError
authorize_loop p target_id [] last = last
authorize_loop p target_id (s ∷ ss) last = elim (authorize p s target_id) [
  | none ↦ none
  | some e ↦ if is_target_denied e then some e else authorize_loop p target_id ss (some e)
]

unfoldable pub authorize_any : Option Principal → Str → List Str → Option AuthError
unfolding authorize_loop is_unrestricted
authorize_any none target_id scopes = none
authorize_any (some p) target_id [] = if is_unrestricted p then none else some (missing_scopes [])
authorize_any (some p) target_id (s ∷ ss) =
    if is_unrestricted p then none else authorize_loop (some p) target_id (s ∷ ss) none

unfoldable pub valid_scope : Str → Bool
unfolding member
valid_scope scope = member scope all_scopes

unfoldable pub scope_set_from : List Str → List Str → List Str
unfolding set_add
scope_set_from out [] = out
scope_set_from out (s ∷ ss) = scope_set_from (if is_empty s then out else set_add s out) ss

unfoldable pub scope_set : List Str → List Str
unfolding scope_set_from
scope_set scopes = scope_set_from [] scopes

-- The loop of TargetSet is that of ScopeSet.
unfoldable pub target_set : List Str → List Str
unfolding scope_set_from
target_set [] = codes "*" ∷ []
target_set (t ∷ ts) = scope_set_from [] (t ∷ ts)
