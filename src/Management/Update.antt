-- ===== src/Management/Update.antt =====
-- UpdateTarget of internal/management/service.go: what a map of changes does to a target.
use mcp_execmesh.Base.{
  Bool, true, false, ◌||◌, not, Option, none, some, List, [], ◌∷◌, Str, codes, is_empty, lookup, ℤ,
  if◌then◌else◌, Result, ok, err, ◌>>=◌, ◌>>◌, guard,
}
use mcp_execmesh.Config.Sidecars.{
  CredentialConfig, target_defaults, credential_auth, credential_by_id,
}
use mcp_execmesh.Security.Scope.{Principal}
use mcp_execmesh.Target.Registry.{TargetConfig}
use mcp_execmesh.Management.{
  Config, State, TestOutcome, Env, ManageError, default_known_hosts, mutate_targets, change_first,
  passed, failed, broken, unknown_credential, test_broken, test_failed, id_fixed,
}

-- A value of the map of changes: a string, a number already cut to an int, a list of which the strings
-- count, or another value.
pub data Change : Type 0 where
  text : Str → Change
  number : ℤ → Change
  items : List (Option Str) → Change
  other : Change

abbrev pub text_or : Str → Option Change → Str
text_or old (some (text v)) = v
text_or old _ = old

abbrev pub number_or : ℤ → Option Change → ℤ
number_or old (some (number v)) = v
number_or old _ = old

abbrev pub strings : List (Option Str) → List Str
strings [] = []
strings (none ∷ vs) = strings vs
strings (some v ∷ vs) = v ∷ strings vs

abbrev pub tags_or : List Str → Option Change → List Str
tags_or old (some (items vs)) = strings vs
tags_or old _ = old

abbrev pub has_change : Str → List (Str × Change) → Bool
has_change key changes = elim (lookup key changes) [ none ↦ false | some _ ↦ true ]

unfoldable pub needs_test : List (Str × Change) → Bool
needs_test changes =
    has_change (codes "host") changes
    || has_change (codes "port") changes
    || has_change (codes "user") changes
    || has_change (codes "auth_ref") changes
    || has_change (codes "known_host_ref") changes

unfoldable pub apply_changes : List (Str × Change) → TargetConfig → TargetConfig
apply_changes changes t = record t {
  name = text_or t.name (lookup (codes "name") changes);
  default_cwd = text_or t.default_cwd (lookup (codes "default_cwd") changes);
  shell = text_or t.shell (lookup (codes "shell") changes);
  host = text_or t.host (lookup (codes "host") changes);
  user = text_or t.user (lookup (codes "user") changes);
  auth_ref = text_or t.auth_ref (lookup (codes "auth_ref") changes);
  known_host_ref = text_or t.known_host_ref (lookup (codes "known_host_ref") changes);
  port = number_or t.port (lookup (codes "port") changes);
  tags = tags_or t.tags (lookup (codes "tags") changes);
}

abbrev pub with_auth :
    Str → TargetConfig → Option CredentialConfig → Result ManageError TargetConfig
with_auth auth_ref t none = err (unknown_credential auth_ref)
with_auth auth_ref t (some c) = ok (record t { auth = credential_auth c })

unfoldable pub with_credential :
    List CredentialConfig → TargetConfig → Result ManageError TargetConfig
with_credential credentials t =
    if not (is_empty t.auth_ref)
    then with_auth t.auth_ref t (credential_by_id credentials t.auth_ref)
    else ok t

unfoldable pub with_known_hosts : Config → TargetConfig → TargetConfig
with_known_hosts cfg t =
    if is_empty t.host_key.known_hosts_file
    then record t {
      host_key = record { known_hosts_file = default_known_hosts cfg; strict = true };
    }
    else t

abbrev pub test_result : TestOutcome → Result ManageError (Unit {0})
test_result passed = ok tt
test_result (failed e) = err (test_failed e)
test_result broken = err test_broken

unfoldable pub update_one :
    Env → Config → List (Str × Change) → TargetConfig → Result ManageError TargetConfig
update_one env cfg changes old = do
  guard (not (has_change (codes "id") changes)) id_fixed
  t ← with_credential cfg.credentials (apply_changes changes old)
  if needs_test changes
      then test_result (env.test (target_defaults cfg.runtime (with_known_hosts cfg t)))
      else ok tt
  ok (target_defaults cfg.runtime (with_known_hosts cfg t))

unfoldable pub update_target :
    Env → State → Option Principal → Str → List (Str × Change) → State × Option ManageError
update_target env s p id changes =
    mutate_targets env s p id (change_first id (update_one env s.running changes))
