-- ===== src/Config/Tests.antt =====
-- Tests of internal/config/validate.go, and its theorem at a concrete input.
use mcp_execmesh.Base.{
  ◌≡◌, refl, true, false, none, Bool, [], ◌∷◌, Str, codes, pos, All, str_eq, trim_space, trim_left,
  member, set_add, has_prefix, split, split_first, join,
}
use mcp_execmesh.Security.Path.{is_abs, pop_part, push_part, resolve_parts, segments, clean}
use mcp_execmesh.Target.Registry.{TargetConfig}
use mcp_execmesh.Config.{
  all_id_bytes, valid_target_id, check_id, check_allowed_paths, check_auth, check_host_key,
  check_rest, check_targets, duplicate_id, bad_id, bad_port,
}
use mcp_execmesh.Config.Valid.{FreshIds, IsSound, check_targets-nil}

abbrev named : Str → TargetConfig
named id = record {
  id = id;
  name = [];
  host = codes "10.1.0.3";
  port = pos 22;
  user = codes "admin";
  auth = record {
    type = codes "private_key";
    private_key_file = codes "/keys/id";
    private_key_passphrase_file = [];
    password_file = [];
  };
  host_key = record { known_hosts_file = codes "/keys/hosts"; strict = true };
  default_cwd = codes "/home/admin";
  shell = codes "/bin/sh";
  tags = [];
  limits = record { max_exec_seconds = pos 30; max_upload_bytes = pos 0 };
  capabilities = record { exec = true; upload = false; jobs = false };
  allowed_paths = codes "/home" ∷ codes "/tmp/" ∷ [];
  env = [];
  auth_ref = [];
  known_host_ref = [];
  enabled = none;
}

abbrev all_readable : Str → Bool
all_readable file = true

checks : Unit {0}
unfolding str_eq trim_space trim_left member set_add has_prefix split split_first join is_abs
    pop_part push_part resolve_parts segments clean all_id_bytes valid_target_id check_id
    check_allowed_paths check_auth check_host_key check_rest check_targets
checks = tt

check_tests :
    (check_targets false all_readable true [] (named (codes "a") ∷ named (codes "b") ∷ []) ≡ [])
    × (check_targets false all_readable true [] (named (codes "a") ∷ named (codes "a") ∷ [])
        ≡ duplicate_id ∷ [])
    × (check_targets false all_readable true [] (named (codes "a b") ∷ []) ≡ bad_id ∷ [])
    × (check_targets false all_readable true [] (record (named (codes "a")) { port = pos 0 } ∷ [])
        ≡ bad_port ∷ [])
unfolding checks
check_tests = (refl, refl, refl, refl)

check_targets-nil_example :
    FreshIds [] (named (codes "a") ∷ named (codes "b") ∷ [])
    × All (IsSound false all_readable true) (named (codes "a") ∷ named (codes "b") ∷ [])
unfolding checks
check_targets-nil_example =
    check_targets-nil false all_readable true [] (named (codes "a") ∷ named (codes "b") ∷ []) refl
