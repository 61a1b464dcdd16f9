-- ===== src/Config.antt =====
-- internal/config/validate.go: the fourth part of Validate, which checks the targets. `readable` tells
-- whether checkFileReadable finds nothing wrong with a file.
pub mod PublicUrl
pub mod Sidecars
pub mod Valid
pub mod Tests
use mcp_execmesh.Base.{
  ℕ, Bool, true, false, not, ◌&&◌, ◌||◌, List, [], ◌∷◌, ◌++◌, Str, codes, str_eq, is_empty,
  trim_space, member, set_add, ltb_ℤ, ℤ, pos, leb, ◌==◌, if◌then◌else◌,
}
use mcp_execmesh.Security.Path.{clean, is_abs}
use mcp_execmesh.Target.Registry.{TargetConfig, TargetAuthConfig}

pub data Problem : Type 0 where
  empty_id bad_id duplicate_id empty_host bad_port empty_user unresolved_auth_ref : Problem
  key_file_required key_file_unreadable passphrase_file_unreadable : Problem
  password_file_required password_file_unreadable unsupported_auth : Problem
  known_hosts_required known_hosts_unreadable empty_shell relative_cwd relative_allowed_path :
      Problem

-- `if bad { errs = append(errs, problem) }`
abbrev pub report : Bool → Problem → List Problem
report bad problem = if bad then problem ∷ [] else []

abbrev pub is_blank : Str → Bool
is_blank s = is_empty (trim_space s)

abbrev is_id_byte : ℕ → Bool
is_id_byte c =
    (leb b'a' c && leb c b'z')
    || (leb b'A' c && leb c b'Z')
    || (leb b'0' c && leb c b'9')
    || (c == 95)
    || (c == 45)

unfoldable pub all_id_bytes : Str → Bool
all_id_bytes [] = true
all_id_bytes (c ∷ s) = is_id_byte c && all_id_bytes s

-- ^[a-zA-Z0-9_-]+$
unfoldable pub valid_target_id : Str → Bool
valid_target_id id = not (is_empty id) && all_id_bytes id

-- The problems of an id, and the ids seen with it, where it is a good one.
unfoldable pub check_id : List Str → Str → List Problem × List Str
check_id seen id =
    if is_blank id
    then (empty_id ∷ [], seen)
    else if not (valid_target_id id)
    then (bad_id ∷ [], seen)
    else if member id seen
    then (duplicate_id ∷ [], seen)
    else ([], set_add id seen)

abbrev pub is_relative : Str → Bool
is_relative p = not (is_abs (clean p))

unfoldable pub check_allowed_paths : List Str → List Problem
check_allowed_paths [] = []
check_allowed_paths (p ∷ ps) =
    report (is_relative p) relative_allowed_path ++ check_allowed_paths ps

module _ (check_files : Bool) (readable : Str → Bool) (require_known_hosts : Bool) where
  abbrev unreadable : Str → Bool
  unreadable file = check_files && not (readable file)

  unfoldable pub check_auth : TargetAuthConfig → List Problem
  check_auth auth =
      if str_eq auth.type (codes "private_key")
      then (if is_blank auth.private_key_file
          then key_file_required ∷ []
          else report (unreadable auth.private_key_file) key_file_unreadable
            ++ report
                (not (is_empty auth.private_key_passphrase_file)
                  && unreadable auth.private_key_passphrase_file)
                passphrase_file_unreadable)
      else if str_eq auth.type (codes "password")
      then (if is_blank auth.password_file
          then password_file_required ∷ []
          else report (unreadable auth.password_file) password_file_unreadable)
      else unsupported_auth ∷ []

  unfoldable pub check_host_key : TargetConfig → List Problem
  check_host_key t =
      if require_known_hosts || t.host_key.strict
      then (if is_blank t.host_key.known_hosts_file
          then known_hosts_required ∷ []
          else report (unreadable t.host_key.known_hosts_file) known_hosts_unreadable)
      else []

  -- What Validate reports of a target behind its id.
  unfoldable pub check_rest : TargetConfig → List Problem
  check_rest t =
      report (is_blank t.host) empty_host
      ++ (report (ltb_ℤ t.port (pos 1) || ltb_ℤ (pos 65535) t.port) bad_port
          ++ (report (is_blank t.user) empty_user
              ++ (report (not (is_blank t.auth_ref) && is_blank t.auth.type) unresolved_auth_ref
                  ++ (check_auth t.auth
                      ++ (check_host_key t
                          ++ (report (is_blank t.shell) empty_shell
                              ++ (report (not (is_empty t.default_cwd) && is_relative t.default_cwd)
                                    relative_cwd
                                  ++ check_allowed_paths t.allowed_paths)))))))

  -- The loop over the targets, with the ids seen so far.
  unfoldable pub check_targets : List Str → List TargetConfig → List Problem
  check_targets seen [] = []
  check_targets seen (t ∷ ts) =
      let (problems, seen2) = check_id seen t.id in
      problems ++ (check_rest t ++ check_targets seen2 ts)
