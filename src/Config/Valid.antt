-- ===== src/Config/Valid.antt =====
-- internal/config/validate.go: what targets without a problem are like.
use mcp_execmesh.Base.{
  ◌⊎◌, inl, inr, Bool-cases, str_eq, str_eq_eq, codes, if◌then◌else◌, ◌≡◌, refl, Bool, true, false,
  not, ◌&&◌, ◌||◌, List, [], ◌∷◌, ◌++◌, Str, is_empty, member, set_add, All, ltb_ℤ, pos, ◌≤ℤ◌,
  arith,
}
use mcp_execmesh.Security.Path.{clean, is_abs}
use mcp_execmesh.Target.Registry.{TargetConfig, TargetAuthConfig}
use mcp_execmesh.Config.{
  key_file_required, key_file_unreadable, passphrase_file_unreadable, password_file_required,
  password_file_unreadable, report, is_blank, is_relative, empty_host, bad_port, empty_user,
  unresolved_auth_ref, empty_shell, relative_cwd, Problem, valid_target_id, check_id, check_auth,
  check_host_key, check_rest, check_targets, check_allowed_paths,
}

-- The ids are well formed, new, and each stands once.
abbrev pub FreshIds : List Str → List TargetConfig → Type 0
FreshIds seen [] = Unit
FreshIds seen (t ∷ ts) =
    (valid_target_id t.id ≡ true) × (member t.id seen ≡ false) × FreshIds (set_add t.id seen) ts

check_id-nil :
    (seen : List Str) (id : Str)
    → (check_id seen id).0 ≡ []
    → (valid_target_id id ≡ true)
      × (member id seen ≡ false)
      × ((check_id seen id).1 ≡ set_add id seen)
unfolding check_id
check_id-nil seen id h = ground arith

append-eq-nil : (xs ys : List Problem) → xs ++ ys ≡ [] → (xs ≡ []) × (ys ≡ [])
append-eq-nil [] ys h = (refl, h)
append-eq-nil (x ∷ xs) ys h = absurd cc

module _ (check_files : Bool) (readable : Str → Bool) (require_known_hosts : Bool) where
  -- A file that is named, and can be read where files are checked.
  abbrev pub IsFile : Str → Type 0
  IsFile file = (is_blank file ≡ false) × (check_files ≡ true → readable file ≡ true)

  -- A key file, with a passphrase file or none, or a password file.
  abbrev pub HasAuth : TargetAuthConfig → Type 0
  HasAuth auth =
      ((auth.type ≡ codes "private_key")
        × IsFile auth.private_key_file
        × ((auth.private_key_passphrase_file ≡ [])
            ⊎ (check_files ≡ true → readable auth.private_key_passphrase_file ≡ true)))
      ⊎ ((auth.type ≡ codes "password") × IsFile auth.password_file)

  -- A host and a user, a port in range, the files of the authentication and, where they are required, of the
  -- known hosts, a shell, and paths that are absolute once cleaned.
  pub record IsSound (t : TargetConfig) : Type 0 where
    pub host : is_blank t.host ≡ false
    pub port : (pos 1 ≤ℤ t.port) × (t.port ≤ℤ pos 65535)
    pub user : is_blank t.user ≡ false
    pub resolved : (is_blank t.auth_ref ≡ true) ⊎ (is_blank t.auth.type ≡ false)
    pub auth : HasAuth t.auth
    pub host_key :
        (require_known_hosts || t.host_key.strict) ≡ true → IsFile t.host_key.known_hosts_file
    pub shell : is_blank t.shell ≡ false
    pub cwd : (t.default_cwd ≡ []) ⊎ (is_abs (clean t.default_cwd) ≡ true)
    pub allowed : All (λ p. is_abs (clean p) ≡ true) t.allowed_paths

check_allowed_paths-nil :
    (ps : List Str) → check_allowed_paths ps ≡ [] → All (λ p. is_abs (clean p) ≡ true) ps
unfolding check_allowed_paths
check_allowed_paths-nil [] h = tt
check_allowed_paths-nil (p ∷ ps) h =
    let (first, rest) = append-eq-nil _ (check_allowed_paths ps) h in
    (ground (arith, first), check_allowed_paths-nil ps rest)

module _ (check_files : Bool) (readable : Str → Bool) (require_known_hosts : Bool) where
  check_auth-nil :
      (auth : TargetAuthConfig)
      → check_auth check_files readable require_known_hosts auth ≡ []
      → HasAuth check_files readable require_known_hosts auth
  unfolding check_auth
  check_auth-nil auth h = elim (Bool-cases (str_eq auth.type (codes "private_key"))) [
    | inl key ↦
        let (file, passphrase) = key_files (rw key at h) in
        inl (str_eq_eq auth.type (codes "private_key") key, file, passphrase)
    | inr other ↦ elim (Bool-cases (str_eq auth.type (codes "password"))) [
      | inl password ↦ inr (
        str_eq_eq auth.type (codes "password") password,
        password_files (rw (other, password) at h),
      )
      | inr unsupported ↦ absurd (ground (arith, h, other, unsupported))
    ]
  ]
    where
      key_files :
          (if is_blank auth.private_key_file
              then key_file_required ∷ []
              else report (check_files && not (readable auth.private_key_file)) key_file_unreadable
                ++ report
                    (not (is_empty auth.private_key_passphrase_file)
                      && (check_files && not (readable auth.private_key_passphrase_file)))
                    passphrase_file_unreadable)
            ≡ []
          → IsFile check_files readable require_known_hosts auth.private_key_file
            × ((auth.private_key_passphrase_file ≡ [])
                ⊎ (check_files ≡ true → readable auth.private_key_passphrase_file ≡ true))
      key_files k = (
        (ground arith, λ on. ground arith),
        passphrase auth.private_key_passphrase_file (ground arith),
      )
        where
          passphrase :
              (file : Str)
              → (not (is_empty file) && (check_files && not (readable file))) ≡ false
              → (file ≡ []) ⊎ (check_files ≡ true → readable file ≡ true)
          passphrase [] e = inl refl
          passphrase (c ∷ file) e = inr (λ on. ground arith)

      password_files :
          (if is_blank auth.password_file
              then password_file_required ∷ []
              else report
                  (check_files && not (readable auth.password_file))
                  password_file_unreadable)
            ≡ []
          → IsFile check_files readable require_known_hosts auth.password_file
      password_files k = (ground arith, λ on. ground arith)

  check_host_key-nil :
      (t : TargetConfig)
      → check_host_key check_files readable require_known_hosts t ≡ []
      → (require_known_hosts || t.host_key.strict) ≡ true
      → IsFile check_files readable require_known_hosts t.host_key.known_hosts_file
  unfolding check_host_key
  check_host_key-nil t h required = (ground arith, λ on. ground arith)

  check_rest-nil :
      (t : TargetConfig)
      → check_rest check_files readable require_known_hosts t ≡ []
      → IsSound check_files readable require_known_hosts t
  unfolding check_rest
  check_rest-nil t h =
      let (host, h1) = append-eq-nil (report (is_blank t.host) empty_host) _ h in
      let (port, h2) =
        append-eq-nil (report (ltb_ℤ t.port (pos 1) || ltb_ℤ (pos 65535) t.port) bad_port) _ h1 in
      let (user, h3) = append-eq-nil (report (is_blank t.user) empty_user) _ h2 in
      let (resolved, h4) =
        append-eq-nil
          (report (not (is_blank t.auth_ref) && is_blank t.auth.type) unresolved_auth_ref) _ h3 in
      let (auth, h5) =
        append-eq-nil (check_auth check_files readable require_known_hosts t.auth) _ h4 in
      let (host_key, h6) =
        append-eq-nil (check_host_key check_files readable require_known_hosts t) _ h5 in
      let (shell, h7) = append-eq-nil (report (is_blank t.shell) empty_shell) _ h6 in
      let (cwd, h8) =
        append-eq-nil
          (report (not (is_empty t.default_cwd) && is_relative t.default_cwd) relative_cwd) _ h7 in
      record {
        host = ground (arith, host);
        port = (ground (arith, port), ground (arith, port));
        user = ground (arith, user);
        resolved = or_else (is_blank t.auth_ref) (is_blank t.auth.type) _ resolved;
        auth = check_auth-nil t.auth auth;
        host_key = check_host_key-nil t host_key;
        shell = ground (arith, shell);
        cwd = empty_or t.default_cwd cwd;
        allowed = check_allowed_paths-nil t.allowed_paths h8;
      }
    where
      or_else :
          (b c : Bool) (problem : Problem)
          → report (not b && c) problem ≡ []
          → (b ≡ true) ⊎ (c ≡ false)
      or_else b c problem k = ground arith

      empty_or :
          (p : Str)
          → report (not (is_empty p) && is_relative p) relative_cwd ≡ []
          → (p ≡ []) ⊎ (is_abs (clean p) ≡ true)
      empty_or [] k = inl refl
      empty_or (c ∷ p) k = inr (ground (arith, k))

  -- Targets of which Validate reports nothing have well-formed ids, each once, a host, a user and a shell, a
  -- port in range, the files of their authentication and of the known hosts that are required, and a
  -- directory and allowed paths that are absolute.
  pub check_targets-nil :
      (seen : List Str) (ts : List TargetConfig)
      → check_targets check_files readable require_known_hosts seen ts ≡ []
      → FreshIds seen ts × All (IsSound check_files readable require_known_hosts) ts
  unfolding check_targets
  check_targets-nil seen [] h = (tt, tt)
  check_targets-nil seen (t ∷ ts) h =
      let (id_good, more) = append-eq-nil (check_id seen t.id).0 _ h in
      let (rest_good, others) =
        append-eq-nil (check_rest check_files readable require_known_hosts t) _ more in
      let (valid, new, same) = check_id-nil seen t.id id_good in
      let (fresh, sound) = check_targets-nil (set_add t.id seen) ts (rw same at others) in
      ((valid, new, fresh), (check_rest-nil t rest_good, sound))
