-- ===== src/Transfer/Prepare/Checks.antt =====
-- What the checks of internal/transfer/manager.go let pass.
use mcp_execmesh.Base.{
  ℕ, ◌≡◌, subst, ◌≢◌, Bool, true, not, Option, none, some, [], ◌∷◌, ok-injective, arith, Str,
  is_empty, ℤ, pos, Bool-cases, Option-cases, lookup, inl, inr, ok, guard, >>=-eq-ok, guard-eq-ok,
  ◌≤ℤ◌,
}
use mcp_execmesh.Security.Path.{clean_and_validate_path, is_path_allowed}
use mcp_execmesh.Security.Ssrf.{Url, Ip, validate_url}
use mcp_execmesh.Target.{Target, require_active}
use mcp_execmesh.Target.Registry.{Registry, get}
use mcp_execmesh.Transfer.Mode.{parse_mode}
use mcp_execmesh.Transfer.Requests.{
  PushRequest, TransferConfig, cancelled, upload_not_allowed, download_url_empty,
  invalid_download_url, map_err, active_target, allowed_path,
}
use mcp_execmesh.Transfer.Prepare.{Plan, max_upload, mode_or_error, prepare}

module _ {A : Type 0} {H : Type 0} where
  -- The registry has the target under this id, and it is enabled.
  abbrev pub IsActive : Registry A H → Str → Target A H → Type 0
  IsActive registry id t = (lookup id registry.targets ≡ some t) × (t.enabled ≡ true)

  pub active_target-IsActive :
      (registry : Registry A H) (id : Str) (t : Target A H)
      → active_target registry id ≡ ok t
      → IsActive registry id t
  unfolding active_target get require_active
  active_target-IsActive registry id t h = elim (Option-cases (lookup id registry.targets)) [
    | inl e ↦ absurd (ground arith)
    | inr (u, e) ↦ elim (Bool-cases u.enabled) [
      | inl on ↦ ground arith
      | inr off ↦ absurd (ground arith)
    ]
  ]

  -- A path below the target's allowed paths.
  abbrev pub IsAllowed : Target A H → Str → Str → Type 0
  IsAllowed t p path =
      (path ≡ clean_and_validate_path p t.default_cwd)
      × (is_path_allowed path t.allowed_paths ≡ true)

  pub allowed_path-IsAllowed :
      (t : Target A H) (p path : Str) → allowed_path t p ≡ ok path → IsAllowed t p path
  unfolding allowed_path
  allowed_path-IsAllowed t p path h = ground arith

-- A target's limit tightens a positive limit of the runtime.
max_upload-le :
    (runtime_max target_max : ℤ)
    → (pos 0 ≤ℤ runtime_max → max_upload runtime_max target_max ≤ℤ runtime_max)
      × ((pos 1 ≤ℤ runtime_max)
          → (pos 1 ≤ℤ target_max)
          → max_upload runtime_max target_max ≤ℤ target_max)
unfolding max_upload
max_upload-le runtime_max target_max = (λ h. ground arith, λ h k. ground arith)

mode_or_error-ok : (mode : Str) (o : Option ℕ) (m : ℕ) → mode_or_error mode o ≡ ok m → o ≡ some m
mode_or_error-ok mode none m h = absurd cc
mode_or_error-ok mode (some n) m h = cc

not_empty : (s : Str) → not (is_empty s) ≡ true → s ≢ []
not_empty [] h = ground arith
not_empty (c ∷ s) h = ground arith

module _ {A : Type 0} {H : Type 0} (parse_url : Str → Option Url) (parse_ip : Str → Option Ip) where
  module _ (config : TransferConfig) (registry : Registry A H) (slot : Bool)
      (req : PushRequest) where
    abbrev pub IsPermitted : Plan A H → Type 0
    IsPermitted plan =
        IsActive registry req.target plan.target
        × (plan.target.capabilities.upload ≡ true)
        × IsAllowed plan.target req.remote_path plan.path
        × (parse_mode req.mode ≡ some plan.file_mode)
        × (req.file.download_url ≢ [])
        × (pos 0 ≤ℤ config.max_upload_bytes → plan.max_upload_bytes ≤ℤ config.max_upload_bytes)
        × (pos 1 ≤ℤ config.max_upload_bytes
            → pos 1 ≤ℤ plan.target.limits.max_upload_bytes
            → plan.max_upload_bytes ≤ℤ plan.target.limits.max_upload_bytes)

    -- A push is planned only for an enabled target that may be uploaded to, a path that its allowed_paths
    -- admit, an octal mode and a URL that is not empty; and the limit in bytes is no more than the
    -- runtime's nor, where both are positive, than the target's.
    pub prepare-IsPermitted :
        (plan : Plan A H)
        → prepare parse_url parse_ip config registry slot req ≡ ok plan
        → IsPermitted plan
    unfolding prepare
    prepare-IsPermitted plan h =
        let (_, _, h₁) = >>=-eq-ok (guard slot cancelled) _ h in
        let (t, found, h₂) = >>=-eq-ok (active_target registry req.target) _ h₁ in
        let (_, upload, h₃) =
          >>=-eq-ok (guard t.capabilities.upload (upload_not_allowed req.target)) _ h₂ in
        let (path, allowed, h₄) = >>=-eq-ok (allowed_path t req.remote_path) _ h₃ in
        let (mode, octal, h₅) = >>=-eq-ok (mode_or_error req.mode (parse_mode req.mode)) _ h₄ in
        let (_, url, h₆) =
          >>=-eq-ok (guard (not (is_empty req.file.download_url)) download_url_empty) _ h₅ in
        let (u, _, h₇) =
          >>=-eq-ok
            (map_err invalid_download_url
              (validate_url parse_url parse_ip req.file.download_url config.download))
            _ h₆ in
        subst IsPermitted (ok-injective h₇) (
          active_target-IsActive registry req.target t found,
          guard-eq-ok t.capabilities.upload _ upload,
          allowed_path-IsAllowed t req.remote_path path allowed,
          mode_or_error-ok req.mode (parse_mode req.mode) mode octal,
          not_empty req.file.download_url (guard-eq-ok _ _ url),
          (max_upload-le config.max_upload_bytes t.limits.max_upload_bytes).0,
          (max_upload-le config.max_upload_bytes t.limits.max_upload_bytes).1,
        )
