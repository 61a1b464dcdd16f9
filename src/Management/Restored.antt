-- ===== src/Management/Restored.antt =====
-- What internal/management/service.go writes to the targets file is what internal/config/files.go loads.
use mcp_execmesh.Base.{
  ◌≡◌, refl, sym, ◌∙◌, ap, inl, inr, true, false, some, List, [], ◌∷◌, All, arith, Str, is_empty,
  trim_space, trim_left, codes, lookup, if◌then◌else◌, ℤ, pos, Bool-cases, ok,
}
use mcp_execmesh.Config.Sidecars.{
  CredentialConfig, RuntimeDefaults, or_default, whole_seconds, default_capabilities,
  target_defaults, apply_target_defaults, credential_auth, index_credentials, resolve_target,
  resolve_targets, resolve_auth_refs, load_sidecars,
}
use mcp_execmesh.Target.{TargetCapabilities}
use mcp_execmesh.Target.Registry.{TargetConfig}
use mcp_execmesh.Management.{no_auth, stripped, strip_resolved_auth}

-- A target without a reference, or with a reference that is no blank and the files of its credential.
abbrev pub IsResolved : List (Str × CredentialConfig) → TargetConfig → Type 0
IsResolved by_id t =
    ((is_empty (trim_space t.auth_ref) ≡ true) → t.auth_ref ≡ [])
    × ((is_empty (trim_space t.auth_ref) ≡ false)
        → (c : CredentialConfig) × (lookup t.auth_ref by_id ≡ some c)
          × (t.auth ≡ credential_auth c))

empty_string : (s : Str) → s ≡ [] → is_empty s ≡ true
empty_string s e = ap is_empty e

not_empty : (s : Str) → is_empty (trim_space s) ≡ false → is_empty s ≡ false
unfolding trim_space trim_left
not_empty [] h = absurd (ground arith)
not_empty (c ∷ s) h = refl

stripped-eq :
    (t : TargetConfig) → is_empty t.auth_ref ≡ false → stripped t ≡ record t { auth = no_auth }
unfolding stripped
stripped-eq t e = rw e refl

resolve_target-stripped :
    (by_id : List (Str × CredentialConfig)) (t : TargetConfig)
    → IsResolved by_id t
    → resolve_target by_id (stripped t) ≡ ok t
unfolding resolve_target
resolve_target-stripped by_id t (blank, named) =
    elim (Bool-cases (is_empty (trim_space t.auth_ref))) [
      | inl none_named ↦
          unfold stripped in rw (empty_string t.auth_ref (blank none_named), none_named) refl
      | inr reference ↦
          let (c, found, same) = named reference in
          ap (resolve_target by_id) (stripped-eq t (not_empty t.auth_ref reference))
          ∙ rw (reference, found) (ap (λ a. ok (record t { auth = a })) (sym same))
    ]

resolve_targets-strip :
    (by_id : List (Str × CredentialConfig)) (ts : List TargetConfig)
    → All (IsResolved by_id) ts
    → resolve_targets by_id (strip_resolved_auth ts) ≡ ok ts
unfolding resolve_targets strip_resolved_auth
resolve_targets-strip by_id [] h = refl
resolve_targets-strip by_id (t ∷ ts) (h, rest) =
    rw (resolve_target-stripped by_id t h, resolve_targets-strip by_id ts rest) refl

-- The defaults, once filled in, are not filled in again.
default_once :
    (value default : ℤ) → or_default (or_default value default) default ≡ or_default value default
default_once value default = ground arith

capabilities_once :
    (c : TargetCapabilities)
    → default_capabilities (default_capabilities c) ≡ default_capabilities c
unfolding default_capabilities
capabilities_once c = ground arith

shell_once :
    (s d : Str)
    → (if is_empty (if is_empty s then d else s) then d else if is_empty s then d else s)
      ≡ (if is_empty s then d else s)
shell_once s d = ground arith

target_defaults-once :
    (runtime : RuntimeDefaults) (t : TargetConfig)
    → target_defaults runtime (target_defaults runtime t) ≡ target_defaults runtime t
unfolding target_defaults
target_defaults-once runtime t =
    let seconds = or_default (whole_seconds runtime.sync_exec_timeout) (pos 300) in
    rw
      (
        default_once t.port (pos 22),
        shell_once t.shell (codes "/bin/sh"),
        capabilities_once t.capabilities,
        default_once t.limits.max_exec_seconds seconds,
        default_once t.limits.max_upload_bytes runtime.max_upload_bytes,
      )
      refl

-- A target as the running configuration holds it: its defaults are filled in.
abbrev pub HasDefaults : RuntimeDefaults → TargetConfig → Type 0
HasDefaults runtime t = target_defaults runtime t ≡ t

apply_target_defaults-kept :
    (runtime : RuntimeDefaults) (ts : List TargetConfig)
    → All (HasDefaults runtime) ts
    → apply_target_defaults runtime ts ≡ ts
unfolding apply_target_defaults
apply_target_defaults-kept runtime [] h = refl
apply_target_defaults-kept runtime (t ∷ ts) (h, rest) =
    rw (h, apply_target_defaults-kept runtime ts rest) refl

-- Targets with their credentials resolved and their defaults filled in come back from the targets file as
-- they were: it holds no credential that a target refers to, and loading puts it back.
pub load_sidecars-strip_resolved_auth :
    (runtime : RuntimeDefaults) (credentials_file targets_file : Str)
    (credentials : List CredentialConfig) (by_id : List (Str × CredentialConfig))
    (ts : List TargetConfig)
    → is_empty (trim_space credentials_file) ≡ false
    → is_empty (trim_space targets_file) ≡ false
    → index_credentials [] credentials ≡ ok by_id
    → All (IsResolved by_id) ts
    → All (HasDefaults runtime) ts
    → load_sidecars runtime credentials_file []
        (some credentials)
        targets_file
        []
        (some (strip_resolved_auth ts))
      ≡ ok (credentials, ts)
unfolding load_sidecars resolve_auth_refs
load_sidecars-strip_resolved_auth runtime credentials_file targets_file credentials by_id ts named
      placed indexed resolved full =
    rw
      (
        named,
        placed,
        indexed,
        resolve_targets-strip by_id ts resolved,
        apply_target_defaults-kept runtime ts full,
      )
      refl
