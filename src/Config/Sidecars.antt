-- ===== src/Config/Sidecars.antt =====
-- internal/config/files.go: the defaults of targets and the credentials they refer to. What reading a YAML
-- file gives is an argument, where `none` is an error.
use mcp_execmesh.Base.{
  ◌/◌, Bool, true, false, ◌&&◌, not, Option, none, some, List, [], ◌∷◌, Str, codes, str_eq,
  is_empty, trim_space, ℤ, pos, negsuc, neg_part, sub_ℕ, ◌==◌, lookup, insert, if◌then◌else◌,
  Result, ok, err, ◌>>=◌,
}
use mcp_execmesh.Target.{TargetCapabilities}
use mcp_execmesh.Target.Registry.{TargetConfig, TargetAuthConfig}

pub record CredentialConfig : Type 0 where
  pub id : Str
  pub type : Str
  pub private_key_file : Str
  pub private_key_passphrase_file : Str
  pub password_file : Str

-- The parts of the RuntimeConfig that the defaults read.
pub record RuntimeDefaults : Type 0 where
  pub sync_exec_timeout : ℤ
  pub max_upload_bytes : ℤ

abbrev pub is_zero : ℤ → Bool
is_zero (pos n) = n == 0
is_zero (negsuc n) = false

-- int(d.Seconds()), of a duration in nanoseconds
abbrev pub whole_seconds : ℤ → ℤ
whole_seconds (pos n) = pos (n / 1000000000)
whole_seconds (negsuc n) = sub_ℕ 0 (neg_part (negsuc n) / 1000000000)

abbrev pub or_default : ℤ → ℤ → ℤ
or_default value default = if is_zero value then default else value

unfoldable pub default_capabilities : TargetCapabilities → TargetCapabilities
default_capabilities c =
    if not c.exec && not c.upload && not c.jobs
    then record { exec = true; upload = true; jobs = true }
    else c

-- One iteration of ApplyTargetDefaults.
unfoldable pub target_defaults : RuntimeDefaults → TargetConfig → TargetConfig
unfolding default_capabilities
target_defaults runtime t = record t {
  port = or_default t.port (pos 22);
  shell = if is_empty t.shell then codes "/bin/sh" else t.shell;
  capabilities = default_capabilities t.capabilities;
  limits = record {
    max_exec_seconds =
        or_default t.limits.max_exec_seconds
          (or_default (whole_seconds runtime.sync_exec_timeout) (pos 300));
    max_upload_bytes = or_default t.limits.max_upload_bytes runtime.max_upload_bytes;
  };
}

unfoldable pub apply_target_defaults : RuntimeDefaults → List TargetConfig → List TargetConfig
apply_target_defaults runtime [] = []
apply_target_defaults runtime (t ∷ ts) =
    target_defaults runtime t ∷ apply_target_defaults runtime ts

pub data SidecarError : Type 0 where
  credential_id_empty : SidecarError
  duplicate_credential : Str → SidecarError
  unknown_credential : Str → Str → SidecarError
  credentials_unreadable : SidecarError
  targets_unreadable : SidecarError
  two_sources : SidecarError

abbrev pub credential_auth : CredentialConfig → TargetAuthConfig
credential_auth c = record {
  type = c.type;
  private_key_file = c.private_key_file;
  private_key_passphrase_file = c.private_key_passphrase_file;
  password_file = c.password_file;
}

unfoldable pub credential_by_id : List CredentialConfig → Str → Option CredentialConfig
credential_by_id [] id = none
credential_by_id (c ∷ cs) id = if str_eq c.id id then some c else credential_by_id cs id

-- The first loop of ResolveAuthRefs, which fills byID.
unfoldable pub index_credentials :
    List (Str × CredentialConfig)
    → List CredentialConfig
    → Result SidecarError (List (Str × CredentialConfig))
index_credentials by_id [] = ok by_id
index_credentials by_id (c ∷ cs) =
    if is_empty (trim_space c.id) then err credential_id_empty else elim (lookup c.id by_id) [
      | some _ ↦ err (duplicate_credential c.id)
      | none ↦ index_credentials (insert c.id c by_id) cs
    ]

-- One iteration of the second loop.
unfoldable pub resolve_target :
    List (Str × CredentialConfig) → TargetConfig → Result SidecarError TargetConfig
resolve_target by_id t =
    if is_empty (trim_space t.auth_ref) then ok t else elim (lookup t.auth_ref by_id) [
      | none ↦ err (unknown_credential t.id t.auth_ref)
      | some c ↦ ok (record t { auth = credential_auth c })
    ]

unfoldable pub resolve_targets :
    List (Str × CredentialConfig) → List TargetConfig → Result SidecarError (List TargetConfig)
resolve_targets by_id [] = ok []
resolve_targets by_id (t ∷ ts) = do
  u ← resolve_target by_id t
  us ← resolve_targets by_id ts
  ok (u ∷ us)

unfoldable pub resolve_auth_refs :
    List CredentialConfig → List TargetConfig → Result SidecarError (List TargetConfig)
resolve_auth_refs credentials targets = do
  by_id ← index_credentials [] credentials
  resolve_targets by_id targets

abbrev pub read_file : {A : Type 0} → SidecarError → Option A → Result SidecarError A
read_file e none = err e
read_file e (some a) = ok a

abbrev pub loaded_credentials :
    Str
    → List CredentialConfig
    → Option (List CredentialConfig)
    → Result SidecarError (List CredentialConfig)
loaded_credentials file inline content =
    if is_empty (trim_space file) then ok inline else read_file credentials_unreadable content

abbrev pub loaded_targets :
    Str → List TargetConfig → Option (List TargetConfig) → Result SidecarError (List TargetConfig)
loaded_targets file inline content =
    if is_empty (trim_space file)
    then ok inline
    else if not (is_empty inline)
    then err two_sources
    else read_file targets_unreadable content

-- loadSidecars: the credentials and the targets behind it.
unfoldable pub load_sidecars :
    RuntimeDefaults
    → Str
    → List CredentialConfig
    → Option (List CredentialConfig)
    → Str
    → List TargetConfig
    → Option (List TargetConfig)
    → Result SidecarError (List CredentialConfig × List TargetConfig)
load_sidecars runtime credentials_file credentials credentials_read targets_file targets
      targets_read =
    do
      creds ← loaded_credentials credentials_file credentials credentials_read
      ts ← loaded_targets targets_file targets targets_read
      resolved ← resolve_auth_refs creds ts
      ok (creds, apply_target_defaults runtime resolved)
