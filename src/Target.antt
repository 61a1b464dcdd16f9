-- ===== src/Target.antt =====
-- internal/target/model.go. `A` is the type of golang.org/x/crypto/ssh's authentication methods and `H`
-- that of its host key callbacks.
pub mod Registry
use mcp_execmesh.Base.{
  Bool, true, false, not, Option, none, some, List, [], Str, codes, ◌++◌, ℤ, show_ℤ, if◌then◌else◌,
}
use mcp_execmesh.Ssh.Client.{ConnectOptions}

pub record TargetLimits : Type 0 where
  pub max_exec_seconds : ℤ
  pub max_upload_bytes : ℤ

pub record TargetCapabilities : Type 0 where
  pub exec : Bool
  pub upload : Bool
  pub jobs : Bool

pub record TargetSummary : Type 0 where
  pub id : Str
  pub name : Str
  pub tags : List Str
  pub default_cwd : Str
  pub capabilities : TargetCapabilities
  pub enabled : Bool

pub record TargetDetail : Type 0 where
  pub id : Str
  pub name : Str
  pub tags : List Str
  pub default_cwd : Str
  pub shell : Str
  pub capabilities : TargetCapabilities
  pub limits : TargetLimits
  pub enabled : Bool
  pub auth_ref : Str
  pub known_host_ref : Str

pub record Target (A : Type 0) (H : Type 0) : Type 0 where
  pub id : Str
  pub name : Str
  pub host : Str
  pub port : ℤ
  pub user : Str
  pub auth_method : List A
  pub host_key_callback : H
  pub default_cwd : Str
  pub shell : Str
  pub tags : List Str
  pub limits : TargetLimits
  pub capabilities : TargetCapabilities
  pub allowed_paths : List Str
  pub env : List (Str × Str)
  pub enabled : Bool
  pub auth_ref : Str
  pub known_host_ref : Str

pub data TargetError : Type 0 where
  target_not_found : Str → TargetError
  target_disabled : Str → TargetError
  auth_failed : Str → TargetError
  host_key_failed : Str → TargetError

module _ {A : Type 0} {H : Type 0} where
  unfoldable pub address : Target A H → Str
  unfolding show_ℤ
  address t = t.host ++ (codes ":" ++ show_ℤ t.port)

  abbrev pub summary : Target A H → TargetSummary
  summary t = record {
    id = t.id;
    name = t.name;
    tags = t.tags;
    default_cwd = t.default_cwd;
    capabilities = t.capabilities;
    enabled = t.enabled;
  }

  abbrev pub detail : Target A H → TargetDetail
  detail t = record {
    id = t.id;
    name = t.name;
    tags = t.tags;
    default_cwd = t.default_cwd;
    shell = t.shell;
    capabilities = t.capabilities;
    limits = t.limits;
    enabled = t.enabled;
    auth_ref = t.auth_ref;
    known_host_ref = t.known_host_ref;
  }

  -- `none` is a nil error; a nil *Target is `none`.
  unfoldable pub require_active : Option (Target A H) → Option TargetError
  require_active none = some (target_not_found [])
  require_active (some t) = if not t.enabled then some (target_disabled t.id) else none

  unfoldable pub connect_options : Target A H → ℤ → ConnectOptions A H
  unfolding address
  connect_options t timeout = record {
    address = address t;
    user = t.user;
    auth_methods = t.auth_method;
    host_key_callback = t.host_key_callback;
    shell = t.shell;
    timeout = timeout;
  }
