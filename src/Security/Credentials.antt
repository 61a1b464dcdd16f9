-- ===== src/Security/Credentials.antt =====
-- internal/security/registry.go: the entries of the token files, identities, and the manager's state.
-- Times are numbers.
use mcp_execmesh.Base.{ℕ, Bool, Option, List, Str}

pub record TokenRecord : Type 0 where
  pub token_sha256 : Str
  pub created_at : Str

pub record CapabilityFileEntry : Type 0 where
  pub id : Str
  pub family : Str
  pub token_sha256 : Str
  pub active_tokens : List TokenRecord
  pub enabled : Bool
  pub subject : Str
  pub created_at : Str
  pub expires_at : Option Str
  pub scopes : List Str
  pub targets : List Str

pub record BearerFileEntry : Type 0 where
  pub id : Str
  pub token_sha256 : Str
  pub enabled : Bool
  pub subject : Str
  pub created_at : Str
  pub expires_at : Option Str
  pub scopes : List Str
  pub targets : List Str

pub record Identity : Type 0 where
  pub id : Str
  pub subject : Str
  pub auth_type : Str
  pub enabled : Bool
  pub scopes : List Str
  pub targets : List Str
  pub expires_at : Option ℕ

-- byDigest of the snapshot.
abbrev pub Snapshot : Type 0
Snapshot = List (Str × Identity)

pub data RegistryError : Type 0 where
  unreadable_file : RegistryError
  duplicate_digest : Str → RegistryError
  invalid_token_sha256 : Str → RegistryError
  invalid_expires_at : Str → RegistryError
  invalid_capability : RegistryError

-- What LoadCapabilityFile and LoadBearerFile return: os.IsNotExist(err), another error, the entries.
pub data FileRead (A : Type 0) : Type 0 where
  not_exist : FileRead A
  failed : FileRead A
  loaded : List A → FileRead A

pub record Manager : Type 0 where
  pub current : Option Snapshot
  pub capability_file : Str
  pub bearer_file : Str
  pub legacy_type : Str
  pub legacy_bearer : Str
  pub legacy_api_key : Str
