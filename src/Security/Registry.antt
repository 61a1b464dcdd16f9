-- ===== src/Security/Registry.antt =====
-- internal/security/registry.go: the token registry. The hash (sha256.Sum256) and the parser of
-- timestamps (time.Parse with RFC3339) are parameters; times are numbers.
pub mod Sources
pub mod Verified
pub mod Grants
pub mod Complete
pub mod Listed
use mcp_execmesh.Base.{
  ℕ, ◌+◌, ◌<◌, Bool, true, false, ◌||◌, ◌&&◌, not, Option, none, some, List, [], ◌∷◌, ◌++◌, Str,
  codes, str_eq, ltb, member, lookup, insert, is_empty, trim_space, to_lower, if◌then◌else◌, Result,
  ok, err, ◌>>=◌, ◌>>◌, guard,
}
use mcp_execmesh.Security.Scope.{Principal, data_plane_scopes, scope_set, target_set}
use mcp_execmesh.Security.Credentials.{
  TokenRecord, CapabilityFileEntry, BearerFileEntry, Identity, Snapshot, RegistryError,
  unreadable_file, duplicate_digest, invalid_token_sha256, invalid_expires_at, invalid_capability,
  FileRead, not_exist, failed, loaded, Manager,
}
use mcp_execmesh.Security.Digest.{parse_digest_hex}

unfoldable pub full_access_identity : Str → Str → Str → Identity
full_access_identity id subject auth_type = record {
  id = id;
  subject = subject;
  auth_type = auth_type;
  enabled = true;
  scopes = scope_set data_plane_scopes;
  targets = target_set (codes "*" ∷ []);
  expires_at = none;
}

-- The closure `add` of collectDigests: `out` is in the order of the tokens, `seen` is its elements.
unfoldable pub add_digest : List Str → Str → List Str
add_digest out hex = if is_empty hex then out else elim (parse_digest_hex hex) [
  | none ↦ out
  | some d ↦ if member d out then out else out ++ (d ∷ [])
]

unfoldable pub add_digests : List Str → List TokenRecord → List Str
add_digests out [] = out
add_digests out (t ∷ ts) = add_digests (add_digest out t.token_sha256) ts

unfoldable pub collect_digests : Str → List TokenRecord → List Str
collect_digests primary tokens = add_digests (add_digest [] primary) tokens

abbrev pub subject_or_id : Str → Str → Str
subject_or_id subject id = if is_empty subject then id else subject

-- `for digest, id := range idents`: Go visits the digests in any order, here in theirs; they are
-- distinct and carry equal identities, so the order shows only in the order of the snapshot.
unfoldable pub index_digests : Str → Identity → Snapshot → List Str → Result RegistryError Snapshot
index_digests id identity snap [] = ok snap
index_digests id identity snap (d ∷ ds) = elim (lookup d snap) [
  | some _ ↦ err (duplicate_digest id)
  | none ↦ index_digests id identity (insert d identity snap) ds
]

abbrev pub index_file :
    {A : Type 0}
    → (Snapshot → List A → Result RegistryError Snapshot)
    → Snapshot
    → FileRead A
    → Result RegistryError Snapshot
index_file index snap not_exist = ok snap
index_file index snap failed = err unreadable_file
index_file index snap (loaded ents) = index snap ents

abbrev pub digest_or_error : BearerFileEntry → Option Str → Result RegistryError Str
digest_or_error ent none = err (invalid_token_sha256 ent.id)
digest_or_error ent (some d) = ok d

abbrev pub fresh_or_error : Str → Option Identity → Result RegistryError (Unit {0})
fresh_or_error id none = ok tt
fresh_or_error id (some _) = err (duplicate_digest id)

abbrev pub store : Manager → Result RegistryError Snapshot → Manager × Option RegistryError
store m (ok snap) = (record m { current = some snap }, none)
store m (err e) = (m, some e)

unfoldable pub legacy_stage : (Str → Str) → Manager → Snapshot → Snapshot
legacy_stage hash m snap =
    if str_eq m.legacy_type (codes "bearer")
    then (if is_empty m.legacy_bearer
        then snap
        else insert (hash m.legacy_bearer)
            (full_access_identity (codes "legacy-bearer") (codes "bearer-user") (codes "bearer"))
            snap)
    else if str_eq m.legacy_type (codes "api_key")
    then (if is_empty m.legacy_api_key
        then snap
        else insert (hash m.legacy_api_key)
            (full_access_identity (codes "legacy-api-key") (codes "api-key-user") (codes "api_key"))
            snap)
    else snap

module _ (parse_time : Str → Option ℕ) where
  unfoldable pub parse_optional_time : Option Str → Result RegistryError (Option ℕ)
  parse_optional_time none = ok none
  parse_optional_time (some s) =
      if is_empty (trim_space s) then ok none else elim (parse_time (trim_space s)) [
        | none ↦ err (invalid_expires_at s)
        | some t ↦ ok (some t)
      ]

  unfoldable pub capability_identity : CapabilityFileEntry → Result RegistryError Identity
  capability_identity ent = do
    exp ← parse_optional_time ent.expires_at
    ok (record {
      id = ent.id;
      subject = subject_or_id ent.subject ent.id;
      auth_type = codes "capability";
      enabled = ent.enabled;
      scopes = scope_set ent.scopes;
      targets = target_set ent.targets;
      expires_at = exp;
    })

  unfoldable pub index_capabilities :
      Snapshot → List CapabilityFileEntry → Result RegistryError Snapshot
  index_capabilities snap [] = ok snap
  index_capabilities snap (ent ∷ ents) = do
    identity ← capability_identity ent
    next ← index_digests ent.id identity snap (collect_digests ent.token_sha256 ent.active_tokens)
    index_capabilities next ents

  unfoldable pub bearer_identity : BearerFileEntry → Result RegistryError Identity
  bearer_identity ent = do
    exp ← parse_optional_time ent.expires_at
    ok (record {
      id = ent.id;
      subject = subject_or_id ent.subject ent.id;
      auth_type = codes "bearer";
      enabled = ent.enabled;
      scopes = scope_set ent.scopes;
      targets = target_set ent.targets;
      expires_at = exp;
    })

  unfoldable pub index_bearers : Snapshot → List BearerFileEntry → Result RegistryError Snapshot
  index_bearers snap [] = ok snap
  index_bearers snap (ent ∷ ents) = do
    digest ← digest_or_error ent (parse_digest_hex ent.token_sha256)
    fresh_or_error ent.id (lookup digest snap)
    identity ← bearer_identity ent
    index_bearers (insert digest identity snap) ents

  module _ (hash : Str → Str) (read_capabilities : Str → FileRead CapabilityFileEntry)
      (read_bearers : Str → FileRead BearerFileEntry) where
    abbrev pub capability_stage : Manager → Snapshot → Result RegistryError Snapshot
    capability_stage m snap =
        if is_empty m.capability_file
        then ok snap
        else index_file index_capabilities snap (read_capabilities m.capability_file)

    abbrev pub bearer_stage : Manager → Snapshot → Result RegistryError Snapshot
    bearer_stage m snap =
        if is_empty m.bearer_file
        then ok snap
        else index_file index_bearers snap (read_bearers m.bearer_file)

    unfoldable pub build_snapshot : Manager → Result RegistryError Snapshot
    build_snapshot m = do
      caps ← capability_stage m []
      bearers ← bearer_stage m caps
      ok (legacy_stage hash m bearers)

    -- Reload: the manager afterwards, and the error.
    unfoldable pub reload : Manager → Manager × Option RegistryError
    reload m = store m (build_snapshot m)

abbrev pub is_expired : ℕ → Option ℕ → Bool
is_expired now none = false
is_expired now (some exp) = ltb exp now

abbrev pub principal_of : Identity → Str → Principal
principal_of id remote_ip = record {
  id = id.id;
  subject = id.subject;
  auth_type = id.auth_type;
  remote_ip = remote_ip;
  scopes = id.scopes;
  targets = id.targets;
}

-- The tests of verify on the identity that the digest names.
unfoldable pub check_identity : ℕ → Str → Str → Option Identity → Result RegistryError Principal
check_identity now want_type remote_ip none = err invalid_capability
check_identity now want_type remote_ip (some id) =
    if not (str_eq id.auth_type want_type)
    then err invalid_capability
    else if not id.enabled
    then err invalid_capability
    else if is_expired now id.expires_at
    then err invalid_capability
    else ok (principal_of id remote_ip)

module _ (hash : Str → Str) where
  unfoldable pub verify : Manager → ℕ → Str → Str → Str → Result RegistryError Principal
  verify m now token want_type remote_ip = elim m.current [
    | none ↦ err invalid_capability
    | some snap ↦ check_identity now want_type remote_ip (lookup (hash token) snap)
  ]

  unfoldable pub verify_capability : Manager → ℕ → Str → Str → Result RegistryError Principal
  verify_capability m now token remote_ip = verify m now token (codes "capability") remote_ip

  unfoldable pub verify_bearer : Manager → ℕ → Str → Str → Result RegistryError Principal
  verify_bearer m now token remote_ip = elim (verify m now token (codes "bearer") remote_ip) [
    | ok p ↦ ok p
    | err _ ↦ verify m now token (codes "api_key") remote_ip
  ]
