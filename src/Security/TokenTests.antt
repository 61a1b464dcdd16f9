-- ===== src/Security/TokenTests.antt =====
-- Tests of the token registry of internal/security, and its theorems at concrete inputs.
use mcp_execmesh.Base.{
  ◌≡◌, refl, inl, true, Option, none, some, [], ◌∷◌, ℕ, Str, codes, str_eq, has_prefix, trim_space,
  trim_left, to_lower, member, set_add, lookup, insert, ok,
}
use mcp_execmesh.Security.Scope.{
  Principal, scope_exec_run, scope_admin_targets, authorize, scope_set_from, scope_set, target_set,
}
use mcp_execmesh.Security.Digest.{hex_decode, parse_digest_hex}
use mcp_execmesh.Security.Credentials.{
  CapabilityFileEntry, BearerFileEntry, Identity, Snapshot, duplicate_digest, FileRead, not_exist,
  loaded, Manager,
}
use mcp_execmesh.Security.Registry.{
  full_access_identity, add_digest, add_digests, collect_digests, index_digests,
  parse_optional_time, capability_identity, index_capabilities, bearer_identity, index_bearers,
  legacy_stage, build_snapshot, reload, principal_of, check_identity, verify, verify_capability,
}
use mcp_execmesh.Security.Registry.Verified.{Grantor, verify_capability-Grantor}
use mcp_execmesh.Security.Registry.Listed.{verify_capability-listed}
use mcp_execmesh.Security.Registry.Grants.{blank_grants-authorize}

registry : Unit {0}
unfolding str_eq has_prefix trim_space trim_left to_lower member set_add lookup insert
    scope_set_from scope_set target_set hex_decode parse_digest_hex add_digest add_digests
    collect_digests index_digests parse_optional_time capability_identity index_capabilities
    bearer_identity index_bearers legacy_stage build_snapshot reload check_identity verify
    verify_capability full_access_identity
registry = tt

abbrev zero_digest : Str
zero_digest =
    0 ∷ 0 ∷ 0 ∷ 0 ∷ 0 ∷ 0 ∷ 0 ∷ 0 ∷ 0 ∷ 0 ∷ 0 ∷ 0 ∷ 0 ∷ 0 ∷ 0 ∷ 0 ∷ 0 ∷ 0 ∷ 0 ∷ 0 ∷ 0 ∷ 0 ∷ 0 ∷ 0
    ∷ 0 ∷ 0 ∷ 0 ∷ 0 ∷ 0 ∷ 0 ∷ 0 ∷ 0 ∷ []

abbrev zero_hex : Str
zero_hex = codes "0000000000000000000000000000000000000000000000000000000000000000"

-- A hash under which every token has the digest zero, and no timestamps.
abbrev pub zero_hash : Str → Str
zero_hash token = zero_digest

abbrev pub no_times : Str → Option ℕ
no_times s = none

abbrev chat : CapabilityFileEntry
chat = record {
  id = codes "chat";
  family = [];
  token_sha256 = zero_hex;
  active_tokens = [];
  enabled = true;
  subject = [];
  created_at = [];
  expires_at = none;
  scopes = scope_exec_run ∷ [];
  targets = [];
}

abbrev blank_chat : CapabilityFileEntry
blank_chat = record chat { scopes = [] ∷ []; targets = [] ∷ [] }

abbrev pub capabilities : Str → FileRead CapabilityFileEntry
capabilities path = loaded (chat ∷ [])

abbrev twice_listed : Str → FileRead CapabilityFileEntry
twice_listed path = loaded (chat ∷ chat ∷ [])

abbrev pub no_bearers : Str → FileRead BearerFileEntry
no_bearers path = not_exist

abbrev pub manager : Manager
manager = record {
  current = none;
  capability_file = codes "cap.yaml";
  bearer_file = [];
  legacy_type = codes "none";
  legacy_bearer = [];
  legacy_api_key = [];
}

abbrev pub chat_identity : Identity
chat_identity = record {
  id = codes "chat";
  subject = codes "chat";
  auth_type = codes "capability";
  enabled = true;
  scopes = scope_exec_run ∷ [];
  targets = codes "*" ∷ [];
  expires_at = none;
}

abbrev chat_snapshot : Snapshot
chat_snapshot = (zero_digest, chat_identity) ∷ []

abbrev blank_identity : Identity
blank_identity = record chat_identity { scopes = []; targets = [] }

reload_tests :
    (reload no_times zero_hash capabilities no_bearers manager
      ≡ (record manager { current = some chat_snapshot }, none))
    × (reload no_times zero_hash twice_listed no_bearers manager
        ≡ (manager, some (duplicate_digest (codes "chat"))))
unfolding registry
reload_tests = (refl, refl)

verify_capability-Grantor_example :
    Grantor no_times zero_hash capabilities no_bearers manager 7
      (codes "t")
      (principal_of chat_identity (codes "ip"))
unfolding registry
verify_capability-Grantor_example =
    verify_capability-Grantor no_times zero_hash capabilities no_bearers manager 7 (codes "t")
      (codes "ip") (principal_of chat_identity (codes "ip")) refl refl

verify_capability-listed_example :
    (p : Principal) × (verify_capability zero_hash
        (reload no_times zero_hash capabilities no_bearers manager).0
        7
        (codes "t")
        (codes "ip")
      ≡ ok p)
    × (p.scopes ≡ scope_set chat.scopes)
    × (p.targets ≡ target_set chat.targets)
unfolding registry
verify_capability-listed_example =
    verify_capability-listed no_times zero_hash capabilities no_bearers manager (chat ∷ []) chat
      none 7 (codes "t") (codes "ip") (λ e. cc) (λ e. cc) (λ e. cc) refl refl (inl refl) (inl refl)
      refl refl tt

blank_grants-authorize_example :
    authorize (some (principal_of blank_identity (codes "ip"))) scope_admin_targets (codes "db")
    ≡ none
unfolding registry
blank_grants-authorize_example =
    blank_grants-authorize no_times blank_chat blank_identity (codes "ip") refl (refl, tt)
      ((λ e. cc), (refl, tt)) scope_admin_targets (codes "db")
