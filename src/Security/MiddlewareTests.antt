-- ===== src/Security/MiddlewareTests.antt =====
-- Tests of internal/security/middleware.go, cors.go and auth.go, and their theorems at concrete inputs.
use mcp_execmesh.Base.{
  ◌≡◌, refl, ◌⊎◌, Option, none, some, [], ◌∷◌, ◌++◌, Str, codes, err, pos, str_eq, has_prefix,
  has_suffix, trim_space, trim_left, trim_prefix, to_lower, equal_fold, contains, lookup, insert,
  member, set_add, ◌+ℤ◌,
}
use mcp_execmesh.Security.Scope.{Principal, scope_set_from, scope_set, target_set}
use mcp_execmesh.Security.RateLimit.{
  RateLimiter, new_rate_limiter, allow, use_bucket, refill, take_token,
}
use mcp_execmesh.Security.Digest.{
  is_capability_token, all_token_bytes, hex_decode, parse_digest_hex,
}
use mcp_execmesh.Security.Registry.{
  full_access_identity, add_digest, add_digests, collect_digests, index_digests,
  parse_optional_time, capability_identity, index_capabilities, bearer_identity, index_bearers,
  legacy_stage, build_snapshot, reload, principal_of, check_identity, verify, verify_capability,
  verify_bearer,
}
use mcp_execmesh.Security.Registry.Verified.{Grantor}
use mcp_execmesh.Security.Requests.{
  Request, cut_space, bearer_token, extract_bearer_or_api_key, none_authenticator,
  bearer_authenticator, authenticate, invalid_bearer_token, principal_without_grants, path_unescape,
  token_of_path, parse_capability_path,
}
use mcp_execmesh.Security.Middleware.{
  not_found, unauthorized, forbidden, no_content, too_many_requests, passed, any_origin,
  origin_allowed, cors_and_origin, normalize_accept, rate_limit_key, capability_response,
  capability_auth, registry_principal, is_refused, fall_back, bearer_auth,
}
use mcp_execmesh.Security.Middleware.Served.{
  capability_auth-Grantor, IsKnown, FellBack, bearer_auth-IsAuthenticated,
}
use mcp_execmesh.Security.TokenTests.{
  zero_hash, no_times, capabilities, no_bearers, manager, chat_identity,
}

handlers : Unit {0}
unfolding member set_add str_eq has_prefix trim_space trim_left to_lower lookup insert
    scope_set_from scope_set target_set hex_decode parse_digest_hex add_digest add_digests
    collect_digests index_digests parse_optional_time capability_identity index_capabilities
    bearer_identity index_bearers legacy_stage build_snapshot reload check_identity verify
    verify_capability verify_bearer full_access_identity contains trim_prefix has_suffix equal_fold
    new_rate_limiter allow use_bucket refill take_token is_capability_token all_token_bytes
    cut_space bearer_token extract_bearer_or_api_key authenticate path_unescape token_of_path
    parse_capability_path any_origin origin_allowed cors_and_origin normalize_accept rate_limit_key
    capability_response capability_auth registry_principal is_refused fall_back bearer_auth
handlers = tt

abbrev no_port : Str → Option Str
no_port addr = none

abbrev capability : Str
capability = codes "cap_v1_0123456789abcdefghijklmnopqrstuvwxyzABCDEF-"

abbrev request : Request
request = record {
  method = codes "POST";
  path = codes "/mcp/" ++ capability ++ codes "/";
  raw_query = [];
  x_api_key = [];
  authorization = codes "bearer  secret ";
  origin = codes "https://chat.example";
  accept = codes "application/json";
  remote_addr = codes "ip";
}

abbrev limiter : RateLimiter
limiter = new_rate_limiter (pos 60) (pos 1)

-- A query with a token and a dotted path are not found, a second request in the same instant is one too many.
capability_tests :
    (parse_capability_path (codes "/mcp/" ++ capability ++ codes "/") ≡ some capability)
    × (parse_capability_path (codes "/mcp/%2e%2e/" ++ capability) ≡ none)
    × ((capability_auth no_port zero_hash manager limiter 0 7
          (record request { raw_query = codes "a=1&token=x" })).1
        ≡ not_found)
    × ((capability_auth no_port zero_hash manager
          (capability_auth no_port zero_hash manager limiter 0 7 request).0
          0
          7
          request).1
        ≡ too_many_requests)
unfolding handlers ◌+ℤ◌
capability_tests = (refl, refl, refl, refl)

-- A wrong token is refused by the fallback that wants one, and is anonymous where none is wanted.
bearer_tests :
    (extract_bearer_or_api_key request ≡ codes "secret")
    × (authenticate (bearer_authenticator (codes "other")) request ≡ err invalid_bearer_token)
    × ((bearer_auth no_port zero_hash
          (some manager)
          (some (bearer_authenticator (codes "secret")))
          limiter
          7
          0
          request).1
        ≡ unauthorized)
    × ((bearer_auth no_port zero_hash
          (some manager)
          (some none_authenticator)
          limiter
          7
          0
          request).1
        ≡ passed
            (some (principal_without_grants (codes "anonymous") (codes "none") (codes "ip")))
            request)
unfolding handlers
bearer_tests = (refl, refl, refl, refl)

origin_tests :
    (cors_and_origin (codes "https://other.example" ∷ []) none request ≡ forbidden)
    × (cors_and_origin [] none (record request { method = codes "OPTIONS" }) ≡ no_content)
    × (cors_and_origin (codes " HTTPS://chat.example" ∷ []) none request ≡ passed none request)
    × (normalize_accept request
        ≡ record request { accept = codes "application/json, text/event-stream" })
unfolding handlers
origin_tests = (refl, refl, refl, refl)

capability_auth-Grantor_example :
    (token : Str) × (parse_capability_path request.path ≡ some token)
    × ((principal : Principal) × (some (principal_of chat_identity (codes "ip")) ≡ some principal)
        × Grantor no_times zero_hash capabilities no_bearers manager 7 token principal)
unfolding handlers
capability_auth-Grantor_example =
    capability_auth-Grantor no_port zero_hash no_times capabilities no_bearers manager limiter 0 7
      request (some (principal_of chat_identity (codes "ip")))
      (record request { path = codes "/mcp" }) refl refl

bearer_auth-IsAuthenticated_example :
    let p = principal_without_grants (codes "bearer-user") (codes "bearer") (codes "ip") in
    let a = bearer_authenticator (codes "secret") in
    (request ≡ request)
    × ((pr : Principal) × (some p ≡ some pr)
        × (IsKnown zero_hash none 7 request pr ⊎ FellBack none (some a) request pr))
unfolding handlers
bearer_auth-IsAuthenticated_example =
    bearer_auth-IsAuthenticated no_port zero_hash none
      (some (bearer_authenticator (codes "secret"))) limiter 0 7 request
      (some (principal_without_grants (codes "bearer-user") (codes "bearer") (codes "ip"))) request
      refl
