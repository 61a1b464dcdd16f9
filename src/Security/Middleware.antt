-- ===== src/Security/Middleware.antt =====
-- internal/security/middleware.go, cors.go and the middleware of ratelimit.go. A handler either answers itself or
-- passes a request on with a principal; the log and the audit log are left out.
pub mod Served
use mcp_execmesh.Base.{
  ℕ, Bool, true, false, ◌||◌, ◌&&◌, not, Option, none, some, List, [], ◌∷◌, ◌++◌, Str, codes,
  str_eq, is_empty, trim_space, equal_fold, contains, if◌then◌else◌, ok, err,
}
use mcp_execmesh.Security.Scope.{Principal}
use mcp_execmesh.Security.RateLimit.{RateLimiter, allow}
use mcp_execmesh.Security.Credentials.{Manager}
use mcp_execmesh.Security.Registry.{verify_capability, verify_bearer}
use mcp_execmesh.Security.Requests.{
  Request, Authenticator, none_authenticator, bearer_authenticator, api_key_authenticator,
  authenticate, extract_bearer_or_api_key, parse_capability_path,
}

pub data Response : Type 0 where
  not_found : Response
  unauthorized : Response
  too_many_requests : Response
  forbidden : Response
  no_content : Response
  passed : Option Principal → Request → Response

unfoldable pub any_origin : List Str → Str → Bool
any_origin [] origin = false
any_origin (a ∷ allowed) origin =
    if equal_fold (trim_space a) origin then true else any_origin allowed origin

unfoldable pub origin_allowed : List Str → Str → Bool
origin_allowed [] origin = true
origin_allowed (a ∷ allowed) origin =
    if is_empty (trim_space origin) then true else any_origin (a ∷ allowed) (trim_space origin)

unfoldable pub origin_middleware : List Str → Option Principal → Request → Response
origin_middleware allowed p r = if origin_allowed allowed r.origin then passed p r else unauthorized

unfoldable pub cors_and_origin : List Str → Option Principal → Request → Response
cors_and_origin allowed p r =
    if not (is_empty (trim_space r.origin)) && not (origin_allowed allowed (trim_space r.origin))
    then forbidden
    else if str_eq r.method (codes "OPTIONS")
    then no_content
    else passed p r

abbrev wants_both : Str → Bool
wants_both accept =
    is_empty accept
    || (not (contains accept (codes "application/json")) && not (contains accept (codes "*/*")))
    || (not (contains accept (codes "text/event-stream")) && not (contains accept (codes "*/*")))

unfoldable pub normalize_accept : Request → Request
normalize_accept r =
    if str_eq r.method (codes "POST") && wants_both r.accept
    then record r { accept = codes "application/json, text/event-stream" }
    else r

-- A response behind the limiter.
abbrev pub limited : RateLimiter × Bool → Response → RateLimiter × Response
limited (l, allowed) response = (l, if allowed then response else too_many_requests)

abbrev is_none_authenticator : Authenticator → Bool
is_none_authenticator none_authenticator = true
is_none_authenticator (bearer_authenticator _) = false
is_none_authenticator (api_key_authenticator _) = false

abbrev is_there : Option Manager → Bool
is_there none = false
is_there (some _) = true

-- A token that the registry refused is not tried again, unless the fallback asks for none.
unfoldable pub is_refused : Option Manager → Authenticator → Request → Bool
is_refused m fallback r =
    is_there m
    && not (is_empty (extract_bearer_or_api_key r))
    && not (is_none_authenticator fallback)

-- `hash` is sha256.
module _ (hash : Str → Str) where
  -- What CapabilityAuth does with a request that the limiter lets in.
  unfoldable pub capability_response : Manager → ℕ → Request → Response
  capability_response m later r =
      if contains r.raw_query (codes "token=") || contains r.raw_query (codes "capability=")
      then not_found
      else elim (parse_capability_path r.path) [
        | none ↦ not_found
        | some token ↦ elim (verify_capability hash m later token r.remote_addr) [
          | err _ ↦ not_found
          | ok p ↦ passed (some p) (record r { path = codes "/mcp" })
        ]
      ]

  -- The principal of the token in the registry, if there is a registry and a token that it knows.
  unfoldable pub registry_principal : Option Manager → ℕ → Request → Option Principal
  registry_principal none later r = none
  registry_principal (some m) later r =
      if is_empty (extract_bearer_or_api_key r)
      then none
      else elim (verify_bearer hash m later (extract_bearer_or_api_key r) r.remote_addr) [
        | err _ ↦ none
        | ok p ↦ some p
      ]

-- `split_host_port` is net.SplitHostPort, its host. The clock is read once for the limiter and once for the
-- expiry.
module _ (split_host_port : Str → Option Str) where
  abbrev ip_key : Str → Option Str → Str
  ip_key addr none = codes "ip:" ++ addr
  ip_key addr (some host) = codes "ip:" ++ host

  unfoldable pub rate_limit_key : Option Principal → Request → Str
  rate_limit_key none r = ip_key r.remote_addr (split_host_port r.remote_addr)
  rate_limit_key (some p) r =
      if not (is_empty p.id)
      then codes "id:" ++ p.id
      else if not (is_empty p.subject)
      then codes "sub:" ++ p.subject
      else ip_key r.remote_addr (split_host_port r.remote_addr)

  unfoldable pub rate_limit_middleware :
      RateLimiter → ℕ → Option Principal → Request → RateLimiter × Response
  rate_limit_middleware l now p r = limited (allow l (rate_limit_key p r) now) (passed p r)

  module _ (hash : Str → Str) where
    unfoldable pub capability_auth :
        Manager → RateLimiter → ℕ → ℕ → Request → RateLimiter × Response
    capability_auth m l now later r =
        limited (allow l (rate_limit_key none r) now) (capability_response hash m later r)

    abbrev pub attach : RateLimiter → ℕ → Request → Principal → RateLimiter × Response
    attach l now r p = limited (allow l (rate_limit_key (some p) r) now) (passed (some p) r)

    abbrev pub rejected : RateLimiter → ℕ → Request → RateLimiter × Response
    rejected l now r = limited (allow l (rate_limit_key none r) now) unauthorized

    unfoldable pub fall_back :
        Option Manager → Option Authenticator → RateLimiter → ℕ → Request → RateLimiter × Response
    fall_back m none l now r = (l, unauthorized)
    fall_back m (some a) l now r =
        if is_refused m a r
        then rejected l now r
        else elim (authenticate a r) [ err _ ↦ rejected l now r | ok p ↦ attach l now r p ]

    unfoldable pub bearer_auth :
        Option Manager
        → Option Authenticator
        → RateLimiter
        → ℕ
        → ℕ
        → Request
        → RateLimiter × Response
    bearer_auth m fallback l later now r = elim (registry_principal hash m later r) [
      | some p ↦ attach l now r p
      | none ↦ fall_back m fallback l now r
    ]
