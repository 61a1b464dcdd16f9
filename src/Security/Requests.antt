-- ===== src/Security/Requests.antt =====
-- internal/security/auth.go, capability.go and cors.go: what is read of an HTTP request, and the authenticators
-- that compare one token. A header that is not there is the empty string, as Header.Get gives it.
use mcp_execmesh.Base.{
  ℕ, ◌+◌, ◌*◌, ◌||◌, ◌&&◌, not, Option, none, some, [], ◌∷◌, Str, codes, ◌==◌, str_eq, is_empty,
  to_lower, trim_space, equal_fold, has_prefix, trim_prefix, contains, if◌then◌else◌, Result, ok,
  err, ◌>>=◌, ◌>>◌, guard,
}
use mcp_execmesh.Security.Scope.{Principal}
use mcp_execmesh.Security.Digest.{hex_digit, is_capability_token}

pub record Request : Type 0 where
  pub method : Str
  pub path : Str
  pub raw_query : Str
  pub x_api_key : Str
  pub authorization : Str
  pub origin : Str
  pub accept : Str
  pub remote_addr : Str

-- strings.SplitN(s, " ", 2), when it gives two parts.
unfoldable pub cut_space : Str → Option (Str × Str)
cut_space [] = none
cut_space (c ∷ s) =
    let rest = cut_space s in
    if c == b' ' then some ([], s) else elim rest [ none ↦ none | some (a, b) ↦ some (c ∷ a, b) ]

-- The token behind the scheme Bearer.
unfoldable pub bearer_token : Str → Option Str
unfolding cut_space
bearer_token header = elim (cut_space header) [
  | none ↦ none
  | some (scheme, token) ↦
      if equal_fold scheme (codes "Bearer") then some (trim_space token) else none
]

abbrev or_nil : Option Str → Str
or_nil none = []
or_nil (some s) = s

unfoldable pub extract_bearer_or_api_key : Request → Str
unfolding bearer_token
extract_bearer_or_api_key r =
    if is_empty (trim_space r.x_api_key)
    then or_nil (bearer_token r.authorization)
    else trim_space r.x_api_key

pub data Authenticator : Type 0 where
  none_authenticator : Authenticator
  bearer_authenticator : Str → Authenticator
  api_key_authenticator : Str → Authenticator

pub data AuthFailure : Type 0 where
  missing_authorization : AuthFailure
  invalid_authorization : AuthFailure
  invalid_bearer_token : AuthFailure
  missing_api_key : AuthFailure
  invalid_api_key : AuthFailure

-- A principal of one of the authenticators has neither scopes nor targets.
abbrev pub principal_without_grants : Str → Str → Str → Principal
principal_without_grants subject auth_type remote_ip = record {
  id = [];
  subject = subject;
  auth_type = auth_type;
  remote_ip = remote_ip;
  scopes = [];
  targets = [];
}

abbrev pub or_failure : AuthFailure → Option Str → Result AuthFailure Str
or_failure e none = err e
or_failure e (some s) = ok s

abbrev pub api_key_of : Request → Str
api_key_of r =
    if is_empty r.x_api_key
    then (if has_prefix r.authorization (codes "Bearer ")
        then trim_space (trim_prefix r.authorization (codes "Bearer "))
        else [])
    else r.x_api_key

unfoldable pub authenticate : Authenticator → Request → Result AuthFailure Principal
authenticate none_authenticator r =
    ok (principal_without_grants (codes "anonymous") (codes "none") r.remote_addr)
authenticate (bearer_authenticator expected) r = do
  guard (not (is_empty r.authorization)) missing_authorization
  token ← or_failure invalid_authorization (bearer_token r.authorization)
  guard (str_eq token expected) invalid_bearer_token
  ok (principal_without_grants (codes "bearer-user") (codes "bearer") r.remote_addr)
authenticate (api_key_authenticator expected) r = do
  guard (not (is_empty (api_key_of r))) missing_api_key
  guard (str_eq (api_key_of r) expected) invalid_api_key
  ok (principal_without_grants (codes "api-key-user") (codes "api_key") r.remote_addr)

-- The parts of ServerAuthConfig that NewAuthenticator reads.
pub record ServerAuthConfig : Type 0 where
  pub type : Str
  pub bearer_token : Str
  pub token_file : Str

pub data AuthConfigError : Type 0 where
  token_file_unreadable : AuthConfigError
  token_missing : AuthConfigError
  unsupported_type : Str → AuthConfigError

abbrev token_read : Option Str → Result AuthConfigError Str
token_read none = err token_file_unreadable
token_read (some t) = ok t

-- `load_password` is config.LoadPassword, `none` for an error.
module _ (load_password : Str → Option Str) where
  unfoldable pub configured_token : ServerAuthConfig → Result AuthConfigError Str
  configured_token cfg = do
    token ←
        if is_empty cfg.bearer_token && not (is_empty cfg.token_file)
        then token_read (load_password cfg.token_file)
        else ok cfg.bearer_token
    guard (not (is_empty token)) token_missing
    ok token

  unfoldable pub new_authenticator : ServerAuthConfig → Result AuthConfigError Authenticator
  unfolding configured_token
  new_authenticator cfg =
      let type = to_lower cfg.type in
      if is_empty type || str_eq type (codes "none")
      then ok none_authenticator
      else if str_eq type (codes "bearer")
      then (configured_token cfg >>= λ t. ok (bearer_authenticator t))
      else if str_eq type (codes "api_key")
      then (configured_token cfg >>= λ t. ok (api_key_authenticator t))
      else err (unsupported_type cfg.type)

abbrev escaped : Option ℕ → Option ℕ → Option Str → Option Str
escaped (some hi) (some lo) (some s) = some ((hi * 16 + lo) ∷ s)
escaped _ _ _ = none

abbrev kept : ℕ → Option Str → Option Str
kept c none = none
kept c (some s) = some (c ∷ s)

-- url.PathUnescape
unfoldable pub path_unescape : Str → Option Str
path_unescape [] = some []
path_unescape (c ∷ []) = if c == b'%' then none else some (c ∷ [])
path_unescape (c ∷ d ∷ []) = if (c == b'%') || (d == b'%') then none else some (c ∷ d ∷ [])
path_unescape (c ∷ d ∷ e ∷ s) =
    let rest = path_unescape s in
    let next = path_unescape (d ∷ e ∷ s) in
    if c == b'%' then escaped (hex_digit d) (hex_digit e) rest else kept c next

abbrev pub drop_slash : Str → Str
drop_slash [] = []
drop_slash (c ∷ []) = if c == b'/' then [] else c ∷ []
drop_slash (c ∷ d ∷ s) = c ∷ drop_slash (d ∷ s)

-- The token in a cleaned path.
unfoldable pub token_of_path : Str → Option Str
token_of_path cleaned =
    if contains cleaned (codes "..") || contains cleaned (codes "//")
    then none
    else if not (has_prefix cleaned (codes "/mcp/"))
    then none
    else if contains (trim_prefix cleaned (codes "/mcp/")) (codes "/")
    then none
    else if not (is_capability_token (trim_prefix cleaned (codes "/mcp/")))
    then none
    else some (trim_prefix cleaned (codes "/mcp/"))

-- The one error is ErrInvalidCapability.
unfoldable pub parse_capability_path : Str → Option Str
unfolding path_unescape token_of_path
parse_capability_path path = if is_empty path then none else elim (path_unescape path) [
  | none ↦ none
  | some decoded ↦ token_of_path (drop_slash decoded)
]
