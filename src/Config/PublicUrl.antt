-- ===== src/Config/PublicUrl.antt =====
-- internal/config/public_url.go. url.Parse and (*url.URL).String are parameters.
use mcp_execmesh.Base.{
  Bool, true, ◌&&◌, not, Option, none, some, List, [], ◌∷◌, ◌++◌, Str, codes, str_eq, is_empty,
  ◌==◌, join, to_lower, trim_space, if◌then◌else◌, Result, ok, err, ◌>>=◌, ◌>>◌, guard,
}
use mcp_execmesh.Security.Path.{slash, clean}

-- The parts of a url.URL that are read.
pub record PublicUrl : Type 0 where
  pub scheme : Str
  pub host : Str
  pub hostname : Str
  pub path : Str
  pub raw_query : Str
  pub fragment : Str

pub data PublicUrlError : Type 0 where
  not_configured : PublicUrlError
  unparsable : PublicUrlError
  not_absolute : PublicUrlError
  must_use_https : PublicUrlError
  http_not_local : PublicUrlError
  unsupported_scheme : Str → PublicUrlError
  has_query : PublicUrlError
  has_fragment : PublicUrlError

unfoldable pub drop_slashes : Str → Str
drop_slashes [] = []
drop_slashes (c ∷ s) = if c == b'/' then drop_slashes s else c ∷ s

-- strings.TrimRight(s, "/")
unfoldable pub trim_right_slashes : Str → Str
trim_right_slashes [] = []
trim_right_slashes (c ∷ s) =
    let rest = trim_right_slashes s in if is_empty rest && (c == b'/') then [] else c ∷ rest

-- strings.Trim(s, "/")
abbrev pub trim_slashes : Str → Str
trim_slashes s = trim_right_slashes (drop_slashes s)

-- strings.TrimSuffix(s, "/")
abbrev pub trim_suffix_slash : Str → Str
trim_suffix_slash [] = []
trim_suffix_slash (c ∷ []) = if c == b'/' then [] else c ∷ []
trim_suffix_slash (c ∷ d ∷ s) = c ∷ trim_suffix_slash (d ∷ s)

-- PublicBaseURL, of a configuration that is there: server.public_base_url, or else auth.public_base_url.
unfoldable pub public_base_url : Str → Str → Str
public_base_url server auth =
    let u = trim_space server in
    if not (is_empty u) then trim_right_slashes u else trim_right_slashes (trim_space auth)

unfoldable pub check_scheme : Bool → PublicUrl → Result PublicUrlError (Unit {0})
check_scheme allow_http u =
    if str_eq u.scheme (codes "https")
    then ok tt
    else if str_eq u.scheme (codes "http")
    then (if not allow_http
        then err must_use_https
        else let host = to_lower u.hostname in
          if not (str_eq host (codes "localhost")) && not (str_eq host (codes "127.0.0.1"))
          then err http_not_local
          else ok tt)
    else err (unsupported_scheme u.scheme)

abbrev pub parsed : Option PublicUrl → Result PublicUrlError PublicUrl
parsed none = err unparsable
parsed (some u) = ok u

-- The elements of a path without their slashes, where something is left.
unfoldable pub trimmed_parts : List Str → List Str
trimmed_parts [] = []
trimmed_parts (e ∷ elems) =
    let rest = trimmed_parts elems in
    if is_empty (trim_slashes e) then rest else trim_slashes e ∷ rest

-- path.Join of elements none of which is empty
abbrev pub path_join : List Str → Str
path_join [] = []
path_join (e ∷ elems) = clean (join (e ∷ elems) slash)

module _ (parse_url : Str → Option PublicUrl) where
  unfoldable pub validate_public_base_url : Str → Bool → Result PublicUrlError PublicUrl
  unfolding check_scheme
  validate_public_base_url raw allow_http = do
    guard (not (is_empty (trim_space raw))) not_configured
    u ← parsed (parse_url (trim_space raw))
    guard (not (is_empty u.scheme) && not (is_empty u.host)) not_absolute
    check_scheme allow_http u
    guard (is_empty u.raw_query) has_query
    guard (is_empty u.fragment) has_fragment
    ok (record u { path = trim_suffix_slash u.path })

  -- The base's own path is the first element.
  unfoldable pub join_public_url : (PublicUrl → Str) → Str → List Str → Result PublicUrlError Str
  unfolding validate_public_base_url trimmed_parts
  join_public_url print public_base_url elems = do
    u ← validate_public_base_url public_base_url true
    ok (print (record u { path = slash ++ path_join (trimmed_parts (u.path ∷ elems)) }))
