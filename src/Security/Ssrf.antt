-- ===== src/Security/Ssrf.antt =====
-- internal/security/ssrf.go: private addresses, and the checks of a download's URLs and connections. An
-- address is its 4 or 16 bytes. url.Parse and net.ParseIP are parameters.
pub mod Addresses
pub mod Hops
use mcp_execmesh.Base.{
  ℕ, zero, suc, ◌-◌, ◌/◌, ◌%◌, ◌^◌, Bool, true, false, ◌&&◌, ◌||◌, not, Option, none, some, List,
  [], ◌∷◌, Str, codes, leb, ◌==◌, length, is_empty, equal_fold, if◌then◌else◌, ℤ, pos, leb_ℤ,
  pos_part, Result, ok, err, ◌>>=◌, ◌>>◌, guard,
}

abbrev pub Ip : Type 0
Ip = List ℕ

-- ip.To4
unfoldable pub to4 : Ip → Option Ip
to4 (a ∷ b ∷ c ∷ d ∷ []) = some (a ∷ b ∷ c ∷ d ∷ [])
to4 (a ∷ b ∷ c ∷ d ∷ e ∷ f ∷ g ∷ h ∷ i ∷ j ∷ k ∷ l ∷ m ∷ n ∷ o ∷ p ∷ []) =
    if (a == 0)
      && (b == 0)
      && (c == 0)
      && (d == 0)
      && (e == 0)
      && (f == 0)
      && (g == 0)
      && (h == 0)
      && (i == 0)
      && (j == 0)
      && (k == 255)
      && (l == 255)
    then some (m ∷ n ∷ o ∷ p ∷ [])
    else none
to4 _ = none

abbrev or_self : Ip → Option Ip → Ip
or_self ip none = ip
or_self ip (some v4) = v4

unfoldable pub same_bytes : Ip → Ip → Bool
same_bytes [] [] = true
same_bytes (a ∷ xs) (b ∷ ys) = (a == b) && same_bytes xs ys
same_bytes _ _ = false

abbrev pub v6_loopback : Ip
v6_loopback = 0 ∷ 0 ∷ 0 ∷ 0 ∷ 0 ∷ 0 ∷ 0 ∷ 0 ∷ 0 ∷ 0 ∷ 0 ∷ 0 ∷ 0 ∷ 0 ∷ 0 ∷ 1 ∷ []

abbrev pub v6_unspecified : Ip
v6_unspecified = 0 ∷ 0 ∷ 0 ∷ 0 ∷ 0 ∷ 0 ∷ 0 ∷ 0 ∷ 0 ∷ 0 ∷ 0 ∷ 0 ∷ 0 ∷ 0 ∷ 0 ∷ 0 ∷ []

-- IsLoopback, IsLinkLocalUnicast, IsLinkLocalMulticast, IsPrivate and IsUnspecified, for an address that
-- To4 has normalised.
unfoldable pub is_special : Ip → Bool
is_special (a ∷ b ∷ c ∷ d ∷ []) =
    (a == 127)
    || ((a == 169) && (b == 254))
    || ((a == 224) && (b == 0) && (c == 0))
    || (a == 10)
    || ((a == 172) && (b / 16 == 1))
    || ((a == 192) && (b == 168))
    || ((a == 0) && (b == 0) && (c == 0) && (d == 0))
is_special (a ∷ b ∷ ip) =
    same_bytes (a ∷ b ∷ ip) v6_loopback
    || ((length ip == 14) && (a == 254) && (b / 64 == 2))
    || ((length ip == 14) && (a == 255) && (b % 16 == 2))
    || ((length ip == 14) && (a / 2 == 126))
    || same_bytes (a ∷ b ∷ ip) v6_unspecified
is_special _ = false

-- block.Contains: the addresses agree on the leading bits.
unfoldable pub in_block : Ip → ℕ → Ip → Bool
in_block [] bits [] = true
in_block (n ∷ net) bits (b ∷ ip) =
    (if leb 8 bits then n == b else n / 2 ^ (8 - bits) == b / 2 ^ (8 - bits))
    && in_block net (bits - 8) ip
in_block _ _ _ = false

unfoldable pub private_ip_blocks : List (Ip × ℕ)
private_ip_blocks =
    (127 ∷ 0 ∷ 0 ∷ 0 ∷ [], 8)
    ∷ (10 ∷ 0 ∷ 0 ∷ 0 ∷ [], 8)
    ∷ (172 ∷ 16 ∷ 0 ∷ 0 ∷ [], 12)
    ∷ (192 ∷ 168 ∷ 0 ∷ 0 ∷ [], 16)
    ∷ (169 ∷ 254 ∷ 0 ∷ 0 ∷ [], 16)
    ∷ (0 ∷ 0 ∷ 0 ∷ 0 ∷ [], 8)
    ∷ (224 ∷ 0 ∷ 0 ∷ 0 ∷ [], 4)
    ∷ (240 ∷ 0 ∷ 0 ∷ 0 ∷ [], 4)
    ∷ (255 ∷ 255 ∷ 255 ∷ 255 ∷ [], 32)
    ∷ (v6_loopback, 128)
    ∷ (252 ∷ 0 ∷ 0 ∷ 0 ∷ 0 ∷ 0 ∷ 0 ∷ 0 ∷ 0 ∷ 0 ∷ 0 ∷ 0 ∷ 0 ∷ 0 ∷ 0 ∷ 0 ∷ [], 7)
    ∷ (254 ∷ 128 ∷ 0 ∷ 0 ∷ 0 ∷ 0 ∷ 0 ∷ 0 ∷ 0 ∷ 0 ∷ 0 ∷ 0 ∷ 0 ∷ 0 ∷ 0 ∷ 0 ∷ [], 10)
    ∷ (255 ∷ 0 ∷ 0 ∷ 0 ∷ 0 ∷ 0 ∷ 0 ∷ 0 ∷ 0 ∷ 0 ∷ 0 ∷ 0 ∷ 0 ∷ 0 ∷ 0 ∷ 0 ∷ [], 8)
    ∷ (v6_unspecified, 128)
    ∷ []

unfoldable pub in_any_block : Ip → List (Ip × ℕ) → Bool
in_any_block ip [] = false
in_any_block ip ((net, bits) ∷ blocks) =
    if in_block net bits ip then true else in_any_block ip blocks

-- A nil address is `none`.
unfoldable pub is_private_ip : Option Ip → Bool
is_private_ip none = true
is_private_ip (some ip) =
    let normal = or_self ip (to4 ip) in
    if is_special normal then true else in_any_block normal private_ip_blocks

pub record SafeHttpClientOptions : Type 0 where
  pub allowed_schemes : List Str
  pub block_private : Bool
  pub max_redirects : ℤ

-- What url.Parse gives: the scheme and the host name.
pub record Url : Type 0 where
  pub scheme : Str
  pub hostname : Str

pub data SsrfError : Type 0 where
  url_empty : SsrfError
  invalid_url : SsrfError
  scheme_not_allowed : Str → SsrfError
  invalid_host : SsrfError
  private_ip_blocked : SsrfError
  too_many_redirects : SsrfError
  redirect_to_forbidden : SsrfError → SsrfError

unfoldable pub scheme_allowed : Str → List Str → Bool
scheme_allowed scheme [] = false
scheme_allowed scheme (s ∷ schemes) =
    if equal_fold scheme s then true else scheme_allowed scheme schemes

-- An address that is one, and private where these are blocked.
unfoldable pub is_blocked : Bool → Option Ip → Bool
is_blocked block_private none = false
is_blocked block_private (some ip) = block_private && is_private_ip (some ip)

-- The options behind the defaults that NewSafeHTTPClient sets.
unfoldable pub with_defaults : SafeHttpClientOptions → SafeHttpClientOptions
with_defaults opts = record {
  allowed_schemes =
      if is_empty opts.allowed_schemes then codes "https" ∷ [] else opts.allowed_schemes;
  block_private = opts.block_private;
  max_redirects = if leb_ℤ opts.max_redirects (pos 0) then pos 3 else opts.max_redirects;
}

abbrev parsed : Option Url → Result SsrfError Url
parsed none = err invalid_url
parsed (some u) = ok u

module _ (parse_url : Str → Option Url) (parse_ip : Str → Option Ip) where
  unfoldable pub validate_url : Str → SafeHttpClientOptions → Result SsrfError Url
  validate_url raw_url opts = do
    guard (not (is_empty raw_url)) url_empty
    u ← parsed (parse_url raw_url)
    guard (scheme_allowed u.scheme opts.allowed_schemes) (scheme_not_allowed u.scheme)
    guard (not (is_empty u.hostname)) invalid_host
    guard (not (is_blocked opts.block_private (parse_ip u.hostname))) private_ip_blocked
    ok u

  abbrev redirect_result : Result SsrfError Url → Option SsrfError
  redirect_result (ok u) = none
  redirect_result (err e) = some (redirect_to_forbidden e)

  -- CheckRedirect, with the number of requests made so far; `none` lets the redirect pass.
  unfoldable pub check_redirect : SafeHttpClientOptions → Str → ℕ → Option SsrfError
  unfolding validate_url
  check_redirect opts url via =
      if leb_ℤ opts.max_redirects (pos via)
      then some too_many_redirects
      else redirect_result (validate_url url opts)

-- The dialer's Control, on the address of a connection as net.ParseIP reads it.
unfoldable pub dial_control : SafeHttpClientOptions → Option Ip → Option SsrfError
unfolding is_blocked
dial_control opts ip = if is_blocked opts.block_private ip then some private_ip_blocked else none

-- A request of a download: its URL and the address its connection goes to.
pub record Hop : Type 0 where
  pub url : Str
  pub ip : Option Ip

abbrev pub first_error : Option SsrfError → Option SsrfError → Option SsrfError
first_error none later = later
first_error (some e) later = some e

module _ (parse_url : Str → Option Url) (parse_ip : Str → Option Ip) where
  unfoldable pub hop_check : SafeHttpClientOptions → ℕ → Hop → Option SsrfError
  unfolding check_redirect dial_control
  hop_check opts zero hop = dial_control opts hop.ip
  hop_check opts (suc via) hop =
      first_error (check_redirect parse_url parse_ip opts hop.url (suc via))
        (dial_control opts hop.ip)

  -- The requests that the client makes one after the other, each behind a redirect but the first.
  unfoldable pub fetch_hops : SafeHttpClientOptions → ℕ → List Hop → Option SsrfError
  unfolding hop_check
  fetch_hops opts via [] = none
  fetch_hops opts via (hop ∷ hops) =
      first_error (hop_check opts via hop) (fetch_hops opts (suc via) hops)
