-- ===== src/Security/SsrfTests.antt =====
-- Tests of internal/security/ssrf.go, and its theorems at concrete inputs.
use mcp_execmesh.Base.{
  ◌≡◌, refl, ◌↔◌, true, false, none, some, Option, [], ◌∷◌, Str, codes, suc, pos, pos_part, ◌≤◌,
  err, arith, All, length, str_eq, to_lower, equal_fold,
}
use mcp_execmesh.Security.Ssrf.{
  Ip, Url, SafeHttpClientOptions, to4, is_special, in_block, private_ip_blocks, in_any_block,
  same_bytes, is_private_ip, scheme_allowed, is_blocked, with_defaults, validate_url,
  scheme_not_allowed, private_ip_blocked, too_many_redirects, check_redirect, dial_control, Hop,
  hop_check, fetch_hops,
}
use mcp_execmesh.Security.Ssrf.Addresses.{IsPublicV4, mapped, is_private_ip-v4_iff}
use mcp_execmesh.Security.Ssrf.Hops.{MayConnect, IsAllowedHop, fetch_hops_iff}

all_open : Unit {0}
unfolding str_eq to_lower equal_fold to4 is_special in_block private_ip_blocks in_any_block
    same_bytes is_private_ip scheme_allowed is_blocked with_defaults validate_url check_redirect
    dial_control hop_check fetch_hops
all_open = tt

abbrev link_local : Ip
link_local = 254 ∷ 128 ∷ 0 ∷ 0 ∷ 0 ∷ 0 ∷ 0 ∷ 0 ∷ 0 ∷ 0 ∷ 0 ∷ 0 ∷ 0 ∷ 0 ∷ 0 ∷ 1 ∷ []

abbrev opts : SafeHttpClientOptions
opts = record { allowed_schemes = []; block_private = true; max_redirects = pos 2 }

abbrev parse_url : Str → Option Url
parse_url _ = some (record { scheme = codes "https"; hostname = codes "files.example" })

abbrev no_ip : Str → Option Ip
no_ip _ = none

abbrev hop : Hop
hop = record { url = codes "https://files.example/a"; ip = some (93 ∷ 184 ∷ 215 ∷ 14 ∷ []) }

abbrev inner : Hop
inner = record { url = codes "https://files.example/a"; ip = some (mapped 127 0 0 1) }

ssrf_tests :
    (is_private_ip (some (10 ∷ 1 ∷ 2 ∷ 3 ∷ [])) ≡ true)
    × (is_private_ip (some (172 ∷ 32 ∷ 0 ∷ 1 ∷ [])) ≡ false)
    × (is_private_ip (some link_local) ≡ true)
    × (validate_url parse_url no_ip (codes "u") opts ≡ err (scheme_not_allowed (codes "https")))
    × (fetch_hops parse_url no_ip (with_defaults opts) 0 (hop ∷ hop ∷ []) ≡ none)
    × (fetch_hops parse_url no_ip (with_defaults opts) 0 (hop ∷ hop ∷ hop ∷ [])
        ≡ some too_many_redirects)
    × (fetch_hops parse_url no_ip (with_defaults opts) 0 (hop ∷ inner ∷ [])
        ≡ some private_ip_blocked)
unfolding all_open
ssrf_tests = (refl, refl, refl, refl, refl, refl, refl)

is_private_ip-v4_iff_example :
    ((is_private_ip (some (172 ∷ 32 ∷ 0 ∷ 1 ∷ [])) ≡ false) ↔ IsPublicV4 172 32)
    × (is_private_ip (some (mapped 172 32 0 1)) ≡ is_private_ip (some (172 ∷ 32 ∷ 0 ∷ 1 ∷ [])))
is_private_ip-v4_iff_example =
    is_private_ip-v4_iff 172 32 0 1 (omega arith) (omega arith) (omega arith) (omega arith)

fetch_hops_iff_example :
    (fetch_hops parse_url no_ip (with_defaults opts) 0 (hop ∷ hop ∷ []) ≡ none) ↔ (
      MayConnect opts hop.ip
      × (suc (length (hop ∷ [])) ≤ pos_part (with_defaults opts).max_redirects)
      × All (IsAllowedHop parse_url no_ip (with_defaults opts)) (hop ∷ []))
fetch_hops_iff_example = fetch_hops_iff parse_url no_ip opts hop (hop ∷ [])
