-- ===== src/Security/Ssrf/Hops.antt =====
-- Which requests the client of NewSafeHTTPClient of internal/security/ssrf.go makes.
use mcp_execmesh.Base.{
  ℕ, suc, ◌+◌, ◌≤◌, ◌<◌, ◌≡◌, sym, ◌∙◌, ◌⊎◌, Result-cases, ◌≢◌, ◌↔◌, true, false, Option, none,
  some, List, [], ◌∷◌, arith, Option-cases, inl, inr, Str, All, Any, length, equal_fold, pos_part,
  err-ne-ok, ok,
}
use mcp_execmesh.Security.Ssrf.{
  Ip, Url, SafeHttpClientOptions, scheme_allowed, is_blocked, is_private_ip, with_defaults,
  validate_url, check_redirect, dial_control, Hop, hop_check, fetch_hops,
}

-- A connection's address, where it is one, is not private if private addresses are blocked.
abbrev pub MayConnect : SafeHttpClientOptions → Option Ip → Type 0
MayConnect opts none = Unit
MayConnect opts (some ip) = (opts.block_private ≡ true) → is_private_ip (some ip) ≡ false

abbrev pub HasScheme : Str → List Str → Type 0
HasScheme scheme schemes = Any (λ s. equal_fold scheme s ≡ true) schemes

scheme_allowed_iff :
    (scheme : Str) (schemes : List Str)
    → (scheme_allowed scheme schemes ≡ true) ↔ HasScheme scheme schemes
unfolding scheme_allowed
scheme_allowed_iff scheme [] = ground arith
scheme_allowed_iff scheme (s ∷ schemes) = ground (arith, scheme_allowed_iff scheme schemes)

is_blocked_iff :
    (opts : SafeHttpClientOptions) (ip : Option Ip)
    → (is_blocked opts.block_private ip ≡ false) ↔ MayConnect opts ip
unfolding is_blocked
is_blocked_iff opts none = ground arith
is_blocked_iff opts (some ip) = ground arith

max_redirects-with_defaults :
    (opts : SafeHttpClientOptions) → 1 ≤ pos_part (with_defaults opts).max_redirects
unfolding with_defaults
max_redirects-with_defaults opts = ground arith

MayConnect-with_defaults :
    (opts : SafeHttpClientOptions) (ip : Option Ip)
    → MayConnect (with_defaults opts) ip ↔ MayConnect opts ip
unfolding with_defaults
MayConnect-with_defaults opts ip = (λ h. h, λ h. h)

module _ (parse_url : Str → Option Url) (parse_ip : Str → Option Ip) where
  -- A URL that parses, with an allowed scheme and a host, which is no blocked address.
  abbrev pub MayFetch : SafeHttpClientOptions → Str → Url → Type 0
  MayFetch opts url u =
      (url ≢ [])
      × (parse_url url ≡ some u)
      × HasScheme u.scheme opts.allowed_schemes
      × (u.hostname ≢ [])
      × MayConnect opts (parse_ip u.hostname)

  validate_url_iff :
      (url : Str) (opts : SafeHttpClientOptions) (u : Url)
      → (validate_url parse_url parse_ip url opts ≡ ok u) ↔ MayFetch opts url u
  unfolding validate_url
  validate_url_iff url opts u = elim (Option-cases (parse_url url)) [
    | inl e ↦ ground arith
    | inr (v, e) ↦ ground (
      arith,
      scheme_allowed_iff v.scheme opts.allowed_schemes,
      is_blocked_iff opts (parse_ip v.hostname),
    )
  ]

  -- A request behind a redirect.
  abbrev pub IsAllowedHop : SafeHttpClientOptions → Hop → Type 0
  IsAllowedHop opts hop = ((u : Url) × MayFetch opts hop.url u) × MayConnect opts hop.ip

  dial_control_iff :
      (opts : SafeHttpClientOptions) (ip : Option Ip)
      → (dial_control opts ip ≡ none) ↔ MayConnect opts ip
  unfolding dial_control
  dial_control_iff opts ip = ground (arith, is_blocked_iff opts ip)

  check_redirect_iff :
      (opts : SafeHttpClientOptions) (url : Str) (via : ℕ)
      → (check_redirect parse_url parse_ip opts url via ≡ none)
        ↔ ((via < pos_part opts.max_redirects) × ((u : Url) × MayFetch opts url u))
  unfolding check_redirect
  check_redirect_iff opts url via = elim (Result-cases (validate_url parse_url parse_ip url opts)) [
    | inl (u, e) ↦
        (λ h. (ground arith, (u, (validate_url_iff url opts u).0 e)), λ h. rw e (ground arith))
    | inr (failure, e) ↦ (
      λ h. absurd (ground arith),
      λ h. absurd (err-ne-ok (sym e ∙ (validate_url_iff url opts h.1.0).1 h.1.1)),
    )
  ]

  fetch_hops-redirects :
      (opts : SafeHttpClientOptions) (via : ℕ) (hops : List Hop)
      → (fetch_hops parse_url parse_ip opts (suc via) hops ≡ none) ↔ (
          ((hops ≡ []) ⊎ (suc via + length hops ≤ pos_part opts.max_redirects))
          × All (IsAllowedHop opts) hops)
  unfolding fetch_hops hop_check
  fetch_hops-redirects opts via [] = ground arith
  fetch_hops-redirects opts via (hop ∷ hops) = ground (
    arith,
    check_redirect_iff opts hop.url (suc via),
    dial_control_iff opts hop.ip,
    fetch_hops-redirects opts (suc via) hops,
  )

  -- A download succeeds in its requests exactly if these, with the first, are at most as many as the
  -- configured redirects (three if none are configured), every URL behind a redirect parses, has an allowed
  -- scheme (https if none are configured) and a host that is no blocked address, and, where private
  -- addresses are blocked, no connection goes to one. The first URL is not checked here.
  pub fetch_hops_iff :
      (opts : SafeHttpClientOptions) (hop : Hop) (hops : List Hop)
      → (fetch_hops parse_url parse_ip (with_defaults opts) 0 (hop ∷ hops) ≡ none) ↔ (
          MayConnect opts hop.ip
          × (suc (length hops) ≤ pos_part (with_defaults opts).max_redirects)
          × All (IsAllowedHop (with_defaults opts)) hops)
  unfolding fetch_hops hop_check
  fetch_hops_iff opts hop hops = ground (
    arith,
    dial_control_iff (with_defaults opts) hop.ip,
    fetch_hops-redirects (with_defaults opts) 0 hops,
    max_redirects-with_defaults opts,
    MayConnect-with_defaults opts hop.ip,
  )
