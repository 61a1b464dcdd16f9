-- ===== src/Security/Middleware/Served.antt =====
-- Which requests the handlers of internal/security/middleware.go pass on.
use mcp_execmesh.Base.{
  arith, ok-injective, >>=-eq-ok, guard, guard-eq-ok, str_eq, str_eq_eq, subst, not, ap, sym, ◌≡◌,
  refl, ◌∙◌, ◌⊎◌, inl, inr, ◌↔◌, ℕ, Bool, true, false, ◌||◌, Option, none, some, Str, codes,
  is_empty, contains, Bool-cases, Option-cases, Result-cases, ok,
}
use mcp_execmesh.Security.Scope.{Principal}
use mcp_execmesh.Security.RateLimit.{RateLimiter, allow}
use mcp_execmesh.Security.Credentials.{Manager, CapabilityFileEntry, BearerFileEntry, FileRead}
use mcp_execmesh.Security.Registry.{reload, verify_capability, verify_bearer}
use mcp_execmesh.Security.Registry.Verified.{Grantor, verify_capability-Grantor}
use mcp_execmesh.Security.Requests.{
  none_authenticator, bearer_authenticator, api_key_authenticator, AuthFailure,
  missing_authorization, invalid_authorization, invalid_bearer_token, missing_api_key,
  invalid_api_key, or_failure, api_key_of, bearer_token, principal_without_grants, Request,
  Authenticator, authenticate, extract_bearer_or_api_key, parse_capability_path,
}
use mcp_execmesh.Security.Middleware.{
  Response, not_found, unauthorized, passed, rate_limit_key, limited, capability_response,
  capability_auth, attach, registry_principal, is_refused, fall_back, bearer_auth,
}

limited-passed :
    (x : RateLimiter × Bool) (response : Response) {p : Option Principal} {q : Request}
    → (limited x response).1 ≡ passed p q
    → (x.1 ≡ true) × (response ≡ passed p q)
limited-passed (l, true) response h = (refl, h)
limited-passed (l, false) response h = absurd cc

rejected-ne-passed :
    (x : RateLimiter × Bool) {p : Option Principal} {q : Request}
    → (limited x unauthorized).1 ≡ passed p q
    → ⊥
rejected-ne-passed (l, true) h = cc
rejected-ne-passed (l, false) h = cc

none-ne-some : {A : Type 0} {a : A} → Path (Option A) none (some a) → ⊥
none-ne-some h = cc

some-injective : {A : Type 0} {a b : A} → Path (Option A) (some a) (some b) → a ≡ b
some-injective h = cc

not_found-ne-passed : {p : Option Principal} {q : Request} → not_found ≡ passed p q → ⊥
not_found-ne-passed h = cc

passed-injective :
    {p p₁ : Option Principal} {q q₁ : Request} → passed p₁ q₁ ≡ passed p q → (p ≡ p₁) × (q ≡ q₁)
passed-injective h = (cc, cc)

-- Whether a query names a token.
abbrev pub names_token : Str → Bool
names_token query = contains query (codes "token=") || contains query (codes "capability=")

-- The registry knows the token of a request.
abbrev pub IsKnown : (Str → Str) → Option Manager → ℕ → Request → Principal → Type 0
IsKnown hash m later r p =
    (mgr : Manager) × (m ≡ some mgr)
    × (is_empty (extract_bearer_or_api_key r) ≡ false)
    × (verify_bearer hash mgr later (extract_bearer_or_api_key r) r.remote_addr ≡ ok p)

or_failure-ok : (e : AuthFailure) (o : Option Str) {s : Str} → or_failure e o ≡ ok s → o ≡ some s
or_failure-ok e none h = absurd cc
or_failure-ok e (some s) h = cc

-- The request presents what an authenticator wants, and the principal is that authenticator's.
abbrev pub Presents : Authenticator → Request → Principal → Type 0
Presents none_authenticator r p =
    p ≡ principal_without_grants (codes "anonymous") (codes "none") r.remote_addr
Presents (bearer_authenticator expected) r p =
    (bearer_token r.authorization ≡ some expected)
    × (p ≡ principal_without_grants (codes "bearer-user") (codes "bearer") r.remote_addr)
Presents (api_key_authenticator expected) r p =
    (api_key_of r ≡ expected)
    × (is_empty expected ≡ false)
    × (p ≡ principal_without_grants (codes "api-key-user") (codes "api_key") r.remote_addr)

-- The fallback accepts a request: there is no registry, or the request holds no token, or the fallback asks for
-- none.
abbrev pub FellBack : Option Manager → Option Authenticator → Request → Principal → Type 0
FellBack m fallback r p =
    (a : Authenticator) × (fallback ≡ some a)
    × ((m ≡ none) ⊎ (is_empty (extract_bearer_or_api_key r) ≡ true) ⊎ (a ≡ none_authenticator))
    × Presents a r p

is_refused-no :
    (m : Option Manager) (a : Authenticator) (r : Request)
    → is_refused m a r ≡ false
    → (m ≡ none) ⊎ (is_empty (extract_bearer_or_api_key r) ≡ true) ⊎ (a ≡ none_authenticator)
unfolding is_refused
is_refused-no none a r h = inl refl
is_refused-no (some m) none_authenticator r h = inr (inr refl)
is_refused-no (some m) (bearer_authenticator e) r h = inr (inl (ground arith))
is_refused-no (some m) (api_key_authenticator e) r h = inr (inl (ground arith))

authenticate-Presents :
    (a : Authenticator) (r : Request) (p : Principal) → authenticate a r ≡ ok p → Presents a r p
unfolding authenticate
authenticate-Presents none_authenticator r p h = sym (ok-injective h)
authenticate-Presents (bearer_authenticator expected) r p h =
    let (_, _, h₁) = >>=-eq-ok (guard (not (is_empty r.authorization)) missing_authorization) _ h in
    let (token, given, h₂) =
      >>=-eq-ok (or_failure invalid_authorization (bearer_token r.authorization)) _ h₁ in
    let (_, same, h₃) = >>=-eq-ok (guard (str_eq token expected) invalid_bearer_token) _ h₂ in
    (
      or_failure-ok _ (bearer_token r.authorization) given
          ∙ ap some (str_eq_eq token expected (guard-eq-ok _ _ same)),
      sym (ok-injective h₃),
    )
authenticate-Presents (api_key_authenticator expected) r p h =
    let (_, given, h₁) = >>=-eq-ok (guard (not (is_empty (api_key_of r))) missing_api_key) _ h in
    let (_, same, h₂) = >>=-eq-ok (guard (str_eq (api_key_of r) expected) invalid_api_key) _ h₁ in
    let key = str_eq_eq (api_key_of r) expected (guard-eq-ok _ _ same) in
    (
      key,
      subst (λ k. is_empty k ≡ false) key
          (not_true (is_empty (api_key_of r)) (guard-eq-ok _ _ given)),
      sym (ok-injective h₂),
    )
  where
    not_true : (b : Bool) → not b ≡ true → b ≡ false
    not_true b e = ground arith

module _ (split_host_port : Str → Option Str) (hash : Str → Str) where
  -- What CapabilityAuth demands of a request that it passes on, and what the request becomes.
  pub record IsVerified (m : Manager) (l : RateLimiter) (now later : ℕ) (r : Request)
      (p : Option Principal) (q : Request) : Type 0 where
    pub in_limit : (allow l (rate_limit_key split_host_port none r) now).1 ≡ true
    pub no_token : names_token r.raw_query ≡ false
    pub token : Str
    pub in_path : parse_capability_path r.path ≡ some token
    pub principal : Principal
    pub verified : verify_capability hash m later token r.remote_addr ≡ ok principal
    pub given : p ≡ some principal
    pub request : q ≡ record r { path = codes "/mcp" }

  -- CapabilityAuth passes a request on exactly if the limiter lets it in, its query names no token, its path
  -- holds a capability and the registry accepts it; the request then has the path /mcp and the principal of
  -- that capability.
  pub capability_auth-IsVerified :
      (m : Manager) (l : RateLimiter) (now later : ℕ) (r : Request) (p : Option Principal)
      (q : Request)
      → ((capability_auth split_host_port hash m l now later r).1 ≡ passed p q)
        ↔ IsVerified m l now later r p q
  unfolding capability_auth capability_response
  capability_auth-IsVerified m l now later r p q = (sound, complete)
    where
      sound :
          (capability_auth split_host_port hash m l now later r).1 ≡ passed p q
          → IsVerified m l now later r p q
      sound h =
          let (inside, e) =
            limited-passed (allow l (rate_limit_key split_host_port none r) now)
              (capability_response hash m later r) h in
          elim (Bool-cases (names_token r.raw_query)) [
            | inl named ↦ absurd (not_found-ne-passed (rw named at e))
            | inr free ↦ elim (Option-cases (parse_capability_path r.path)) [
              | inl missing ↦ absurd (not_found-ne-passed (rw (free, missing) at e))
              | inr (token, found) ↦
                  elim (Result-cases (verify_capability hash m later token r.remote_addr)) [
                    | inl (pr, v) ↦
                        let (same, moved) = passed-injective (rw (free, found, v) at e) in
                        record {
                          in_limit = inside;
                          no_token = free;
                          token = token;
                          in_path = found;
                          principal = pr;
                          verified = v;
                          given = same;
                          request = moved;
                        }
                    | inr (x, v) ↦ absurd (not_found-ne-passed (rw (free, found, v) at e))
                  ]
            ]
          ]

      complete :
          IsVerified m l now later r p q
          → (capability_auth split_host_port hash m l now later r).1 ≡ passed p q
      complete v = rw (v.in_limit, v.no_token, v.in_path, v.verified, v.given, v.request) refl

  -- After a Reload that succeeds, a request that CapabilityAuth passes on has a capability in its path that
  -- an enabled entry of the capability file lists and that has not expired, and carries that entry's scopes
  -- and targets.
  pub capability_auth-Grantor :
      (parse_time : Str → Option ℕ) (read_capabilities : Str → FileRead CapabilityFileEntry)
      (read_bearers : Str → FileRead BearerFileEntry) (m : Manager) (l : RateLimiter)
      (now later : ℕ) (r : Request) (p : Option Principal) (q : Request)
      → (reload parse_time hash read_capabilities read_bearers m).1 ≡ none
      → (capability_auth split_host_port hash
          (reload parse_time hash read_capabilities read_bearers m).0
          l
          now
          later
          r).1
        ≡ passed p q
      → (token : Str) × (parse_capability_path r.path ≡ some token)
        × ((principal : Principal) × (p ≡ some principal)
            × Grantor parse_time hash read_capabilities read_bearers m later token principal)
  capability_auth-Grantor parse_time read_capabilities read_bearers m l now later r p q done h =
      let v =
        (capability_auth-IsVerified (reload parse_time hash read_capabilities read_bearers m).0 l
            now later r p q).0
          h in
      (
        v.token,
        v.in_path,
        (
          v.principal,
          v.given,
          verify_capability-Grantor parse_time hash read_capabilities read_bearers m later v.token
              r.remote_addr v.principal done v.verified,
        ),
      )

  registry_principal-IsKnown :
      (m : Option Manager) (later : ℕ) (r : Request) (p : Principal)
      → registry_principal hash m later r ≡ some p
      → IsKnown hash m later r p
  unfolding registry_principal
  registry_principal-IsKnown none later r p h = absurd cc
  registry_principal-IsKnown (some m) later r p h =
      elim (Bool-cases (is_empty (extract_bearer_or_api_key r))) [
        | inl nil ↦ absurd (none-ne-some (rw nil at h))
        | inr given ↦
            elim (Result-cases
              (verify_bearer hash m later (extract_bearer_or_api_key r) r.remote_addr)) [
                | inl (pr, v) ↦ (m, refl, given, v ∙ ap ok (some-injective (rw (given, v) at h)))
                | inr (x, v) ↦ absurd (none-ne-some (rw (given, v) at h))
              ]
      ]

  attach-passed :
      (l : RateLimiter) (now : ℕ) (r : Request) (pr : Principal) {p : Option Principal}
      {q : Request}
      → (attach split_host_port hash l now r pr).1 ≡ passed p q
      → (q ≡ r) × (p ≡ some pr)
  attach-passed l now r pr h =
      let (_, e) =
        limited-passed (allow l (rate_limit_key split_host_port (some pr) r) now)
          (passed (some pr) r) h in
      let (same, moved) = passed-injective e in (moved, same)

  fall_back-FellBack :
      (m : Option Manager) (fallback : Option Authenticator) (l : RateLimiter) (now : ℕ)
      (r : Request) {p : Option Principal} {q : Request}
      → (fall_back split_host_port hash m fallback l now r).1 ≡ passed p q
      → (q ≡ r) × ((pr : Principal) × (p ≡ some pr) × FellBack m fallback r pr)
  unfolding fall_back
  fall_back-FellBack m none l now r h = absurd cc
  fall_back-FellBack m (some a) l now r h = elim (Bool-cases (is_refused m a r)) [
    | inl refused ↦
        absurd (
          rejected-ne-passed (allow l (rate_limit_key split_host_port none r) now)
            (rw refused at h))
    | inr tried ↦ elim (Result-cases (authenticate a r)) [
      | inl (pr, e) ↦
          let (moved, same) = attach-passed l now r pr (rw (tried, e) at h) in
          (moved, (pr, same, (a, refl, is_refused-no m a r tried, authenticate-Presents a r pr e)))
      | inr (x, e) ↦ absurd (
          rejected-ne-passed (allow l (rate_limit_key split_host_port none r) now)
            (rw (tried, e) at h))
    ]
  ]

  -- A request that BearerAuth passes on is unchanged and carries a principal: the one that the registry gives
  -- for the token that it holds, or the one of the fallback, if it presents what the fallback wants and
  -- there is no registry, or the request holds no token, or the fallback asks for none.
  pub bearer_auth-IsAuthenticated :
      (m : Option Manager) (fallback : Option Authenticator) (l : RateLimiter) (now later : ℕ)
      (r : Request) (p : Option Principal) (q : Request)
      → (bearer_auth split_host_port hash m fallback l later now r).1 ≡ passed p q
      → (q ≡ r)
        × ((pr : Principal) × (p ≡ some pr)
            × (IsKnown hash m later r pr ⊎ FellBack m fallback r pr))
  unfolding bearer_auth
  bearer_auth-IsAuthenticated m fallback l now later r p q h =
      elim (Option-cases (registry_principal hash m later r)) [
        | inl unknown ↦
            let (moved, (pr, same, f)) =
              fall_back-FellBack m fallback l now r (rw (bearer_auth, unknown) at h) in
            (moved, (pr, same, inr f))
        | inr (pr, known) ↦
            let (moved, same) = attach-passed l now r pr (rw (bearer_auth, known) at h) in
            (moved, (pr, same, inl (registry_principal-IsKnown m later r pr known)))
      ]
