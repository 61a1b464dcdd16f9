-- ===== src/Security/Tests.antt =====
-- Tests of internal/security, and its theorems at concrete inputs.
use mcp_execmesh.Base.{
  ◌≡◌, refl, ◌↔◌, ◌⊎◌, ◌≤◌, ◌+◌, ◌*◌, true, false, none, some, List, [], ◌∷◌, arith, ℕ, Str, codes,
  str_eq, has_prefix, has_suffix, contains, trim_space, trim_left, to_lower, split, split_first,
  join, member, set_add, lookup, insert, In, Any, pos, ◌+ℤ◌,
}
use mcp_execmesh.Security.Scope.{
  Principal, missing_scope, target_denied, scope_exec_run, scope_jobs_read, scope_admin_targets,
  is_unrestricted, has_scope, allows_target, authorize, authorize_any,
}
use mcp_execmesh.Security.Access.{IsUnrestricted, CoversTarget, authorize_iff, authorize_any_iff}
use mcp_execmesh.Security.Path.{
  is_abs, pop_part, push_part, resolve_parts, segments, clean, file_join, with_slash, under_prefix,
  under_any, is_path_allowed, clean_and_validate_path,
}
use mcp_execmesh.Security.Path.Allowed.{Covers, is_path_allowed_iff}
use mcp_execmesh.Security.RateLimit.{
  token, RateLimiter, new_rate_limiter, refill, take_token, use_bucket, allow,
}
use mcp_execmesh.Security.RateLimit.Window.{
  after_requests, passed, passed-window, allow-after_refill,
}

text : Unit {0}
unfolding str_eq has_prefix has_suffix contains trim_space trim_left to_lower split split_first join
    member set_add lookup insert
text = tt

paths : Unit {0}
unfolding text is_abs pop_part push_part resolve_parts segments clean file_join with_slash
    under_prefix under_any is_path_allowed clean_and_validate_path
paths = tt

abbrev operator : Principal
operator = record {
  id = codes "cap-1";
  subject = codes "chatgpt";
  auth_type = codes "capability";
  remote_ip = codes "10.0.0.9";
  scopes = scope_exec_run ∷ scope_jobs_read ∷ [];
  targets = codes "web-01" ∷ [];
}

authorize_tests :
    (authorize (some operator) scope_exec_run (codes "web-01") ≡ none)
    × (authorize (some operator) scope_exec_run (codes "db-01")
        ≡ some (target_denied (codes "db-01")))
    × (authorize (some operator) scope_admin_targets [] ≡ some (missing_scope scope_admin_targets))
unfolding authorize is_unrestricted has_scope allows_target text
authorize_tests = (refl, refl, refl)

authorize_iff_example : (authorize (some operator) scope_exec_run (codes "web-01") ≡ none) ↔ (
    IsUnrestricted operator
    ⊎ (In scope_exec_run operator.scopes × CoversTarget operator (codes "web-01")))
authorize_iff_example = authorize_iff operator scope_exec_run (codes "web-01")

authorize_any_iff_example :
    (authorize_any (some operator) (codes "web-01") (scope_admin_targets ∷ scope_jobs_read ∷ [])
      ≡ none)
    ↔ Any
        (λ s. authorize (some operator) s (codes "web-01") ≡ none)
        (scope_admin_targets ∷ scope_jobs_read ∷ [])
unfolding is_unrestricted text
authorize_any_iff_example =
    authorize_any_iff operator (codes "web-01") (scope_admin_targets ∷ scope_jobs_read ∷ []) refl

path_tests :
    (clean (codes "/srv/../etc//./x/") ≡ codes "/etc/x")
    × (is_path_allowed (codes "/srv/app/../app/a") (codes "/srv/app/" ∷ []) ≡ true)
    × (is_path_allowed (codes "/srv/application") (codes "/srv/app" ∷ []) ≡ false)
    × (is_path_allowed (codes "/srv/app/../../etc") (codes "/srv/app" ∷ []) ≡ false)
    × (clean_and_validate_path (codes "../../etc") (codes "/srv/app") ≡ codes "/etc")
    × (clean_and_validate_path (codes "../x") [] ≡ codes "/../x")
unfolding paths
path_tests = (refl, refl, refl, refl, refl, refl)

is_path_allowed_iff_example :
    (is_path_allowed (codes "/srv/app/a") (codes "/srv/app/" ∷ []) ≡ true) ↔ (
      (is_abs (codes "/srv/app/a") ≡ true)
      × ((codes "/srv/app/" ∷ [] ≡ [])
          ⊎ Any (Covers (codes "/srv/app/a")) (codes "/srv/app/" ∷ [])))
is_path_allowed_iff_example = is_path_allowed_iff (codes "/srv/app/a") (codes "/srv/app/" ∷ [])

-- Two requests at once, of a burst of one, and a third a minute later; another key is in between.
abbrev requests : List (Str × ℕ)
requests =
    (codes "id:a", 5) ∷ (codes "id:a", 5) ∷ (codes "id:b", 6) ∷ (codes "id:a", 60000000005) ∷ []

limiter_test : passed (codes "id:a") (new_rate_limiter (pos 1) (pos 1)) requests ≡ 2
unfolding passed new_rate_limiter allow use_bucket take_token refill ◌+ℤ◌ text
limiter_test = refl

passed-window_example :
    passed
          (codes "id:a")
          (after_requests (new_rate_limiter (pos 1) (pos 1)) ((codes "id:a", 2) ∷ []))
          requests
        * token
      + 5 * 1
    ≤ (new_rate_limiter (pos 1) (pos 1)).burst * token + 60000000005 * 1
passed-window_example =
    passed-window (codes "id:a") (pos 1) (pos 1) 5 60000000005 ((codes "id:a", 2) ∷ []) requests
      (omega arith) (omega arith) (omega arith)

abbrev drained : RateLimiter
drained = record {
  buckets = (codes "id:a", record { tokens = pos 0; last = 5 }) ∷ [];
  per_minute = 1;
  burst = 1;
  disabled = false;
}

allow-after_refill_example : (allow drained (codes "id:a") 60000000005).1 ≡ true
unfolding text
allow-after_refill_example =
    allow-after_refill drained (codes "id:a") 60000000005 (record { tokens = pos 0; last = 5 }) refl
      (omega arith) refl (omega arith)
