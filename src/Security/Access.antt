-- ===== src/Security/Access.antt =====
-- What Authorize and AuthorizeAny of internal/security/scope.go let through.
use mcp_execmesh.Base.{
  ◌≡◌, refl, ◌≢◌, ◌↔◌, ◌⊎◌, inl, inr, true, false, Option, none, some, List, [], ◌∷◌, arith, Str,
  codes, str_eq_iff, member_iff, In, Any, Bool-cases, Option-cases,
}
use mcp_execmesh.Security.Scope.{
  Principal, AuthError, missing_scope, missing_scopes, target_denied, is_unrestricted, has_scope,
  allows_target, authorize, authorize_loop, authorize_any, is_target_denied,
}

-- The principal's grants set no limit: no authentication at all, or no grant of any kind.
abbrev pub IsUnrestricted : Principal → Type 0
IsUnrestricted p = (p.auth_type ≡ codes "none") ⊎ ((p.scopes ≡ []) × (p.targets ≡ []))

-- The target may be named: none is, or all are granted, or this one is.
abbrev pub CoversTarget : Principal → Str → Type 0
CoversTarget p target_id = (target_id ≡ []) ⊎ (In (codes "*") p.targets ⊎ In target_id p.targets)

pub is_unrestricted_iff : (p : Principal) → (is_unrestricted p ≡ true) ↔ IsUnrestricted p
unfolding is_unrestricted
is_unrestricted_iff p = ground (arith, str_eq_iff p.auth_type (codes "none"))

-- Authorize returns nil exactly when the principal is unrestricted, or holds the scope and covers
-- the target.
pub authorize_iff :
    (p : Principal) (scope target_id : Str)
    → (authorize (some p) scope target_id ≡ none)
      ↔ (IsUnrestricted p ⊎ (In scope p.scopes × CoversTarget p target_id))
unfolding authorize has_scope allows_target
authorize_iff p scope target_id = ground (
  arith,
  is_unrestricted_iff p,
  member_iff scope p.scopes,
  member_iff (codes "*") p.targets,
  member_iff target_id p.targets,
)

-- A target that is refused under one scope is refused under every scope.
authorize_denied :
    (p : Principal) (s t target_id e : Str)
    → authorize (some p) s target_id ≡ some (target_denied e)
    → authorize (some p) t target_id ≢ none
unfolding authorize has_scope allows_target
authorize_denied p s t target_id e h = ground arith

-- So no scope of a list lets it through.
denied-not-Any :
    (p : Principal) (s target_id e : Str) (ss : List Str)
    → authorize (some p) s target_id ≡ some (target_denied e)
    → ¬ Any (λ t. authorize (some p) t target_id ≡ none) ss
denied-not-Any p s target_id e (t ∷ ts) h (inl a) = authorize_denied p s t target_id e h a
denied-not-Any p s target_id e (t ∷ ts) h (inr a) = denied-not-Any p s target_id e ts h a
denied-not-Any p s target_id e [] h a = a

eq-target_denied : (e : AuthError) → is_target_denied e ≡ true → (t : Str) × (e ≡ target_denied t)
eq-target_denied (target_denied t) h = (t, refl)
eq-target_denied (missing_scope s) h = cc
eq-target_denied (missing_scopes ss) h = cc

authorize_loop_iff :
    (p : Principal) (target_id : Str) (ss : List Str) (last : Option AuthError)
    → (authorize_loop (some p) target_id ss last ≡ none)
      ↔ (((ss ≡ []) × (last ≡ none)) ⊎ Any (λ s. authorize (some p) s target_id ≡ none) ss)
unfolding authorize_loop
authorize_loop_iff p target_id [] last = ground arith
authorize_loop_iff p target_id (s ∷ ss) last =
    elim (Option-cases (authorize (some p) s target_id)) [
      | inl pass ↦ ground arith
      | inr (e, refused) ↦ elim (Bool-cases (is_target_denied e)) [
        | inl denied ↦
            let (t, same) = eq-target_denied e denied in
            ground (arith, denied-not-Any p s target_id t (s ∷ ss) (ground arith))
        | inr other ↦ ground (arith, authorize_loop_iff p target_id ss (some e))
      ]
    ]

-- For a restricted principal, AuthorizeAny returns nil exactly when Authorize does for one of the
-- scopes: leaving the loop at the first refused target loses nothing.
pub authorize_any_iff :
    (p : Principal) (target_id : Str) (ss : List Str)
    → is_unrestricted p ≡ false
    → (authorize_any (some p) target_id ss ≡ none)
      ↔ Any (λ s. authorize (some p) s target_id ≡ none) ss
unfolding authorize_any
authorize_any_iff p target_id [] h = ground arith
authorize_any_iff p target_id (s ∷ ss) h =
    ground (arith, authorize_loop_iff p target_id (s ∷ ss) none)
