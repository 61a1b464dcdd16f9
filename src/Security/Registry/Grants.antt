-- ===== src/Security/Registry/Grants.antt =====
-- What the grants of an identity of internal/security/registry.go amount to: ScopeSet and TargetSet of
-- scope.go, seen through Authorize.
use mcp_execmesh.Base.{
  ◌≡◌, refl, ◌≢◌, ◌↔◌, ◌⊎◌, inl, true, false, Option, none, some, List, [], ◌∷◌, arith, ℕ, Str,
  codes, str_eq, str_eq_iff, member, set_add, member-set_add, In, All, All-In, ok, >>=-eq-ok,
}
use mcp_execmesh.Security.Scope.{
  Principal, missing_scope, data_plane_scopes, admin_scopes, scope_set_from, scope_set, target_set,
  authorize, is_unrestricted, has_scope, allows_target,
}
use mcp_execmesh.Security.Access.{IsUnrestricted, authorize_iff}
use mcp_execmesh.Security.Credentials.{CapabilityFileEntry, Identity}
use mcp_execmesh.Security.Registry.{
  full_access_identity, principal_of, capability_identity, parse_optional_time,
}

abbrev pub AreBlank : List Str → Type 0
AreBlank ss = All (λ s. s ≡ []) ss

scope_set_from-blank : (out ss : List Str) → AreBlank ss → scope_set_from out ss ≡ out
unfolding scope_set_from
scope_set_from-blank out [] h = refl
scope_set_from-blank out (s ∷ ss) h = rw h.0 (scope_set_from-blank out ss h.1)

set_add-ne-nil : (s : Str) (out : List Str) → set_add s out ≢ []
unfolding set_add member
set_add-ne-nil s [] = ground arith
set_add-ne-nil s (x ∷ out) = ground arith

scope_set_from-ne-nil : (out ss : List Str) → out ≢ [] → scope_set_from out ss ≢ []
unfolding scope_set_from
scope_set_from-ne-nil out [] h = h
scope_set_from-ne-nil out ([] ∷ ss) h = scope_set_from-ne-nil out ss h
scope_set_from-ne-nil out ((c ∷ s) ∷ ss) h =
    scope_set_from-ne-nil (set_add (c ∷ s) out) ss (set_add-ne-nil (c ∷ s) out)

-- The set is empty exactly when every name is.
scope_set_from-eq-nil_iff : (ss : List Str) → (scope_set_from [] ss ≡ []) ↔ AreBlank ss
scope_set_from-eq-nil_iff ss = (blank ss, scope_set_from-blank [] ss)
  where
    blank : (ts : List Str) → scope_set_from [] ts ≡ [] → AreBlank ts
    blank [] e = tt
    blank ([] ∷ ts) e = (refl, blank ts (unfold scope_set_from in e))
    blank ((c ∷ s) ∷ ts) e = absurd (
        scope_set_from-ne-nil (set_add (c ∷ s) []) ts (set_add-ne-nil (c ∷ s) [])
          (unfold scope_set_from in e))

-- A name is in the set exactly when it is listed and not empty.
pub In-scope_set_from_iff :
    (k : Str) (out ss : List Str)
    → (member k (scope_set_from out ss) ≡ true) ↔ ((member k out ≡ true) ⊎ ((k ≢ []) × In k ss))
unfolding scope_set_from
In-scope_set_from_iff k out [] = ground arith
In-scope_set_from_iff k out ([] ∷ ss) = ground (arith, In-scope_set_from_iff k out ss)
In-scope_set_from_iff k out ((c ∷ s) ∷ ss) = ground (
  arith,
  In-scope_set_from_iff k (set_add (c ∷ s) out) ss,
  member-set_add k (c ∷ s) out,
  str_eq_iff (c ∷ s) k,
)

-- The target list is there and holds only empty names.
abbrev pub AreBlankTargets : List Str → Type 0
AreBlankTargets ts = (ts ≢ []) × AreBlank ts

target_set-eq-nil_iff : (ts : List Str) → (target_set ts ≡ []) ↔ AreBlankTargets ts
unfolding target_set
target_set-eq-nil_iff [] = ground arith
target_set-eq-nil_iff (t ∷ ts) = ground (arith, scope_set_from-eq-nil_iff (t ∷ ts))

scope_set-eq-nil_iff : (ss : List Str) → (scope_set ss ≡ []) ↔ AreBlank ss
unfolding scope_set
scope_set-eq-nil_iff ss = scope_set_from-eq-nil_iff ss

module _ (parse_time : Str → Option ℕ) (ent : CapabilityFileEntry) (id : Identity) (ip : Str) where
  -- A capability has no limits exactly when all its scopes are empty names and its target list, which
  -- is not empty itself, holds only empty names.
  pub capability-IsUnrestricted_iff :
      capability_identity parse_time ent ≡ ok id
      → IsUnrestricted (principal_of id ip) ↔ (AreBlank ent.scopes × AreBlankTargets ent.targets)
  unfolding capability_identity
  capability-IsUnrestricted_iff e =
      let (exp, parsed, made) = >>=-eq-ok (parse_optional_time parse_time ent.expires_at) _ e in
      let scopes : id.scopes ≡ scope_set ent.scopes = cc made in
      let targets : id.targets ≡ target_set ent.targets = cc made in
      let type : id.auth_type ≡ codes "capability" = cc made in
      rw (scopes, targets, type)
        (ground (arith, scope_set-eq-nil_iff ent.scopes, target_set-eq-nil_iff ent.targets))

  -- A capability entry whose scopes are all blank, and whose targets are given and all blank, makes a principal
  -- that passes Authorize for every scope, the admin scopes too, and every target.
  pub blank_grants-authorize :
      capability_identity parse_time ent ≡ ok id
      → AreBlank ent.scopes
      → AreBlankTargets ent.targets
      → (scope target_id : Str) → authorize (some (principal_of id ip)) scope target_id ≡ none
  blank_grants-authorize e s t scope target_id =
      (authorize_iff (principal_of id ip) scope target_id).1
        (inl ((capability-IsUnrestricted_iff e).1 (s, t)))

-- Over the scopes of the source, by evaluation.
data_plane-members :
    All (λ s. member s (scope_set data_plane_scopes) ≡ true) data_plane_scopes
    × All (λ s. member s (scope_set data_plane_scopes) ≡ false) admin_scopes
unfolding scope_set scope_set_from set_add member str_eq
data_plane-members =
    ((refl, (refl, (refl, (refl, (refl, (refl, tt)))))), (refl, (refl, (refl, tt))))

all_targets : member (codes "*") (target_set (codes "*" ∷ [])) ≡ true
unfolding target_set scope_set_from set_add member str_eq
all_targets = refl

full_access-restricted :
    (name subject auth_type ip : Str)
    → auth_type ≢ codes "none"
    → is_unrestricted (principal_of (full_access_identity name subject auth_type) ip) ≡ false
unfolding is_unrestricted full_access_identity scope_set scope_set_from set_add member
full_access-restricted name subject auth_type ip h =
    ground (arith, str_eq_iff auth_type (codes "none"))

authorize_data_plane :
    (p : Principal) (scope target_id : Str)
    → is_unrestricted p ≡ false
    → member (codes "*") p.targets ≡ true
    → (member scope p.scopes ≡ true → authorize (some p) scope target_id ≡ none)
      × (member scope p.scopes ≡ false
          → authorize (some p) scope target_id ≡ some (missing_scope scope))
unfolding authorize has_scope allows_target
authorize_data_plane p scope target_id h star = ground arith

-- The legacy token of Reload passes for the data-plane scopes on every target, and is refused every
-- admin scope.
pub full_access-authorize :
    (name subject auth_type ip scope target_id : Str)
    → auth_type ≢ codes "none"
    → (In scope data_plane_scopes
        → authorize
            (some (principal_of (full_access_identity name subject auth_type) ip))
            scope
            target_id
          ≡ none)
      × (In scope admin_scopes
          → authorize
              (some (principal_of (full_access_identity name subject auth_type) ip))
              scope
              target_id
            ≡ some (missing_scope scope))
unfolding full_access_identity
full_access-authorize name subject auth_type ip scope target_id h =
    let p = principal_of (full_access_identity name subject auth_type) ip in
    let outcome =
      authorize_data_plane p scope target_id (full_access-restricted name subject auth_type ip h)
        all_targets in
    (
      λ i.
          outcome.0
            (All-In (λ s. member s p.scopes ≡ true) data_plane_scopes data_plane-members.0 i),
      λ i. outcome.1 (All-In (λ s. member s p.scopes ≡ false) admin_scopes data_plane-members.1 i),
    )
