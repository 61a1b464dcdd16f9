-- ===== src/Management/Changes.antt =====
-- How the operations of internal/management/service.go change the list of targets.
use mcp_execmesh.Base.{
  ◌≡◌, refl, sym, ◌∙◌, ap, subst, ◌≢◌, inl, inr, Bool, true, false, Option, none, some, List, [],
  ◌∷◌, map, arith, if◌then◌else◌, Str, str_eq, str_eq_iff, Bool-cases, Result, ok, err,
  ok-injective, err-ne-ok,
}
use mcp_execmesh.Security.Scope.{Principal, scope_admin_targets, authorize}
use mcp_execmesh.Target.Registry.{TargetConfig}
use mcp_execmesh.Management.{
  State, Env, ManageError, map_ok, change_first, set_enabled, without, removed, remove_target,
}
use mcp_execmesh.Management.Written.{IsWritten, mutate_targets-IsWritten}

-- The target that an id names: the first one that has it.
abbrev pub target_named : Str → List TargetConfig → Option TargetConfig
target_named id [] = none
target_named id (t ∷ ts) = if str_eq t.id id then some t else target_named id ts

map_ok-ok :
    {A B : Type 0} (f : A → B) (r : Result ManageError A) {b : B}
    → map_ok f r ≡ ok b
    → (a : A) × (r ≡ ok a) × (b ≡ f a)
map_ok-ok f (err e) h = absurd (err-ne-ok h)
map_ok-ok f (ok a) h = (a, refl, sym (ok-injective h))

-- One target became another with the same id; no other id names another target than before.
abbrev pub IsChanged :
    Str → TargetConfig → TargetConfig → List TargetConfig → List TargetConfig → Type 0
IsChanged id old new ts next =
    (target_named id ts ≡ some old)
    × (target_named id next ≡ some new)
    × ((other : Str) → other ≢ id → target_named other next ≡ target_named other ts)
    × (map (λ t. t.id) next ≡ map (λ t. t.id) ts)

module _ (id : Str) (f : TargetConfig → Result ManageError TargetConfig)
    (same_id : (t u : TargetConfig) → f t ≡ ok u → u.id ≡ t.id) where
  pub change_first-IsChanged :
      (ts next : List TargetConfig)
      → change_first id f ts ≡ ok next
      → (old : TargetConfig) × (new : TargetConfig) × (f old ≡ ok new)
        × IsChanged id old new ts next
  unfolding change_first
  change_first-IsChanged [] next h = absurd (err-ne-ok h)
  change_first-IsChanged (t ∷ ts) next h = elim (Bool-cases (str_eq t.id id)) [
    | inl found ↦
        let (u, made, e) = map_ok-ok (λ v. v ∷ ts) (f t) (rw found at h) in
        let kept = same_id t u made in
        let found₂ : str_eq u.id id ≡ true = ap (λ i. str_eq i id) kept ∙ found in
        (
          t,
          u,
          made,
          rw (e, found, found₂)
              (
                refl,
                refl,
                λ other n.
                    ground (
                      arith,
                      str_eq_iff t.id id,
                      str_eq_iff t.id other,
                      str_eq_iff u.id other,
                      kept,
                    ),
                ap (λ i. i ∷ map (λ x. x.id) ts) kept,
              ),
        )
    | inr different ↦
        let (us, made, e) = map_ok-ok (λ vs. t ∷ vs) (change_first id f ts) (rw different at h) in
        let (old, new, given, (before, behind, others, ids)) = change_first-IsChanged ts us made in
        (
          old,
          new,
          given,
          rw (e, different)
              (before, behind, λ other n. ground (arith, others other n), ap (λ is. t.id ∷ is) ids),
        )
  ]

without-others :
    (id other : Str) (ts : List TargetConfig)
    → other ≢ id
    → target_named other (without id ts).0 ≡ target_named other ts
unfolding without
without-others id other [] n = refl
without-others id other (t ∷ ts) n =
    ground (arith, str_eq_iff t.id id, str_eq_iff t.id other, without-others id other ts n)

without-gone : (id : Str) (ts : List TargetConfig) → target_named id (without id ts).0 ≡ none
unfolding without
without-gone id [] = refl
without-gone id (t ∷ ts) = ground (arith, without-gone id ts)

removed-ok :
    (id : Str) (r : List TargetConfig × Bool) {next : List TargetConfig}
    → removed id r ≡ ok next
    → (r.1 ≡ true) × (next ≡ r.0)
removed-ok id (out, true) h = (refl, sym (ok-injective h))
removed-ok id (out, false) h = absurd (err-ne-ok h)

module _ (env : Env) (s : State) (p : Option Principal) (id : Str) where
  -- EnableTarget and DisableTarget succeed only for a principal with admin:targets for the target. In what
  -- they write and load, the target has the new flag and nothing else changed, and every other id names
  -- what it named.
  pub set_enabled-IsChanged :
      (enabled : Bool)
      → (set_enabled env s p id enabled).1 ≡ none
      → (authorize p scope_admin_targets id ≡ none)
        × ((next : List TargetConfig) × (old : TargetConfig) × IsChanged id old
              (record old { enabled = some enabled })
              s.running.targets
              next
            × IsWritten env next (set_enabled env s p id enabled).0)
  unfolding set_enabled
  set_enabled-IsChanged enabled h =
      let f : TargetConfig → Result ManageError TargetConfig =
        λ t. ok (record t { enabled = some enabled }) in
      let (may, _, (next, made, stored)) =
        mutate_targets-IsWritten env s p id (change_first id f) h in
      let (old, new, given, changed) =
        change_first-IsChanged id f (λ t u e. sym (ap (λ v. v.id) (ok-injective e)))
          s.running.targets next made in
      (
        may,
        (
          next,
          old,
          subst (λ v. IsChanged id old v s.running.targets next) (sym (ok-injective given)) changed,
          stored,
        ),
      )

  -- RemoveTarget succeeds only for a principal with admin:targets for the target. What it writes and loads
  -- has no target with the id, and every other id names what it named.
  pub remove_target-gone :
      (remove_target env s p id).1 ≡ none
      → (authorize p scope_admin_targets id ≡ none)
        × ((next : List TargetConfig) × (target_named id next ≡ none)
            × ((other : Str)
                → other ≢ id
                → target_named other next ≡ target_named other s.running.targets)
            × IsWritten env next (remove_target env s p id).0)
  unfolding remove_target
  remove_target-gone h =
      let (may, _, (next, made, stored)) =
        mutate_targets-IsWritten env s p id (λ ts. removed id (without id ts)) h in
      let (_, e) = removed-ok id (without id s.running.targets) made in
      (
        may,
        (
          next,
          ap (target_named id) e ∙ without-gone id s.running.targets,
          λ other n. ap (target_named other) e ∙ without-others id other s.running.targets n,
          stored,
        ),
      )
