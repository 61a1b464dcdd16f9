-- ===== src/Management/Written.antt =====
-- What the operations of internal/management/service.go leave in the targets file and running.
use mcp_execmesh.Base.{
  ◌≡◌, refl, sym, ◌∙◌, ap, subst, ◌⊎◌, inl, inr, true, not, Option, none, some, List, arith, Str,
  is_empty, trim_space, Bool-cases, Option-cases, Result-cases, Result, ok, guard, guard-eq-ok,
  >>=-eq-ok,
}
use mcp_execmesh.Security.Scope.{Principal, AuthError, scope_admin_targets, authorize}
use mcp_execmesh.Target.Registry.{TargetConfig}
use mcp_execmesh.Management.{
  State, Env, ManageError, lock_failed, no_targets_file, write_failed, reload_failed,
  strip_resolved_auth, commit, committed, authorized, next_targets, mutate_targets,
}

-- The file holds the targets without the credentials they refer to, and what it was loaded into runs.
abbrev pub IsWritten : Env → List TargetConfig → State → Type 0
IsWritten env next after =
    (after.stored ≡ strip_resolved_auth next)
    × (env.reload (strip_resolved_auth next) ≡ some after.running)

-- A failure keeps what runs. The file keeps its content, or holds what a failed write left, or the new
-- targets if the reload failed.
abbrev pub IsKept : Env → State → List TargetConfig → ManageError → State → Type 0
IsKept env s next e after =
    (after.running ≡ s.running)
    × ((after.stored ≡ s.stored)
        ⊎ ((e ≡ write_failed) × (env.write_left ≡ some after.stored))
        ⊎ ((e ≡ reload_failed) × (after.stored ≡ strip_resolved_auth next)))

pub commit-IsWritten :
    (env : Env) (s : State) (next : List TargetConfig)
    → (commit env s next).1 ≡ none
    → IsWritten env next (commit env s next).0
unfolding commit
commit-IsWritten env s next h = elim (Bool-cases env.backed_up) [
  | inr off ↦ absurd (ground arith)
  | inl on ↦ elim (Option-cases env.write_left) [
    | inr (left, w) ↦ absurd (ground arith)
    | inl w ↦ elim (Option-cases (env.reload (strip_resolved_auth next))) [
      | inl r ↦ absurd (ground arith)
      | inr (cfg, r) ↦ rw (on, w, r) (refl, refl)
    ]
  ]
]

pub commit-IsKept :
    (env : Env) (s : State) (next : List TargetConfig) (e : ManageError)
    → (commit env s next).1 ≡ some e
    → IsKept env s next e (commit env s next).0
unfolding commit
commit-IsKept env s next e h = elim (Bool-cases env.backed_up) [
  | inr off ↦ rw off (refl, inl refl)
  | inl on ↦ elim (Option-cases env.write_left) [
    | inr (left, w) ↦ rw (on, w) (refl, inr (inl (ground arith, refl)))
    | inl w ↦ elim (Option-cases (env.reload (strip_resolved_auth next))) [
      | inl r ↦ rw (on, w, r) (refl, inr (inr (ground arith, refl)))
      | inr (cfg, r) ↦ absurd (ground arith)
    ]
  ]
]

pub authorized-ok : (e : Option AuthError) → authorized e ≡ ok tt → e ≡ none
authorized-ok none h = refl
authorized-ok (some e) h = absurd cc

module _ (env : Env) (s : State) (p : Option Principal) (id : Str)
    (fn : List TargetConfig → Result ManageError (List TargetConfig)) where
  abbrev after : State × Option ManageError
  after = mutate_targets env s p id fn

  next_targets-ok :
      (next : List TargetConfig)
      → next_targets env s p id fn ≡ ok next
      → (authorize p scope_admin_targets id ≡ none)
        × (env.lock_taken ≡ true)
        × (fn s.running.targets ≡ ok next)
  unfolding next_targets
  next_targets-ok next h =
      let (_, may, h₁) = >>=-eq-ok (authorized (authorize p scope_admin_targets id)) _ h in
      let (_, lock, h₂) = >>=-eq-ok (guard env.lock_taken lock_failed) _ h₁ in
      let (_, _, h₃) =
        >>=-eq-ok (guard (not (is_empty (trim_space s.running.targets_file))) no_targets_file) _
          h₂ in
      (authorized-ok (authorize p scope_admin_targets id) may, guard-eq-ok _ _ lock, h₃)

  -- A mutation succeeds only for a principal with the scope admin:targets for this target, with the lock
  -- held; the function gave the targets that are written and loaded.
  pub mutate_targets-IsWritten :
      after.1 ≡ none
      → (authorize p scope_admin_targets id ≡ none)
        × (env.lock_taken ≡ true)
        × ((next : List TargetConfig) × (fn s.running.targets ≡ ok next)
            × IsWritten env next after.0)
  unfolding mutate_targets
  mutate_targets-IsWritten h = elim (Result-cases (next_targets env s p id fn)) [
    | inr (e, failed) ↦ absurd (ground arith)
    | inl (next, made) ↦
        let (may, lock, given) = next_targets-ok next made in
        let same = ap (committed env s) made in
        let done : (commit env s next).1 ≡ none = ap (λ r. r.1) (sym same) ∙ h in
        (
          may,
          lock,
          (
            next,
            given,
            subst (λ r. IsWritten env next r.0) (sym same) (commit-IsWritten env s next done),
          ),
        )
  ]

  -- A mutation that fails keeps what runs, and the file as well unless writing or loading it failed.
  pub mutate_targets-IsKept :
      (e : ManageError)
      → after.1 ≡ some e
      → (after.0.running ≡ s.running)
        × ((after.0.stored ≡ s.stored)
            ⊎ ((e ≡ write_failed) × (env.write_left ≡ some after.0.stored))
            ⊎ ((e ≡ reload_failed)
                × ((next : List TargetConfig) × (fn s.running.targets ≡ ok next)
                    × (after.0.stored ≡ strip_resolved_auth next))))
  unfolding mutate_targets
  mutate_targets-IsKept e h = elim (Result-cases (next_targets env s p id fn)) [
    | inr (f, failed) ↦ rw failed (refl, inl refl)
    | inl (next, made) ↦
        let (_, _, given) = next_targets-ok next made in
        let same = ap (committed env s) made in
        let (runs, file) =
          subst (λ r. IsKept env s next e r.0) (sym same)
            (commit-IsKept env s next e (ap (λ r. r.1) (sym same) ∙ h)) in
        (
          runs,
          elim file [
            | inl kept ↦ inl kept
            | inr (inl broken) ↦ inr (inl broken)
            | inr (inr (failed, loaded)) ↦ inr (inr (failed, (next, given, loaded)))
          ],
        )
  ]
