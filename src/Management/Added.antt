-- ===== src/Management/Added.antt =====
-- AddTarget of internal/management/service.go.
use mcp_execmesh.Base.{
  ◌≡◌, refl, sym, ◌∙◌, ap, subst, inl, inr, Bool, true, false, ◌||◌, not, Option, none, some, List,
  [], ◌∷◌, ◌++◌, All, arith, Str, is_empty, member, if◌then◌else◌, Result-cases, Result, ok, err,
  ok-injective, err-ne-ok, guard, guard-eq-ok, >>=-eq-ok,
}
use mcp_execmesh.Config.Sidecars.{
  CredentialConfig, target_defaults, apply_target_defaults, credential_by_id,
}
use mcp_execmesh.Config.Valid.{FreshIds, IsSound, check_targets-nil}
use mcp_execmesh.Security.Scope.{Principal, scope_admin_targets, authorize}
use mcp_execmesh.Target.Registry.{TargetConfig}
use mcp_execmesh.Management.{
  State, Env, TestOutcome, passed, failed, broken, ManageError, lock_failed, fields_required,
  already_exists, unknown_credential, no_known_hosts_file, no_targets_file, known_hosts_unreadable,
  host_not_known, invalid_config, authorized, default_known_hosts, commit,
}
use mcp_execmesh.Management.Add.{
  TargetAddInput, has_id, new_target, is_blank, is_valid, answer, or_manage_error, check_add,
  tested_add, checked_add, add_target,
}
use mcp_execmesh.Management.Written.{IsWritten, commit-IsWritten, authorized-ok}

or_manage_error-ok :
    {A : Type 0} (e : ManageError) (o : Option A) {a : A} → or_manage_error e o ≡ ok a → o ≡ some a
or_manage_error-ok e none h = absurd (err-ne-ok h)
or_manage_error-ok e (some b) h = ap some (ok-injective h)

is_empty-nil : {A : Type 0} (xs : List A) → is_empty xs ≡ true → xs ≡ []
is_empty-nil [] h = refl
is_empty-nil (x ∷ xs) h = absurd (ground arith)

ok_differ : {A : Type 0} → Path (Result ManageError Bool) (ok false) (ok true) → A
ok_differ h = absurd (ground arith)

answer-ok :
    (r : State × Option ManageError) (b : Bool)
    → (answer r).1 ≡ ok b
    → (r.1 ≡ none) × ((answer r).0 ≡ r.0)
answer-ok (s, none) b h = (refl, refl)
answer-ok (s, some e) b h = absurd (err-ne-ok h)

module _ (readable : Str → Bool) (known_names : Str → Option (List Str)) (env : Env) (s : State)
    (p : Option Principal) (input : TargetAddInput) where
  -- The new target has the credential it names, and the targets with it, their defaults filled in, pass the
  -- checks of the configuration.
  abbrev pub IsAddable : TargetConfig → Type 0
  IsAddable t =
      (authorize p scope_admin_targets input.id ≡ none)
      × (has_id input.id s.running.targets ≡ false)
      × ((cred : CredentialConfig) × (credential_by_id s.running.credentials input.auth_ref
            ≡ some cred)
          × (t
              ≡ target_defaults s.running.runtime
                  (new_target input cred (default_known_hosts s.running)))
          × FreshIds [] (
              apply_target_defaults s.running.runtime
                (s.running.targets ++ (new_target input cred (default_known_hosts s.running) ∷ [])))
          × All (IsSound true readable s.running.require_known_hosts) (
              apply_target_defaults s.running.runtime (
                s.running.targets ++ (new_target input cred (default_known_hosts s.running) ∷ []))))

  check_add-IsAddable :
      (c : List TargetConfig × TargetConfig)
      → check_add readable known_names env s p input ≡ ok c
      → IsAddable c.1
  unfolding check_add
  check_add-IsAddable c h =
      let (_, may, h₁) = >>=-eq-ok (authorized (authorize p scope_admin_targets input.id)) _ h in
      let (_, _, h₂) =
        >>=-eq-ok
          (guard
            (not (
              is_blank input.id
              || is_blank input.host
              || is_blank input.user
              || is_blank input.auth_ref))
            fields_required)
          _ h₁ in
      let (_, _, h₃) = >>=-eq-ok (guard env.lock_taken lock_failed) _ h₂ in
      let (_, new, h₄) =
        >>=-eq-ok (guard (not (has_id input.id s.running.targets)) (already_exists input.id)) _
          h₃ in
      let (cred, named, h₅) =
        >>=-eq-ok
          (or_manage_error (unknown_credential input.auth_ref)
            (credential_by_id s.running.credentials input.auth_ref))
          _ h₄ in
      let file = default_known_hosts s.running in
      let t = new_target input cred file in
      let (_, _, h₆) = >>=-eq-ok (guard (not (is_empty file)) no_known_hosts_file) _ h₅ in
      let (names, _, h₇) =
        >>=-eq-ok (or_manage_error known_hosts_unreadable (known_names file)) _ h₆ in
      let (_, _, h₈) =
        >>=-eq-ok
          (guard (member t.known_host_ref names || member input.host names)
            (host_not_known t.known_host_ref))
          _ h₇ in
      let full = apply_target_defaults s.running.runtime (s.running.targets ++ (t ∷ [])) in
      let (_, valid, h₉) =
        >>=-eq-ok (guard (is_valid readable known_names s.running full) invalid_config) _ h₈ in
      let (fresh, sound) =
        check_targets-nil true readable s.running.require_known_hosts [] full
          (is_empty-nil _ (guard-eq-ok _ _ valid)) in
      (
        authorized-ok (authorize p scope_admin_targets input.id) may,
        not_true (has_id input.id s.running.targets) (guard-eq-ok _ _ new),
        (
          cred,
          or_manage_error-ok _ (credential_by_id s.running.credentials input.auth_ref) named,
          ap (λ d. d.1) (sym (ok-injective h₉)),
          fresh,
          sound,
        ),
      )
    where
      not_true : (b : Bool) → not b ≡ true → b ≡ false
      not_true b e = ground arith

  -- AddTarget commits only for a principal that may administer the id, a new id and a connection that was
  -- tested. The targets with the new one and the defaults are what the start demands: their ids are valid and
  -- distinct and each of them is sound, with files that can be read. They are written with the new one behind
  -- them.
  pub add_target-IsAddable :
      (add_target readable known_names env s p input).1 ≡ ok true
      → (t : TargetConfig) × IsAddable t
        × (env.test t ≡ passed)
        × IsWritten env
            (s.running.targets ++ (t ∷ []))
            (add_target readable known_names env s p input).0
  unfolding add_target
  add_target-IsAddable h = elim (Result-cases (check_add readable known_names env s p input)) [
    | inr (e, refused) ↦
        absurd (
          err-ne-ok
            (ap (λ r. (checked_add readable known_names env s input r).1) (sym refused) ∙ h))
    | inl (c, checked) ↦
        let same = ap (checked_add readable known_names env s input) checked in
        let (test, stored) = tested c.1 (ap (λ r. r.1) (sym same) ∙ h) in
        (
          c.1,
          check_add-IsAddable c checked,
          test,
          subst (λ r. IsWritten env (s.running.targets ++ (c.1 ∷ [])) r.0) (sym same) stored,
        )
  ]
    where
      written :
          (t : TargetConfig) (only blank : Bool)
          → (if only
              then (s, ok false)
              else if blank
              then (s, err no_targets_file)
              else answer (commit env s (s.running.targets ++ (t ∷ [])))).1
            ≡ ok true
          → IsWritten env
              (s.running.targets ++ (t ∷ []))
              (if only
                then (s, ok false)
                else if blank
                then (s, err no_targets_file)
                else answer (commit env s (s.running.targets ++ (t ∷ [])))).0
      written t true blank k = ok_differ k
      written t false true k = absurd (err-ne-ok k)
      written t false false k =
          let next = s.running.targets ++ (t ∷ []) in
          let (done, same) = answer-ok (commit env s next) true k in
          subst (IsWritten env next) (sym same) (commit-IsWritten env s next done)

      tested_with :
          (t : TargetConfig) (o : TestOutcome)
          → (tested_add readable known_names env s input t o).1 ≡ ok true
          → (o ≡ passed)
            × IsWritten env
                (s.running.targets ++ (t ∷ []))
                (tested_add readable known_names env s input t o).0
      tested_with t passed k =
          (refl, written t input.validate_only (is_blank s.running.targets_file) k)
      tested_with t (failed e) k = absurd (err-ne-ok k)
      tested_with t broken k = absurd (err-ne-ok k)

      tested :
          (t : TargetConfig)
          → (tested_add readable known_names env s input t (env.test t)).1 ≡ ok true
          → (env.test t ≡ passed)
            × IsWritten env
                (s.running.targets ++ (t ∷ []))
                (tested_add readable known_names env s input t (env.test t)).0
      tested t = tested_with t (env.test t)
