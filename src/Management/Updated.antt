-- ===== src/Management/Updated.antt =====
-- UpdateTarget of internal/management/service.go.
use mcp_execmesh.Base.{
  In, lookup, ℤ, pos, ◌≡◌, refl, sym, ◌∙◌, ap, subst, inl, inr, Bool, true, false, not, Option,
  none, some, List, [], ◌∷◌, arith, Str, codes, is_empty, if◌then◌else◌, Bool-cases, Option-cases,
  ok, ok-injective, err-ne-ok, guard, >>=-eq-ok,
}
use mcp_execmesh.Config.Sidecars.{
  CredentialConfig, is_zero, or_default, target_defaults, credential_by_id, credential_auth,
}
use mcp_execmesh.Security.Scope.{Principal, scope_admin_targets, authorize}
use mcp_execmesh.Target.Registry.{TargetConfig}
use mcp_execmesh.Management.{
  Config, State, Env, TestOutcome, passed, failed, broken, id_fixed, change_first,
}
use mcp_execmesh.Management.Update.{
  Change, text, number, items, other, text_or, number_or, tags_or, strings, apply_changes,
  with_credential, with_known_hosts, update_one, update_target, has_change, needs_test, test_result,
}
use mcp_execmesh.Management.Written.{IsWritten, mutate_targets-IsWritten}
use mcp_execmesh.Management.Changes.{IsChanged, change_first-IsChanged}

-- A target with a credential's name has that credential's files.
abbrev pub HasCredential : List CredentialConfig → TargetConfig → Type 0
HasCredential credentials t =
    (t.auth_ref ≡ [] → ⊥)
    → (c : CredentialConfig) × (credential_by_id credentials t.auth_ref ≡ some c)
      × (t.auth ≡ credential_auth c)

-- The fields that neither the credential nor the known hosts touch.
abbrev pub SameFields : TargetConfig → TargetConfig → Type 0
SameFields u t =
    (u.id ≡ t.id)
    × (u.name ≡ t.name)
    × (u.host ≡ t.host)
    × (u.user ≡ t.user)
    × (u.auth_ref ≡ t.auth_ref)
    × (u.known_host_ref ≡ t.known_host_ref)
    × (u.default_cwd ≡ t.default_cwd)
    × (u.shell ≡ t.shell)
    × (u.port ≡ t.port)
    × (u.tags ≡ t.tags)

SameFields-refl : (t : TargetConfig) → SameFields t t
SameFields-refl t = (refl, refl, refl, refl, refl, refl, refl, refl, refl, refl)

with_credential-ok :
    (credentials : List CredentialConfig) (t u : TargetConfig)
    → with_credential credentials t ≡ ok u
    → SameFields u t × HasCredential credentials u
unfolding with_credential
with_credential-ok credentials t u h = elim (Bool-cases (is_empty t.auth_ref)) [
  | inl none_named ↦
      let same : t ≡ u = ok-injective (rw none_named at h) in
      (
        subst (λ v. SameFields v t) same (SameFields-refl t),
        λ named. absurd (named (ap (λ v. v.auth_ref) (sym same) ∙ empty t.auth_ref none_named)),
      )
  | inr named ↦ elim (Option-cases (credential_by_id credentials t.auth_ref)) [
    | inl unknown ↦ absurd (err-ne-ok (rw (named, unknown) at h))
    | inr (c, found) ↦
        let same = ok-injective (rw (named, found) at h) in
        (
          subst (λ v. SameFields v t) same (SameFields-refl t),
          λ _. (
            c,
            ap (λ v. credential_by_id credentials v.auth_ref) (sym same) ∙ found,
            ap (λ v. v.auth) (sym same),
          ),
        )
  ]
]
  where
    empty : (x : Str) → is_empty x ≡ true → x ≡ []
    empty [] e = refl
    empty (c ∷ x) e = absurd (ground arith)

test_result-ok : (o : TestOutcome) → test_result o ≡ ok tt → o ≡ passed
test_result-ok passed h = refl
test_result-ok (failed e) h = absurd (err-ne-ok h)
test_result-ok broken h = absurd (err-ne-ok h)

-- The target that is tested and written has the fields of the one with the changes, but for the defaults of its
-- shell and port.
full-same :
    (cfg : Config) (t : TargetConfig)
    → let full = target_defaults cfg.runtime (with_known_hosts cfg t) in
      (full.id ≡ t.id)
      × (full.name ≡ t.name)
      × (full.host ≡ t.host)
      × (full.user ≡ t.user)
      × (full.auth_ref ≡ t.auth_ref)
      × (full.known_host_ref ≡ t.known_host_ref)
      × (full.default_cwd ≡ t.default_cwd)
      × (full.shell ≡ (if is_empty t.shell then codes "/bin/sh" else t.shell))
      × (full.port ≡ or_default t.port (pos 22))
      × (full.tags ≡ t.tags)
      × (full.auth ≡ t.auth)
unfolding with_known_hosts target_defaults
full-same cfg t = elim (Bool-cases (is_empty t.host_key.known_hosts_file)) [
  | inl nil ↦ rw nil (refl, refl, refl, refl, refl, refl, refl, refl, refl, refl, refl)
  | inr given ↦ rw given (refl, refl, refl, refl, refl, refl, refl, refl, refl, refl, refl)
]

HasCredential-same :
    (credentials : List CredentialConfig) (t u : TargetConfig)
    → u.auth ≡ t.auth
    → u.auth_ref ≡ t.auth_ref
    → HasCredential credentials t
    → HasCredential credentials u
HasCredential-same credentials t u auth name h named =
    let (c, found, same) = h (λ e. named (name ∙ e)) in
    (c, ap (credential_by_id credentials) name ∙ found, auth ∙ same)

if_tested :
    (needed : Bool) (o : TestOutcome)
    → (if needed then test_result o else ok tt) ≡ ok tt
    → needed ≡ true
    → o ≡ passed
if_tested true o h e = test_result-ok o h
if_tested false o h e = absurd (ground arith)

-- A text field takes the text of its change, and is kept where there is none.
abbrev pub Follows : Option Change → Str → Str → Type 0
Follows (some (text v)) old new = new ≡ v
Follows _ old new = new ≡ old

-- The changes to the fields, with the defaults of an empty shell and a port 0.
pub record IsApplied (changes : List (Str × Change)) (old new : TargetConfig) : Type 0 where
  pub name : Follows (lookup (codes "name") changes) old.name new.name
  pub host : Follows (lookup (codes "host") changes) old.host new.host
  pub user : Follows (lookup (codes "user") changes) old.user new.user
  pub auth_ref : Follows (lookup (codes "auth_ref") changes) old.auth_ref new.auth_ref
  pub known_host_ref :
      Follows (lookup (codes "known_host_ref") changes) old.known_host_ref new.known_host_ref
  pub default_cwd : Follows (lookup (codes "default_cwd") changes) old.default_cwd new.default_cwd
  pub shell :
      (v : Str)
      → lookup (codes "shell") changes ≡ some (text v)
      → is_empty v ≡ false
      → new.shell ≡ v
  pub port :
      (n : ℤ) → lookup (codes "port") changes ≡ some (number n) → is_zero n ≡ false → new.port ≡ n
  pub tags :
      (xs : List (Option Str))
      → lookup (codes "tags") changes ≡ some (items xs)
      → new.tags ≡ strings xs

Follows-text_or : (c : Option Change) (old new : Str) → new ≡ text_or old c → Follows c old new
Follows-text_or none old new e = e
Follows-text_or (some (text v)) old new e = e
Follows-text_or (some (number n)) old new e = e
Follows-text_or (some (items xs)) old new e = e
Follows-text_or (some other) old new e = e

-- The fields of how a host is reached.
abbrev pub reach_keys : List Str
reach_keys =
    codes "host" ∷ codes "port" ∷ codes "user" ∷ codes "auth_ref" ∷ codes "known_host_ref" ∷ []

-- What an update makes of a target: it keeps its id, the changes are applied, its credential is resolved, and a
-- change of how it is reached was tested with success.
pub record IsUpdate (env : Env) (cfg : Config) (changes : List (Str × Change))
    (old new : TargetConfig) : Type 0 where
  pub id : new.id ≡ old.id
  pub applied : IsApplied changes old new
  pub credential : HasCredential cfg.credentials new
  pub tested :
      (key : Str) (c : Change)
      → In key reach_keys
      → lookup key changes ≡ some c
      → env.test new ≡ passed

has_change-lookup :
    (key : Str) (changes : List (Str × Change)) (c : Change)
    → lookup key changes ≡ some c
    → has_change key changes ≡ true
has_change-lookup key changes c h = rw (has_change, h) refl

needs_test-reach :
    (changes : List (Str × Change)) (key : Str) (c : Change)
    → In key reach_keys
    → lookup key changes ≡ some c
    → needs_test changes ≡ true
unfolding needs_test
needs_test-reach changes key c (inl e) h =
    let on = has_change-lookup (codes "host") changes c (rw (← e) at h) in ground (arith, on)
needs_test-reach changes key c (inr (inl e)) h =
    let on = has_change-lookup (codes "port") changes c (rw (← e) at h) in ground (arith, on)
needs_test-reach changes key c (inr (inr (inl e))) h =
    let on = has_change-lookup (codes "user") changes c (rw (← e) at h) in ground (arith, on)
needs_test-reach changes key c (inr (inr (inr (inl e)))) h =
    let on = has_change-lookup (codes "auth_ref") changes c (rw (← e) at h) in ground (arith, on)
needs_test-reach changes key c (inr (inr (inr (inr (inl e))))) h =
    let on = has_change-lookup (codes "known_host_ref") changes c (rw (← e) at h) in
    ground (arith, on)
needs_test-reach changes key c (inr (inr (inr (inr (inr x))))) h = elim x [ ]

update_one-IsApplied :
    (cfg : Config) (changes : List (Str × Change)) (old t : TargetConfig)
    → SameFields t (apply_changes changes old)
    → IsApplied changes old (target_defaults cfg.runtime (with_known_hosts cfg t))
unfolding apply_changes
update_one-IsApplied cfg changes old t
      (_, name, host, user, auth_ref, known, cwd, shell, port, tags) =
    let (_, n, h, u, a, k, c, s, p, g, _) = full-same cfg t in
    record {
      name = Follows-text_or (lookup (codes "name") changes) old.name _ (n ∙ name);
      host = Follows-text_or (lookup (codes "host") changes) old.host _ (h ∙ host);
      user = Follows-text_or (lookup (codes "user") changes) old.user _ (u ∙ user);
      auth_ref = Follows-text_or (lookup (codes "auth_ref") changes) old.auth_ref _ (a ∙ auth_ref);
      known_host_ref =
          Follows-text_or (lookup (codes "known_host_ref") changes) old.known_host_ref _
            (k ∙ known);
      default_cwd =
          Follows-text_or (lookup (codes "default_cwd") changes) old.default_cwd _ (c ∙ cwd);
      shell = λ v given full.
          let now : t.shell ≡ v = shell ∙ ap (text_or old.shell) given in s ∙ rw (now, full) refl;
      port = λ v given full.
          let now : t.port ≡ v = port ∙ ap (number_or old.port) given in p ∙ rw (now, full) refl;
      tags = λ xs given. g ∙ tags ∙ ap (tags_or old.tags) given;
    }

update_one-IsUpdate :
    (env : Env) (cfg : Config) (changes : List (Str × Change)) (old new : TargetConfig)
    → update_one env cfg changes old ≡ ok new
    → IsUpdate env cfg changes old new
unfolding update_one
update_one-IsUpdate env cfg changes old new h =
    let (_, _, h₁) = >>=-eq-ok (guard (not (has_change (codes "id") changes)) id_fixed) _ h in
    let (t, made, h₂) =
      >>=-eq-ok (with_credential cfg.credentials (apply_changes changes old)) _ h₁ in
    let (same, credential) =
      with_credential-ok cfg.credentials (apply_changes changes old) t made in
    let full = target_defaults cfg.runtime (with_known_hosts cfg t) in
    let (_, tested, h₃) =
      >>=-eq-ok (if needs_test changes then test_result (env.test full) else ok tt) _ h₂ in
    let fields = full-same cfg t in
    subst (IsUpdate env cfg changes old) (ok-injective h₃) (record {
      id = fields.0 ∙ same.0 ∙ unfold apply_changes in refl;
      applied = update_one-IsApplied cfg changes old t same;
      credential = HasCredential-same cfg.credentials t full fields.10 fields.4 credential;
      tested = λ key c at given.
          if_tested (needs_test changes) (env.test full) tested
            (needs_test-reach changes key c at given);
    })

-- UpdateTarget succeeds only for a principal that may administer the target. In what it writes and loads the ids
-- are the old ones, every other id names what it named, the changes of the target's fields are applied, its
-- named credential is the configured one, and where a change is of its host, port, user, auth_ref or
-- known_host_ref the connection was tested.
pub update_target-IsUpdate :
    (env : Env) (s : State) (p : Option Principal) (id : Str) (changes : List (Str × Change))
    → (update_target env s p id changes).1 ≡ none
    → (authorize p scope_admin_targets id ≡ none)
      × ((next : List TargetConfig) × (old : TargetConfig) × (new : TargetConfig) × IsUpdate env
            s.running changes old new
          × IsChanged id old new s.running.targets next
          × IsWritten env next (update_target env s p id changes).0)
unfolding update_target
update_target-IsUpdate env s p id changes h =
    let f = update_one env s.running changes in
    let (may, _, (next, made, stored)) =
      mutate_targets-IsWritten env s p id (change_first id f) h in
    let (old, new, given, changed) =
      change_first-IsChanged id f (λ t u e. (update_one-IsUpdate env s.running changes t u e).id)
        s.running.targets next made in
    (
      may,
      (next, old, new, update_one-IsUpdate env s.running changes old new given, changed, stored),
    )
