-- ===== src/Tools/Targets.antt =====
-- internal/mcp/tools/targets.go: the handlers targets_list and target_info.
use mcp_execmesh.Base.{
  ◌≡◌, refl, not, Option, none, some, List, [], Str, is_empty, Result, ok, err, ◌>>=◌, ◌>>◌, guard,
  >>=-eq-ok,
}
use mcp_execmesh.Security.Scope.{Principal, AuthError, authorize, scope_targets_read}
use mcp_execmesh.Target.{Target, TargetSummary, TargetDetail, TargetError, detail}
use mcp_execmesh.Target.Registry.{Registry, list_targets, get}
use mcp_execmesh.Tools.{ToolError, target_required, unauthorized, bad_target, filter_targets}

abbrev pub permitted : Option AuthError → Result ToolError (Unit {0})
permitted none = ok tt
permitted (some e) = err (unauthorized e)

abbrev pub found : {B : Type 0} → Result TargetError B → Result ToolError B
found (ok t) = ok t
found (err e) = err (bad_target e)

module _ {A : Type 0} {H : Type 0} (p : Option Principal) (registry : Registry A H) where
  unfoldable pub targets_list : Result ToolError (List TargetSummary)
  targets_list = do
    permitted (authorize p scope_targets_read [])
    ok (filter_targets p (list_targets registry.targets))

  unfoldable pub target_info : Str → Result ToolError TargetDetail
  target_info id = do
    guard (not (is_empty id)) target_required
    permitted (authorize p scope_targets_read id)
    t ← found (get registry id)
    ok (detail t)

permitted-ok : (e : Option AuthError) → permitted e ≡ ok tt → e ≡ none
permitted-ok none h = refl
permitted-ok (some e) h = absurd cc

found-ok : {B : Type 0} (r : Result TargetError B) {b : B} → found r ≡ ok b → r ≡ ok b
found-ok (ok t) h = cc
found-ok (err e) h = absurd cc

module _ {A : Type 0} {H : Type 0} (p : Option Principal) (registry : Registry A H) where
  -- The details that target_info gives are those of the target with the id, for a principal with the scope
  -- targets:read and the target.
  pub target_info-authorized :
      (id : Str) {d : TargetDetail}
      → target_info p registry id ≡ ok d
      → (authorize p scope_targets_read id ≡ none)
        × ((t : Target A H) × (get registry id ≡ ok t) × (detail t ≡ d))
  unfolding target_info
  target_info-authorized id h =
      let (_, given, rest) = >>=-eq-ok (guard (not (is_empty id)) target_required) _ h in
      let (_, may, rest₁) = >>=-eq-ok (permitted (authorize p scope_targets_read id)) _ rest in
      let (t, there, done) = >>=-eq-ok (found (get registry id)) _ rest₁ in
      (
        permitted-ok (authorize p scope_targets_read id) may,
        (t, found-ok (get registry id) there, cc),
      )
