-- ===== src/Tools/Access.antt =====
-- internal/mcp/tools/jobs.go: what the tools demand of the principal.
use mcp_execmesh.Base.{
  ◌≡◌, refl, ℕ, true, Option, none, some, Str, is_empty, Bool-cases, Result, ok, err, inl, inr,
  arith, ◌⊎◌, In,
}
use mcp_execmesh.Security.Scope.{Principal, AuthError, authorize, scope_exec_run}
use mcp_execmesh.Ssh.Client.{ConnectOptions, SessionRun}
use mcp_execmesh.Target.{Target, TargetError, require_active}
use mcp_execmesh.Target.Registry.{get}
use mcp_execmesh.Jobs.{JobMeta, JobManager, JobStartRequest, JobStartResponse}
use mcp_execmesh.Security.Access.{IsUnrestricted, CoversTarget, authorize_iff}
use mcp_execmesh.Jobs.{JobError}
use mcp_execmesh.Jobs.Start.{start}
use mcp_execmesh.Tools.{ToolError, authorized, start_active, start_on, lift_job, exec_start}

not_ok : {B : Type 0} (e : ToolError) {b : B} → err e ≡ ok b → ⊥
not_ok e h = cc

authorized-ok :
    {S : Type 0} {B : Type 0} (m : S) (e : Option AuthError) (r : S × Result ToolError B) {b : B}
    → (authorized m e r).1 ≡ ok b
    → (e ≡ none) × (r.1 ≡ ok b)
authorized-ok m none r h = (refl, h)
authorized-ok m (some e) r h = absurd cc

module _ {A : Type 0} {H : Type 0}
    (dial : ConnectOptions A H → Option (Str → Option ℕ → SessionRun)) where
  -- What Start did for the tool: it ran for the target of the request, which is there and enabled.
  abbrev pub StartedOn :
      (Str → Str)
      → (JobMeta → Option Str)
      → (ℕ → Str)
      → JobManager A H
      → Str
      → ℕ
      → JobStartRequest
      → JobStartResponse
      → Type 0
  StartedOn hash encode_meta format_time m job_id now req res =
      (t : Target A H) × (get m.registry req.target ≡ ok t)
      × (t.enabled ≡ true)
      × ((start dial hash encode_meta format_time m job_id now t req).1 ≡ ok res)

  lift_job-ok :
      (r : JobManager A H × Result JobError JobStartResponse) {res : JobStartResponse}
      → (lift_job r).1 ≡ ok res
      → r.1 ≡ ok res
  lift_job-ok (m, ok b) h = cc
  lift_job-ok (m, err e) h = absurd cc

  start_active-ok :
      (hash : Str → Str) (encode_meta : JobMeta → Option Str) (format_time : ℕ → Str)
      (m : JobManager A H) (job_id : Str) (now : ℕ) (req : JobStartRequest) (t : Target A H)
      (e : Option TargetError) {res : JobStartResponse}
      → (start_active dial hash encode_meta format_time m job_id now req t e).1 ≡ ok res
      → (e ≡ none) × ((start dial hash encode_meta format_time m job_id now t req).1 ≡ ok res)
  start_active-ok hash encode_meta format_time m job_id now req t none h =
      (refl, lift_job-ok (start dial hash encode_meta format_time m job_id now t req) h)
  start_active-ok hash encode_meta format_time m job_id now req t (some e) h = absurd cc

  active-enabled : (t : Target A H) → require_active (some t) ≡ none → t.enabled ≡ true
  unfolding require_active
  active-enabled t h = ground arith

  start_on-ok :
      (hash : Str → Str) (encode_meta : JobMeta → Option Str) (format_time : ℕ → Str)
      (m : JobManager A H) (job_id : Str) (now : ℕ) (req : JobStartRequest)
      (found : Result TargetError (Target A H)) {res : JobStartResponse}
      → (start_on dial hash encode_meta format_time m job_id now req found).1 ≡ ok res
      → (t : Target A H) × (found ≡ ok t)
        × (t.enabled ≡ true)
        × ((start dial hash encode_meta format_time m job_id now t req).1 ≡ ok res)
  start_on-ok hash encode_meta format_time m job_id now req (err e) h = absurd cc
  start_on-ok hash encode_meta format_time m job_id now req (ok t) h =
      let (active, started) =
        start_active-ok hash encode_meta format_time m job_id now req t (require_active (some t))
          h in
      (t, refl, active-enabled t active, started)

  -- A job that the tool exec_start starts for a principal is one that Start has started on the target that the
  -- request names, which is enabled; the principal is unrestricted, or holds the scope exec:run and covers
  -- that target.
  pub exec_start-authorized :
      (hash : Str → Str) (encode_meta : JobMeta → Option Str) (format_time : ℕ → Str)
      (p : Principal) (m : JobManager A H) (job_id : Str) (now : ℕ) (req : JobStartRequest)
      {res : JobStartResponse}
      → (exec_start dial hash encode_meta format_time (some p) m job_id now req).1 ≡ ok res
      → (IsUnrestricted p ⊎ (In scope_exec_run p.scopes × CoversTarget p req.target))
        × StartedOn hash encode_meta format_time m job_id now req res
  unfolding exec_start
  exec_start-authorized hash encode_meta format_time p m job_id now req h =
      elim (Bool-cases (is_empty req.target)) [
        | inl no_target ↦ absurd (not_ok _ (rw no_target at h))
        | inr has_target ↦ elim (Bool-cases (is_empty req.command)) [
          | inl no_command ↦ absurd (not_ok _ (rw (has_target, no_command) at h))
          | inr has_command ↦
              let (allowed, started) =
                authorized-ok m (authorize (some p) scope_exec_run req.target)
                  (start_on dial hash encode_meta format_time m job_id now req
                    (get m.registry req.target))
                  (rw (has_target, has_command) at h) in
              (
                (authorize_iff p scope_exec_run req.target).0 allowed,
                start_on-ok hash encode_meta format_time m job_id now req
                    (get m.registry req.target) started,
              )
        ]
      ]
