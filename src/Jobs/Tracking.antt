-- ===== src/Jobs/Tracking.antt =====
-- internal/jobs/manager.go: a started job and a resolved one are found again, on the same target.
use mcp_execmesh.Base.{
  ◌≡◌, refl, sym, ap, subst, inl, inr, ℕ, Option, none, some, List, [], ◌∷◌, Str, str_eq_refl,
  lookup, insert, lookup-insert, ok, Result-cases, Bool-cases, Option-cases,
}
use mcp_execmesh.Ssh.Client.{ConnectOptions, SessionRun}
use mcp_execmesh.Target.{Target, TargetSummary}
use mcp_execmesh.Target.Registry.{Registry, get, list_targets}
use mcp_execmesh.Target.Registry.Lookups.{IsKeyed, lookup-IsKeyed, found_in}
use mcp_execmesh.Jobs.{JobMeta, JobManager, JobStartRequest, JobStartResponse, LocalJobIndexEntry}
use mcp_execmesh.Jobs.Resolve.{
  holds_job, found_target, scan_targets, search_targets, resolve_target,
}
use mcp_execmesh.Jobs.Start.{record_job, start}
use mcp_execmesh.Jobs.Launch.{record_job-ok}

get-same :
    {A : Type 0} {H : Type 0} (r : Registry A H) (id : Str) (u t : Target A H)
    → IsKeyed r.targets
    → get r id ≡ ok u
    → some u ≡ some t
    → get r t.id ≡ ok t
unfolding get
get-same r id u t keyed known same =
    let key : u.id ≡ id = lookup-IsKeyed r.targets id keyed (found_in r.targets id known) in
    let e : u ≡ t = cc same in
    subst (λ x. get r x.id ≡ ok x) e (subst (λ k. get r k ≡ ok u) (sym key) known)

module _ {A : Type 0} {H : Type 0}
    (dial : ConnectOptions A H → Option (Str → Option ℕ → SessionRun)) where
  resolve_target-recorded :
      (m : JobManager A H) (job_id : Str) (entry : LocalJobIndexEntry) (t : Target A H)
      → get m.registry entry.target_id ≡ ok t
      → resolve_target dial (record m { job_index = insert job_id entry m.job_index }) job_id []
        ≡ (record m { job_index = insert job_id entry m.job_index }, ok t)
  unfolding resolve_target
  resolve_target-recorded m job_id entry t known =
      rw (lookup-insert job_id job_id entry m.job_index, str_eq_refl job_id, known) refl

  -- A job that was started is found again without a hint, on the target that it was started on.
  pub start-resolve_target :
      (hash : Str → Str) (encode_meta : JobMeta → Option Str) (format_time : ℕ → Str)
      (m : JobManager A H) (job_id : Str) (now : ℕ) (t : Target A H) (req : JobStartRequest)
      {res : JobStartResponse}
      → (start dial hash encode_meta format_time m job_id now t req).1 ≡ ok res
      → get m.registry t.id ≡ ok t
      → resolve_target dial (start dial hash encode_meta format_time m job_id now t req).0 job_id []
        ≡ ((start dial hash encode_meta format_time m job_id now t req).0, ok t)
  unfolding start
  start-resolve_target hash encode_meta format_time m job_id now t req h known =
      let passed = record_job-ok dial hash encode_meta format_time m job_id now t req _ h in
      subst
        (λ r.
          resolve_target dial (record_job dial hash encode_meta format_time m job_id now t req r).0
            job_id []
          ≡ ((record_job dial hash encode_meta format_time m job_id now t req r).0, ok t))
        (sym passed) (resolve_target-recorded m job_id _ t known)

  scan_targets-get :
      (m : JobManager A H) (job_id : Str) (summaries : List TargetSummary) {t : Target A H}
      → IsKeyed m.registry.targets
      → scan_targets dial m job_id summaries ≡ some t
      → get m.registry t.id ≡ ok t
  unfolding scan_targets resolve_target
  scan_targets-get m job_id [] keyed h = absurd cc
  scan_targets-get m job_id (ts ∷ rest) {t = t} keyed h =
      elim (Result-cases (get m.registry ts.id)) [
        | inr (e, missing) ↦ scan_targets-get m job_id rest keyed (rw (scan_targets, missing) at h)
        | inl (u, known) ↦ elim (Bool-cases (holds_job dial m.remote_base_dir job_id u)) [
          | inr other ↦ scan_targets-get m job_id rest keyed (rw (scan_targets, known, other) at h)
          | inl here ↦
              get-same m.registry ts.id u t keyed known (rw (scan_targets, known, here) at h)
        ]
      ]

  -- The second resolution starts where the first one ended.
  settled :
      (m m2 : JobManager A H) (job_id target_hint : Str) (t : Target A H)
      → resolve_target dial m job_id target_hint ≡ (m2, ok t)
      → resolve_target dial m2 job_id target_hint ≡ (m2, ok t)
      → resolve_target dial (resolve_target dial m job_id target_hint).0 job_id target_hint
        ≡ ((resolve_target dial m job_id target_hint).0, ok t)
  settled m m2 job_id target_hint t first second =
      subst (λ p. resolve_target dial p.0 job_id target_hint ≡ (p.0, ok t)) (sym first) second

  not_found :
      (m : JobManager A H) (job_id : Str) {t : Target A H}
      → (found_target m job_id none).1 ≡ ok t
      → ⊥
  not_found m job_id h = cc

  found_is :
      (m : JobManager A H) (job_id : Str) {u t : Target A H}
      → (found_target m job_id (some u)).1 ≡ ok t
      → u ≡ t
  found_is m job_id h = cc

  searched :
      (m : JobManager A H) (job_id : Str) (t : Target A H) (summaries : List TargetSummary)
      → IsKeyed m.registry.targets
      → lookup job_id m.job_index ≡ none
      → list_targets m.registry.targets ≡ summaries
      → (search_targets dial m job_id summaries).1 ≡ ok t
      → resolve_target dial (resolve_target dial m job_id []).0 job_id []
        ≡ ((resolve_target dial m job_id []).0, ok t)
  unfolding scan_targets resolve_target
  searched m job_id t [] keyed new listed h = absurd (not_found m job_id h)
  searched m job_id t (ts ∷ []) keyed new listed h =
      let alone : resolve_target dial m job_id [] ≡ (m, ok t) =
        rw (resolve_target, new, listed) (ap (λ r. (m, r)) h) in
      settled m m job_id [] t alone alone
  searched m job_id t (ts ∷ ts2 ∷ rest) keyed new listed h =
      elim (Option-cases (scan_targets dial m job_id (ts ∷ ts2 ∷ rest))) [
        | inl nowhere ↦ absurd (not_found m job_id (rw nowhere at h))
        | inr (u, found) ↦
            let same : u ≡ t = found_is m job_id (rw found at h) in
            let known = scan_targets-get m job_id (ts ∷ ts2 ∷ rest) keyed found in
            let first : resolve_target dial m job_id [] ≡ found_target m job_id (some t) =
              rw (resolve_target, new, listed, found, same) refl in
            settled m (found_target m job_id (some t)).0 job_id [] t first (
              resolve_target-recorded m job_id _ t
                (subst (λ x. get m.registry x.id ≡ ok x) same known))
      ]

  -- A job that was resolved resolves to the same target from then on, and the index stays; the registry
  -- holds each target under its id.
  pub resolve_target-again :
      (m : JobManager A H) (job_id target_hint : Str) (t : Target A H)
      → IsKeyed m.registry.targets
      → (resolve_target dial m job_id target_hint).1 ≡ ok t
      → resolve_target dial (resolve_target dial m job_id target_hint).0 job_id target_hint
        ≡ ((resolve_target dial m job_id target_hint).0, ok t)
  unfolding resolve_target
  resolve_target-again m job_id (c ∷ hint) t keyed h = ap (λ r. (m, r)) h
  resolve_target-again m job_id [] t keyed h = elim (Option-cases (lookup job_id m.job_index)) [
    | inl new ↦ searched m job_id t _ keyed new refl (rw (resolve_target, new) at h)
    | inr (entry, old) ↦
        let again : resolve_target dial m job_id [] ≡ (m, ok t) =
          rw (resolve_target, old) (ap (λ r. (m, r)) (rw (resolve_target, old) at h)) in
        settled m m job_id [] t again again
  ]
