-- ===== src/Executor/Limits.antt =====
-- internal/executor/exec.go: the time limit that a command runs under, and what a command has passed.
use mcp_execmesh.Base.{
  sym, ◌∙◌, some, Bool, Option-cases, ok-injective, err-ne-ok, ◌%◌, guard-eq-ok, ◌≡◌, refl, ap,
  ltb_ℤ, leb_ℤ, ◌⊎◌, inl, inr, ℕ, ◌*◌, ◌<◌, ◌≤◌, true, none, Option, List, [], ◌∷◌, Str, ℤ, pos,
  negsuc, ◌≤ℤ◌, Result, ok, >>=-eq-ok, guard, arith, int64_bound, if◌then◌else◌, ltb,
}
use mcp_execmesh.Security.Path.{is_path_allowed}
use mcp_execmesh.Security.Policy.{PolicyError, validate_command}
use mcp_execmesh.Ssh.Client.{
  ConnectOptions, ExecOptions, ExecOutcome, SessionRun, exec, shell_or_default, time_limit,
}
use mcp_execmesh.Target.{Target, connect_options}
use mcp_execmesh.Executor.{
  Executor, ExecRequest, ExecError, exec_disabled, wrap_int64, times_second, cap, session_of,
  exec_timeout, exec_cwd, policy_check, exec_on,
}

wrap_int64-below : (n : ℕ) → n < int64_bound → wrap_int64 n ≡ pos n
wrap_int64-below n h = ground arith

-- The shorter of two durations, if the second one is positive.
abbrev shorter : ℕ → ℕ → ℕ
shorter timeout limit =
    if ltb 0 limit then (if ltb limit timeout then limit else timeout) else timeout

cap-below :
    (timeout limit : ℕ)
    → limit * 1000000000 < int64_bound
    → cap (pos timeout) (pos limit) ≡ pos (shorter timeout (limit * 1000000000))
cap-below timeout limit h = rw (wrap_int64-below (limit * 1000000000) h) (ground arith)

abbrev configured_or_default : ℕ → ℕ
configured_or_default configured = if ltb 0 configured then configured else 30000000000

default-eq :
    (configured : ℕ)
    → (if leb_ℤ (pos configured) (pos 0) then pos 30000000000 else pos configured)
      ≡ pos (configured_or_default configured)
default-eq configured = ground arith

exec_timeout-eq :
    (configured : ℕ) (requested max_exec : ℤ)
    → exec_timeout (pos configured) requested max_exec
      ≡ cap (cap (pos (configured_or_default configured)) requested) max_exec
unfolding exec_timeout
exec_timeout-eq configured requested max_exec =
    ap (λ timeout. cap (cap timeout requested) max_exec) (default-eq configured)

-- Without a wrap, the time limit is positive, at most the configured one, where that is positive, and at
-- most the request's and the target's limits, where those are positive.
pub exec_timeout-bounds :
    (configured requested max_exec : ℕ)
    → requested * 1000000000 < int64_bound
    → max_exec * 1000000000 < int64_bound
    → let timeout = exec_timeout (pos configured) (pos requested) (pos max_exec) in
      (pos 1 ≤ℤ timeout)
      × (1 ≤ configured → timeout ≤ℤ pos configured)
      × (1 ≤ requested → timeout ≤ℤ pos (requested * 1000000000))
      × (1 ≤ max_exec → timeout ≤ℤ pos (max_exec * 1000000000))
exec_timeout-bounds configured requested max_exec small small2 =
    rw
      (
        exec_timeout-eq configured (pos requested) (pos max_exec),
        cap-below (configured_or_default configured) requested small,
        cap-below (shorter (configured_or_default configured) (requested * 1000000000)) max_exec
            small2,
      )
      (ground arith, λ h. ground arith, λ h. ground arith, λ h. ground arith)

≤ℤ-trans : (a b c : ℤ) → a ≤ℤ b → b ≤ℤ c → a ≤ℤ c
≤ℤ-trans a b c h k = ground (arith, h, k)

cap-le : (timeout limit : ℤ) → cap timeout limit ≤ℤ timeout
cap-le timeout limit = lesser (ltb_ℤ (pos 0) limit) (times_second limit) timeout
  where
    lesser : (b : Bool) (w t : ℤ) → (if b then (if ltb_ℤ w t then w else t) else t) ≤ℤ t
    lesser b w t = ground arith

cap-le_limit :
    (timeout : ℤ) (limit : ℕ) → 1 ≤ limit → cap timeout (pos limit) ≤ℤ times_second (pos limit)
cap-le_limit timeout limit h =
    let positive : ltb_ℤ (pos 0) (pos limit) ≡ true = ground (arith, h) in
    rw positive (lesser (times_second (pos limit)) timeout)
  where
    lesser : (w t : ℤ) → (if ltb_ℤ w t then w else t) ≤ℤ w
    lesser w t = ground arith

times_second-negative :
    (n : ℕ) → int64_bound ≤ (n * 1000000000) % (2 * int64_bound) → times_second (pos n) ≤ℤ negsuc 0
times_second-negative n h = ground arith

time_limit-negative : (timeout : ℤ) → timeout ≤ℤ negsuc 0 → time_limit timeout ≡ none
unfolding time_limit
time_limit-negative (pos n) h = absurd (ground arith)
time_limit-negative (negsuc n) h = refl

-- A request for a positive number of seconds of which the nanoseconds, read as an int64, are negative has no
-- time limit at all, whatever the configured one and the target's are.
pub exec_timeout-wrapped :
    (configured max_exec : ℤ) (requested : ℕ)
    → 1 ≤ requested
    → int64_bound ≤ (requested * 1000000000) % (2 * int64_bound)
    → time_limit (exec_timeout configured (pos requested) max_exec) ≡ none
unfolding exec_timeout
exec_timeout-wrapped configured max_exec requested some_seconds wraps =
    let start = if leb_ℤ configured (pos 0) then pos 30000000000 else configured in
    let first = cap start (pos requested) in
    time_limit-negative (cap first max_exec) (
      ≤ℤ-trans (cap first max_exec) first (negsuc 0) (cap-le first max_exec) (
        ≤ℤ-trans first (times_second (pos requested)) (negsuc 0)
          (cap-le_limit start requested some_seconds) (times_second-negative requested wraps)))

-- A directory is not set, or lies within the allowed paths, where there are any.
abbrev pub IsInside : List Str → Str → Type 0
IsInside allowed_paths cwd =
    (cwd ≡ []) ⊎ (allowed_paths ≡ []) ⊎ (is_path_allowed cwd allowed_paths ≡ true)

exec_cwd-IsInside :
    (cwd default_cwd : Str) (allowed_paths : List Str) {w : Str}
    → exec_cwd cwd default_cwd allowed_paths ≡ ok w
    → IsInside allowed_paths w
unfolding exec_cwd
exec_cwd-IsInside cwd default_cwd [] h = inr (inl refl)
exec_cwd-IsInside cwd default_cwd (p ∷ ps) h = ground arith

policy_check-eq-ok :
    (e : Option PolicyError)
    → ◌≡◌ {A = Result ExecError (Unit {0})} (policy_check e) (ok tt)
    → e ≡ none
policy_check-eq-ok e h = ground arith

-- What Exec hands to a host: the command in a directory, on a session of the target.
pub record HandedOver {A : Type 0} {H : Type 0}
    (dial : ConnectOptions A H → Option (Str → Option ℕ → SessionRun)) (t : Target A H)
    (req : ExecRequest) (out : ExecOutcome) : Type 0 where
  pub run : Str → Option ℕ → SessionRun
  pub opened : dial (connect_options t (pos 10000000000)) ≡ some run
  pub options : ExecOptions
  pub outcome : out ≡ exec run (shell_or_default t.shell) options
  pub command : options.command ≡ req.command
  pub inside : IsInside t.allowed_paths options.cwd

session_of-ok :
    {A : Type 0} {H : Type 0} (dial : ConnectOptions A H → Option (Str → Option ℕ → SessionRun))
    (t : Target A H) (run : Str → Option ℕ → SessionRun)
    → session_of dial t ≡ ok run
    → dial (connect_options t (pos 10000000000)) ≡ some run
session_of-ok dial t run h = elim (Option-cases (dial (connect_options t (pos 10000000000)))) [
  | inl refused ↦ absurd (err-ne-ok (rw (session_of, refused) at h))
  | inr (r, opened) ↦ opened ∙ ap some (ok-injective (rw (session_of, opened) at h))
]

-- The answer of an Exec without an error of its own is what a session of the target gives for the command of
-- the request, run in a directory that is not set or lies within the target's allowed paths, where there
-- are any; the target allows execution and the command passes the policy.
pub exec_on-Permitted :
    {A : Type 0} {H : Type 0} (dial : ConnectOptions A H → Option (Str → Option ℕ → SessionRun))
    (e : Executor) (t : Target A H) (req : ExecRequest) {out : ExecOutcome}
    → exec_on dial e t req ≡ ok out
    → (t.capabilities.exec ≡ true)
      × (validate_command e.policy req.command ≡ none)
      × HandedOver dial t req out
unfolding exec_on
exec_on-Permitted dial e t req h =
    let (_, exec_allowed, passed) =
      >>=-eq-ok (guard t.capabilities.exec (exec_disabled t.id)) _ h in
    let (_, policy_on, passed2) =
      >>=-eq-ok (policy_check (validate_command e.policy req.command)) _ passed in
    let (cwd, within, passed3) =
      >>=-eq-ok (exec_cwd req.cwd t.default_cwd t.allowed_paths) _ passed2 in
    let (run, opened, ended) = >>=-eq-ok (session_of dial t) _ passed3 in
    (
      guard-eq-ok t.capabilities.exec _ exec_allowed,
      policy_check-eq-ok _ policy_on,
      record {
        run = run;
        opened = session_of-ok dial t run opened;
        options = _;
        outcome = sym (ok-injective ended);
        command = refl;
        inside = exec_cwd-IsInside req.cwd t.default_cwd t.allowed_paths within;
      },
    )
