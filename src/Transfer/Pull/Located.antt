-- ===== src/Transfer/Pull/Located.antt =====
-- Which files Stat, Hash and the downloads of internal/transfer/manager.go get at.
use mcp_execmesh.Base.{
  ℕ, ◌≤◌, ◌≡◌, subst, ap, if◌then◌else◌, Bool, true, false, not, some, arith, Str, ℤ, pos, leb_ℤ,
  ◌≤ℤ◌, Result, ok, err, guard, >>=-eq-ok, guard-eq-ok, ok-injective,
}
use mcp_execmesh.Ssh.Client.{ConnectOptions}
use mcp_execmesh.Target.{Target}
use mcp_execmesh.Target.Registry.{Registry}
use mcp_execmesh.Transfer.Links.{resolve_remote_file_path}
use mcp_execmesh.Transfer.Links.Resolved.{Reaches, resolve_remote_file_path_iff}
use mcp_execmesh.Transfer.Prepare.Checks.{
  IsActive, IsAllowed, active_target-IsActive, allowed_path-IsAllowed,
}
use mcp_execmesh.Transfer.Requests.{
  TransferConfig, ConnectError, connect_failed, stat_failed, link_failed, is_a_directory, map_err,
  active_target, allowed_path, transfer_options,
}
use mcp_execmesh.Transfer.Sftp.{Reader}
use mcp_execmesh.Transfer.Pull.{Found, ticket_ttl, open_client, locate}

map_err-ok : {E F A : Type 0} (f : E → F) (r : Result E A) (a : A) → map_err f r ≡ ok a → r ≡ ok a
map_err-ok f (ok b) a h = ap ok (ok-injective h)
map_err-ok f (err e) a h = absurd cc

-- A lifetime is between 30 seconds and the configured maximum (an hour if none is configured), and it is
-- the requested one where that is positive.
pub ticket_ttl-bounds :
    (requested default_ttl max_ttl : ℤ) (ttl : ℕ)
    → ticket_ttl requested default_ttl max_ttl ≡ some ttl
    → (30 ≤ ttl)
      × (pos ttl ≤ℤ (if leb_ℤ max_ttl (pos 0) then pos 3600 else max_ttl))
      × (pos 1 ≤ℤ requested → requested ≡ pos ttl)
unfolding ticket_ttl
ticket_ttl-bounds requested default_ttl max_ttl ttl h =
    (ground arith, ground arith, λ p. ground arith)

not-false : (b : Bool) → not b ≡ true → b ≡ false
not-false b h = ground arith

module _ {A : Type 0} {H : Type 0} (connect : ConnectOptions A H → Result ConnectError Reader)
    (config : TransferConfig) (registry : Registry A H) where
  -- An enabled target under this id, over whose connection a file lies at an allowed path, at most seven
  -- links away from the allowed path that was asked for.
  abbrev pub IsLocated : Str → Str → Found → Type 0
  IsLocated id p f =
      (t : Target A H) × (path : Str) × IsActive registry id t
      × IsAllowed t p path
      × (connect (transfer_options config t) ≡ ok f.client)
      × Reaches f.client path t.allowed_paths 8 path f.path
      × (f.client.stat f.path ≡ ok f.info)
      × (f.info.is_dir ≡ false)

  open_client-ok :
      (id p : Str) (opened : Target A H × Str × Reader)
      → open_client connect config registry id p ≡ ok opened
      → IsActive registry id opened.0
        × IsAllowed opened.0 p opened.1
        × (connect (transfer_options config opened.0) ≡ ok opened.2)
  unfolding open_client
  open_client-ok id p opened h =
      let (t, found, h₁) = >>=-eq-ok (active_target registry id) _ h in
      let (path, allowed, h₂) = >>=-eq-ok (allowed_path t p) _ h₁ in
      let (client, made, h₃) =
        >>=-eq-ok (map_err connect_failed (connect (transfer_options config t))) _ h₂ in
      subst
        (λ o.
          IsActive registry id o.0
          × IsAllowed o.0 p o.1
          × (connect (transfer_options config o.0) ≡ ok o.2))
        (ok-injective h₃)
        (
          active_target-IsActive registry id t found,
          allowed_path-IsAllowed t p path allowed,
          map_err-ok connect_failed (connect (transfer_options config t)) client made,
        )

  pub locate-IsLocated :
      (id p : Str) (f : Found) → locate connect config registry id p ≡ ok f → IsLocated id p f
  unfolding locate
  locate-IsLocated id p f h =
      let (opened, first, h₁) = >>=-eq-ok (open_client connect config registry id p) _ h in
      let (active, allowed, client) = open_client-ok id p opened first in
      let links = resolve_remote_file_path opened.2 opened.1 opened.0.allowed_paths in
      let (path, resolved, h₂) = >>=-eq-ok (map_err link_failed links) _ h₁ in
      let (fi, looked, h₃) =
        >>=-eq-ok (map_err (λ _. stat_failed path) (opened.2.stat path)) _ h₂ in
      let (_, plain, h₄) = >>=-eq-ok (guard (not fi.is_dir) (is_a_directory path)) _ h₃ in
      subst (IsLocated id p) (ok-injective h₄) (
        opened.0,
        opened.1,
        active,
        allowed,
        client,
        (resolve_remote_file_path_iff opened.2 opened.1 opened.0.allowed_paths path).0
            (map_err-ok link_failed links path resolved),
        map_err-ok (λ _. stat_failed path) (opened.2.stat path) fi looked,
        not-false fi.is_dir (guard-eq-ok _ _ plain),
      )
