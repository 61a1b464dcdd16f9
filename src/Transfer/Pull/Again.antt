-- ===== src/Transfer/Pull/Again.antt =====
-- A file that internal/transfer found at the end of its links is found again under its own path.
use mcp_execmesh.Base.{
  ℕ, suc, ◌≡◌, refl, sym, ◌∙◌, subst, ap, ◌⊎◌, true, false, List, [], ◌∷◌, arith, Str, has_prefix,
  Bool-cases, inl, inr, Result, ok,
}
use mcp_execmesh.Ssh.Client.{ConnectOptions}
use mcp_execmesh.Security.Path.{is_abs, clean, file_join, is_path_allowed, clean_and_validate_path}
use mcp_execmesh.Security.Path.Allowed.{is_path_allowed_iff, is_abs-clean}
use mcp_execmesh.Security.Path.Idempotent.{clean_idempotent}
use mcp_execmesh.Target.{Target, require_active}
use mcp_execmesh.Target.Registry.{Registry, get}
use mcp_execmesh.Transfer.Links.{dir_of, link_target, resolve_remote_file_path}
use mcp_execmesh.Transfer.Links.Resolved.{
  Links, no_link, link, IsFile, resolve_remote_file_path_iff,
}
use mcp_execmesh.Transfer.Prepare.Checks.{IsActive}
use mcp_execmesh.Transfer.Requests.{
  TransferConfig, ConnectError, active_target, allowed_path, transfer_options,
}
use mcp_execmesh.Transfer.Sftp.{Reader}
use mcp_execmesh.Transfer.Pull.{Found, open_client, locate}
use mcp_execmesh.Transfer.Pull.Located.{locate-IsLocated}

clean-link_target : (p target : Str) → (x : Str) × (link_target p target ≡ clean x)
unfolding link_target
clean-link_target p target = elim (Bool-cases (is_abs target)) [
  | inl root ↦ (target, rw root refl)
  | inr relative ↦ (file_join (dir_of p) target, rw relative refl)
]

-- Behind at least one link stands a cleaned path.
clean-Links :
    (client : Reader) (k : ℕ) (p q : Str)
    → Links client k p q
    → (q ≡ p) ⊎ ((x : Str) × (q ≡ clean x))
clean-Links client _ p _ no_link = inl refl
clean-Links client (suc k) p q (link fi target f sym t links) =
    elim (clean-Links client k (link_target p target) q links) [
      | inl same ↦ let (x, e) = clean-link_target p target in inr (x, same ∙ e)
      | inr found ↦ inr found
    ]

is_abs-of_allowed :
    (path : Str) (prefixes : List Str) → is_path_allowed path prefixes ≡ true → is_abs path ≡ true
is_abs-of_allowed path prefixes h = ((is_path_allowed_iff path prefixes).0 h).0

clean-clean : (x : Str) → is_abs (clean x) ≡ true → clean (clean x) ≡ clean x
clean-clean x h = clean_idempotent x (sym (is_abs-clean x) ∙ h)

-- The path asked for, where it is absolute, is cleaned as it is.
cleaned_path : (p cwd : Str) → is_abs p ≡ true → clean_and_validate_path p cwd ≡ clean p
unfolding clean_and_validate_path
cleaned_path [] cwd h = absurd (unfold is_abs has_prefix in ground arith)
cleaned_path (c ∷ p) cwd h = rw (is_abs-clean (c ∷ p), h) refl

cleaned_of_clean : (end x : Str) → end ≡ clean x → is_abs (clean end) ≡ true → clean end ≡ end
cleaned_of_clean end x e h =
    ap clean e ∙ clean-clean x (ap is_abs (sym e) ∙ sym (is_abs-clean end) ∙ h) ∙ sym e

clean-end :
    (client : Reader) (k : ℕ) (path end p : Str)
    → path ≡ clean p
    → Links client k path end
    → is_abs (clean end) ≡ true
    → clean end ≡ end
clean-end client k path end p e links h = elim (clean-Links client k path end links) [
  | inl same ↦ cleaned_of_clean end p (same ∙ e) h
  | inr (x, found) ↦ cleaned_of_clean end x found h
]

module _ {A : Type 0} {H : Type 0} (connect : ConnectOptions A H → Result ConnectError Reader)
    (config : TransferConfig) (registry : Registry A H) where
  active_target-of_IsActive :
      (id : Str) (t : Target A H) → IsActive registry id t → active_target registry id ≡ ok t
  unfolding active_target get require_active
  active_target-of_IsActive id t active = rw (active.0, active.1) refl

  opened-of :
      (id p : Str) (t : Target A H) (client : Reader)
      → IsActive registry id t
      → clean_and_validate_path p t.default_cwd ≡ p
      → is_path_allowed p t.allowed_paths ≡ true
      → connect (transfer_options config t) ≡ ok client
      → open_client connect config registry id p ≡ ok (t, p, client)
  unfolding open_client allowed_path
  opened-of id p t client active same allowed made =
      rw (active_target-of_IsActive id t active, same, allowed, made) refl

  located-of :
      (id : Str) (t : Target A H) (f : Found)
      → open_client connect config registry id f.path ≡ ok (t, f.path, f.client)
      → resolve_remote_file_path f.client f.path t.allowed_paths ≡ ok f.path
      → f.client.stat f.path ≡ ok f.info
      → f.info.is_dir ≡ false
      → locate connect config registry id f.path ≡ ok f
  unfolding locate
  located-of id t f opened resolved looked plain = rw (opened, resolved, looked, plain) refl

  -- A file that was found for an absolute path is found again under its own path.
  pub locate-again :
      (id p : Str) (f : Found)
      → is_abs p ≡ true
      → locate connect config registry id p ≡ ok f
      → locate connect config registry id f.path ≡ ok f
  locate-again id p f root h =
      let (t, path, active, allowed, client, reaches, looked, plain) =
        locate-IsLocated connect config registry id p f h in
      let (k, end, lt, links, file, same, permitted) = reaches in
      let absolute = is_abs-of_allowed f.path t.allowed_paths permitted in
      let at_end : f.path ≡ end =
        same
        ∙ clean-end f.client k path end p (allowed.0 ∙ cleaned_path p t.default_cwd root) links
            (ap is_abs (sym same) ∙ absolute) in
      let again : clean f.path ≡ f.path = ap clean at_end ∙ sym same in
      let unlinked : IsFile f.client f.path = subst (IsFile f.client) (sym at_end) file in
      located-of id t f
        (opened-of id f.path t f.client active (cleaned_path f.path t.default_cwd absolute ∙ again)
          permitted client)
        ((resolve_remote_file_path_iff f.client f.path t.allowed_paths f.path).1
          (0, f.path, omega arith, no_link, unlinked, sym again, permitted))
        looked plain
