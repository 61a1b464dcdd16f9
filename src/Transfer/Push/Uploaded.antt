-- ===== src/Transfer/Push/Uploaded.antt =====
-- What Push of internal/transfer/manager.go leaves where it succeeds.
use mcp_execmesh.Base.{
  ◌%◌, refl, ℕ, ◌≤◌, ◌<◌, ◌≡◌, subst, ap, ◌∙◌, sym, Bool, true, false, ◌&&◌, Option, none, some, [],
  arith, Str, length, concat, ok-injective, ok, guard-eq-ok,
}
use mcp_execmesh.Security.Ssrf.{Url, Ip}
use mcp_execmesh.Ssh.Client.{ConnectOptions}
use mcp_execmesh.Target.Registry.{Registry}
use mcp_execmesh.Transfer.Mode.{show_perm}
use mcp_execmesh.Transfer.Links.{dir_of}
use mcp_execmesh.Transfer.Sftp.{Sftp, IsLawful, RemoteFile}
use mcp_execmesh.Transfer.Prepare.{Plan, prepare}
use mcp_execmesh.Transfer.Requests.{
  PushRequest, PushResponse, TransferConfig, ConnectError, connect_failed, none_or,
  transfer_options,
}
use mcp_execmesh.Transfer.Push.{
  ◌>>=◌, ◌>>◌, lift, HttpResponse, above, exists_of, temp_path, ensure_dir, copy_body, closed,
  remove_old, fill_and_rename, download, upload, push,
}
use mcp_execmesh.Transfer.Push.Steps.{>>=-succeeds, attempt->>, lift->>, lift->>=, >>-succeeds}
use mcp_execmesh.Transfer.Push.Copied.{
  or_transfer_error-ok, may_overwrite, in_range, copy_body-Copied, closed-ok, closed-copied,
  cleaned-ok, file-remove_old,
}

module _ (S : Sftp) where
  push-planned :
      {A : Type 0} {H : Type 0} (parse_url : Str → Option Url) (parse_ip : Str → Option Ip)
      (sha256 : Str → Str) (fetch : Str → Option HttpResponse)
      (connect : ConnectOptions A H → Option ConnectError) (config : TransferConfig)
      (registry : Registry A H) (slot : Bool) (id : Str) (req : PushRequest) (plan : Plan A H)
      (s : S.State)
      → prepare parse_url parse_ip config registry slot req ≡ ok plan
      → push S parse_url parse_ip sha256 fetch connect config registry slot id req s
        ≡ (lift (none_or connect_failed (connect (transfer_options config plan.target)))
              >> upload S sha256 fetch plan id req)
            s
  unfolding push ◌>>=◌ lift
  push-planned parse_url parse_ip sha256 fetch connect config registry slot id req plan s planned =
      rw planned refl

  module _ {A : Type 0} {H : Type 0} (sha256 : Str → Str) (fetch : Str → Option HttpResponse)
      (plan : Plan A H) (id : Str) (req : PushRequest)
      (L : IsLawful S (temp_path plan.path id) plan.path) where
    abbrev temp : Str
    temp = temp_path plan.path id

    abbrev response : HttpResponse → ℕ → PushResponse
    response http size = record {
      target = req.target;
      remote_path = plan.path;
      size = size;
      sha256 = sha256 (concat http.reads);
      mode = show_perm plan.file_mode;
    }

    -- The file at the destination is the body, with the requested permission bits, and no temporary file is left. The
    -- body ended, within the limit, and the response is about it.
    abbrev pub Uploaded : S.State → PushResponse → HttpResponse → Type 0
    Uploaded after resp http =
        ((mode : ℕ) × (mode % 512 ≡ plan.file_mode % 512)
          × (L.file after plan.path ≡ some (record { content = concat http.reads; mode = mode })))
        × (L.file after temp ≡ none)
        × (http.broken ≡ false)
        × (above (length (concat http.reads)) plan.max_upload_bytes ≡ false)
        × (resp ≡ response http (length (concat http.reads)))

    fill_and_rename-Uploaded :
        (exists : Bool) (http : HttpResponse) (s : S.State) (m : ℕ) (resp : PushResponse)
        → L.file s temp ≡ some (record { content = []; mode = m })
        → (fill_and_rename S sha256 fetch plan id req exists http s).1 ≡ ok resp
        → Uploaded (fill_and_rename S sha256 fetch plan id req exists http s).0 resp http
    unfolding fill_and_rename lift
    fill_and_rename-Uploaded exists http s m resp created h =
        let copy = copy_body S temp plan.max_upload_bytes http.broken 0 http.reads in
        let (size, ok₁, e₁) = >>=-succeeds (λ s₁. closed S temp (copy s₁)) _ s h in
        let copied = closed-copied S temp plan.path L (copy s) ok₁ in
        let ((held, limit), size_eq, whole) =
          copy_body-Copied S temp plan.path L plan.max_upload_bytes http.broken 0 http.reads s
            (record { content = []; mode = m }) size created (ground arith) copied in
        let s₁ = (closed S temp (copy s)).0 in
        let h₁ = rw e₁ at h in
        let (chmodded, e₂) = attempt->> _ (λ s₂. S.chmod s₂ temp plan.file_mode) _ s₁ h₁ in
        let s₂ = (S.chmod s₁ temp plan.file_mode).0 in
        let h₂ = rw e₂ at h₁ in
        let (_, e₃) = >>-succeeds (remove_old S (exists && req.overwrite) plan.path) _ s₂ h₂ in
        let s₃ = (remove_old S (exists && req.overwrite) plan.path s₂).0 in
        let h₃ = rw e₃ at h₂ in
        let (renamed, e₄) = attempt->> _ (λ s₄. S.rename s₄ temp plan.path) _ s₃ h₃ in
        let s₄ = (S.rename s₃ temp plan.path).0 in
        let h₄ = rw e₄ at h₃ in
        let body = concat http.reads in
        let closing =
          closed-ok S temp plan.path L (copy s) (record { content = body; mode = m }) held ok₁ in
        let (mode, bits, set) =
          L.file-chmod s₁ plan.file_mode (record { content = body; mode = m }) closing chmodded in
        let f : RemoteFile = record { content = body; mode = mode } in
        let there = file-remove_old S temp plan.path L (exists && req.overwrite) s₂ f set in
        let (moved, gone) = L.file-rename s₃ f there renamed in
        let counted : size ≡ length (concat http.reads) = omega (arith, size_eq) in
        let answered : response http size ≡ resp = ok-injective h₄ in
        let same = e₁ ∙ e₂ ∙ e₃ ∙ e₄ in
        (
          (mode, bits, ap (λ r. L.file r.0 plan.path) same ∙ moved),
          ap (λ r. L.file r.0 temp) same ∙ gone,
          whole,
          rw counted at limit,
          sym answered ∙ ap (response http) counted,
        )

    download-Uploaded :
        (exists : Bool) (s : S.State) (resp : PushResponse)
        → (download S sha256 fetch plan id req exists s).1 ≡ ok resp
        → (http : HttpResponse) × (fetch req.file.download_url ≡ some http)
          × (exists ≡ true → req.overwrite ≡ true)
          × (200 ≤ http.status_code)
          × (http.status_code < 300)
          × Uploaded (download S sha256 fetch plan id req exists s).0 resp http
    unfolding download
    download-Uploaded exists s resp h =
        let (may, e₁) = lift->> _ _ s h in
        let h₁ = rw e₁ at h in
        let (http, got, e₂) = lift->>= _ _ s h₁ in
        let h₂ = rw e₂ at h₁ in
        let (status, e₃) = lift->> _ _ s h₂ in
        let h₃ = rw e₃ at h₂ in
        let (_, e₄) = lift->> _ _ s h₃ in
        let h₄ = rw e₄ at h₃ in
        let (opened, e₅) = attempt->> _ (λ s₁. S.create s₁ temp) _ s h₄ in
        let s₁ = (S.create s temp).0 in
        let h₅ = rw e₅ at h₄ in
        let (m, created) = L.file-create s opened in
        let fill = fill_and_rename S sha256 fetch plan id req exists http s₁ in
        let (filled, e₆) = cleaned-ok S temp plan.path L (λ s₂. S.remove s₂ temp) fill h₅ in
        let whole = fill_and_rename-Uploaded exists http s₁ m resp created filled in
        (
          http,
          or_transfer_error-ok _ (fetch req.file.download_url) got,
          may_overwrite exists req.overwrite (guard-eq-ok _ _ may),
          (in_range http.status_code (guard-eq-ok _ _ status)).0,
          (in_range http.status_code (guard-eq-ok _ _ status)).1,
          subst (λ r. Uploaded r.0 resp http) (sym (e₁ ∙ e₂ ∙ e₃ ∙ e₄ ∙ e₅ ∙ e₆)) whole,
        )

  -- When Push succeeds on a client that is lawful at the temporary file and the destination, the GET answered
  -- with a 2xx status and a body that ended within the byte limit, a file that Stat found at the destination
  -- was allowed to be overwritten, the file at the destination is that body with the permission bits of the
  -- requested mode, no temporary file is left, and the response gives its size and hash.
  pub push-Uploaded :
      {A : Type 0} {H : Type 0} (parse_url : Str → Option Url) (parse_ip : Str → Option Ip)
      (sha256 : Str → Str) (fetch : Str → Option HttpResponse)
      (connect : ConnectOptions A H → Option ConnectError) (config : TransferConfig)
      (registry : Registry A H) (slot : Bool) (id : Str) (req : PushRequest) (plan : Plan A H)
      (L : IsLawful S (temp_path plan.path id) plan.path) (s : S.State) (resp : PushResponse)
      → prepare parse_url parse_ip config registry slot req ≡ ok plan
      → (push S parse_url parse_ip sha256 fetch connect config registry slot id req s).1 ≡ ok resp
      → (http : HttpResponse) × (fetch req.file.download_url ≡ some http)
        × (exists_of ((S.reader (ensure_dir S (dir_of plan.path) s).0).stat plan.path) ≡ true
            → req.overwrite ≡ true)
        × (200 ≤ http.status_code)
        × (http.status_code < 300)
        × Uploaded sha256 fetch plan id req L
            (push S parse_url parse_ip sha256 fetch connect config registry slot id req s).0
            resp
            http
  unfolding upload
  push-Uploaded parse_url parse_ip sha256 fetch connect config registry slot id req plan L s resp
        planned h =
      let e₁ =
        push-planned parse_url parse_ip sha256 fetch connect config registry slot id req plan s
          planned in
      let h₁ = rw e₁ at h in
      let (_, e₂) = lift->> _ _ s h₁ in
      let h₂ = rw e₂ at h₁ in
      let s₁ = (ensure_dir S (dir_of plan.path) s).0 in
      let (_, e₃) = >>-succeeds (ensure_dir S (dir_of plan.path)) _ s h₂ in
      let (http, got, may, low, high, whole) =
        download-Uploaded sha256 fetch plan id req L (exists_of ((S.reader s₁).stat plan.path)) s₁
          resp (rw e₃ at h₂) in
      (
        http,
        got,
        may,
        low,
        high,
        subst (λ r. Uploaded sha256 fetch plan id req L r.0 resp http) (sym (e₁ ∙ e₂ ∙ e₃)) whole,
      )
