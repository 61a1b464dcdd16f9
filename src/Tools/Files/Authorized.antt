-- ===== src/Tools/Files/Authorized.antt =====
-- internal/mcp/tools/transfer.go: what the file tools demand of the principal.
use mcp_execmesh.Base.{
  ◌≡◌, refl, Bool, true, false, Option, none, some, is_empty, if◌then◌else◌, Result, ok, err,
}
use mcp_execmesh.Security.Scope.{
  Principal, AuthError, authorize, scope_files_read, scope_files_write,
}
use mcp_execmesh.Transfer.Requests.{
  PushRequest, PushResponse, PullPrepareRequest, PullPrepareResponse, TransferError,
}
use mcp_execmesh.Tools.Files.{
  FileToolError, TransferManager, FilePushUrlInput, url_request, transferred, if_authorized,
  file_push, file_push_url, file_pull_prepare,
}

-- A handler that answers has passed a check.
past_check :
    {S B : Type 0} (b : Bool) (s : S) (e : FileToolError) (r : S × Result FileToolError B) {res : B}
    → (if b then (s, err e) else r).1 ≡ ok res
    → r.1 ≡ ok res
past_check false s e r h = h
past_check true s e r h = absurd cc

transferred-ok :
    {S B : Type 0} (r : S × Result TransferError B) {res : B}
    → (transferred r).1 ≡ ok res
    → r.1 ≡ ok res
transferred-ok (s, ok b) h = cc
transferred-ok (s, err e) h = absurd cc

if_authorized-ok :
    {S B : Type 0} (e : Option AuthError) (call : S → S × Result TransferError B) (s : S) {res : B}
    → (if_authorized e call s).1 ≡ ok res
    → (e ≡ none) × ((call s).1 ≡ ok res)
if_authorized-ok none call s h = (refl, transferred-ok (call s) h)
if_authorized-ok (some e) call s h = absurd cc

module _ {S : Type 0} (manager : TransferManager S) (p : Option Principal) where
  -- What file_push transfers, the manager transferred for a principal with the scope files:write and the
  -- target.
  pub file_push-authorized :
      (input : PushRequest) (s : S) {res : PushResponse}
      → (file_push manager p input s).1 ≡ ok res
      → (authorize p scope_files_write input.target ≡ none) × ((manager.push input s).1 ≡ ok res)
  unfolding file_push
  file_push-authorized input s h =
      if_authorized-ok (authorize p scope_files_write input.target) (manager.push input) s (
        past_check (is_empty input.file.file_id) s _ _ (
          past_check (is_empty input.file.download_url) s _ _ (
            past_check (is_empty input.remote_path) s _ _
              (past_check (is_empty input.target) s _ _ h))))

  -- What file_push_url transfers, the manager transferred from the URL for a principal with the scope
  -- files:write and the target.
  pub file_push_url-authorized :
      (input : FilePushUrlInput) (s : S) {res : PushResponse}
      → (file_push_url manager p input s).1 ≡ ok res
      → (authorize p scope_files_write input.target ≡ none)
        × ((manager.push (url_request input) s).1 ≡ ok res)
  unfolding file_push_url
  file_push_url-authorized input s h =
      if_authorized-ok (authorize p scope_files_write input.target)
        (manager.push (url_request input)) s
        (past_check (is_empty input.remote_path) s _ _
          (past_check (is_empty input.url) s _ _ (past_check (is_empty input.target) s _ _ h)))

  -- A link that file_pull_prepare gives is one that the manager made for a principal with the scope
  -- files:read and the target.
  pub file_pull_prepare-authorized :
      (input : PullPrepareRequest) (s : S) {res : PullPrepareResponse}
      → (file_pull_prepare manager p input s).1 ≡ ok res
      → (authorize p scope_files_read input.target ≡ none)
        × ((manager.pull_prepare input s).1 ≡ ok res)
  unfolding file_pull_prepare
  file_pull_prepare-authorized input s h =
      if_authorized-ok (authorize p scope_files_read input.target) (manager.pull_prepare input) s
        (past_check (is_empty input.path) s _ _ (past_check (is_empty input.target) s _ _ h))
