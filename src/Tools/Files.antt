-- ===== src/Tools/Files.antt =====
-- internal/mcp/tools/transfer.go: the handlers of the file tools, over the operations of the interface
-- TransferManager. The inputs of file_push, file_stat, file_hash and file_pull_prepare have the fields of the
-- requests that they become.
pub mod Authorized
use mcp_execmesh.Base.{Option, none, some, [], Str, is_empty, Bool, if◌then◌else◌, Result, ok, err}
use mcp_execmesh.Security.Scope.{
  Principal, AuthError, authorize, scope_files_read, scope_files_write,
}
use mcp_execmesh.Transfer.Requests.{
  DownloadFileSpec, PushRequest, PushResponse, StatRequest, StatResponse, HashRequest, HashResponse,
  PullPrepareRequest, PullPrepareResponse, TransferError,
}

pub data FileToolError : Type 0 where
  target_required : FileToolError
  remote_path_required : FileToolError
  download_url_required : FileToolError
  file_id_required : FileToolError
  url_required : FileToolError
  path_required : FileToolError
  unauthorized : AuthError → FileToolError
  transfer_failed : TransferError → FileToolError

-- The interface TransferManager, over a state; the base of the download links is fixed when the tools are
-- registered.
pub record TransferManager (S : Type 0) : Type 0 where
  pub push : PushRequest → S → S × Result TransferError PushResponse
  pub stat : StatRequest → S → S × Result TransferError StatResponse
  pub hash_file : HashRequest → S → S × Result TransferError HashResponse
  pub pull_prepare : PullPrepareRequest → S → S × Result TransferError PullPrepareResponse

pub record FilePushUrlInput : Type 0 where
  pub target : Str
  pub url : Str
  pub remote_path : Str
  pub overwrite : Bool
  pub mode : Str

abbrev pub transferred : {S B : Type 0} → S × Result TransferError B → S × Result FileToolError B
transferred (s, ok b) = (s, ok b)
transferred (s, err e) = (s, err (transfer_failed e))

-- The call, if the principal may do it.
abbrev pub if_authorized :
    {S B : Type 0}
    → Option AuthError
    → (S → S × Result TransferError B)
    → S
    → S × Result FileToolError B
if_authorized none call s = transferred (call s)
if_authorized (some e) call s = (s, err (unauthorized e))

abbrev pub url_request : FilePushUrlInput → PushRequest
url_request input = record {
  target = input.target;
  file = record { download_url = input.url; file_id = []; mime_type = []; file_name = [] };
  remote_path = input.remote_path;
  overwrite = input.overwrite;
  mode = input.mode;
}

module _ {S : Type 0} (manager : TransferManager S) (p : Option Principal) where
  unfoldable pub file_push : PushRequest → S → S × Result FileToolError PushResponse
  file_push input s =
      if is_empty input.target
      then (s, err target_required)
      else if is_empty input.remote_path
      then (s, err remote_path_required)
      else if is_empty input.file.download_url
      then (s, err download_url_required)
      else if is_empty input.file.file_id
      then (s, err file_id_required)
      else if_authorized (authorize p scope_files_write input.target) (manager.push input) s

  unfoldable pub file_push_url : FilePushUrlInput → S → S × Result FileToolError PushResponse
  file_push_url input s =
      if is_empty input.target
      then (s, err target_required)
      else if is_empty input.url
      then (s, err url_required)
      else if is_empty input.remote_path
      then (s, err remote_path_required)
      else if_authorized (authorize p scope_files_write input.target)
          (manager.push (url_request input)) s

  unfoldable pub file_stat : StatRequest → S → S × Result FileToolError StatResponse
  file_stat input s =
      if is_empty input.target
      then (s, err target_required)
      else if is_empty input.path
      then (s, err path_required)
      else if_authorized (authorize p scope_files_read input.target) (manager.stat input) s

  unfoldable pub file_hash : HashRequest → S → S × Result FileToolError HashResponse
  file_hash input s =
      if is_empty input.target
      then (s, err target_required)
      else if is_empty input.path
      then (s, err path_required)
      else if_authorized (authorize p scope_files_read input.target) (manager.hash_file input) s

  unfoldable pub file_pull_prepare :
      PullPrepareRequest → S → S × Result FileToolError PullPrepareResponse
  file_pull_prepare input s =
      if is_empty input.target
      then (s, err target_required)
      else if is_empty input.path
      then (s, err path_required)
      else if_authorized (authorize p scope_files_read input.target) (manager.pull_prepare input) s
