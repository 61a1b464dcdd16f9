-- ===== src/Transfer/Requests.antt =====
-- internal/transfer/model.go, and what the methods of internal/transfer/manager.go share: the errors, the
-- configuration, the checks of the target and of the path, the connection.
use mcp_execmesh.Base.{
  ℕ, Bool, not, Option, none, some, Str, ℤ, pos, leb_ℤ, if◌then◌else◌, Result, ok, err, ◌>>=◌, ◌>>◌,
}
use mcp_execmesh.Config.PublicUrl.{PublicUrlError}
use mcp_execmesh.Security.Path.{clean_and_validate_path, is_path_allowed}
use mcp_execmesh.Security.Ssrf.{SafeHttpClientOptions, SsrfError}
use mcp_execmesh.Ssh.Client.{ConnectOptions}
use mcp_execmesh.Target.{Target, TargetError, require_active, connect_options}
use mcp_execmesh.Target.Registry.{Registry, get}
use mcp_execmesh.Transfer.Tickets.{TicketError}
use mcp_execmesh.Transfer.Links.{LinkError}

pub record DownloadFileSpec : Type 0 where
  pub download_url : Str
  pub file_id : Str
  pub mime_type : Str
  pub file_name : Str

pub record PushRequest : Type 0 where
  pub target : Str
  pub file : DownloadFileSpec
  pub remote_path : Str
  pub overwrite : Bool
  pub mode : Str

pub record PushResponse : Type 0 where
  pub target : Str
  pub remote_path : Str
  pub size : ℕ
  pub sha256 : Str
  pub mode : Str

pub record StatRequest : Type 0 where
  pub target : Str
  pub path : Str

pub record StatResponse : Type 0 where
  pub target : Str
  pub path : Str
  pub exists : Bool
  pub type : Str
  pub size : ℕ
  pub mode : Str
  pub m_time : Str
  pub sha256 : Option Str

pub record HashRequest : Type 0 where
  pub target : Str
  pub path : Str
  pub algorithm : Str

pub record HashResponse : Type 0 where
  pub target : Str
  pub path : Str
  pub algorithm : Str
  pub hash : Str
  pub size : ℕ

pub record PullPrepareRequest : Type 0 where
  pub target : Str
  pub path : Str
  pub ttl_seconds : ℤ

-- The time of expiry, as a number, for its text.
pub record PullPrepareResponse : Type 0 where
  pub download_url : Str
  pub target : Str
  pub path : Str
  pub expires_at : ℕ
  pub size : ℕ

-- The parts of the RuntimeConfig and the SecurityConfig that the transfers read.
pub record TransferConfig : Type 0 where
  pub max_upload_bytes : ℤ
  pub sync_exec_timeout : ℤ
  pub default_download_ticket_ttl : ℤ
  pub max_download_ticket_ttl : ℤ
  pub download : SafeHttpClientOptions

pub data ConnectError : Type 0 where
  dial_failed : ConnectError
  sftp_failed : ConnectError

pub data TransferError : Type 0 where
  cancelled : TransferError
  target_missing : Str → TransferError
  target_unusable : TargetError → TransferError
  upload_not_allowed : Str → TransferError
  path_disallowed : Str → TransferError
  invalid_mode : Str → TransferError
  download_url_empty : TransferError
  invalid_download_url : SsrfError → TransferError
  connect_failed : ConnectError → TransferError
  mkdir_failed : Str → TransferError
  file_already_exists : Str → TransferError
  fetch_failed : TransferError
  http_status : ℕ → TransferError
  file_size_exceeds_limit : ℕ → TransferError
  create_failed : Str → TransferError
  upload_failed : Str → TransferError
  chmod_failed : Str → TransferError
  rename_failed : Str → Str → TransferError
  stat_failed : Str → TransferError
  unsupported_algorithm : Str → TransferError
  open_failed : Str → TransferError
  read_failed : TransferError
  public_base_url_not_configured : TransferError
  invalid_public_base_url : PublicUrlError → TransferError
  invalid_download_ttl : TransferError
  no_random_ticket : TransferError
  link_failed : LinkError → TransferError
  is_a_directory : Str → TransferError
  ticket_failed : TicketError → TransferError

abbrev pub none_or {η} : {E : Type 0} {F : Type η} → (E → F) → Option E → Result F (Unit {0})
none_or f none = ok tt
none_or f (some e) = err (f e)

abbrev pub map_err : {E F : Type 0} {A : Type 0} → (E → F) → Result E A → Result F A
map_err f (ok a) = ok a
map_err f (err e) = err (f e)

-- The timeout of a connection, in nanoseconds.
abbrev pub ssh_timeout : ℤ → ℤ
ssh_timeout configured = if leb_ℤ configured (pos 0) then pos 30000000000 else configured

module _ {A : Type 0} {H : Type 0} where
  unfoldable pub active_target : Registry A H → Str → Result TransferError (Target A H)
  unfolding get require_active
  active_target registry id = do
    t ← map_err (λ _. target_missing id) (get registry id)
    none_or target_unusable (require_active (some t))
    ok t

  -- CleanAndValidatePath does not fail.
  unfoldable pub allowed_path : Target A H → Str → Result TransferError Str
  allowed_path t p =
      let cleaned = clean_and_validate_path p t.default_cwd in
      if not (is_path_allowed cleaned t.allowed_paths)
      then err (path_disallowed cleaned)
      else ok cleaned

  abbrev pub transfer_options : TransferConfig → Target A H → ConnectOptions A H
  transfer_options config t = connect_options t (ssh_timeout config.sync_exec_timeout)
