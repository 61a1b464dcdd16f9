-- ===== src/Transfer/Prepare.antt =====
-- The checks of Push in internal/transfer/manager.go that come before the connection. Whether the wait for
-- a transfer slot ended before the context did is an argument.
pub mod Checks
use mcp_execmesh.Base.{
  ℕ, Bool, ◌&&◌, not, Option, none, some, Str, is_empty, ℤ, pos, ltb_ℤ, if◌then◌else◌, Result, ok,
  err, ◌>>=◌, ◌>>◌, guard,
}
use mcp_execmesh.Security.Ssrf.{Url, Ip, validate_url}
use mcp_execmesh.Target.{Target}
use mcp_execmesh.Target.Registry.{Registry}
use mcp_execmesh.Transfer.Mode.{parse_mode}
use mcp_execmesh.Transfer.Requests.{
  PushRequest, TransferConfig, TransferError, cancelled, upload_not_allowed, invalid_mode,
  download_url_empty, invalid_download_url, map_err, active_target, allowed_path,
}

unfoldable pub max_upload : ℤ → ℤ → ℤ
max_upload runtime_max target_max =
    if ltb_ℤ (pos 0) target_max && ltb_ℤ target_max runtime_max then target_max else runtime_max

abbrev pub mode_or_error : Str → Option ℕ → Result TransferError ℕ
mode_or_error mode none = err (invalid_mode mode)
mode_or_error mode (some m) = ok m

-- What is settled before the connection.
pub record Plan (A : Type 0) (H : Type 0) : Type 0 where
  pub target : Target A H
  pub path : Str
  pub max_upload_bytes : ℤ
  pub file_mode : ℕ

module _ {A : Type 0} {H : Type 0} (parse_url : Str → Option Url) (parse_ip : Str → Option Ip) where
  unfoldable pub prepare :
      TransferConfig → Registry A H → Bool → PushRequest → Result TransferError (Plan A H)
  prepare config registry slot req = do
    guard slot cancelled
    t ← active_target registry req.target
    guard t.capabilities.upload (upload_not_allowed req.target)
    path ← allowed_path t req.remote_path
    mode ← mode_or_error req.mode (parse_mode req.mode)
    guard (not (is_empty req.file.download_url)) download_url_empty
    u ←
        map_err invalid_download_url
          (validate_url parse_url parse_ip req.file.download_url config.download)
    ok (record {
      target = t;
      path = path;
      max_upload_bytes = max_upload config.max_upload_bytes t.limits.max_upload_bytes;
      file_mode = mode;
    })
