-- ===== src/Transfer/Pull.antt =====
-- Stat, Hash, PullPrepare and ServeDownload of internal/transfer/manager.go. The connection gives an SFTP
-- client's operations that read; it, the hashes and the random ticket are arguments, as is whether the
-- wait for a transfer slot ended before the context did. Times are in nanoseconds.
pub mod Located
pub mod Downloads
pub mod Prepared
pub mod Fetched
pub mod Again
use mcp_execmesh.Base.{
  neg_part, ◌-◌, ℕ, ◌+◌, ◌*◌, Bool, true, false, ◌||◌, not, Option, none, some, List, [], ◌∷◌, ◌++◌,
  Str, codes, str_eq, length, is_empty, show_ℕ, to_lower, trim_space, ℤ, pos, pos_part, ltb_ℤ,
  leb_ℤ, if◌then◌else◌, Result, ok, err, ◌>>=◌, ◌>>◌, guard,
}
use mcp_execmesh.Executor.{times_second}
use mcp_execmesh.Config.PublicUrl.{
  PublicUrl, PublicUrlError, validate_public_base_url, join_public_url,
}
use mcp_execmesh.Ssh.Client.{ConnectOptions}
use mcp_execmesh.Target.{Target}
use mcp_execmesh.Target.Registry.{Registry}
use mcp_execmesh.Transfer.Links.{safe_download_filename, resolve_remote_file_path}
use mcp_execmesh.Transfer.Mode.{show_perm}
use mcp_execmesh.Transfer.Requests.{
  StatRequest, StatResponse, HashRequest, HashResponse, PullPrepareRequest, PullPrepareResponse,
  TransferConfig, ConnectError, TransferError, cancelled, connect_failed, stat_failed,
  unsupported_algorithm, open_failed, read_failed, public_base_url_not_configured,
  invalid_public_base_url, invalid_download_ttl, no_random_ticket, link_failed, is_a_directory,
  ticket_failed, none_or, map_err, active_target, allowed_path, transfer_options,
}
use mcp_execmesh.Transfer.Sftp.{FileInfo, StatError, not_exist, stat_refused, RemoteRead, Reader}
use mcp_execmesh.Transfer.Tickets
use mcp_execmesh.Transfer.Tickets.{Ticket, TicketError, register, claim}

abbrev pub or_failed : {A : Type 0} → TransferError → Option A → Result TransferError A
or_failed e none = err e
or_failed e (some a) = ok a

unfoldable pub type_of : FileInfo → Str
type_of fi =
    if fi.is_dir then codes "dir" else if fi.is_symlink then codes "symlink" else codes "file"

abbrev pub stat_response : Str → Str → Result StatError FileInfo → Result TransferError StatResponse
stat_response target path (ok fi) = ok (record {
  target = target;
  path = path;
  exists = true;
  type = type_of fi;
  size = fi.size;
  mode = show_perm fi.perm;
  m_time = fi.mod_time;
  sha256 = none;
})
stat_response target path (err not_exist) = ok (record {
  target = target;
  path = path;
  exists = false;
  type = [];
  size = 0;
  mode = [];
  m_time = [];
  sha256 = none;
})
stat_response target path (err stat_refused) = err (stat_failed path)

pub data HashAlgorithm : Type 0 where
  sha256 : HashAlgorithm
  sha1 : HashAlgorithm
  md5 : HashAlgorithm

unfoldable pub hash_algorithm : Str → Option HashAlgorithm
hash_algorithm algorithm =
    let algo = to_lower (trim_space algorithm) in
    if is_empty algo || str_eq algo (codes "sha256")
    then some sha256
    else if str_eq algo (codes "sha1")
    then some sha1
    else if str_eq algo (codes "md5")
    then some md5
    else none

abbrev pub algorithm_name : HashAlgorithm → Str
algorithm_name sha256 = codes "sha256"
algorithm_name sha1 = codes "sha1"
algorithm_name md5 = codes "md5"

-- The lifetime of a ticket in seconds; `none` is the error.
unfoldable pub ticket_ttl : ℤ → ℤ → ℤ → Option ℕ
ticket_ttl requested default_ttl max_ttl =
    let ttl =
      if leb_ℤ requested (pos 0)
      then (if leb_ℤ default_ttl (pos 0) then pos 900 else default_ttl)
      else requested in
    if ltb_ℤ ttl (pos 30) || ltb_ℤ (if leb_ℤ max_ttl (pos 0) then pos 3600 else max_ttl) ttl
    then none
    else some (pos_part ttl)

-- A file that was found: the client, its path and what Stat answers.
pub record Found : Type 0 where
  pub client : Reader
  pub path : Str
  pub info : FileInfo

-- What a download sends: the headers and, but for HEAD, the body.
pub record Download : Type 0 where
  pub headers : List (Str × Str)
  pub body : Option Str

unfoldable pub download_headers : Str → ℕ → List (Str × Str)
unfolding show_ℕ safe_download_filename
download_headers path size =
    (codes "Content-Type", codes "application/octet-stream")
    ∷ (codes "Content-Length", show_ℕ size)
    ∷ (
      codes "Content-Disposition",
      codes "attachment; filename=\"" ++ (safe_download_filename path ++ codes "\""),
    )
    ∷ (codes "Cache-Control", codes "private, no-store")
    ∷ (codes "Pragma", codes "no-cache")
    ∷ (codes "X-Content-Type-Options", codes "nosniff")
    ∷ []

-- time.Now().Add(d). A time before the epoch counts as the epoch, which is over at every reading of the clock
-- but 0.
abbrev pub plus_duration : ℕ → ℤ → ℕ
plus_duration now d = now + pos_part d - neg_part d

abbrev pub new_ticket : ℕ → PullPrepareRequest → ℕ → Found → Ticket
new_ticket now req ttl f = record {
  target_id = req.target;
  path = f.path;
  expires_at = plus_duration now (times_second (pos ttl));
}

-- A read to the end; what was sent before it broke off is not kept.
abbrev pub read_whole : RemoteRead → Result TransferError Str
read_whole file = if file.broken then err read_failed else ok file.content

abbrev pub send : Bool → Found → Result TransferError Download
send head f =
    if head then ok (record { headers = download_headers f.path f.info.size; body = none }) else do
      file ← or_failed (open_failed f.path) (f.client.open_file f.path)
      content ← read_whole file
      ok (record { headers = download_headers f.path f.info.size; body = some content })

module _ {A : Type 0} {H : Type 0} (connect : ConnectOptions A H → Result ConnectError Reader)
    (config : TransferConfig) (registry : Registry A H) where
  -- The target, the allowed path and the client, as each of the methods asks for them.
  unfoldable pub open_client : Str → Str → Result TransferError (Target A H × Str × Reader)
  open_client id p = do
    t ← active_target registry id
    path ← allowed_path t p
    client ← map_err connect_failed (connect (transfer_options config t))
    ok (t, path, client)

  unfoldable pub stat : StatRequest → Result TransferError StatResponse
  unfolding open_client type_of
  stat req = do
    opened ← open_client req.target req.path
    stat_response req.target opened.1 (opened.2.stat opened.1)

  -- The algorithm is looked at behind the path and before the connection.
  unfoldable pub hash_file :
      (HashAlgorithm → Str → Str) → HashRequest → Result TransferError HashResponse
  hash_file digest req = do
    t ← active_target registry req.target
    path ← allowed_path t req.path
    algo ← or_failed (unsupported_algorithm req.algorithm) (hash_algorithm req.algorithm)
    client ← map_err connect_failed (connect (transfer_options config t))
    file ← or_failed (open_failed path) (client.open_file path)
    content ← read_whole file
    ok (record {
      target = req.target;
      path = path;
      algorithm = algorithm_name algo;
      hash = digest algo content;
      size = length content;
    })

  -- The links are followed, and what they lead to is no directory.
  unfoldable pub locate : Str → Str → Result TransferError Found
  unfolding open_client
  locate id p = do
    opened ← open_client id p
    path ← map_err link_failed (resolve_remote_file_path opened.2 opened.1 opened.0.allowed_paths)
    fi ← map_err (λ _. stat_failed path) (opened.2.stat path)
    guard (not fi.is_dir) (is_a_directory path)
    ok (record { client = opened.2; path = path; info = fi })

  module _ (parse_url : Str → Option PublicUrl) (print_url : PublicUrl → Str)
      (hash : Str → Str) where
    abbrev url_error : PublicUrlError → TransferError
    url_error e = invalid_public_base_url e

    -- What comes before the registration: the lifetime, the file and the ticket.
    unfoldable pub check_pull :
        Str → Option Str → PullPrepareRequest → Result TransferError (ℕ × Found × Str)
    check_pull base random req = do
      guard (not (is_empty (trim_space base))) public_base_url_not_configured
      u ← map_err url_error (validate_public_base_url parse_url base true)
      ttl ← or_failed invalid_download_ttl (
          ticket_ttl req.ttl_seconds config.default_download_ticket_ttl
            config.max_download_ticket_ttl)
      f ← locate req.target req.path
      ticket ← or_failed no_random_ticket random
      ok (ttl, f, ticket)

    abbrev pub link_of :
        Str → PullPrepareRequest → Ticket → Found → Str → Result TransferError PullPrepareResponse
    link_of base req ent f ticket = do
      url ←
          map_err url_error (join_public_url parse_url print_url base (codes "files" ∷ ticket ∷ []))
      ok (record {
        download_url = url;
        target = req.target;
        path = f.path;
        expires_at = ent.expires_at;
        size = f.info.size;
      })

    abbrev pub registered :
        Str
        → PullPrepareRequest
        → Ticket
        → Found
        → Str
        → Tickets.Registry × Option TicketError
        → Tickets.Registry × Result TransferError PullPrepareResponse
    registered base req ent f ticket (r, some e) = (r, err (ticket_failed e))
    registered base req ent f ticket (r, none) = (r, link_of base req ent f ticket)

    unfoldable pub pull_prepare :
        ℕ
        → Tickets.Registry
        → Str
        → Option Str
        → PullPrepareRequest
        → Tickets.Registry × Result TransferError PullPrepareResponse
    pull_prepare now r base random req = elim (check_pull base random req) [
      | err e ↦ (r, err e)
      | ok (ttl, f, ticket) ↦
          registered base req (new_ticket now req ttl f) f ticket
            (register hash now r ticket (new_ticket now req ttl f))
    ]

  -- Behind the claim of the ticket.
  unfoldable pub serve_entry : Bool → Bool → Ticket → Result TransferError Download
  unfolding locate
  serve_entry slot head entry = do
    guard slot cancelled
    f ← locate entry.target_id entry.path
    send head f

  abbrev pub claimed :
      Bool
      → Bool
      → Tickets.Registry × Result TicketError Ticket
      → Tickets.Registry × Result TransferError Download
  claimed slot head (r, err e) = (r, err (ticket_failed e))
  claimed slot head (r, ok entry) = (r, serve_entry slot head entry)

  unfoldable pub serve_download :
      (Str → Str)
      → ℕ
      → Tickets.Registry
      → Bool
      → Bool
      → Str
      → Tickets.Registry × Result TransferError Download
  serve_download hash now r slot head ticket = claimed slot head (claim hash now r ticket)
