-- ===== src/Transfer/PullTests.antt =====
-- Tests of the reading methods of internal/transfer/manager.go and of download.go, and their theorems at
-- concrete inputs.
use mcp_execmesh.Base.{
  ◌≡◌, refl, zero, suc, ◌↔◌, true, false, none, some, Option, [], ◌∷◌, ◌++◌, Str, codes, ℕ, ◌+◌,
  ◌*◌, pos, ◌≤◌, ok, err, arith, str_eq, has_prefix, has_suffix, contains, trim_space, trim_left,
  to_lower, split, split_first, join, lookup, insert, delete, member, show_ℤ, show_ℕ, digits_before,
  Result,
}
use mcp_execmesh.Config.PublicUrl.{
  PublicUrl, drop_slashes, trim_right_slashes, check_scheme, trimmed_parts,
  validate_public_base_url, join_public_url,
}
use mcp_execmesh.Security.Digest.{all_token_bytes}
use mcp_execmesh.Security.Path.{
  is_abs, pop_part, push_part, resolve_parts, segments, clean, file_join, with_slash, under_prefix,
  under_any, is_path_allowed, clean_and_validate_path,
}
use mcp_execmesh.Ssh.Client.{ConnectOptions}
use mcp_execmesh.Target.{Target, address, connect_options, require_active}
use mcp_execmesh.Target.Registry
use mcp_execmesh.Target.Registry.{get}
use mcp_execmesh.Transfer.Links.{
  split_last, trim_slashes, dir_of, base_of, link_target, at_file, follow_links, too_many_links,
  resolve_remote_file_path, safe_download_filename,
}
use mcp_execmesh.Transfer.Links.Resolved.{
  Links, no_link, link, Reaches, resolve_remote_file_path_iff, resolve_remote_file_path-too_many,
}
use mcp_execmesh.Transfer.Mode.{show_perm}
use mcp_execmesh.Transfer.Requests.{
  PullPrepareRequest, PullPrepareResponse, TransferConfig, ConnectError, TransferError,
  ticket_failed, active_target, allowed_path,
}
use mcp_execmesh.Transfer.Sftp.{FileInfo, StatError, not_exist, Reader}
use mcp_execmesh.Transfer.Tickets
use mcp_execmesh.Transfer.Tickets.{
  Ticket, invalid_token, valid_download_ticket, purge_expired, put_ticket, take_ticket, register,
  claim,
}
use mcp_execmesh.Transfer.Pull.{
  Found, Download, ticket_ttl, type_of, hash_algorithm, stat, hash_file, send, download_headers,
  open_client, locate, check_pull, pull_prepare, serve_entry, serve_download,
}
use mcp_execmesh.Transfer.Pull.Located.{IsLocated}
use mcp_execmesh.Transfer.Pull.Downloads.{serve_download-once, serve_download-IsLocated}
use mcp_execmesh.Transfer.Pull.Fetched.{Sends, pull_prepare-serve_download}

all_open : Unit {0}
unfolding str_eq has_prefix has_suffix contains trim_space trim_left to_lower split split_first join
    lookup insert delete member show_ℤ show_ℕ digits_before drop_slashes trim_right_slashes
    check_scheme trimmed_parts validate_public_base_url join_public_url all_token_bytes is_abs
    pop_part push_part resolve_parts segments clean file_join with_slash under_prefix under_any
    is_path_allowed clean_and_validate_path address connect_options require_active get split_last
    trim_slashes dir_of base_of link_target at_file follow_links resolve_remote_file_path
    safe_download_filename show_perm active_target allowed_path valid_download_ticket purge_expired
    put_ticket take_ticket register claim ticket_ttl type_of hash_algorithm stat hash_file
    download_headers open_client locate check_pull pull_prepare serve_entry serve_download
all_open = tt

abbrev plain : FileInfo
plain = record { is_dir = false; is_symlink = false; size = 5; perm = 420; mod_time = codes "t" }

abbrev symlink : FileInfo
symlink = record { is_dir = false; is_symlink = true; size = 0; perm = 511; mod_time = codes "t" }

-- /srv/log is a link to the file data/today, and /srv/loop one to itself.
abbrev stat_of : Str → Result StatError FileInfo
stat_of p =
    elim (lookup p (
      (codes "/srv/log", symlink)
      ∷ (codes "/srv/loop", symlink)
      ∷ (codes "/srv/data/today", plain)
      ∷ [])) [ none ↦ err not_exist | some fi ↦ ok fi ]

abbrev client : Reader
client = record {
  lstat = stat_of;
  stat = stat_of;
  read_link = λ p.
      lookup p ((codes "/srv/log", codes "data/today") ∷ (codes "/srv/loop", codes "loop") ∷ []);
  open_file = λ p. some (record { content = codes "hello"; broken = false });
}

abbrev box : Target (Unit {0}) (Unit {0})
box = record {
  id = codes "box";
  name = codes "box";
  host = codes "box.internal";
  port = pos 22;
  user = codes "ops";
  auth_method = [];
  host_key_callback = tt;
  default_cwd = codes "/srv";
  shell = codes "/bin/sh";
  tags = [];
  limits = record { max_exec_seconds = pos 60; max_upload_bytes = pos 6 };
  capabilities = record { exec = false; upload = false; jobs = false };
  allowed_paths = codes "/srv" ∷ [];
  env = [];
  enabled = true;
  auth_ref = [];
  known_host_ref = [];
}

abbrev boxes : Registry.Registry (Unit {0}) (Unit {0})
boxes = record { targets = (codes "box", box) ∷ [] }

abbrev config : TransferConfig
config = record {
  max_upload_bytes = pos 100;
  sync_exec_timeout = pos 0;
  default_download_ticket_ttl = pos 0;
  max_download_ticket_ttl = pos 3600;
  download = record { allowed_schemes = []; block_private = true; max_redirects = pos 3 };
}

abbrev reached : ConnectOptions (Unit {0}) (Unit {0}) → Result ConnectError Reader
reached _ = ok client

links_tests :
    (resolve_remote_file_path client (codes "/srv/log") box.allowed_paths
      ≡ ok (codes "/srv/data/today"))
    × (resolve_remote_file_path client (codes "/srv/loop") box.allowed_paths
        ≡ err (too_many_links (codes "/srv/loop")))
    × (safe_download_filename (codes "/srv/a \"b\".txt") ≡ codes "a__b_.txt")
    × (safe_download_filename (codes "/") ≡ codes "_")
unfolding all_open
links_tests = (refl, refl, refl, refl)

resolve_remote_file_path_iff_example :
    (resolve_remote_file_path client (codes "/srv/log") box.allowed_paths
      ≡ ok (codes "/srv/data/today"))
    ↔ Reaches client
        (codes "/srv/log")
        box.allowed_paths
        8
        (codes "/srv/log")
        (codes "/srv/data/today")
resolve_remote_file_path_iff_example =
    resolve_remote_file_path_iff client (codes "/srv/log") box.allowed_paths
      (codes "/srv/data/today")

loops : (k : ℕ) → Links client k (codes "/srv/loop") (codes "/srv/loop")
unfolding all_open
loops zero = no_link
loops (suc k) = link symlink (codes "loop") refl refl refl (loops k)

resolve_remote_file_path-too_many_example :
    resolve_remote_file_path client (codes "/srv/loop") box.allowed_paths
    ≡ err (too_many_links (codes "/srv/loop"))
resolve_remote_file_path-too_many_example =
    resolve_remote_file_path-too_many client (codes "/srv/loop") box.allowed_paths
      (codes "/srv/loop") (loops 8)

abbrev parse_url : Str → Option PublicUrl
parse_url s = some (record {
  scheme = codes "https";
  host = codes "mesh.example";
  hostname = codes "mesh.example";
  path = codes "/base/";
  raw_query = [];
  fragment = [];
})

abbrev print_url : PublicUrl → Str
print_url u = u.scheme ++ (codes "://" ++ (u.host ++ u.path))

abbrev same : Str → Str
same s = s

abbrev ticket : Str
ticket = codes "AAAAAAAAAAAAAAAAAAAAAAAAAAAAAAAAAAAAAAAAAA0"

abbrev no_tickets : Tickets.Registry
no_tickets = record { tickets = []; max = 2 }

abbrev request : PullPrepareRequest
request = record { target = codes "box"; path = codes "/srv/log"; ttl_seconds = pos 0 }

abbrev prepared : Tickets.Registry × Result TransferError PullPrepareResponse
prepared =
    pull_prepare reached config boxes parse_url print_url same 7 no_tickets
      (codes "https://mesh.example/base") (some ticket) request

abbrev response : PullPrepareResponse
response = record {
  download_url = codes "https://mesh.example/base/files/" ++ ticket;
  target = codes "box";
  path = codes "/srv/data/today";
  expires_at = 900000000007;
  size = 5;
}

abbrev sent : Download
sent = record {
  headers = download_headers (codes "/srv/data/today") 5;
  body = some (codes "hello");
}

answered :
    (prepared.1 ≡ ok response)
    × ((serve_download reached config boxes same 9 prepared.0 true false ticket).1 ≡ ok sent)
    × (valid_download_ticket ticket ≡ true)
    × (is_abs request.path ≡ true)
unfolding all_open
answered = (refl, refl, refl, refl)

pull_prepare-serve_download_example :
    (7 + 30 * 1000000000 ≤ response.expires_at)
    × ((f : Found) × IsLocated reached config boxes request.target request.path f
        × (f.path ≡ response.path)
        × (f.info.size ≡ response.size)
        × Sends false f (serve_download reached config boxes same 9 prepared.0 true false ticket).1)
pull_prepare-serve_download_example =
    pull_prepare-serve_download reached config boxes parse_url print_url same 7 9 no_tickets
      (codes "https://mesh.example/base") ticket request response false answered.0 answered.2
      answered.3 (omega arith) (omega arith)

serve_download-once_example :
    (serve_download reached config boxes same 10
      (serve_download reached config boxes same 9 prepared.0 true false ticket).0
      true
      false
      ticket).1
    ≡ err (ticket_failed invalid_token)
serve_download-once_example =
    serve_download-once same reached reached config config boxes boxes 9 10 prepared.0 true true
      false false ticket

serve_download-IsLocated_example :
    (entry : Ticket) × (f : Found) × (lookup (same ticket) prepared.0.tickets ≡ some entry)
    × (9 ≤ entry.expires_at)
    × IsLocated reached config boxes entry.target_id entry.path f
    × (send false f ≡ ok sent)
serve_download-IsLocated_example =
    serve_download-IsLocated reached config boxes same 9 prepared.0 true false ticket sent
      answered.1

stat_tests :
    (stat reached config boxes (record { target = codes "box"; path = codes "gone" })
      ≡ ok (record {
        target = codes "box";
        path = codes "/srv/gone";
        exists = false;
        type = [];
        size = 0;
        mode = [];
        m_time = [];
        sha256 = none;
      }))
    × (hash_file reached config boxes
          (λ _ s. s)
          (record { target = codes "box"; path = codes "log"; algorithm = codes " SHA256 " })
        ≡ ok (record {
          target = codes "box";
          path = codes "/srv/log";
          algorithm = codes "sha256";
          hash = codes "hello";
          size = 5;
        }))
unfolding all_open
stat_tests = (refl, refl)
