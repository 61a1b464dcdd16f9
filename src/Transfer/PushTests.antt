-- ===== src/Transfer/PushTests.antt =====
-- Tests of Push of internal/transfer/manager.go, and its theorems at concrete inputs.
use mcp_execmesh.Base.{
  ◌≡◌, refl, ◌≢◌, true, false, Bool, none, some, Option, List, [], ◌∷◌, Str, codes, pos, ◌≤◌, ◌<◌,
  ok, err, arith, str_eq, has_prefix, has_suffix, contains, trim_space, trim_left, to_lower,
  equal_fold, split, split_first, join, lookup, insert, delete, member, show_ℤ, show_ℕ,
  digits_before, Result,
}
use mcp_execmesh.Security.Path.{
  is_abs, pop_part, push_part, resolve_parts, segments, clean, file_join, with_slash, under_prefix,
  under_any, is_path_allowed, clean_and_validate_path,
}
use mcp_execmesh.Security.Ssrf.{Url, Ip, scheme_allowed, is_blocked, validate_url}
use mcp_execmesh.Ssh.Client.{ConnectOptions}
use mcp_execmesh.Target.{Target, address, connect_options, require_active}
use mcp_execmesh.Target.Registry
use mcp_execmesh.Target.Registry.{get}
use mcp_execmesh.Transfer.Links.{split_last, trim_slashes, dir_of, base_of}
use mcp_execmesh.Transfer.Mode.{read_octal, parse_octal, parse_mode, show_perm}
use mcp_execmesh.Transfer.Prepare.{Plan, max_upload, prepare}
use mcp_execmesh.Transfer.Prepare.Checks.{IsPermitted, prepare-IsPermitted}
use mcp_execmesh.Transfer.Requests.{
  PushRequest, PushResponse, TransferConfig, ConnectError, TransferError, file_already_exists,
  file_size_exceeds_limit, rename_failed, active_target, allowed_path,
}
use mcp_execmesh.Transfer.Sftp.{RemoteFile}
use mcp_execmesh.Transfer.Sftp.Memory.{Host, memory, memory-IsLawful}
use mcp_execmesh.Transfer.Push.{
  ◌>>=◌, ◌>>◌, lift, attempt, HttpResponse, exists_of, temp_path, ensure_dir, copy_body, remove_old,
  fill_and_rename, download, upload, push,
}
use mcp_execmesh.Transfer.Push.Uploaded.{Uploaded, push-Uploaded}

all_open : Unit {0}
unfolding str_eq has_prefix has_suffix contains trim_space trim_left to_lower equal_fold split
    split_first join lookup insert delete member show_ℤ show_ℕ digits_before is_abs pop_part
    push_part resolve_parts segments clean file_join with_slash under_prefix under_any
    is_path_allowed clean_and_validate_path scheme_allowed is_blocked validate_url address
    connect_options require_active get split_last trim_slashes dir_of base_of read_octal parse_octal
    parse_mode show_perm max_upload prepare active_target allowed_path ◌>>=◌ ◌>>◌ lift attempt
    temp_path ensure_dir copy_body remove_old fill_and_rename download upload push
all_open = tt

abbrev box : Target (Unit {0}) (Unit {0})
box = record {
  id = codes "box";
  name = codes "box";
  host = codes "box.internal";
  port = pos 22;
  user = codes "ops";
  auth_method = [];
  host_key_callback = tt;
  default_cwd = codes "/srv";
  shell = codes "/bin/sh";
  tags = [];
  limits = record { max_exec_seconds = pos 60; max_upload_bytes = pos 6 };
  capabilities = record { exec = false; upload = true; jobs = false };
  allowed_paths = codes "/srv" ∷ [];
  env = [];
  enabled = true;
  auth_ref = [];
  known_host_ref = [];
}

abbrev boxes : Registry.Registry (Unit {0}) (Unit {0})
boxes = record { targets = (codes "box", box) ∷ [] }

abbrev config : TransferConfig
config = record {
  max_upload_bytes = pos 100;
  sync_exec_timeout = pos 0;
  default_download_ticket_ttl = pos 900;
  max_download_ticket_ttl = pos 3600;
  download = record {
    allowed_schemes = codes "https" ∷ [];
    block_private = true;
    max_redirects = pos 3;
  };
}

abbrev parse_url : Str → Option Url
parse_url _ = some (record { scheme = codes "HTTPS"; hostname = codes "files.example" })

abbrev no_ip : Str → Option Ip
no_ip _ = none

abbrev same : Str → Str
same s = s

abbrev body_of : List Str → Str → Option HttpResponse
body_of reads _ =
    some (record { status_code = 200; content_length = pos 0; reads = reads; broken = false })

abbrev reached : ConnectOptions (Unit {0}) (Unit {0}) → Option ConnectError
reached _ = none

abbrev request : Bool → PushRequest
request overwrite = record {
  target = codes "box";
  file = record {
    download_url = codes "https://files.example/a";
    file_id = [];
    mime_type = [];
    file_name = [];
  };
  remote_path = codes "a";
  overwrite = overwrite;
  mode = codes "0755";
}

abbrev plan : Plan (Unit {0}) (Unit {0})
plan = record { target = box; path = codes "/srv/a"; max_upload_bytes = pos 6; file_mode = 493 }

abbrev temp : Str
temp = codes "/srv/.a.mcp-upload-0f"

abbrev old_file : RemoteFile
old_file = record { content = codes "old"; mode = 420 }

abbrev with_old : Host
with_old = record { files = (codes "/srv/a", old_file) ∷ []; frozen = []; fixed = [] }

abbrev fixed_temp : Host
fixed_temp = record { files = (codes "/srv/a", old_file) ∷ []; frozen = []; fixed = temp ∷ [] }

abbrev run : List Str → Bool → Host → Host × Result TransferError PushResponse
run reads overwrite =
    push memory parse_url no_ip same (body_of reads) reached config boxes true (codes "0f")
      (request overwrite)

planned : prepare parse_url no_ip config boxes true (request true) ≡ ok plan
unfolding all_open
planned = refl

-- The old file is replaced, a longer body is refused and leaves it, and a renaming that fails loses it.
push_tests :
    (lookup (codes "/srv/a") (run (codes "ne" ∷ codes "w" ∷ []) true with_old).0.files
      ≡ some (record { content = codes "new"; mode = 493 }))
    × ((run (codes "ne" ∷ []) false with_old).1 ≡ err (file_already_exists (codes "/srv/a")))
    × ((run (codes "four" ∷ codes "four" ∷ []) true with_old)
        ≡ (with_old, err (file_size_exceeds_limit 8)))
    × ((run (codes "new" ∷ []) true fixed_temp).1 ≡ err (rename_failed temp (codes "/srv/a")))
    × (lookup (codes "/srv/a") (run (codes "new" ∷ []) true fixed_temp).0.files ≡ none)
unfolding all_open
push_tests = (refl, refl, refl, refl, refl)

prepare-IsPermitted_example : IsPermitted parse_url no_ip config boxes true (request true) plan
prepare-IsPermitted_example =
    prepare-IsPermitted parse_url no_ip config boxes true (request true) plan planned

apart : temp_path (codes "/srv/a") (codes "0f") ≢ codes "/srv/a"
unfolding all_open
apart = ground arith

finished : (resp : PushResponse) × ((run (codes "ne" ∷ codes "w" ∷ []) true with_old).1 ≡ ok resp)
unfolding all_open
finished = (_, refl)

push-Uploaded_example :
    (http : HttpResponse) × (body_of (codes "ne" ∷ codes "w" ∷ []) (request true).file.download_url
      ≡ some http)
    × (exists_of ((memory.reader (ensure_dir memory (dir_of plan.path) with_old).0).stat plan.path)
          ≡ true
        → (request true).overwrite ≡ true)
    × (200 ≤ http.status_code)
    × (http.status_code < 300)
    × Uploaded memory same
        (body_of (codes "ne" ∷ codes "w" ∷ []))
        plan
        (codes "0f")
        (request true)
        (memory-IsLawful (temp_path plan.path (codes "0f")) plan.path apart)
        (run (codes "ne" ∷ codes "w" ∷ []) true with_old).0
        finished.0
        http
push-Uploaded_example =
    push-Uploaded memory parse_url no_ip same (body_of (codes "ne" ∷ codes "w" ∷ [])) reached config
      boxes true (codes "0f") (request true) plan
      (memory-IsLawful (temp_path plan.path (codes "0f")) plan.path apart) with_old finished.0
      planned finished.1
