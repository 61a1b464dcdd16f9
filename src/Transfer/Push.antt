-- ===== src/Transfer/Push.antt =====
-- Push of internal/transfer/manager.go, over the operations of an SFTP client. The HTTP client, the
-- connection, the hash and the random name are arguments.
pub mod Steps
pub mod Copied
pub mod Uploaded
use mcp_execmesh.Base.{
  ℕ, ◌+◌, Bool, true, false, ◌&&◌, ◌||◌, not, Option, none, some, List, [], ◌∷◌, ◌++◌, Str, codes,
  str_eq, length, concat, ltb, leb, ℤ, pos, pos_part, ltb_ℤ, if◌then◌else◌, Result, ok, err, guard,
}
use mcp_execmesh.Security.Path.{file_join}
use mcp_execmesh.Security.Ssrf.{Url, Ip}
use mcp_execmesh.Ssh.Client.{ConnectOptions}
use mcp_execmesh.Target.Registry.{Registry}
use mcp_execmesh.Transfer.Sftp.{Sftp, FileInfo, StatError}
use mcp_execmesh.Transfer.Links.{dir_of, base_of}
use mcp_execmesh.Transfer.Mode.{show_perm}
use mcp_execmesh.Transfer.Prepare.{Plan, prepare}
use mcp_execmesh.Transfer.Requests.{
  PushRequest, PushResponse, TransferConfig, ConnectError, TransferError, connect_failed,
  mkdir_failed, file_already_exists, fetch_failed, http_status, file_size_exceeds_limit,
  create_failed, upload_failed, chmod_failed, rename_failed, none_or, transfer_options,
}

-- A step over the state of the remote host that may fail.
abbrev pub Step : Type 0 → Type 0 → Type 0
Step St A = St → St × Result TransferError A

abbrev pub resume :
    {St A B : Type 0} → (A → Step St B) → St × Result TransferError A → St × Result TransferError B
resume f (s, err e) = (s, err e)
resume f (s, ok a) = f a s

infixl 5 ◌>>=◌ ◌>>◌
unfoldable pub ◌>>=◌ : {St A B : Type 0} → Step St A → (A → Step St B) → Step St B
◌>>=◌ m f s = resume f (m s)

unfoldable pub ◌>>◌ : {St B : Type 0} → Step St (Unit {0}) → Step St B → Step St B
unfolding ◌>>=◌
first >> rest = first >>= λ _. rest

-- A step that leaves the remote host alone.
unfoldable pub lift : {St A : Type 0} → Result TransferError A → Step St A
lift r s = (s, r)

abbrev pub tested : {St : Type 0} → TransferError → St × Bool → St × Result TransferError (Unit {0})
tested e (s, true) = (s, ok tt)
tested e (s, false) = (s, err e)

unfoldable pub attempt : {St : Type 0} → TransferError → (St → St × Bool) → Step St (Unit {0})
attempt e f s = tested e (f s)

-- What the GET answered: the reads of the body, and whether it broke off behind them.
pub record HttpResponse : Type 0 where
  pub status_code : ℕ
  pub content_length : ℤ
  pub reads : List Str
  pub broken : Bool

abbrev pub above : ℕ → ℤ → Bool
above n max = ltb_ℤ (pos 0) max && ltb_ℤ max (pos n)

abbrev pub or_transfer_error : {A : Type 0} → TransferError → Option A → Result TransferError A
or_transfer_error e none = err e
or_transfer_error e (some a) = ok a

-- The deferred removal of the temporary file, unless everything behind it succeeded.
abbrev pub cleaned :
    {St A : Type 0} → (St → St × Bool) → St × Result TransferError A → St × Result TransferError A
cleaned remove (s, ok a) = (s, ok a)
cleaned remove (s, err e) = ((remove s).0, err e)

abbrev pub exists_of : Result StatError FileInfo → Bool
exists_of (ok _) = true
exists_of (err _) = false

unfoldable pub temp_path : Str → Str → Str
unfolding dir_of base_of
temp_path path id =
    file_join (dir_of path) (codes "." ++ (base_of path ++ (codes ".mcp-upload-" ++ id)))

module _ (S : Sftp) where
  unfoldable pub ensure_dir : Str → Step S.State (Unit {0})
  ensure_dir dir =
      if str_eq dir (codes ".") || str_eq dir (codes "/")
      then lift (ok tt)
      else attempt (mkdir_failed dir) (λ s. S.mkdir_all s dir)

  -- io.CopyBuffer from the countingReader: each read is written before its error is looked at. The number
  -- of bytes is the reader's count and the result.
  unfoldable pub copy_body : Str → ℤ → Bool → ℕ → List Str → Step S.State ℕ
  copy_body temp max broken count [] = lift (if broken then err (upload_failed temp) else ok count)
  copy_body temp max broken count (read ∷ reads) = do
    attempt (upload_failed temp) (λ s. S.write s temp read)
    lift (
        guard (not (above (count + length read) max))
          (file_size_exceeds_limit (count + length read)))
    copy_body temp max broken (count + length read) reads

  -- The file is closed after the copy, whether that succeeded or not.
  abbrev pub closed :
      {A : Type 0} → Str → S.State × Result TransferError A → S.State × Result TransferError A
  closed temp (s, err e) = ((S.close s temp).0, err e)
  closed temp (s, ok a) = resume (λ _. lift (ok a)) (tested (upload_failed temp) (S.close s temp))

  -- The destination is removed first if it was there; that its removal failed is not looked at.
  unfoldable pub remove_old : Bool → Str → Step S.State (Unit {0})
  remove_old old path s = if old then ((S.remove s path).0, ok tt) else (s, ok tt)

  module _ {A : Type 0} {H : Type 0} (sha256 : Str → Str) (fetch : Str → Option HttpResponse)
      (plan : Plan A H) (id : Str) (req : PushRequest) where
    abbrev pub temp : Str
    temp = temp_path plan.path id

    -- Behind the temporary file's opening.
    unfoldable pub fill_and_rename : Bool → HttpResponse → Step S.State PushResponse
    fill_and_rename exists resp = do
      size ← λ s. closed temp (copy_body temp plan.max_upload_bytes resp.broken 0 resp.reads s)
      attempt (chmod_failed temp) (λ s. S.chmod s temp plan.file_mode)
      remove_old (exists && req.overwrite) plan.path
      attempt (rename_failed temp plan.path) (λ s. S.rename s temp plan.path)
      lift (
          ok (record {
            target = req.target;
            remote_path = plan.path;
            size = size;
            sha256 = sha256 (concat resp.reads);
            mode = show_perm plan.file_mode;
          }))

    unfoldable pub download : Bool → Step S.State PushResponse
    download exists = do
      lift (guard (not exists || req.overwrite) (file_already_exists plan.path))
      resp ← lift (or_transfer_error fetch_failed (fetch req.file.download_url))
      lift (
          guard (leb 200 resp.status_code && ltb resp.status_code 300)
            (http_status resp.status_code))
      lift (
          guard
            (not (
              ltb_ℤ (pos 0) resp.content_length
              && above (pos_part resp.content_length) plan.max_upload_bytes))
            (file_size_exceeds_limit (pos_part resp.content_length)))
      attempt (create_failed temp) (λ s. S.create s temp)
      λ s. cleaned (λ s₁. S.remove s₁ temp) (fill_and_rename exists resp s)

    -- Behind the connection.
    unfoldable pub upload : Step S.State PushResponse
    upload = do
      ensure_dir (dir_of plan.path)
      λ s. download (exists_of ((S.reader s).stat plan.path)) s

  module _ {A : Type 0} {H : Type 0} (parse_url : Str → Option Url) (parse_ip : Str → Option Ip)
      (sha256 : Str → Str) (fetch : Str → Option HttpResponse)
      (connect : ConnectOptions A H → Option ConnectError) where
    unfoldable pub push :
        TransferConfig → Registry A H → Bool → Str → PushRequest → Step S.State PushResponse
    push config registry slot id req = do
      plan ← lift (prepare parse_url parse_ip config registry slot req)
      lift (none_or connect_failed (connect (transfer_options config plan.target)))
      upload sha256 fetch plan id req
