-- ===== src/Transfer/Sftp.antt =====
-- What internal/transfer uses of github.com/pkg/sftp: the operations of a client over an unknown state of
-- the remote host, and what they are documented to do to its files.
pub mod Memory
use mcp_execmesh.Base.{ℕ, ◌%◌, ◌≡◌, Bool, true, false, Option, none, some, [], ◌++◌, Str, Result}

-- What an os.FileInfo answers.
pub record FileInfo : Type 0 where
  pub is_dir : Bool
  pub is_symlink : Bool
  pub size : ℕ
  pub perm : ℕ
  pub mod_time : Str

-- An error that says the file does not exist, or another one.
pub data StatError : Type 0 where
  not_exist : StatError
  stat_refused : StatError

-- An open file as its content, and whether reading it fails behind that.
pub record RemoteRead : Type 0 where
  pub content : Str
  pub broken : Bool

pub record RemoteFile : Type 0 where
  pub content : Str
  pub mode : ℕ

-- The operations that read, at one moment.
pub record Reader : Type 0 where
  pub lstat : Str → Result StatError FileInfo
  pub stat : Str → Result StatError FileInfo
  pub read_link : Str → Option Str
  pub open_file : Str → Option RemoteRead

-- The operations that write, with the state behind them and whether they succeeded. `write` appends to a
-- file that `create` opened.
pub record Sftp : Type 1 where
  pub State : Type 0
  pub reader : State → Reader
  pub mkdir_all : State → Str → State × Bool
  pub create : State → Str → State × Bool
  pub write : State → Str → Str → State × Bool
  pub close : State → Str → State × Bool
  pub chmod : State → Str → ℕ → State × Bool
  pub remove : State → Str → State × Bool
  pub rename : State → Str → Str → State × Bool

-- What the operations that succeed do to two names of one directory, which are no links: one for a file that
-- is written, and one that it is renamed to. A regular file stands at a name or none does. The permission
-- bits of a mode are set; what a host makes of the other bits is left open.
pub record IsLawful (S : Sftp) (temp path : Str) : Type 0 where
  pub file : S.State → Str → Option RemoteFile
  pub file-create :
      (s : S.State)
      → (S.create s temp).1 ≡ true
      → (m : ℕ) × (file (S.create s temp).0 temp ≡ some (record { content = []; mode = m }))
  pub file-write :
      (s : S.State) (text : Str) (f : RemoteFile)
      → file s temp ≡ some f
      → (S.write s temp text).1 ≡ true
      → file (S.write s temp text).0 temp ≡ some (record f { content = f.content ++ text })
  pub file-close :
      (s : S.State) (f : RemoteFile)
      → file s temp ≡ some f
      → (S.close s temp).1 ≡ true
      → file (S.close s temp).0 temp ≡ some f
  pub file-chmod :
      (s : S.State) (m : ℕ) (f : RemoteFile)
      → file s temp ≡ some f
      → (S.chmod s temp m).1 ≡ true
      → (n : ℕ) × (n % 512 ≡ m % 512)
        × (file (S.chmod s temp m).0 temp ≡ some (record f { mode = n }))
  pub file-remove_other :
      (s : S.State) (f : RemoteFile) → file s temp ≡ some f → file (S.remove s path).0 temp ≡ some f
  pub file-rename :
      (s : S.State) (f : RemoteFile)
      → file s temp ≡ some f
      → (S.rename s temp path).1 ≡ true
      → (file (S.rename s temp path).0 path ≡ some f) × (file (S.rename s temp path).0 temp ≡ none)
