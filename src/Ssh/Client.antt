-- ===== src/Ssh/Client.antt =====
-- internal/ssh/client.go: ConnectOptions, Exec and buildCommand. What the session of
-- golang.org/x/crypto/ssh does is a SessionRun: the writes to its two streams and how Run ended.
pub mod Words
use mcp_execmesh.Base.{
  zero, suc, Option, none, some, ℕ, List, [], ◌∷◌, ◌++◌, Bool, Str, codes, ℤ, pos, negsuc, is_empty,
  show_ℕ, replace_byte, if◌then◌else◌,
}
use mcp_execmesh.Ssh.LimitedBuffer.{LimitedBuffer, new_limited_buffer, write_all}

pub record ConnectOptions (A : Type 0) (H : Type 0) : Type 0 where
  pub address : Str
  pub user : Str
  pub auth_methods : List A
  pub host_key_callback : H
  pub shell : Str
  pub timeout : ℤ

pub record ExecOptions : Type 0 where
  pub command : Str
  pub cwd : Str
  pub env : List (Str × Str)
  pub max_stdout_bytes : ℤ
  pub max_stderr_bytes : ℤ
  pub timeout : ℤ

pub record ExecResult : Type 0 where
  pub exit_code : ℤ
  pub stdout : Str
  pub stderr : Str
  pub stdout_truncated : Bool
  pub stderr_truncated : Bool
  pub duration_ms : ℕ

-- How session.Run or the wait for it ended: a nil error, an *ssh.ExitError with its status, the context's
-- end with the text of its error, or another error.
pub data RunEnd : Type 0 where
  finished : RunEnd
  exited : ℤ → RunEnd
  context_done : Str → RunEnd
  run_failed : RunEnd

pub record SessionRun : Type 0 where
  pub stdout_writes : List Str
  pub stderr_writes : List Str
  pub run_end : RunEnd
  pub duration_ms : ℕ

-- Exec returns a result, a result with the context's error, or an error alone.
pub data ExecOutcome : Type 0 where
  completed : ExecResult → ExecOutcome
  timed_out : ExecResult → ExecOutcome
  exec_failed : ExecOutcome

-- strings.ReplaceAll(v, "'", `'\''`)
unfoldable pub escape_quotes : Str → Str
unfolding replace_byte
escape_quotes v = replace_byte b'\'' (codes "'\\''") v

-- Go visits the map in any order, here in its own.
unfoldable pub exports : List (Str × Str) → Str
unfolding escape_quotes
exports [] = []
exports ((k, v) ∷ env) =
    codes "export " ++ (k ++ (codes "='" ++ (escape_quotes v ++ (codes "'; " ++ exports env))))

unfoldable pub change_dir : Str → Str
unfolding escape_quotes
change_dir cwd = if is_empty cwd then [] else codes "cd '" ++ (escape_quotes cwd ++ codes "' && ")

-- The target's shell is passed, and not used.
unfoldable pub build_command : Str → Str → List (Str × Str) → Str → Str
unfolding exports change_dir
build_command cmd cwd env shell = exports env ++ (change_dir cwd ++ cmd)

abbrev pub result_of : LimitedBuffer → LimitedBuffer → ℕ → ℤ → Str → ExecResult
result_of stdout_buf stderr_buf duration exit_code stderr = record {
  exit_code = exit_code;
  stdout = stdout_buf.buf;
  stderr = stderr;
  stdout_truncated = stdout_buf.truncated;
  stderr_truncated = stderr_buf.truncated;
  duration_ms = duration;
}

abbrev pub outcome_of : LimitedBuffer → LimitedBuffer → ℕ → RunEnd → ExecOutcome
outcome_of out_buf err_buf duration finished =
    completed (result_of out_buf err_buf duration (pos 0) err_buf.buf)
outcome_of out_buf err_buf duration (exited status) =
    completed (result_of out_buf err_buf duration status err_buf.buf)
outcome_of out_buf err_buf duration (context_done e) = timed_out (
    result_of out_buf err_buf duration (negsuc 0)
      (codes "command timed out after " ++ (show_ℕ duration ++ (codes " ms: " ++ e))))
outcome_of out_buf err_buf duration run_failed = exec_failed

-- The shell that Dial gives a client.
abbrev pub shell_or_default : Str → Str
shell_or_default shell = if is_empty shell then codes "/bin/sh" else shell

-- The context's time limit in nanoseconds, which only a positive timeout sets.
unfoldable pub time_limit : ℤ → Option ℕ
time_limit (pos zero) = none
time_limit (pos (suc n)) = some (suc n)
time_limit (negsuc n) = none

-- `run` is what the session does with a command under the context's time limit; the session itself opens.
unfoldable pub exec : (Str → Option ℕ → SessionRun) → Str → ExecOptions → ExecOutcome
unfolding build_command time_limit
exec run shell opts =
    let r = run (build_command opts.command opts.cwd opts.env shell) (time_limit opts.timeout) in
    outcome_of (write_all (new_limited_buffer opts.max_stdout_bytes) r.stdout_writes)
      (write_all (new_limited_buffer opts.max_stderr_bytes) r.stderr_writes) r.duration_ms r.run_end
