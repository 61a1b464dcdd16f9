-- ===== src/Jobs/Remote.antt =====
-- internal/jobs/remote.go: the scripts that run on the remote host, and what is read from their output.
use mcp_execmesh.Base.{
  ℕ, ◌+◌, List, [], ◌∷◌, ◌++◌, Str, codes, is_empty, ℤ, show_ℕ, show_ℤ, if◌then◌else◌,
}
use mcp_execmesh.Security.Path.{slash, file_join}
use mcp_execmesh.Ssh.Client.{escape_quotes}

-- The pieces of a text, one after the other.
unfoldable pub concat : List Str → Str
concat [] = []
concat (s ∷ ss) = s ++ concat ss

-- Go visits the map in any order, here in its own.
unfoldable pub job_exports : List (Str × Str) → Str
unfolding escape_quotes concat
job_exports [] = []
job_exports ((k, v) ∷ env) =
    concat (codes "export " ∷ k ∷ codes "='" ∷ escape_quotes v ∷ codes "'\n" ∷ job_exports env ∷ [])

unfoldable pub job_cd : Str → Str
unfolding escape_quotes
job_cd cwd = if is_empty cwd then [] else codes "cd '" ++ (escape_quotes cwd ++ codes "' && ")

-- The job's directory is filepath.Join(jobsBaseDir, jobID). `meta_json` is the text of the JobMeta.
unfoldable pub launch_script : Str → Str → Str → Str → List (Str × Str) → Str
unfolding concat job_exports job_cd
launch_script dir meta_json command cwd env = concat (
    codes "\nmkdir -p '"
    ∷ dir
    ∷ codes "' && cat << 'MCP_EOF' > '"
    ∷ dir
    ∷ codes "/meta.json'\n"
    ∷ meta_json
    ∷ codes "\nMCP_EOF\n\nnohup sh -c '\n"
    ∷ job_exports env
    ∷ codes "\n"
    ∷ job_cd cwd
    ∷ codes "( "
    ∷ escape_quotes command
    ∷ codes " ) > \""
    ∷ dir
    ∷ codes "/stdout.log\" 2> \""
    ∷ dir
    ∷ codes "/stderr.log\" &\nPID=$!\necho $PID > \""
    ∷ dir
    ∷ codes "/pid\"\nwait $PID\nEC=$?\necho $EC > \""
    ∷ dir
    ∷ codes "/exit_code\"\ndate -u +\"%Y-%m-%dT%H:%M:%SZ\" > \""
    ∷ dir
    ∷ codes "/finished\"\n' >/dev/null 2>&1 &\n\nsleep 0.1\nif [ -f '"
    ∷ dir
    ∷ codes "/pid' ]; then\n  cat '"
    ∷ dir
    ∷ codes "/pid'\nelse\n  echo \"STARTED\"\nfi\n"
    ∷ [])

unfoldable pub build_launch_script : Str → Str → Str → Str → Str → List (Str × Str) → Str
build_launch_script jobs_base_dir job_id meta_json command cwd env =
    launch_script (file_join jobs_base_dir job_id) meta_json command cwd env

unfoldable pub query_script : Str → Str
unfolding concat
query_script dir = concat (
    codes "\nif [ ! -d '"
    ∷ dir
    ∷ codes "' ]; then\n  echo \"NOT_FOUND\"\n  exit 0\nfi\nPID=\"\"\n[ -f '"
    ∷ dir
    ∷ codes "/pid' ] && PID=$(cat '"
    ∷ dir
    ∷ codes "/pid')\nEC=\"\"\n[ -f '"
    ∷ dir
    ∷ codes "/exit_code' ] && EC=$(cat '"
    ∷ dir
    ∷ codes "/exit_code')\nFINISHED=\"\"\n[ -f '"
    ∷ dir
    ∷ codes "/finished' ] && FINISHED=$(cat '"
    ∷ dir
    ∷ codes "/finished')\nSTDOUT_SZ=0\n[ -f '"
    ∷ dir
    ∷ codes "/stdout.log' ] && STDOUT_SZ=$(wc -c < '"
    ∷ dir
    ∷ codes "/stdout.log' 2>/dev/null | tr -d ' ')\nSTDERR_SZ=0\n[ -f '"
    ∷ dir
    ∷ codes "/stderr.log' ] && STDERR_SZ=$(wc -c < '"
    ∷ dir
    ∷ codes "/stderr.log' 2>/dev/null | tr -d ' ')\nIS_RUNNING=0\n"
    ∷ codes "if [ -n \"$PID\" ] && kill -0 \"$PID\" 2>/dev/null; then\n"
    ∷ codes "  IS_RUNNING=1\nfi\nMETA=\"\"\n[ -f '"
    ∷ dir
    ∷ codes "/meta.json' ] && META=$(cat '"
    ∷ dir
    ∷ codes "/meta.json')\n\necho \"---JOB_STATUS---\"\necho \"PID:$PID\"\n"
    ∷ codes "echo \"EC:$EC\"\necho \"FINISHED:$FINISHED\"\n"
    ∷ codes "echo \"STDOUT_SZ:$STDOUT_SZ\"\necho \"STDERR_SZ:$STDERR_SZ\"\n"
    ∷ codes "echo \"RUNNING:$IS_RUNNING\"\necho \"META:$META\"\n"
    ∷ [])

unfoldable pub build_query_script : Str → Str → Str
build_query_script jobs_base_dir job_id = query_script (file_join jobs_base_dir job_id)

unfoldable pub read_script : Str → ℕ → ℤ → Str
unfolding concat
read_script file offset limit = concat (
    codes "\nif [ ! -f '"
    ∷ file
    ∷ codes "' ]; then\n  echo \"NOT_FOUND\"\n  exit 0\nfi\nSZ=$(wc -c < '"
    ∷ file
    ∷ codes "' 2>/dev/null | tr -d ' ')\necho \"TOTAL_SIZE:$SZ\"\n"
    ∷ codes "echo \"---DATA_START---\"\ntail -c +"
    ∷ show_ℕ (offset + 1)
    ∷ codes " '"
    ∷ file
    ∷ codes "' 2>/dev/null | head -c "
    ∷ show_ℤ limit
    ∷ codes "\n"
    ∷ [])

-- filepath.Join of three elements, of which the last two are not empty
unfoldable pub log_path : Str → Str → Str → Str
log_path jobs_base_dir job_id stream =
    file_join jobs_base_dir (job_id ++ (slash ++ (stream ++ codes ".log")))

-- `offset` is not negative here, as Output sees to.
unfoldable pub build_read_output_script : Str → Str → Str → ℕ → ℤ → Str
build_read_output_script jobs_base_dir job_id stream offset limit =
    read_script (log_path jobs_base_dir job_id stream) offset limit

unfoldable pub cancel_script : Str → Str
unfolding concat
cancel_script dir = concat (
    codes "\nif [ ! -d '"
    ∷ dir
    ∷ codes "' ]; then\n  echo \"NOT_FOUND\"\n  exit 0\nfi\nPID=\"\"\n[ -f '"
    ∷ dir
    ∷ codes "/pid' ] && PID=$(cat '"
    ∷ dir
    ∷ codes "/pid')\nif [ -z \"$PID\" ]; then\n  echo \"NO_PID\"\n  exit 0\nfi\n"
    ∷ codes "if kill -0 \"$PID\" 2>/dev/null; then\n"
    ∷ codes "  kill -TERM \"$PID\" 2>/dev/null\n  sleep 1\n"
    ∷ codes "  if kill -0 \"$PID\" 2>/dev/null; then\n"
    ∷ codes "    kill -KILL \"$PID\" 2>/dev/null\n  fi\n"
    ∷ codes "  date -u +\"%Y-%m-%dT%H:%M:%SZ\" > '"
    ∷ dir
    ∷ codes "/finished'\n  echo 137 > '"
    ∷ dir
    ∷ codes "/exit_code'\n  echo \"CANCELLED\"\nelse\n  echo \"ALREADY_FINISHED\"\n"
    ∷ codes "fi\n"
    ∷ [])

unfoldable pub build_cancel_script : Str → Str → Str
build_cancel_script jobs_base_dir job_id = cancel_script (file_join jobs_base_dir job_id)
