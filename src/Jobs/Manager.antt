-- ===== src/Jobs/Manager.antt =====
-- internal/jobs/manager.go: Status, Output and Cancel.
use mcp_execmesh.Base.{
  ℕ, ◌+◌, Bool, true, false, not, ◌&&◌, ◌||◌, Option, none, some, [], Str, codes, str_eq, is_empty,
  length, has_prefix, contains, to_lower, trim_space, trim_prefix, ◌==◌, ℤ, pos, pos_part, ◌+ℤ◌,
  ltb_ℤ, leb_ℤ, Result, ok, err, ◌>>=◌, if◌then◌else◌,
}
use mcp_execmesh.Security.Digest.{all_token_bytes}
use mcp_execmesh.Ssh.Client.{ConnectOptions, SessionRun}
use mcp_execmesh.Target.{Target}
use mcp_execmesh.Jobs.{
  JobMeta, JobState, running, succeeded, failed, cancelled, JobStatusResponse, JobOutputRequest,
  JobOutputResponse, JobCancelResponse, JobManager, JobError, invalid_job_id, invalid_stream,
  job_not_found, log_not_found,
}
use mcp_execmesh.Jobs.Remote.{build_query_script, build_read_output_script, build_cancel_script}
use mcp_execmesh.Jobs.Parse.{RemoteJobInfo, parse_query_output, parse_read_output}
use mcp_execmesh.Jobs.Resolve.{is_zero, seconds, run_on, options, resolve_target}

-- ^job_[a-zA-Z0-9_-]+$
unfoldable pub valid_job_id : Str → Bool
valid_job_id id =
    has_prefix id (codes "job_")
    && (not (is_empty (trim_prefix id (codes "job_")))
        && all_token_bytes (trim_prefix id (codes "job_")))

abbrev pub is_cancel_code : ℤ → Bool
is_cancel_code (pos n) = (n == 137) || (n == 143)
is_cancel_code _ = false

abbrev finished_state : Option ℤ → JobState
finished_state none = failed
finished_state (some ec) =
    if is_zero ec then succeeded else if is_cancel_code ec then cancelled else failed

abbrev is_some {ℓ} : {A : Type ℓ} → Option A → Bool
is_some none = false
is_some (some _) = true

unfoldable pub state_of : RemoteJobInfo → JobState
state_of info =
    if not (is_empty info.finished_at)
    then finished_state info.exit_code
    else if not info.is_running && is_some info.pid
    then failed
    else running

unfoldable pub read_limit : ℤ → ℤ → ℤ
read_limit configured limit =
    let max_allowed = if leb_ℤ configured (pos 0) then pos 131072 else configured in
    if leb_ℤ limit (pos 0) || ltb_ℤ max_allowed limit then max_allowed else limit

abbrev pub output_response : Str → Str → ℕ → Option (ℤ × Str) → Result JobError JobOutputResponse
output_response job_id stream offset none = err (log_not_found job_id)
output_response job_id stream offset (some (total_size, text)) = ok (record {
  job_id = job_id;
  stream = stream;
  data_read = text;
  offset = offset;
  next_offset = offset + length text;
  eof = leb_ℤ total_size (pos (offset + length text));
})

abbrev pub cancel_response : Str → Str → Str → Result JobError JobCancelResponse
cancel_response job_id target_id trimmed =
    if contains trimmed (codes "NOT_FOUND")
    then err (job_not_found job_id)
    else ok (record {
      job_id = job_id;
      target = target_id;
      state = cancelled;
      message =
          if contains trimmed (codes "ALREADY_FINISHED")
          then codes "job was already finished"
          else codes "job successfully cancelled";
    })

module _ {A : Type 0} {H : Type 0}
    (dial : ConnectOptions A H → Option (Str → Option ℕ → SessionRun)) where
  module _ (decode_meta : Str → Option JobMeta) (format_time : ℕ → Str) where
    abbrev started : Option JobMeta → Str
    started none = []
    started (some meta) = format_time meta.started_at

    abbrev pub status_response : Str → Str → RemoteJobInfo → Result JobError JobStatusResponse
    status_response job_id target_id info =
        if info.not_found
        then err (job_not_found job_id)
        else ok (record {
          job_id = job_id;
          target = target_id;
          state = state_of info;
          pid = info.pid;
          exit_code = info.exit_code;
          started_at = started info.meta;
          finished_at = info.finished_at;
          stdout_bytes = info.stdout_size;
          stderr_bytes = info.stderr_size;
        })

    -- The query of the job on the target that it was resolved to.
    unfoldable pub query_job : Str → Str → Target A H → Result JobError JobStatusResponse
    query_job base_dir job_id t = do
      res ← run_on dial t (seconds 10) (options (build_query_script base_dir job_id) (pos 8192) 10)
      status_response job_id t.id (parse_query_output decode_meta res.stdout)

    unfoldable pub status :
        JobManager A H → Str → Str → JobManager A H × Result JobError JobStatusResponse
    status m job_id target_hint =
        if not (valid_job_id job_id)
        then (m, err (invalid_job_id job_id))
        else let (m2, resolved) = resolve_target dial m job_id target_hint in
          (m2, resolved >>= query_job m.remote_base_dir job_id)

  unfoldable pub read_log : Str → Str → Str → ℕ → ℤ → Target A H → Result JobError JobOutputResponse
  read_log base_dir job_id stream offset limit t = do
    res ← run_on dial t (seconds 10) (
        options (build_read_output_script base_dir job_id stream offset limit) (limit +ℤ pos 1024)
          10)
    found ← parse_read_output res.stdout
    output_response job_id stream offset found

  -- A negative offset reads from the start.
  unfoldable pub output :
      JobManager A H → JobOutputRequest → Str → JobManager A H × Result JobError JobOutputResponse
  output m req target_hint =
      let stream = to_lower req.stream in
      if not (valid_job_id req.job_id)
      then (m, err (invalid_job_id req.job_id))
      else if not (str_eq stream (codes "stdout")) && not (str_eq stream (codes "stderr"))
      then (m, err (invalid_stream req.stream))
      else let (m2, resolved) = resolve_target dial m req.job_id target_hint in
        (
          m2,
          resolved
              >>= read_log m.remote_base_dir req.job_id stream (pos_part req.offset)
                  (read_limit m.max_job_output_read_bytes req.limit),
        )

  unfoldable pub cancel_on : Str → Str → Target A H → Result JobError JobCancelResponse
  cancel_on base_dir job_id t = do
    res ← run_on dial t (seconds 10) (options (build_cancel_script base_dir job_id) (pos 4096) 10)
    cancel_response job_id t.id (trim_space res.stdout)

  unfoldable pub cancel :
      JobManager A H → Str → Str → JobManager A H × Result JobError JobCancelResponse
  cancel m job_id target_hint =
      if not (valid_job_id job_id)
      then (m, err (invalid_job_id job_id))
      else let (m2, resolved) = resolve_target dial m job_id target_hint in
        (m2, resolved >>= cancel_on m.remote_base_dir job_id)
