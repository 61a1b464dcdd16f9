-- ===== src/Jobs/Parse.antt =====
-- internal/jobs/remote.go: ParseQueryOutput and ParseReadOutput. Decoding the JSON of a JobMeta is a
-- parameter.
use mcp_execmesh.Base.{
  Bool, true, false, Option, none, some, List, [], ◌∷◌, Str, codes, str_eq, is_empty, has_prefix,
  trim_space, trim_prefix, split, ℤ, pos, ltb_ℤ, parse_int, cut_at, Result, ok, err, if◌then◌else◌,
}
use mcp_execmesh.Jobs.{JobMeta, JobError, invalid_read_output, invalid_total_size}

pub record RemoteJobInfo : Type 0 where
  pub not_found : Bool
  pub pid : Option ℤ
  pub exit_code : Option ℤ
  pub finished_at : Str
  pub stdout_size : ℤ
  pub stderr_size : ℤ
  pub is_running : Bool
  pub meta : Option JobMeta

abbrev pub empty_info : RemoteJobInfo
empty_info = record {
  not_found = false;
  pid = none;
  exit_code = none;
  finished_at = [];
  stdout_size = pos 0;
  stderr_size = pos 0;
  is_running = false;
  meta = none;
}

abbrev set_pid : RemoteJobInfo → Option ℤ → RemoteJobInfo
set_pid info none = info
set_pid info (some p) = if ltb_ℤ (pos 0) p then record info { pid = some p } else info

abbrev set_exit_code : RemoteJobInfo → Option ℤ → RemoteJobInfo
set_exit_code info none = info
set_exit_code info (some ec) = record info { exit_code = some ec }

abbrev set_stdout_size : RemoteJobInfo → Option ℤ → RemoteJobInfo
set_stdout_size info none = info
set_stdout_size info (some sz) = record info { stdout_size = sz }

abbrev set_stderr_size : RemoteJobInfo → Option ℤ → RemoteJobInfo
set_stderr_size info none = info
set_stderr_size info (some sz) = record info { stderr_size = sz }

abbrev set_meta : RemoteJobInfo → Option JobMeta → RemoteJobInfo
set_meta info none = info
set_meta info (some meta) = record info { meta = some meta }

module _ (decode_meta : Str → Option JobMeta) where
  -- One line of the output, without the white space around it.
  unfoldable pub read_line : RemoteJobInfo → Str → RemoteJobInfo
  read_line info line =
      if has_prefix line (codes "PID:")
      then set_pid info (parse_int (trim_prefix line (codes "PID:")))
      else if has_prefix line (codes "EC:")
      then set_exit_code info (parse_int (trim_prefix line (codes "EC:")))
      else if has_prefix line (codes "FINISHED:")
      then (if is_empty (trim_prefix line (codes "FINISHED:"))
          then info
          else record info { finished_at = trim_prefix line (codes "FINISHED:") })
      else if has_prefix line (codes "STDOUT_SZ:")
      then set_stdout_size info (parse_int (trim_prefix line (codes "STDOUT_SZ:")))
      else if has_prefix line (codes "STDERR_SZ:")
      then set_stderr_size info (parse_int (trim_prefix line (codes "STDERR_SZ:")))
      else if has_prefix line (codes "RUNNING:")
      then record info { is_running = str_eq (trim_prefix line (codes "RUNNING:")) (codes "1") }
      else if has_prefix line (codes "META:")
      then (if is_empty (trim_prefix line (codes "META:"))
          then info
          else set_meta info (decode_meta (trim_prefix line (codes "META:"))))
      else info

  unfoldable pub read_lines : RemoteJobInfo → List Str → RemoteJobInfo
  read_lines info [] = info
  read_lines info (line ∷ lines) = read_lines (read_line info (trim_space line)) lines

  -- The error is always nil.
  unfoldable pub parse_query_output : Str → RemoteJobInfo
  parse_query_output raw =
      if has_prefix (trim_space raw) (codes "NOT_FOUND")
      then record empty_info { not_found = true }
      else read_lines empty_info (split (trim_space raw) b'\n')

-- The loop over the header's lines; without a TOTAL_SIZE the size is 0.
unfoldable pub find_total_size : List Str → Result JobError ℤ
find_total_size [] = ok (pos 0)
find_total_size (line ∷ lines) =
    if has_prefix (trim_space line) (codes "TOTAL_SIZE:")
    then elim (parse_int (trim_prefix (trim_space line) (codes "TOTAL_SIZE:"))) [
      | none ↦ err (invalid_total_size (trim_prefix (trim_space line) (codes "TOTAL_SIZE:")))
      | some sz ↦ ok sz
    ]
    else find_total_size lines

abbrev pub data_marker : Str
data_marker = codes "---DATA_START---\n"

abbrev sized_data : Str → Result JobError ℤ → Result JobError (Option (ℤ × Str))
sized_data rest (ok total_size) = ok (some (total_size, rest))
sized_data rest (err e) = err e

abbrev read_cut : Option (Str × Str) → Result JobError (Option (ℤ × Str))
read_cut none = err invalid_read_output
read_cut (some (header, rest)) = sized_data rest (find_total_size (split header b'\n'))

-- The total size and the data; `none` when the log was not found.
unfoldable pub parse_read_output : Str → Result JobError (Option (ℤ × Str))
parse_read_output raw =
    if has_prefix (trim_space raw) (codes "NOT_FOUND")
    then ok none
    else read_cut (cut_at data_marker raw)
