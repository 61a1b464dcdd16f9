-- ===== src/Jobs/ReadTests.antt =====
-- Tests of internal/jobs/remote.go and of what Output answers, and their theorems at concrete inputs.
use mcp_execmesh.Base.{
  ◌≡◌, refl, ℕ, Bool, true, false, none, some, [], ◌∷◌, ◌++◌, Str, codes, pos, ok, arith, lookup,
  join, has_suffix, insert, str_eq, has_prefix, trim_prefix, trim_space, trim_left, split,
  split_first, parse_int, read_number, read_digits, show_ℕ, show_ℤ, digits_before, cut_at,
  replace_byte, contains,
}
use mcp_execmesh.Ssh.Client.Words.{read_word, plain, has_no, is_plain}
use mcp_execmesh.Jobs.{running, succeeded, failed, cancelled, JobOutputResponse}
use mcp_execmesh.Jobs.Remote.{launch_script}
use mcp_execmesh.Jobs.Parse.{parse_query_output, read_lines, read_line, parse_read_output}
use mcp_execmesh.Jobs.Manager.{state_of}
use mcp_execmesh.Jobs.Scripts.{
  launch_front, job_script, launch_rest, launch_script-command, launch_script-blank_cwd,
}
use mcp_execmesh.Jobs.Pages.{printed, parse_read_output-printed}
use mcp_execmesh.Jobs.Logs.{all_data, all_data-IsSequence}

text : Unit {0}
unfolding str_eq has_prefix join has_suffix trim_prefix trim_space trim_left split split_first
    contains lookup insert parse_int read_number read_digits show_ℕ show_ℤ digits_before cut_at
    replace_byte
text = tt

launch_script-command_example :
    (tail : Str) × (launch_script (codes "jobs/job_1") (codes "{}") (codes "echo 'a b'") [] []
      ≡ launch_front (codes "jobs/job_1") (codes "{}") tail)
    × (read_word plain tail
        ≡ some (
          job_script (codes "jobs/job_1") (codes "echo 'a b'"),
          launch_rest (codes "jobs/job_1"),
        ))
unfolding has_no
launch_script-command_example =
    launch_script-command (codes "jobs/job_1") (codes "{}") (codes "echo 'a b'") refl

launch_script-blank_cwd_example :
    (tail rest : Str) × (launch_script
        (codes "jobs/job_1")
        (codes "{}")
        (codes "make")
        (codes "/srv/my" ++ (32 ∷ codes "app"))
        []
      ≡ launch_front (codes "jobs/job_1") (codes "{}") tail)
    × (read_word plain tail ≡ some (codes "\n\ncd " ++ codes "/srv/my", 32 ∷ rest))
unfolding is_plain
launch_script-blank_cwd_example =
    launch_script-blank_cwd (codes "jobs/job_1") (codes "{}") (codes "make") (codes "/srv/my")
      (codes "app") refl

parse_read_output-printed_example :
    parse_read_output (printed 12 (codes "NOT_FOUND\n")) ≡ ok (some (pos 12, codes "NOT_FOUND\n"))
parse_read_output-printed_example = parse_read_output-printed 12 (codes "NOT_FOUND\n") (omega arith)

abbrev page : ℕ → Str → ℕ → Bool → JobOutputResponse
page offset part next eof = record {
  job_id = codes "job_1";
  stream = codes "stdout";
  data_read = part;
  offset = offset;
  next_offset = next;
  eof = eof;
}

all_data-IsSequence_example :
    all_data (page 0 (codes "abc") 3 false ∷ page 3 (codes "de") 5 true ∷ []) ≡ codes "abcde"
all_data-IsSequence_example =
    all_data-IsSequence (codes "abcde") 0
      (page 0 (codes "abc") 3 false ∷ page 3 (codes "de") 5 true ∷ [])
      ((3, refl), refl, ((3, refl), refl, refl))

query_tests :
    (state_of (
        parse_query_output
          (λ s. none)
          (codes "---JOB_STATUS---\nPID:42\nEC:0\nFINISHED:now\nSTDOUT_SZ:9\nRUNNING:0\n"))
      ≡ succeeded)
    × (state_of (parse_query_output (λ s. none) (codes "PID:42\nEC:\nFINISHED:\nRUNNING:1\n"))
        ≡ running)
    × (state_of (parse_query_output (λ s. none) (codes "PID:42\nEC:\nFINISHED:\nRUNNING:0\n"))
        ≡ failed)
    × (state_of (parse_query_output (λ s. none) (codes "PID:42\nEC:137\nFINISHED:x\n")) ≡ cancelled)
unfolding text parse_query_output read_lines read_line state_of
query_tests = (refl, refl, refl, refl)
