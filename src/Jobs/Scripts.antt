-- ===== src/Jobs/Scripts.antt =====
-- internal/jobs/remote.go: what the remote shell makes of the script of BuildLaunchScript.
use mcp_execmesh.Base.{
  ◌≡◌, refl, ap, ◌∙◌, true, some, [], ◌∷◌, ◌++◌, append_assoc, Str, codes, replace_byte,
}
use mcp_execmesh.Ssh.Client.{escape_quotes}
use mcp_execmesh.Ssh.Client.Words.{
  read_word, puts, plain, has_no, is_plain, closing, literal, with_quotes, read_word-QuotedText,
  read_word-is_plain, escape_quotes-is_plain,
}
use mcp_execmesh.Jobs.Remote.{concat, job_exports, job_cd, launch_script}

-- The script up to the argument of `sh -c`, with `tail` behind.
abbrev pub launch_front : Str → Str → Str → Str
launch_front dir meta_json tail =
    codes "\nmkdir -p '"
    ++ (dir
        ++ (codes "' && cat << 'MCP_EOF' > '"
            ++ (dir
                ++ (codes "/meta.json'\n"
                    ++ (meta_json ++ (codes "\nMCP_EOF\n\nnohup sh -c " ++ tail))))))

-- The script that waits for a command and records how it ended.
abbrev pub job_script : Str → Str → Str
job_script dir command =
    codes "\n\n( "
    ++ (command
        ++ (codes " ) > \""
            ++ (dir
                ++ (codes "/stdout.log\" 2> \""
                    ++ (dir
                        ++ (codes "/stderr.log\" &\nPID=$!\necho $PID > \""
                            ++ (dir
                                ++ (codes "/pid\"\nwait $PID\nEC=$?\necho $EC > \""
                                    ++ (dir
                                        ++ (codes
                                              "/exit_code\"\ndate -u +\"%Y-%m-%dT%H:%M:%SZ\" > \""
                                            ++ (dir ++ codes "/finished\"\n")))))))))))

-- What stands behind that argument.
abbrev pub launch_rest : Str → Str
launch_rest dir =
    codes " >/dev/null 2>&1 &\n\nsleep 0.1\nif [ -f '"
    ++ (dir
        ++ (codes "/pid' ]; then\n  cat '"
            ++ (dir ++ (codes "/pid'\nelse\n  echo \"STARTED\"\nfi\n" ++ []))))

-- Without a directory and an environment, the argument of `sh -c` that the remote shell reads is the
-- script with the command as it was sent, whatever its characters; the job's directory has no quote.
pub launch_script-command :
    (dir meta_json command : Str)
    → has_no 39 dir ≡ true
    → (tail : Str) × (launch_script dir meta_json command [] [] ≡ launch_front dir meta_json tail)
      × (read_word plain tail ≡ some (job_script dir command, launch_rest dir))
unfolding launch_script concat job_exports job_cd read_word has_no
launch_script-command dir meta_json command h = (
  _,
  refl,
  read_word-QuotedText (
      literal (codes "\n\n( ") refl (
        with_quotes command (
          literal (codes " ) > \"") refl (
            literal dir h (
              literal (codes "/stdout.log\" 2> \"") refl (
                literal dir h (
                  literal (codes "/stderr.log\" &\nPID=$!\necho $PID > \"") refl (
                    literal dir h (
                      literal (codes "/pid\"\nwait $PID\nEC=$?\necho $EC > \"") refl (
                        literal dir h (
                          literal (codes "/exit_code\"\ndate -u +\"%Y-%m-%dT%H:%M:%SZ\" > \"") refl
                            (literal dir h
                              (literal (codes "/finished\"\n") refl (closing _)))))))))))))),
)

-- The script from the command on.
abbrev launch_body : Str → Str → Str
launch_body dir command = concat (
    codes "( "
    ∷ escape_quotes command
    ∷ codes " ) > \""
    ∷ dir
    ∷ codes "/stdout.log\" 2> \""
    ∷ dir
    ∷ codes "/stderr.log\" &\nPID=$!\necho $PID > \""
    ∷ dir
    ∷ codes "/pid\"\nwait $PID\nEC=$?\necho $EC > \""
    ∷ dir
    ∷ codes "/exit_code\"\ndate -u +\"%Y-%m-%dT%H:%M:%SZ\" > \""
    ∷ dir
    ∷ codes "/finished\"\n' >/dev/null 2>&1 &\n\nsleep 0.1\nif [ -f '"
    ∷ dir
    ∷ codes "/pid' ]; then\n  cat '"
    ∷ dir
    ∷ codes "/pid'\nelse\n  echo \"STARTED\"\nfi\n"
    ∷ [])

read_word-blank :
    (before after x y : Str)
    → is_plain before ≡ true
    → read_word plain ((escape_quotes (before ++ (32 ∷ after)) ++ x) ++ y)
      ≡ some (before, 32 ∷ ((escape_quotes after ++ x) ++ y))
unfolding escape_quotes replace_byte
read_word-blank before after x y h =
    ap (λ v. read_word plain ((v ++ x) ++ y)) (escape_quotes-is_plain before (32 ∷ after) h)
    ∙ ap (λ v. read_word plain (v ++ y)) (append_assoc before (32 ∷ escape_quotes after) x)
    ∙ ap (read_word plain) (append_assoc before (32 ∷ (escape_quotes after ++ x)) y)
    ∙ read_word-is_plain before ((escape_quotes after ++ x) ++ y) h

-- With no environment, a blank in the working directory behind plain characters ends the argument of `sh -c`
-- there: neither the rest of the directory nor the command is in it, whatever they are.
pub launch_script-blank_cwd :
    (dir meta_json command before after : Str)
    → is_plain before ≡ true
    → (tail rest : Str) × (launch_script dir meta_json command (before ++ (32 ∷ after)) []
        ≡ launch_front dir meta_json tail)
      × (read_word plain tail ≡ some (codes "\n\ncd " ++ before, 32 ∷ rest))
unfolding launch_script concat job_exports job_cd read_word
launch_script-blank_cwd dir meta_json command [] after h = (_, _, refl, refl)
launch_script-blank_cwd dir meta_json command (c ∷ before) after h = (
  _,
  _,
  refl,
  ap (puts (codes "\n\ncd "))
      (read_word-blank (c ∷ before) after (codes "' && ") (launch_body dir command) h),
)
