-- ===== src/Exec.antt =====
-- src/cinit/exec.c and the line callback of src/cinit/log.c: a helper program is run, and the lines that
-- it prints are called back or printed with a prefix.
pub mod Output
use docker_baseimage.Base.{
  ℕ, zero, suc, ◌+◌, Bool, true, false, not, ◌&&◌, List, [], ◌∷◌, ◌++◌, Option, none, some, ◌==◌,
  if◌then◌else◌, take, drop,
}
use docker_baseimage.Base.Int.{ℤ, pos, negsuc}
use docker_baseimage.Text.{Bytes, codes, bytes_eq}
use docker_baseimage.Process.{ExitStatus, exited, signaled, neither}
use docker_baseimage.Values.{StdOutput, stdout, stderr, CommandRun}
use docker_baseimage.Lines.{Fd, PollAnswer, Status, finished, failed, polling}
use docker_baseimage.Lines.Tagged.{read_lines_from}

-- The two ends of a pipe.
abbrev pub Pipe : Type 0
Pipe = ℕ × ℕ

-- What the operating system answers in one run: the pipes, whether the fork works, the bytes that
-- come through the pipes, the answers of poll(), and what waitpid() says (`none`: an error).
pub record ExecOs : Type 0 where
  pub stdout_pipe : Option Pipe
  pub stderr_pipe : Option Pipe
  pub fork_succeeds : Bool
  pub stdout_bytes : Bytes
  pub stderr_bytes : Bytes
  pub polls : List PollAnswer
  pub waited : Option ExitStatus

-- A descriptor that nothing was read from.
abbrev pub fresh_fd : Bytes → Fd
fresh_fd bytes = record { buf = []; is_open = true; eof = false; pending = bytes }

-- `process_line`, on the place of the descriptor in ctx->fds (there are two).
abbrev pub stream_of : ℕ → StdOutput
stream_of i = if i == 0 then stdout else stderr

unfoldable pub called_back : List (ℕ × Bytes) → List (StdOutput × Bytes)
called_back [] = []
called_back ((i, line) ∷ ls) = (stream_of i, line) ∷ called_back ls

-- The end of the parent's branch, on what read_lines returned.
unfoldable pub exec_status : Bool → Option ExitStatus → ℤ
exec_status read_ok none = negsuc 0
exec_status read_ok (some (exited n)) = if read_ok then pos n else negsuc 0
exec_status read_ok (some (signaled n)) = if read_ok then pos (128 + n) else negsuc 0
exec_status read_ok (some neither) = negsuc 0

-- What the run returns with the lines that it called back, and the pipe ends that the parent closed,
-- in order. `none`: the answers of poll() end before the run does.
pub record ExecRun : Type 0 where
  pub run : Option CommandRun
  pub closed : List ℕ

abbrev pub failed_run : List ℕ → ExecRun
failed_run closed = record { run = some (record { rc = negsuc 0; lines = [] }); closed = closed }

abbrev pub run_of : Option ExitStatus → List (ℕ × Bytes) × Status → Option CommandRun
run_of waited (lines, finished) =
    some (record { rc = exec_status true waited; lines = called_back lines })
run_of waited (lines, failed) =
    some (record { rc = exec_status false waited; lines = called_back lines })
run_of waited (lines, polling) = none

-- The part after the fork: in the parent, where it worked.
unfoldable pub exec_forked : ExecOs → Pipe → Pipe → Bool → ExecRun
unfolding called_back exec_status read_lines_from
exec_forked os (out_r, out_w) (err_r, err_w) false = failed_run (out_r ∷ out_w ∷ err_r ∷ err_w ∷ [])
exec_forked os (out_r, out_w) (err_r, err_w) true = record {
  run =
      run_of os.waited
        (read_lines_from (fresh_fd os.stdout_bytes ∷ fresh_fd os.stderr_bytes ∷ []) os.polls);
  closed = out_w ∷ err_w ∷ out_r ∷ err_r ∷ [];
}

abbrev pub with_stderr : ExecOs → Pipe → Option Pipe → ExecRun
with_stderr os (out_r, out_w) none = failed_run (out_r ∷ out_w ∷ [])
with_stderr os out (some err) = exec_forked os out err os.fork_succeeds

abbrev pub with_stdout : ExecOs → Option Pipe → ExecRun
with_stdout os none = failed_run []
with_stdout os (some out) = with_stderr os out os.stderr_pipe

unfoldable pub exec_cmd_with_line_callback : ExecOs → ExecRun
unfolding exec_forked
exec_cmd_with_line_callback os = with_stdout os os.stdout_pipe

-- `exec_cmd` where the output is disabled: nothing is read, and there are no pipes.
unfoldable pub exec_silent : ExecOs → ExecRun
unfolding exec_status
exec_silent os =
    if os.fork_succeeds
    then record { run = some (record { rc = exec_status true os.waited; lines = [] }); closed = [] }
    else failed_run []

-- `log_prefixer_callback`: a line that starts with ':::' is printed without these and the prefix.
unfoldable pub prefixed : Option Bytes → Bytes → Bytes
prefixed prefix line =
    if bytes_eq (take 3 line) (codes ":::")
    then drop 3 line
    else (elim prefix [ none ↦ [] | some p ↦ p ]) ++ line

-- The lines that are printed, each on its stream.
unfoldable pub print_all : Option Bytes → List (StdOutput × Bytes) → List (StdOutput × Bytes)
unfolding prefixed
print_all prefix [] = []
print_all prefix ((stream, line) ∷ ls) = (stream, prefixed prefix line) ∷ print_all prefix ls

abbrev pub printed_run : Option Bytes → ExecRun → ExecRun
printed_run prefix r = record r {
  run = elim r.run [ none ↦ none | some c ↦ some (record c { lines = print_all prefix c.lines }) ];
}

-- The lines of the result are those printed on this process's own streams. log_prefixer is read_lines
-- with the callback above and no exit callback.
unfoldable pub exec_cmd : ExecOs → Bool → Option Bytes → ExecRun
unfolding exec_silent exec_cmd_with_line_callback print_all
exec_cmd os disable_output prefix =
    if disable_output then exec_silent os else printed_run prefix (exec_cmd_with_line_callback os)

-- What the child does, and how it ends: it is the program, or it exits with a status.
pub data ChildCall : Type 0 where
  dup2_call : ℕ → ℕ → ChildCall
  close_call : ℕ → ChildCall
  execve_call : ChildCall

-- With pipes, on whether the first two calls and execve() work.
unfoldable pub exec_child : Pipe → Pipe → Bool → Bool → Bool → List ChildCall × Option ℕ
exec_child (out_r, out_w) (err_r, err_w) dup_out dup_err exec_succeeds =
    if not dup_out
    then (dup2_call out_w 1 ∷ [], some 126)
    else if not dup_err
    then (dup2_call out_w 1 ∷ dup2_call err_w 2 ∷ [], some 126)
    else (
      dup2_call out_w 1
          ∷ dup2_call err_w 2
          ∷ close_call out_r
          ∷ close_call out_w
          ∷ close_call err_r
          ∷ close_call err_w
          ∷ execve_call
          ∷ [],
      if exec_succeeds then none else some 126,
    )

-- Without output: on the descriptor that open() of /dev/null gives, and whether the calls work.
unfoldable pub exec_silent_child : Option ℕ → Bool → Bool → Bool → List ChildCall × Option ℕ
exec_silent_child none dup_out dup_err exec_succeeds = ([], some 126)
exec_silent_child (some fd) dup_out dup_err exec_succeeds =
    if not dup_out
    then (dup2_call fd 1 ∷ [], some 126)
    else if not dup_err
    then (dup2_call fd 1 ∷ dup2_call fd 2 ∷ [], some 126)
    else (
      dup2_call fd 1 ∷ dup2_call fd 2 ∷ close_call fd ∷ execve_call ∷ [],
      if exec_succeeds then none else some 126,
    )
