-- ===== src/Tests/Commands.antt =====
-- A helper program's run, on concrete pipes.
use docker_baseimage.Base.{◌≡◌, refl, true, false, List, [], ◌∷◌, none, some, arith}
use docker_baseimage.Base.Int.{pos}
use docker_baseimage.Text.{codes}
use docker_baseimage.Process.{exited}
use docker_baseimage.Values.{
  stdout, stderr, System, CommandRun, found, allocated, buf_text, load_value_as_string, add_line,
}
use docker_baseimage.Values.Output.{printed}
use docker_baseimage.Lines.{PollAnswer, ready, readable, hangup}
use docker_baseimage.Lines.Cutting.{segments}
use docker_baseimage.Lines.Chunks.{IsTidy}
use docker_baseimage.Lines.Tagged.{read_lines_from}
use docker_baseimage.Lines.Streams.{IsWhole, read_lines_from-IsWhole}
use docker_baseimage.Exec.{fresh_fd, ExecOs, exec_cmd_with_line_callback}
use docker_baseimage.Exec.Output.{
  IsRun, IsResult, both_fds, exec_cmd_with_line_callback-IsResult, load_value_as_string-printed,
  opened, count, exec_cmd_with_line_callback-closes,
}

-- Both streams have something, and stderr is hung up after it.
abbrev answers : List PollAnswer
answers =
    ready (readable 1 ∷ readable 9 ∷ []) false
    ∷ ready (readable 9 ∷ hangup ∷ []) false
    ∷ ready (readable 0 ∷ hangup ∷ []) false
    ∷ []

abbrev os : ExecOs
os = record {
  stdout_pipe = some (3, 4);
  stderr_pipe = some (5, 6);
  fork_succeeds = true;
  stdout_bytes = codes "a\nb";
  stderr_bytes = codes "x\n";
  polls = answers;
  waited = some (exited 0);
}

out-IsTidy : IsTidy (fresh_fd (codes "a\nb"))
out-IsTidy = record {
  unfinished = tt;
  fits = omega arith;
  buf_nul = tt;
  pending_nul = (refl, (refl, (refl, tt)));
}

err-IsTidy : IsTidy (fresh_fd (codes "x\n"))
err-IsTidy = record {
  unfinished = tt;
  fits = omega arith;
  buf_nul = tt;
  pending_nul = (refl, (refl, tt));
}

read_lines_from-IsWhole_example : IsWhole 0 (both_fds os) (read_lines_from (both_fds os) answers).0
unfolding read_lines_from
read_lines_from-IsWhole_example =
    read_lines_from-IsWhole answers (both_fds os) (out-IsTidy, (err-IsTidy, tt)) (refl, (refl, tt))
      (
        refl,
        ((λ e. cc), ((λ e. cc), tt)),
        (refl, ((λ e. cc), ((λ e. refl), tt)), (refl, ((λ e. cc), ((λ e. refl), tt)), tt)),
      )
      refl

os-IsRun : IsRun os
unfolding read_lines_from
os-IsRun = record {
  has_stdout = ((3, 4), refl);
  has_stderr = ((5, 6), refl);
  forked = refl;
  stdout_nul = (refl, (refl, (refl, tt)));
  stderr_nul = (refl, (refl, tt));
  sound = (
    refl,
    ((λ e. cc), ((λ e. cc), tt)),
    (refl, ((λ e. cc), ((λ e. refl), tt)), (refl, ((λ e. cc), ((λ e. refl), tt)), tt)),
  );
  ends = refl;
}

abbrev command : CommandRun
command = record {
  rc = pos 0;
  lines = (stdout, codes "a") ∷ (stderr, codes "x") ∷ (stdout, codes "b") ∷ [];
}

exec_cmd_with_line_callback-IsResult_example :
    (c : CommandRun) × ((exec_cmd_with_line_callback os).run ≡ some c) × IsResult os c
exec_cmd_with_line_callback-IsResult_example = exec_cmd_with_line_callback-IsResult os os-IsRun

abbrev sys : System
sys = record {
  stat = λ path. found true;
  open_file = λ path. none;
  read_succeeds = λ path. true;
  memory = λ size. true;
  run_program = λ path. command;
  getpwnam = λ name. none;
  getgrnam = λ name. none;
  junk = [];
}

load_value_as_string-printed_example :
    buf_text (some (codes "a\nb")) ≡ printed (segments [] os.stdout_bytes)
unfolding exec_cmd_with_line_callback segments load_value_as_string add_line
load_value_as_string-printed_example =
    load_value_as_string-printed sys os (codes "umask") allocated (true, some (codes "a\nb"))
      (codes "a") (codes "b" ∷ []) os-IsRun refl refl refl refl

exec_cmd_with_line_callback-closes_example :
    count 5 (exec_cmd_with_line_callback os).closed ≡ count 5 (opened os.stdout_pipe os.stderr_pipe)
exec_cmd_with_line_callback-closes_example = exec_cmd_with_line_callback-closes os 5
