-- ===== src/Exec/Output.antt =====
-- What a helper program prints, from its pipes to the value of a setting; and the pipes' ends.
use docker_baseimage.Base.{
  some-inj, ℕ, ◌+◌, ◌≡◌, refl, sym, ap, ◌∙◌, inl, inr, Bool, true, false, List, [], ◌∷◌, Option,
  none, some, arith, ◌==◌, if◌then◌else◌, Bool-cases, Option-cases,
}
use docker_baseimage.Text.{Bytes}
use docker_baseimage.Exception.{ok}
use docker_baseimage.Load.Lists.{ok-inj}
use docker_baseimage.Process.{ExitStatus}
use docker_baseimage.Values.{
  CommandRun, System, Dest, OutputCtx, buf_text, found, is_zero, start_ctx, process_lines,
  command_result, load_found, load_stat, load_value_as_string,
}
use docker_baseimage.Values.Files.{HasNoNul}
use docker_baseimage.Values.Output.{texts, printed, process_lines-printed}
use docker_baseimage.Lines.{Fd, Status, finished, failed, polling}
use docker_baseimage.Lines.Cutting.{segments}
use docker_baseimage.Lines.Chunks.{IsTidy}
use docker_baseimage.Lines.Keeping.{lines_of}
use docker_baseimage.Lines.Streams.{IsSound, read_lines_from-IsWhole}
use docker_baseimage.Lines.Tagged.{read_lines_from}
use docker_baseimage.Exec.{
  Pipe, ExecOs, fresh_fd, called_back, exec_status, run_of, exec_forked,
  exec_cmd_with_line_callback, with_stdout,
}

texts-called_back : (ls : List (ℕ × Bytes)) → texts (called_back ls) ≡ lines_of 0 ls
unfolding called_back lines_of
texts-called_back [] = refl
texts-called_back ((i, l) ∷ ls) = elim (Bool-cases (i == 0)) [
  | inl e ↦ rw e (ap (◌∷◌ l) (texts-called_back ls))
  | inr e ↦ rw e (texts-called_back ls)
]

abbrev pub both_fds : ExecOs → List Fd
both_fds os = fresh_fd os.stdout_bytes ∷ fresh_fd os.stderr_bytes ∷ []

fresh_fd-IsTidy : (bytes : Bytes) → HasNoNul bytes → IsTidy (fresh_fd bytes)
fresh_fd-IsTidy bytes h = record {
  unfinished = tt;
  fits = omega arith;
  buf_nul = tt;
  pending_nul = h;
}

-- What is needed of a run that comes to its end.
pub record IsRun (os : ExecOs) : Type 0 where
  pub has_stdout : (p : Pipe) × (os.stdout_pipe ≡ some p)
  pub has_stderr : (p : Pipe) × (os.stderr_pipe ≡ some p)
  pub forked : os.fork_succeeds ≡ true
  pub stdout_nul : HasNoNul os.stdout_bytes
  pub stderr_nul : HasNoNul os.stderr_bytes
  pub sound : IsSound (both_fds os) os.polls
  pub ends : (read_lines_from (both_fds os) os.polls).1 ≡ finished

-- The result of a run: the status of the program, and the lines of its output.
pub record IsResult (os : ExecOs) (c : CommandRun) : Type 0 where
  pub status : c.rc ≡ exec_status true os.waited
  pub stdout_lines : texts c.lines ≡ segments [] os.stdout_bytes

run_of-finished :
    (waited : Option ExitStatus) (r : List (ℕ × Bytes) × Status)
    → r.1 ≡ finished
    → run_of waited r ≡ some (record { rc = exec_status true waited; lines = called_back r.0 })
run_of-finished waited (ls, finished) e = refl
run_of-finished waited (ls, failed) e = cc
run_of-finished waited (ls, polling) e = cc

forked_run :
    (os : ExecOs)
    → IsRun os
    → (exec_cmd_with_line_callback os).run
      ≡ run_of os.waited (read_lines_from (both_fds os) os.polls)
unfolding exec_cmd_with_line_callback exec_forked
forked_run os h = rw (h.has_stdout.1, h.has_stderr.1, h.forked) refl

-- Where the pipes and the fork work, neither stream holds a NUL, and the answers of poll() lead to the
-- end of both streams: exec_cmd_with_line_callback returns the program's status (its exit code, 128
-- and the signal, or -1), and has called back exactly the lines of stdout for stdout, in order.
pub exec_cmd_with_line_callback-IsResult :
    (os : ExecOs)
    → IsRun os
    → (c : CommandRun) × ((exec_cmd_with_line_callback os).run ≡ some c) × IsResult os c
exec_cmd_with_line_callback-IsResult os h =
    let r = read_lines_from (both_fds os) os.polls in
    let whole =
      read_lines_from-IsWhole os.polls (both_fds os)
        (
          fresh_fd-IsTidy os.stdout_bytes h.stdout_nul,
          (fresh_fd-IsTidy os.stderr_bytes h.stderr_nul, tt),
        )
        (refl, (refl, tt)) h.sound h.ends in
    (
      record { rc = exec_status true os.waited; lines = called_back r.0 },
      forked_run os h ∙ run_of-finished os.waited r h.ends,
      record { status = refl; stdout_lines = texts-called_back r.0 ∙ whole.0 },
    )

command_result-ok :
    (path : Bytes) (c : CommandRun) (ctx : OutputCtx) (v : Bool × Option Bytes)
    → command_result path c.rc ctx ≡ ok v
    → (ctx.err ≡ none) × (v.1 ≡ ctx.buf)
unfolding command_result
command_result-ok path c ctx v e = elim (Bool-cases (is_zero c.rc)) [
  | inr z ↦ cc (rw z at e)
  | inl z ↦ elim (Option-cases ctx.err) [
    | inl n ↦ (n, ap (λ x. x.1) (sym (ok-inj (rw (z, n) at e))))
    | inr (f, n) ↦ cc (rw (z, n) at e)
  ]
]

-- A value that an executable file gives, where the program's output comes to its end as above and has
-- a line: if the load succeeds, the buffer holds the lines of the program's stdout with a newline
-- between two of them, and nothing of its stderr.
pub load_value_as_string-printed :
    (sys : System) (os : ExecOs) (path : Bytes) (dest : Dest) (v : Bool × Option Bytes) (l : Bytes)
    (rest : List Bytes)
    → IsRun os
    → sys.stat path ≡ found true
    → (exec_cmd_with_line_callback os).run ≡ some (sys.run_program path)
    → segments [] os.stdout_bytes ≡ l ∷ rest
    → load_value_as_string sys path dest ≡ ok v
    → buf_text v.1 ≡ printed (segments [] os.stdout_bytes)
unfolding load_value_as_string load_stat load_found
load_value_as_string-printed sys os path dest v l rest h st run lines e =
    let (c, same, result) = exec_cmd_with_line_callback-IsResult os h in
    let is_run : c ≡ sys.run_program path = some-inj (sym same ∙ run) in
    let texts_same : texts (sys.run_program path).lines ≡ segments [] os.stdout_bytes =
      ap (λ r. texts r.lines) (sym is_run) ∙ result.stdout_lines in
    let (no_err, buf) =
      command_result-ok path (sys.run_program path)
        (process_lines sys.memory (start_ctx dest) (sys.run_program path).lines) v (rw st at e) in
    ap buf_text buf
    ∙ process_lines-printed sys.memory dest (sys.run_program path).lines l rest (texts_same ∙ lines)
        no_err
    ∙ ap printed texts_same

-- The pipe ends that a run opens.
abbrev pub opened : Option Pipe → Option Pipe → List ℕ
opened none err = []
opened (some (r, w)) none = r ∷ w ∷ []
opened (some (r, w)) (some (r', w')) = r ∷ w ∷ r' ∷ w' ∷ []

abbrev pub count : ℕ → List ℕ → ℕ
count x [] = 0
count x (y ∷ ys) = (if y == x then 1 else 0) + count x ys

with_stdout-closes :
    (os : ExecOs) (out err : Option Pipe) (f : Bool) (x : ℕ)
    → os.stderr_pipe ≡ err
    → os.fork_succeeds ≡ f
    → count x (with_stdout os out).closed ≡ count x (opened out err)
unfolding exec_forked
with_stdout-closes os none err f x e g = refl
with_stdout-closes os (some (r, w)) none f x e g = rw e refl
with_stdout-closes os (some (r, w)) (some (r', w')) true x e g = rw (e, g) (omega arith)
with_stdout-closes os (some (r, w)) (some (r', w')) false x e g = rw (e, g) (omega arith)

-- Whichever call fails, the parent closes each end of each pipe that it opened, as often as it was
-- opened, and no other descriptor.
pub exec_cmd_with_line_callback-closes :
    (os : ExecOs) (x : ℕ)
    → count x (exec_cmd_with_line_callback os).closed
      ≡ count x (opened os.stdout_pipe os.stderr_pipe)
unfolding exec_cmd_with_line_callback
exec_cmd_with_line_callback-closes os x =
    with_stdout-closes os os.stdout_pipe os.stderr_pipe os.fork_succeeds x refl refl
