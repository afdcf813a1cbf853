-- ===== src/Supervisor.antt =====
-- The supervisor of src/cinit/cinit.c: starting and stopping a service, handling a service that
-- ended, reaping, and the shutdown.
pub mod Killed
pub mod Start
pub mod Reaping
pub mod Quiet
pub mod Shutdown
use docker_baseimage.Base.{
  ℕ, zero, suc, ◌+◌, ◌^◌, Bool, true, false, not, ◌&&◌, ◌||◌, List, [], ◌∷◌, Option, none, some,
  ltb, leb, ◌==◌, if◌then◌else◌, length,
}
use docker_baseimage.Text.{Bytes, codes}
use docker_baseimage.Exception.{
  Result, ok, throw, Message, service_not_found, out_of_memory, no_logger_thread, could_not_fork,
}
use docker_baseimage.Service.{Service, Context, find_service_by_pid, is_service_started, is_empty}
use docker_baseimage.Process.{
  ExitStatus, exited, signaled, neither, Reaped, no_child, no_change, killed, Event, slept,
  signal_sent, signal_to_all, command_run, logger_created, logger_joined, Os, State, tick, emit,
  service_at, put_service, shutdown_requested, request_shutdown, elapsed, close_fd, fork_and_exec,
}

abbrev pub sigterm : ℕ
sigterm = 15

abbrev pub sigkill : ℕ
sigkill = 9

abbrev pub max_forks : ℕ
max_forks = 4

-- The logger thread of a service that was forked. The assertion before it, that a service without a
-- process has no logger, is left out: `release` clears the two together.
pub create_logger : Os → ℕ → State → State × Result (Unit {0})
create_logger os sid st =
    if not (os.memory st.calls)
    then (tick st, throw out_of_memory)
    else (let st' = put_service st sid (record (service_at st sid) { logger_exit = false }) in
        if not (os.create_thread (suc st.calls))
        then (tick (tick st'), throw no_logger_thread)
        else (let s = record (service_at st' sid) { logger_started = true } in
            (emit (logger_created sid) (tick (tick (put_service st' sid s))), ok tt)))

-- SRV(sid).pid = …; SRV(sid).start_time = get_time();
abbrev pub started : Os → ℕ → ℕ → State → State
started os sid pid st =
    let s = record (service_at st sid) { pid = pid; start_time = os.clock st.calls } in
    tick (put_service st sid s)

-- The loop of attempts, where some are left.
pub fork_attempts : Os → ℕ → ℕ → State → State × Result (Unit {0})
unfolding create_logger
fork_attempts os sid zero st = (st, throw could_not_fork)
fork_attempts os sid (suc n) st =
    let forked = fork_and_exec os sid st in
    let st' = forked.0 in
    let unchanged = put_service st' sid (record (service_at st' sid) { pid = forked.1 }) in
    let again = fork_attempts os sid n (emit (slept 500) unchanged) in
    if ltb 0 forked.1 then create_logger os sid (started os sid forked.1 st') else again

unfoldable pub start_service : Os → ℕ → State → State × Result (Unit {0})
unfolding fork_attempts
start_service os sid st =
    if is_service_started st.ctx.services sid
    then (st, ok tt)
    else if not (os.chdir (service_at st sid).name)
    then (st, throw service_not_found)
    else fork_attempts os sid max_forks st

-- exec_service_cmd: the argument is a number.
abbrev pub exec_service_cmd : ℕ → Bytes → ℕ → State → State
exec_service_cmd sid file argument st = emit (command_run sid file argument) (tick st)

unfoldable pub stop_service : Os → ℕ → State → State × Result (Unit {0})
stop_service os sid st =
    let s = service_at st sid in
    let st' =
      if os.executable s.name (codes "kill")
      then exec_service_cmd sid (codes "kill") s.pid st
      else st in
    if s.pid == 0
    then (st, ok tt)
    else if not (os.chdir s.name)
    then (st, throw service_not_found)
    else (emit (signal_sent (service_at st' sid).pid sigterm) st', ok tt)

-- The exit code that the shell gives to a status.
abbrev pub code_or : ℕ → ExitStatus → ℕ
code_or otherwise (exited status) = status
code_or otherwise (signaled signal) = 128 + signal
code_or otherwise neither = otherwise

-- The join of a thread that was created does not fail: the assertion on its result is left out.
abbrev pub join_logger : ℕ → Bool → State → State
join_logger sid true st =
    let s = record (service_at st sid) { logger_exit = true; logger_started = false } in
    emit (logger_joined sid) (put_service st sid s)
join_logger sid false st = st

-- close_fd(&SRV(sid).output_fd);
abbrev pub close_output : ℕ → State → State
close_output sid st =
    let s = service_at st sid in
    put_service (close_fd s.output_fd st) sid (record s { output_fd = none })

-- The service table is updated, the logger is joined and the descriptor is closed.
pub release : ℕ → State → State
release sid st =
    let s = service_at st sid in
    close_output sid (join_logger sid s.logger_started (put_service st sid (record s { pid = 0 })))

-- The finish script; a failure is only logged.
pub run_finish : Os → ℕ → ExitStatus → State → State
run_finish os sid status st =
    let name = (service_at st sid).name in
    if os.chdir name && os.executable name (codes "finish")
    then exec_service_cmd sid (codes "finish") (code_or 126 status) st
    else st

pub request_if : Bool → ℕ → State → State
request_if false code st = st
request_if true code st = request_shutdown (record st { ctx = record st.ctx { exit_code = code } })

pub request_by_service : Os → ℕ → ExitStatus → State → State
unfolding request_if
request_by_service os sid status st =
    let s = service_at st sid in
    request_if
      (not (shutdown_requested os st) && (not s.restart_requested && s.shutdown_on_terminate))
      (code_or 1 status) st

-- A process that is no service's is only reaped.
pub handle_ended : Os → ExitStatus → Option ℕ → State → State
unfolding release run_finish request_by_service
handle_ended os status none st = st
handle_ended os status (some sid) st =
    request_by_service os sid status (run_finish os sid status (release sid st))

-- The number of a process is not 0: the source's `killed == 0` is `no_change`.
unfoldable pub handle_killed : Os → Reaped → State → State
unfolding handle_ended
handle_killed os no_child st = st
handle_killed os no_change st = st
handle_killed os (killed pid status) st =
    handle_ended os status (find_service_by_pid st.ctx.services pid) st

-- A number of milliseconds, or -1.
abbrev pub Period : Type 0
Period = Option ℕ

-- An unsigned int that is passed as an int: a large one is a negative period.
abbrev pub period_of : ℕ → Period
period_of time = if ltb time (2 ^ 31) then some time else none

-- period == 0 || (period > 0 && get_time() - now >= period)
abbrev pub is_over : Period → ℕ → Bool
is_over none time = false
is_over (some period) time = period == 0 || leb period time

abbrev pub is_process : Reaped → Bool
is_process no_child = true
is_process no_change = false
is_process (killed pid status) = true

-- service >= 0 && killed != 0, and the service has no process
abbrev pub is_reaped : Option ℕ → Reaped → State → Bool
is_reaped none last st = false
is_reaped (some sid) last st = is_process last && (service_at st sid).pid == 0

-- Both loops of child_handler, over what waitpid() answers: the inner one goes on with every
-- process, and the tests of the outer one come after the answer 0. The result is true where no
-- child is left.
pub reap : Os → Period → Option ℕ → ℕ → List Reaped → State → State × Bool
unfolding handle_killed
reap os period service now [] st = (record (tick st) { reaps = [] }, true)
reap os period service now (no_child ∷ answers) st = (record (tick st) { reaps = answers }, true)
reap os period service now (killed pid status ∷ answers) st =
    reap os period service now answers (handle_killed os (killed pid status) (tick st))
reap os period service now (no_change ∷ answers) st =
    let st' = tick (tick st) in
    let again = reap os period service now answers (emit (slept 50) st') in
    if is_over period (elapsed (os.clock (suc st.calls)) now)
    then (record st' { reaps = answers }, false)
    else if is_reaped service no_change st'
    then (record st' { reaps = answers }, false)
    else again

unfoldable pub child_handler : Os → Period → Option ℕ → State → State × Bool
unfolding reap
child_handler os period service st = reap os period service (os.clock st.calls) st.reaps (tick st)

-- The services are stopped in the reverse of their order: the list is that of the places from the
-- last to the first. The result is true where no child is left.
pub stop_all : Os → List (Option ℕ) → State → State × Bool
unfolding stop_service child_handler
stop_all os [] st = (st, false)
stop_all os (none ∷ places) st = stop_all os places st
stop_all os (some sid ∷ places) st =
    let s = service_at st sid in
    let reaped = child_handler os (some 250) (some sid) (stop_service os sid st).0 in
    let skipped = stop_all os places st in
    let next = stop_all os places reaped.0 in
    if s.is_service_group || s.pid == 0
    then skipped
    else if reaped.1
    then (reaped.0, true)
    else next

abbrev pub reverse_onto {ℓ} : {A : Type ℓ} → List A → List A → List A
reverse_onto [] acc = acc
reverse_onto (x ∷ xs) acc = reverse_onto xs (x ∷ acc)

pub kill_all : Os → State → State
unfolding child_handler
kill_all os st = (child_handler os none none (emit (signal_to_all sigkill) st)).0

-- What is left after the services were asked to stop.
pub terminate_all : Os → State → State
unfolding kill_all
terminate_all os st =
    let polled = child_handler os (some 0) none st in
    let waited =
      child_handler os (period_of polled.0.ctx.services_gracetime) none
        (emit (signal_to_all sigterm) polled.0) in
    if polled.1 then polled.0 else if waited.1 then waited.0 else kill_all os waited.0

unfoldable pub cinit_shutdown : Os → State → State
unfolding stop_all terminate_all
cinit_shutdown os st =
    let stopped = stop_all os (reverse_onto st.ctx.start_order []) st in
    if stopped.1 then stopped.0 else terminate_all os stopped.0
