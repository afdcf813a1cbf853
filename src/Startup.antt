-- ===== src/Startup.antt =====
-- `start_services` of src/cinit/cinit.c: the services are started in their order, and each is waited
-- for as its settings say.
pub mod Failures
use docker_baseimage.Base.{
  ℕ, Bool, true, false, not, List, [], ◌∷◌, Option, none, some, ltb, leb, ◌==◌, if◌then◌else◌,
}
use docker_baseimage.Text.{codes}
use docker_baseimage.Exception.{
  Result, ok, throw, service_not_found, could_not_wait, terminated_with_error, uptime_not_met,
  not_ready, died_before_ready, failed_to_start,
}
use docker_baseimage.Service.{Service}
use docker_baseimage.Process.{
  ExitStatus, exited, signaled, neither, killed, Waited, still_running, interrupted, wait_failed,
  terminated, slept, command_run, Os, State, tick, emit, service_at, shutdown_requested, elapsed,
}
use docker_baseimage.Supervisor.{start_service, handle_killed, exec_service_cmd}

-- WIFEXITED(status) && WEXITSTATUS(status) == 0
abbrev pub is_success : ExitStatus → Bool
is_success (exited status) = status == 0
is_success (signaled signal) = false
is_success neither = false

abbrev pub outcome : ExitStatus → Result (Unit {0})
outcome status = if is_success status then ok tt else throw terminated_with_error

-- The wait for a service with `sync`, over what waitpid() answers; it does not answer 0 here.
unfoldable pub wait_terminated : Os → ℕ → List Waited → State → State × Result (Unit {0})
wait_terminated os sid [] st = (record (tick st) { waits = [] }, throw could_not_wait)
wait_terminated os sid (still_running ∷ ws) st = wait_terminated os sid ws (tick st)
wait_terminated os sid (wait_failed ∷ ws) st =
    (record (tick st) { waits = ws }, throw could_not_wait)
wait_terminated os sid (interrupted ∷ ws) st =
    let st' = record (tick st) { waits = ws } in
    let again = wait_terminated os sid ws st' in
    if shutdown_requested os st' then (st', ok tt) else again
wait_terminated os sid (terminated status ∷ ws) st =
    let st' = record (tick st) { waits = ws } in
    (handle_killed os (killed (service_at st' sid).pid status) st', outcome status)

-- The minimum running time is over at the time that is read.
abbrev pub uptime_met : Os → ℕ → State → Bool
uptime_met os sid st =
    let s = service_at st sid in leb s.min_running_time (elapsed (os.clock st.calls) s.start_time)

-- What waitpid(…, WNOHANG) answers in an iteration; `again` are the iterations after it.
abbrev pub uptime_answer : Os → ℕ → State × Result Bool → State → Waited → State × Result Bool
uptime_answer os sid again st still_running = again
uptime_answer os sid again st interrupted = (st, throw could_not_wait)
uptime_answer os sid again st wait_failed = (st, throw could_not_wait)
uptime_answer os sid again st (terminated status) =
    (handle_killed os (killed (service_at st sid).pid status) st, throw uptime_not_met)

-- The loop on the minimum running time. The result is true where it is met, and false where a
-- shutdown was requested.
unfoldable pub wait_uptime : Os → ℕ → List Waited → State → State × Result Bool
wait_uptime os sid [] st =
    if shutdown_requested os st
    then (st, ok false)
    else if uptime_met os sid st
    then (tick st, ok true)
    else (record (tick (tick st)) { waits = [] }, throw could_not_wait)
wait_uptime os sid (w ∷ ws) st =
    let st' = record (tick (tick st)) { waits = ws } in
    let again = wait_uptime os sid ws (emit (slept 500) st') in
    if shutdown_requested os st
    then (st, ok false)
    else if uptime_met os sid st
    then (tick st, ok true)
    else uptime_answer os sid again st' w

abbrev pub is_timed_out : Os → ℕ → State → Bool
is_timed_out os sid st =
    let s = service_at st sid in leb s.ready_timeout (elapsed (os.clock st.calls) s.start_time)

-- The loop on the program 'is_ready'.
unfoldable pub wait_ready : Os → ℕ → List (Option ℕ) → State → State × Result (Unit {0})
wait_ready os sid [] st =
    if is_timed_out os sid st
    then (tick st, throw not_ready)
    else (record (tick (tick st)) { probes = [] }, throw died_before_ready)
wait_ready os sid (none ∷ ps) st =
    if is_timed_out os sid st
    then (tick st, throw not_ready)
    else (record (tick (tick st)) { probes = ps }, throw died_before_ready)
wait_ready os sid (some status ∷ ps) st =
    let pid = (service_at st sid).pid in
    let st' =
      exec_service_cmd sid (codes "is_ready") pid (record (tick (tick st)) { probes = ps }) in
    let again = wait_ready os sid ps (emit (slept 250) st') in
    if is_timed_out os sid st
    then (tick st, throw not_ready)
    else if status == 0
    then (st', ok tt)
    else if shutdown_requested os st'
    then (st', ok tt)
    else again

abbrev pub after_uptime : Os → ℕ → State × Result Bool → State × Result (Unit {0})
after_uptime os sid (st, throw e) = (st, throw e)
after_uptime os sid (st, ok false) = (st, ok tt)
after_uptime os sid (st, ok true) =
    let name = (service_at st sid).name in
    let ready = wait_ready os sid st.probes st in
    if not (os.chdir name)
    then (st, throw service_not_found)
    else if os.executable name (codes "is_ready")
    then ready
    else (st, ok tt)

abbrev pub after_start : Os → ℕ → State × Result (Unit {0}) → State × Result (Unit {0})
after_start os sid (st, throw e) = (st, throw e)
after_start os sid (st, ok u) =
    let s = service_at st sid in
    if s.sync
    then wait_terminated os sid st.waits st
    else if ltb 0 s.interval
    then (st, ok tt)
    else after_uptime os sid (wait_uptime os sid st.waits st)

-- The Try block.
abbrev pub start_and_wait : Os → ℕ → State → State × Result (Unit {0})
start_and_wait os sid st = after_start os sid (start_service os sid st)

-- The Catch block.
abbrev pub or_ignored : ℕ → State × Result (Unit {0}) → State × Result (Unit {0})
or_ignored sid (st, ok u) = (st, ok tt)
or_ignored sid (st, throw e) =
    let s = service_at st sid in
    if s.ignore_failure then (st, ok tt) else (st, throw (failed_to_start s.name e))

abbrev pub next_service :
    (State → State × Result (Unit {0})) → State × Result (Unit {0}) → State × Result (Unit {0})
next_service rest (st, ok u) = rest st
next_service rest (st, throw e) = (st, throw e)

-- The loop over the places of the start order.
unfoldable pub start_in_order : Os → List (Option ℕ) → State → State × Result (Unit {0})
start_in_order os [] st = (st, ok tt)
start_in_order os (none ∷ places) st = (st, ok tt)
start_in_order os (some sid ∷ places) st =
    let rest = λ (st' : State). start_in_order os places st' in
    if (service_at st sid).is_service_group
    then rest st
    else if shutdown_requested os st
    then (st, ok tt)
    else next_service rest (or_ignored sid (start_and_wait os sid st))

unfoldable pub start_services : Os → State → State × Result (Unit {0})
unfolding start_in_order
start_services os st = start_in_order os st.ctx.start_order st
