-- ===== src/MainLoop.antt =====
-- The main loop of `main` in src/cinit/cinit.c, and what follows it.
pub mod Exit
pub mod Restarts
pub mod Intervals
use docker_baseimage.Base.{
  ℕ, zero, suc, ◌*◌, ◌%◌, ◌^◌, Bool, true, false, not, ◌&&◌, ◌||◌, List, [], ◌∷◌, Option, none,
  some, ltb, leb, ◌==◌, if◌then◌else◌, length, take, drop,
}
use docker_baseimage.Text.{Bytes, codes, bytes_eq, trim, terminate_at_first_eol}
use docker_baseimage.Exception.{Result, ok, throw}
use docker_baseimage.Values.{c_string}
use docker_baseimage.Service.{Service, Context, find_from, find_service, is_empty, unload_services}
use docker_baseimage.Process.{
  Event, slept, Os, State, tick, emit, service_at, put_service, shutdown_requested,
  request_shutdown, elapsed,
}
use docker_baseimage.Supervisor.{start_service, stop_service, child_handler, cinit_shutdown}

-- FOR_EACH_SERVICE(sid), for at most the given number of entries from `sid` on.
pub for_each : (ℕ → State → State) → ℕ → ℕ → State → State
for_each body zero sid st = st
for_each body (suc n) sid st =
    let rest = for_each body n (suc sid) (body sid st) in
    if is_empty (service_at st sid).name then st else rest

pub all_services : (ℕ → State → State) → State → State
unfolding for_each
all_services body st = for_each body (length st.ctx.services) 0 st

abbrev pub awaits_restart : Service → Bool
awaits_restart s = (s.respawn || s.restart_requested) && s.pid == 0

abbrev pub is_some {ℓ} : {A : Type ℓ} → Option A → Bool
is_some none = false
is_some (some a) = true

-- services_to_be_restarted
abbrev pub restart_pending : State → Bool
restart_pending st = is_some (find_from awaits_restart 0 st.ctx.services)

-- The time since the start against interval * 1000, which is an unsigned int.
abbrev pub is_due : Service → ℕ → Bool
is_due s time = leb (s.interval * 1000 % 2 ^ 32) time

-- A service with an interval: a late run only gets a new start time, else it is started again.
pub run_interval : Os → ℕ → State → State
run_interval os sid st =
    let s = service_at st sid in
    let st' = tick st in
    if not (ltb 0 s.interval)
    then st
    else if not (is_due s (elapsed (os.clock st.calls) s.start_time))
    then st'
    else if ltb 0 s.pid
    then tick (put_service st' sid (record s { start_time = os.clock st'.calls }))
    else (start_service os sid st').0

-- restart_requested = false, where the start did not throw.
abbrev pub restarted : ℕ → State × Result (Unit {0}) → State
restarted sid (st, ok u) =
    put_service st sid (record (service_at st sid) { restart_requested = false })
restarted sid (st, throw e) = st

abbrev pub restart_delay : ℕ
restart_delay = 500

pub run_restart : Os → ℕ → State → State
run_restart os sid st =
    let s = service_at st sid in
    let st' = tick st in
    if not (awaits_restart s)
    then st
    else if not (ltb restart_delay (elapsed (os.clock st.calls) s.start_time))
    then st'
    else restarted sid (start_service os sid st')

-- How an iteration ends: with the pause, with a break, or with a failed assertion.
pub data Next : Type 0 where
  paused shut_down aborted : Next

abbrev pub stopped : ℕ → State × Result (Unit {0}) → State
stopped sid (st, ok u) =
    put_service st sid (record (service_at st sid) { restart_requested = true })
stopped sid (st, throw e) = st

abbrev pub restart_found : Os → Option ℕ → State → State
restart_found os none st = st
restart_found os (some sid) st = stopped sid (stop_service os sid st)

-- The command of the named pipe: the bytes that read() got, if any. The assertion is that of
-- `find_service`: the name is not empty.
pub run_command : Os → Option Bytes → State → State × Next
run_command os none st = (st, paused)
run_command os (some bytes) st =
    let buf = trim (terminate_at_first_eol (c_string bytes)) in
    let service = drop 8 buf in
    if not (bytes_eq (take 8 buf) (codes "restart:"))
    then (st, paused)
    else if is_empty service
    then (st, aborted)
    else (restart_found os (find_service st.ctx.services service) st, paused)

abbrev pub pause : State × Next → State × Next
pause (st, paused) = (emit (slept 1000) st, paused)
pause (st, shut_down) = (st, shut_down)
pause (st, aborted) = (st, aborted)

-- From the second check on.
pub after_reaping : Os → Option Bytes → State × Bool → State × Next
unfolding run_command
after_reaping os command (st, all_terminated) =
    let st1 = all_services (run_interval os) st in
    let st2 = all_services (run_restart os) st1 in
    if shutdown_requested os st
    then (st, shut_down)
    else if all_terminated && not (restart_pending st)
    then (request_shutdown st, shut_down)
    else pause (run_command os command st2)

-- One iteration of the loop.
pub iteration : Os → Option Bytes → State → State × Next
unfolding after_reaping
iteration os command st =
    if shutdown_requested os st
    then (st, shut_down)
    else after_reaping os command (child_handler os (some 0) none st)

-- The iterations, for what the pipe gives in each.
abbrev pub go_on : (State → State × Next) → State × Next → State × Next
go_on loop (st, paused) = loop st
go_on loop (st, shut_down) = (st, shut_down)
go_on loop (st, aborted) = (st, aborted)

unfoldable pub main_loop : Os → List (Option Bytes) → State → State × Next
unfolding iteration
main_loop os [] st = (st, paused)
main_loop os (command ∷ commands) st =
    go_on (λ (st' : State). main_loop os commands st') (iteration os command st)

-- The status of the process: that of a service, where nothing failed before.
abbrev pub final_status : ℕ → ℕ → ℕ
final_status exit_status exit_code =
    if exit_status == 0 && not (exit_code == 0) then exit_code else exit_status

-- After the loop: the shutdown, the unloading, and the status of the process.
unfoldable pub finish : Os → ℕ → State → State × ℕ
finish os exit_status st =
    let st' = cinit_shutdown os st in
    (
      record st' { ctx = record st'.ctx { services = unload_services st'.ctx.services } },
      final_status exit_status st.ctx.exit_code,
    )
