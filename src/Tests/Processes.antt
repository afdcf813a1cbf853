-- ===== src/Tests/Processes.antt =====
-- A concrete state of the supervisor.
use docker_baseimage.Base.{List, ◌+◌, ◌≡◌, refl, Bool, true, false, [], ◌∷◌, none, some, arith}
use docker_baseimage.Text.{codes}
use docker_baseimage.Service.{Service, cleared, initial_context, find_service_by_pid, find_from}
use docker_baseimage.Process.{
  Waited, interrupted, terminated, exited, signaled, no_child, no_change, killed, Os, State,
  ChildStep, child, child_steps,
}
use docker_baseimage.Process.Child.{IsChildEnd, child-IsChildEnd, IsOrdered, child_steps-IsOrdered}
use docker_baseimage.Supervisor.{child_handler, cinit_shutdown, handle_killed, start_service}
use docker_baseimage.Exception.{ok}
use docker_baseimage.Startup.{start_and_wait, start_in_order, start_services}
use docker_baseimage.Startup.Failures.{
  IsReported, start_services-IsReported, Proceeds, start_in_order-Proceeds,
}
use docker_baseimage.MainLoop.{run_interval, run_restart}
use docker_baseimage.MainLoop.Intervals.{AfterInterval, run_interval-AfterInterval}
use docker_baseimage.MainLoop.Restarts.{AfterRestart, run_restart-AfterRestart}
use docker_baseimage.Supervisor.Killed.{Ended, handle_killed-Ended}
use docker_baseimage.Supervisor.Start.{AfterStart, start_service-AfterStart}
use docker_baseimage.Supervisor.Reaping.{child_handler-none, child_handler_all}
use docker_baseimage.Supervisor.Shutdown.{Escalates, cinit_shutdown-Escalates}

-- A service that runs as process 42, with a logger, and one that does not run.
abbrev app : Service
app = record cleared {
  name = codes "app";
  run_abs_path = some (codes "/etc/services.d/app/run");
  uid = 1000;
  gid = 1000;
  shutdown_on_terminate = true;
  pid = 42;
  logger_started = true;
}

abbrev st : State
st = record {
  ctx = record initial_context {
    services = app ∷ record cleared { name = codes "nginx" } ∷ [];
    start_order = some 1 ∷ some 0 ∷ none ∷ [];
  };
  do_shutdown = false;
  calls = 0;
  reaps = no_change ∷ killed 42 (signaled 15) ∷ no_change ∷ no_child ∷ [];
  waits = [];
  probes = [];
  events = [];
}

abbrev os : Os
os = record {
  forkpty = λ n. some (43, 7);
  clock = λ n. n;
  memory = λ n. true;
  create_thread = λ n. true;
  chdir = λ name. true;
  executable = λ name file. true;
  signal_came = λ n. false;
}

app_found : find_service_by_pid st.ctx.services 42 ≡ some 0
unfolding find_service_by_pid find_from
app_found = refl

handle_killed-Ended_example :
    Ended (signaled 15) 0 st (handle_killed os (killed 42 (signaled 15)) st)
handle_killed-Ended_example =
    handle_killed-Ended os (λ n. refl) 42 0 (signaled 15) st (omega arith) app_found

start_service-AfterStart_example :
    AfterStart os 1 st (start_service os 1 st).0 (start_service os 1 st).1
start_service-AfterStart_example = start_service-AfterStart os 1 st (omega arith)

child_handler-none_example :
    child_handler os (some 250) (some 0) st ≡ child_handler os (some 250) none st
child_handler-none_example = child_handler-none os (some 250) (some 0) st

child_handler_all_example : (child_handler os none none st).1 ≡ true
child_handler_all_example = child_handler_all os none st

cinit_shutdown-Escalates_example : Escalates [] (cinit_shutdown os st).events
cinit_shutdown-Escalates_example = cinit_shutdown-Escalates os st

abbrev all_succeed : ChildStep → Bool
all_succeed step = true

child-IsChildEnd_example :
    IsChildEnd all_succeed true app []
      (child all_succeed true [] app).0
      (child all_succeed true [] app).1
child-IsChildEnd_example = child-IsChildEnd all_succeed true [] app

child_steps-IsOrdered_example : IsOrdered (child_steps app)
child_steps-IsOrdered_example = child_steps-IsOrdered app

abbrev hourly : Service
hourly = record app { interval = 3600 }

-- An hour after the start of an hourly service.
abbrev hour_later : State
hour_later = record st { ctx = record st.ctx { services = hourly ∷ [] } }

abbrev hour_os : Os
hour_os = record os { clock = λ n. 3600000 + n }

run_interval-AfterInterval_example :
    AfterInterval hour_os 0 hour_later (run_interval hour_os 0 hour_later)
run_interval-AfterInterval_example =
    run_interval-AfterInterval hour_os 0 hour_later (omega arith) (omega arith)

start_services-IsReported_example : IsReported (start_services os st)
start_services-IsReported_example = start_services-IsReported os st

abbrev answers : List Waited
answers = interrupted ∷ terminated (exited 0) ∷ []

-- The service runs already, and is waited for.
abbrev synced : State
synced = record st {
  ctx = record st.ctx { services = record app { sync = true } ∷ [] };
  waits = answers;
}

runs_already : start_service os 0 synced ≡ (synced, ok tt)
unfolding start_service
runs_already = refl

start_in_order-Proceeds_example :
    Proceeds os 0 [] answers (start_and_wait os 0 synced) (start_in_order os (some 0 ∷ []) synced)
start_in_order-Proceeds_example =
    start_in_order-Proceeds os 0 [] synced synced refl refl runs_already refl

-- A second after its start, the service that does not run is asked to restart.
abbrev asked : State
asked = record st {
  ctx = record st.ctx {
    services = app ∷ record cleared { name = codes "nginx"; restart_requested = true } ∷ [];
  };
}

abbrev late_os : Os
late_os = record os { clock = λ n. 1000 + n }

run_restart-AfterRestart_example : AfterRestart late_os 1 asked (run_restart late_os 1 asked)
run_restart-AfterRestart_example = run_restart-AfterRestart late_os 1 asked (omega arith)
