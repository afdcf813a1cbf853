-- ===== src/Init/Ending.antt =====
-- How `main` ends: through a shutdown that was requested, and with 1 where the services do not come up.
use docker_baseimage.Base.{
  ℕ, ◌≡◌, refl, ap, ◌∙◌, ◌⊎◌, inl, inr, Bool, true, false, List, ◌∷◌, Option, some, if◌then◌else◌,
  Bool-cases, arith,
}
use docker_baseimage.Exception.{Result, ok, throw, Message}
use docker_baseimage.Deps.{Walk, Walked}
use docker_baseimage.Process.{State, shutdown_requested, request_shutdown}
use docker_baseimage.Supervisor.Shutdown.{Escalates, cinit_shutdown-Escalates}
use docker_baseimage.Startup.{start_services}
use docker_baseimage.MainLoop.{Next, paused, shut_down, aborted, main_loop, final_status, finish}
use docker_baseimage.MainLoop.Exit.{IsRequested, main_loop-IsRequested, main_loop_requested}
use docker_baseimage.Arguments.{Setup}
use docker_baseimage.Init.{
  Env, End, refused, no_fifo, main_aborted, main_running, exit_run, main_exited, configure,
  is_fifo_ready, initial_state, load_default, is_assertion, caught, services_started, bring_up,
  cinit_exit, after_loop, serve, after_setup, run_main,
}

-- The services do not come up: the load throws, or the start does. `st` is the state then.
abbrev pub FailsToStart : Env → Setup → State → Type 0
FailsToStart env s st =
    ((e : Message) × (w : Walk) × (load_default env s ≡ (w, throw e))
      × (is_assertion e ≡ false)
      × (initial_state env w.ctx ≡ st))
    ⊎ ((w : Walk) × (load_default env s ≡ (w, ok tt))
        × (e : Message) × (start_services env.os (initial_state env w.ctx) ≡ (st, throw e)))

-- How the start-up ended, with the state that the main loop begins with and the status that main keeps:
-- the services are loaded and started, or they did not come up and a shutdown is requested.
abbrev pub CameUp : Env → Setup → State → Type 0
CameUp env s begun =
    (w : Walk) × (load_default env s ≡ (w, ok tt))
    × (start_services env.os (initial_state env w.ctx) ≡ (begun, ok tt))

abbrev pub StartsUp : Env → Setup → State → ℕ → Type 0
StartsUp env s begun exit_status =
    (CameUp env s begun × (exit_status ≡ 0))
    ⊎ ((st : State) × FailsToStart env s st × (begun ≡ request_shutdown st) × (exit_status ≡ 1))

-- An exit with the status, in the state.
pub record EndsDown (env : Env) (status : ℕ) (st : State) : Type 0 where
  pub setup : Setup
  pub configured : configure env ≡ ok setup
  pub ready : is_fifo_ready env ≡ true
  pub begun : State
  pub exit_status : ℕ
  pub starts_up : StartsUp env setup begun exit_status
  pub left : State
  pub loop_left : main_loop env.os env.commands begun ≡ (left, shut_down)
  pub requested : shutdown_requested env.os left ≡ true
  pub ended : finish env.os exit_status left ≡ (st, status)
  pub escalates : Escalates left.events st.events
  pub of_services : exit_status ≡ 0 → status ≡ left.ctx.exit_code
  pub of_start : exit_status ≡ 1 → status ≡ 1

abbrev pub IsOrderly : Env → End → Type 0
IsOrderly env (refused e) = configure env ≡ throw e
IsOrderly env no_fifo = is_fifo_ready env ≡ false
IsOrderly env main_aborted = Unit {0}
IsOrderly env (main_running st) = Unit {0}
IsOrderly env (exit_run status st) = EndsDown env status st × (env.exit_script ≡ true)
IsOrderly env (main_exited status st) = EndsDown env status st × (env.exit_script ≡ false)

cinit_exit-IsOrderly :
    (env : Env) (status : ℕ) (st : State) (script : Bool)
    → env.exit_script ≡ script
    → EndsDown env status st
    → IsOrderly env (if script then exit_run status st else main_exited status st)
cinit_exit-IsOrderly env status st true e h = (h, e)
cinit_exit-IsOrderly env status st false e h = (h, e)

final_status-services :
    (exit_status code : ℕ) → exit_status ≡ 0 → final_status exit_status code ≡ code
final_status-services exit_status code e = ground (arith, e)

final_status-start : (exit_status code : ℕ) → exit_status ≡ 1 → final_status exit_status code ≡ 1
final_status-start exit_status code e = ground (arith, e)

module _ (env : Env) (s : Setup) (configured : configure env ≡ ok s)
    (ready : is_fifo_ready env ≡ true) where
  after_loop-IsOrderly :
      (begun : State) (exit_status : ℕ) (r : State × Next)
      → StartsUp env s begun exit_status
      → main_loop env.os env.commands begun ≡ r
      → IsRequested env.os r
      → IsOrderly env (after_loop env exit_status r)
  unfolding after_loop finish
  after_loop-IsOrderly begun exit_status (st, paused) up e h = tt
  after_loop-IsOrderly begun exit_status (st, aborted) up e h = tt
  after_loop-IsOrderly begun exit_status (st, shut_down) up e h =
      let (st', status) = finish env.os exit_status st in
      cinit_exit-IsOrderly env status st' env.exit_script refl (record {
        setup = s;
        configured = configured;
        ready = ready;
        begun = begun;
        exit_status = exit_status;
        starts_up = up;
        left = st;
        loop_left = e;
        requested = h;
        ended = refl;
        escalates = cinit_shutdown-Escalates env.os st;
        of_services = final_status-services exit_status st.ctx.exit_code;
        of_start = final_status-start exit_status st.ctx.exit_code;
      })

  serve-IsOrderly :
      (begun : State) (exit_status : ℕ)
      → StartsUp env s begun exit_status
      → IsOrderly env (serve env (some (begun, exit_status)))
  unfolding serve
  serve-IsOrderly begun exit_status up =
      after_loop-IsOrderly begun exit_status (main_loop env.os env.commands begun) up refl
        (main_loop-IsRequested env.os env.commands begun)

  started-IsOrderly :
      (w : Walk) (r : State × Result (Unit {0}))
      → load_default env s ≡ (w, ok tt)
      → start_services env.os (initial_state env w.ctx) ≡ r
      → IsOrderly env (serve env (some (services_started r)))
  started-IsOrderly w (st, ok u) loaded e = serve-IsOrderly st 0 (inl ((w, loaded, e), refl))
  started-IsOrderly w (st, throw m) loaded e =
      serve-IsOrderly (request_shutdown st) 1 (inr (st, inr (w, loaded, m, e), refl, refl))

  bring_up-IsOrderly :
      (r : Walked) → load_default env s ≡ r → IsOrderly env (serve env (bring_up env r))
  unfolding bring_up serve
  bring_up-IsOrderly (w, ok u) loaded =
      started-IsOrderly w (start_services env.os (initial_state env w.ctx)) loaded refl
  bring_up-IsOrderly (w, throw e) thrown = elim (Bool-cases (is_assertion e)) [
    | inl assertion ↦ rw assertion tt
    | inr other ↦
        let st = initial_state env w.ctx in
        rw other (
          serve-IsOrderly (request_shutdown st) 1
            (inr (st, inl (e, w, thrown, other, refl), refl, refl)))
  ]

after_setup-IsOrderly :
    (env : Env) (r : Result Setup) → configure env ≡ r → IsOrderly env (after_setup env r)
after_setup-IsOrderly env (throw e) configured = configured
after_setup-IsOrderly env (ok s) configured = elim (Bool-cases (is_fifo_ready env)) [
  | inl ready ↦ rw ready (bring_up-IsOrderly env s configured ready (load_default env s) refl)
  | inr not_ready ↦ rw not_ready not_ready
]

-- Wherever cinit exits with the status of its services: the command line was accepted and the named pipe
-- was ready; the main loop began with the state that the start-up gave, and was left with a shutdown
-- requested; the shutdown was made on the state that it left (with one SIGTERM and then one SIGKILL to
-- all processes at most); and the status is 1 where the load or the start of the services failed, and the
-- exit code that a service left, or 0, where they came up. The root's program 'exit' is run exactly where
-- there is one. Where main returns before, it is with the message of the command line's failure, or because
-- the named pipe is not ready.
pub run_main-IsOrderly : (env : Env) → IsOrderly env (run_main env)
unfolding run_main
run_main-IsOrderly env = after_setup-IsOrderly env (configure env) refl

bring_up-failed :
    (env : Env) (s : Setup) (st : State)
    → FailsToStart env s st
    → bring_up env (load_default env s) ≡ some (caught st)
unfolding bring_up
bring_up-failed env s st (inl (e, w, thrown, not_assertion, same)) =
    rw (thrown, not_assertion) (ap (λ v. some (caught v)) same)
bring_up-failed env s st (inr (w, loaded, e, thrown)) = rw (loaded, thrown) refl

serve-caught :
    (env : Env) (st : State) (command : Option (List ℕ)) (commands : List (Option (List ℕ)))
    → env.commands ≡ command ∷ commands
    → serve env (some (caught st)) ≡ cinit_exit env (finish env.os 1 (request_shutdown st))
unfolding serve after_loop
serve-caught env st command commands e =
    ap (λ c. after_loop env 1 (main_loop env.os c (request_shutdown st))) e
    ∙ ap (after_loop env 1) (main_loop_requested env.os command commands (request_shutdown st) refl)

-- Where the services cannot be loaded, or one whose failure is not ignored cannot be started, cinit
-- goes from there to the shutdown of what was started, at once: no command of the named pipe is run and
-- no service is started again, and it exits with 1.
pub run_main-failed :
    (env : Env) (s : Setup) (st : State) (command : Option (List ℕ))
    (commands : List (Option (List ℕ)))
    → configure env ≡ ok s
    → is_fifo_ready env ≡ true
    → FailsToStart env s st
    → env.commands ≡ command ∷ commands
    → (run_main env ≡ cinit_exit env ((finish env.os 1 (request_shutdown st)).0, 1))
unfolding run_main finish
run_main-failed env s st command commands configured ready fails cs =
    rw (configured, ready, bring_up-failed env s st fails) (serve-caught env st command commands cs)
