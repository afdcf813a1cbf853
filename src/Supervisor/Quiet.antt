-- ===== src/Supervisor/Quiet.antt =====
-- What sends no signal to every process.
use docker_baseimage.Base.{
  ℕ, suc, ◌≡◌, refl, sym, ap, ◌∙◌, Bool, true, false, not, ◌&&◌, ◌||◌, List, [], ◌∷◌, ◌++◌,
  append_assoc, Option, none, some, ◌==◌, if◌then◌else◌, All, All-append,
}
use docker_baseimage.Text.{codes}
use docker_baseimage.Exception.{Result, ok, throw, service_not_found}
use docker_baseimage.Service.{find_service_by_pid}
use docker_baseimage.Process.{
  ExitStatus, Reaped, no_child, no_change, killed, Event, forked, closed, slept, signal_sent,
  signal_to_all, command_run, logger_created, logger_joined, Os, State, tick, emit, service_at,
  put_service, close_fd, shutdown_requested, elapsed,
}
use docker_baseimage.Supervisor.{
  sigterm, Period, is_over, is_reaped, code_or, join_logger, close_output, release, run_finish,
  request_if, request_by_service, handle_ended, handle_killed, reap, child_handler, stop_service,
  stop_all, exec_service_cmd,
}

-- A signal to every process.
abbrev pub IsQuiet : Event → Type 0
IsQuiet (signal_to_all signal) = ⊥
IsQuiet (forked sid pid) = Unit
IsQuiet (closed fd) = Unit
IsQuiet (slept time) = Unit
IsQuiet (signal_sent pid signal) = Unit
IsQuiet (command_run sid file argument) = Unit
IsQuiet (logger_created sid) = Unit
IsQuiet (logger_joined sid) = Unit

-- The second events are the first ones and later ones without a signal to every process.
abbrev pub Quietly : List Event → List Event → Type 0
Quietly before after = (new : List Event) × (after ≡ new ++ before) × All IsQuiet new

Quietly-refl : (l : List Event) → Quietly l l
Quietly-refl l = ([], refl, tt)

Quietly-cons : (e : Event) (l m : List Event) → IsQuiet e → Quietly l m → Quietly l (e ∷ m)
Quietly-cons e l m h (new, eq, q) = (e ∷ new, ap (◌∷◌ e) eq, (h, q))

pub Quietly-trans : (l m n : List Event) → Quietly l m → Quietly m n → Quietly l n
Quietly-trans l m n (a, e, p) (b, f, q) =
    (b ++ a, f ∙ ap (◌++◌ b) e ∙ sym (append_assoc b a l), All-append IsQuiet b a q p)

close_fd-Quietly : (fd : Option ℕ) (st : State) → Quietly st.events (close_fd fd st).events
close_fd-Quietly none st = Quietly-refl st.events
close_fd-Quietly (some fd) st =
    Quietly-cons (closed fd) st.events st.events tt (Quietly-refl st.events)

close_output-Quietly : (sid : ℕ) (st : State) → Quietly st.events (close_output sid st).events
close_output-Quietly sid st = close_fd-Quietly (service_at st sid).output_fd st

join_logger-Quietly :
    (sid : ℕ) (b : Bool) (st : State) → Quietly st.events (join_logger sid b st).events
join_logger-Quietly sid true st =
    Quietly-cons (logger_joined sid) st.events st.events tt (Quietly-refl st.events)
join_logger-Quietly sid false st = Quietly-refl st.events

release-Quietly : (sid : ℕ) (st : State) → Quietly st.events (release sid st).events
unfolding release
release-Quietly sid st =
    let s = service_at st sid in
    let st' = join_logger sid s.logger_started (put_service st sid (record s { pid = 0 })) in
    Quietly-trans st.events st'.events (close_output sid st').events
      (join_logger-Quietly sid s.logger_started (put_service st sid (record s { pid = 0 })))
      (close_output-Quietly sid st')

request_if-Quietly :
    (b : Bool) (code : ℕ) (st : State) → Quietly st.events (request_if b code st).events
unfolding request_if
request_if-Quietly true code st = Quietly-refl st.events
request_if-Quietly false code st = Quietly-refl st.events

if-Quietly :
    {A : Type 0} (l : List Event) (b : Bool) (x y : State × A)
    → Quietly l x.0.events
    → Quietly l y.0.events
    → Quietly l (if b then x else y).0.events
if-Quietly l true x y hx hy = hx
if-Quietly l false x y hx hy = hy

module _ (os : Os) where
  run_finish-Quietly :
      (sid : ℕ) (status : ExitStatus) (st : State)
      → Quietly st.events (run_finish os sid status st).events
  unfolding run_finish
  run_finish-Quietly sid status st =
      elim (os.chdir (service_at st sid).name
          && os.executable (service_at st sid).name (codes "finish"))
        as (λ b.
          Quietly st.events
            (if b
              then exec_service_cmd sid (codes "finish") (code_or 126 status) st
              else st).events) [
                | true ↦
                    Quietly-cons (command_run sid (codes "finish") (code_or 126 status)) st.events
                      st.events tt (Quietly-refl st.events)
                | false ↦ Quietly-refl st.events
              ]

  handle_ended-Quietly :
      (status : ExitStatus) (o : Option ℕ) (st : State)
      → Quietly st.events (handle_ended os status o st).events
  unfolding handle_ended request_by_service
  handle_ended-Quietly status none st = Quietly-refl st.events
  handle_ended-Quietly status (some sid) st =
      let st1 = release sid st in
      let st2 = run_finish os sid status st1 in
      let s = service_at st2 sid in
      let b =
        not (shutdown_requested os st2) && (not s.restart_requested && s.shutdown_on_terminate) in
      Quietly-trans st.events st2.events (request_if b (code_or 1 status) st2).events
        (Quietly-trans st.events st1.events st2.events (release-Quietly sid st)
          (run_finish-Quietly sid status st1))
        (request_if-Quietly b (code_or 1 status) st2)

  handle_killed-Quietly :
      (r : Reaped) (st : State) → Quietly st.events (handle_killed os r st).events
  unfolding handle_killed
  handle_killed-Quietly no_child st = Quietly-refl st.events
  handle_killed-Quietly no_change st = Quietly-refl st.events
  handle_killed-Quietly (killed pid status) st =
      handle_ended-Quietly status (find_service_by_pid st.ctx.services pid) st

  reap-Quietly :
      (period : Period) (service : Option ℕ) (now : ℕ) (answers : List Reaped) (st : State)
      → Quietly st.events (reap os period service now answers st).0.events
  unfolding reap
  reap-Quietly period service now [] st = Quietly-refl st.events
  reap-Quietly period service now (no_child ∷ answers) st = Quietly-refl st.events
  reap-Quietly period service now (killed pid status ∷ answers) st =
      let st' = handle_killed os (killed pid status) (tick st) in
      Quietly-trans st.events st'.events (reap os period service now answers st').0.events
        (handle_killed-Quietly (killed pid status) (tick st))
        (reap-Quietly period service now answers st')
  reap-Quietly period service now (no_change ∷ answers) st =
      let st' = tick (tick st) in
      let stopped : State × Bool = (record st' { reaps = answers }, false) in
      let again = reap os period service now answers (emit (slept 50) st') in
      let later =
        Quietly-trans st.events (slept 50 ∷ st.events) again.0.events
          (Quietly-cons (slept 50) st.events st.events tt (Quietly-refl st.events))
          (reap-Quietly period service now answers (emit (slept 50) st')) in
      if-Quietly st.events (is_over period (elapsed (os.clock (suc st.calls)) now)) stopped
        (if is_reaped service no_change st' then stopped else again) (Quietly-refl st.events)
        (if-Quietly st.events (is_reaped service no_change st') stopped again
          (Quietly-refl st.events) later)

  pub child_handler-Quietly :
      (period : Period) (service : Option ℕ) (st : State)
      → Quietly st.events (child_handler os period service st).0.events
  unfolding child_handler
  child_handler-Quietly period service st =
      reap-Quietly period service (os.clock st.calls) st.reaps (tick st)

  stop_service-Quietly :
      (sid : ℕ) (st : State) → Quietly st.events (stop_service os sid st).0.events
  unfolding stop_service
  stop_service-Quietly sid st =
      let s = service_at st sid in
      let run = exec_service_cmd sid (codes "kill") s.pid st in
      let st' = if os.executable s.name (codes "kill") then run else st in
      let ran : Quietly st.events st'.events =
        elim (os.executable s.name (codes "kill"))
          as (λ b. Quietly st.events (if b then run else st).events) [
            | true ↦
                Quietly-cons (command_run sid (codes "kill") s.pid) st.events st.events tt
                  (Quietly-refl st.events)
            | false ↦ Quietly-refl st.events
          ] in
      let signal = signal_sent (service_at st' sid).pid sigterm in
      let failed : State × Result (Unit {0}) = (st, throw service_not_found) in
      let asked : State × Result (Unit {0}) = (emit signal st', ok tt) in
      if-Quietly st.events (s.pid == 0) (st, ok tt)
        (if not (os.chdir s.name) then failed else asked) (Quietly-refl st.events)
        (if-Quietly st.events (not (os.chdir s.name)) failed asked (Quietly-refl st.events)
          (Quietly-cons signal st.events st'.events tt ran))

  pub stop_all-Quietly :
      (places : List (Option ℕ)) (st : State) → Quietly st.events (stop_all os places st).0.events
  unfolding stop_all
  stop_all-Quietly [] st = Quietly-refl st.events
  stop_all-Quietly (none ∷ places) st = stop_all-Quietly places st
  stop_all-Quietly (some sid ∷ places) st =
      let s = service_at st sid in
      let asked = (stop_service os sid st).0 in
      let reaped = child_handler os (some 250) (some sid) asked in
      let skipped = stop_all os places st in
      let next = stop_all os places reaped.0 in
      let one =
        Quietly-trans st.events asked.events reaped.0.events (stop_service-Quietly sid st)
          (child_handler-Quietly (some 250) (some sid) asked) in
      if-Quietly st.events (s.is_service_group || s.pid == 0) skipped
        (if reaped.1 then (reaped.0, true) else next) (stop_all-Quietly places st)
        (if-Quietly st.events reaped.1 (reaped.0, true) next one
          (Quietly-trans st.events reaped.0.events next.0.events one
            (stop_all-Quietly places reaped.0)))
