-- ===== src/MainLoop/Restarts.antt =====
-- What the main loop makes of a service that is to be started again.
use docker_baseimage.Base.{
  ℕ, ◌<◌, ◌≡◌, ◌≢◌, refl, sym, ap, ◌∙◌, ◌⊎◌, inl, inr, Bool, true, false, ltb, length, get_or,
  get_or-set_self, List, [], ◌∷◌, zero, suc, Bool-cases, arith,
}
use docker_baseimage.Exception.{Result, ok, throw, Message}
use docker_baseimage.Service.{Service, cleared}
use docker_baseimage.Process.{Os, State, tick, service_at, put_service, elapsed}
use docker_baseimage.Supervisor.{start_service}
use docker_baseimage.Supervisor.Start.{
  AfterStart, was_started, no_directory, now_started, without_logger, not_forked,
  start_service-AfterStart,
}
use docker_baseimage.MainLoop.{awaits_restart, restart_delay, restarted, run_restart}

abbrev pub is_delay_over : Os → State → ℕ → Bool
is_delay_over os st sid =
    ltb restart_delay (elapsed (os.clock st.calls) (service_at st sid).start_time)

-- The outcomes for one service.
pub data AfterRestart (os : Os) (sid : ℕ) (st after : State) : Type 0 where
  left_alone :
      (awaits_restart (service_at st sid) ≡ false) ⊎ (is_delay_over os st sid ≡ false)
      → service_at after sid ≡ service_at st sid
      → AfterRestart os sid st after
  runs_again :
      awaits_restart (service_at st sid) ≡ true
      → is_delay_over os st sid ≡ true
      → (service_at after sid).pid ≢ 0
      → (service_at after sid).logger_started ≡ true
      → (service_at after sid).restart_requested ≡ false
      → AfterRestart os sid st after
  start_failed :
      (e : Message)
      → awaits_restart (service_at st sid) ≡ true
      → is_delay_over os st sid ≡ true
      → start_service os sid (tick st) ≡ (after, throw e)
      → AfterRestart os sid st after

in_table : (ss : List Service) (sid : ℕ) → (get_or ss sid cleared).pid ≢ 0 → sid < length ss
in_table [] sid h = absurd (h refl)
in_table (s ∷ ss) zero h = omega arith
in_table (s ∷ ss) (suc sid) h = omega (arith, in_table ss sid h)

-- A service without a process has one and a logger after a start that succeeds.
ok-AfterStart :
    (os : Os) (sid : ℕ) (st after : State) (u : Unit {0})
    → AfterStart os sid st after (ok u)
    → (service_at st sid).pid ≡ 0
    → ((service_at after sid).pid ≢ 0) × ((service_at after sid).logger_started ≡ true)
ok-AfterStart os sid st after u (was_started runs same r) idle = absurd (runs idle)
ok-AfterStart os sid st after u (no_directory p no_dir same r) idle = cc
ok-AfterStart os sid st after u (now_started can r runs logged) idle = (runs, logged)
ok-AfterStart os sid st after u (without_logger can (inl r) runs) idle = cc
ok-AfterStart os sid st after u (without_logger can (inr r) runs) idle = cc
ok-AfterStart os sid st after u (not_forked can fails r p) idle = cc

restarted-AfterRestart :
    (os : Os) (sid : ℕ) (st : State) (r : State × Result (Unit {0}))
    → awaits_restart (service_at st sid) ≡ true
    → is_delay_over os st sid ≡ true
    → start_service os sid (tick st) ≡ r
    → AfterStart os sid (tick st) r.0 r.1
    → AfterRestart os sid st (restarted sid r)
restarted-AfterRestart os sid st (after, throw e) awaits over same h =
    start_failed e awaits over same
restarted-AfterRestart os sid st (after, ok u) awaits over same h =
    let idle : (service_at st sid).pid ≡ 0 = ground (arith, awaits) in
    let (runs, logged) = ok-AfterStart os sid (tick st) after u h idle in
    let s' = record (service_at after sid) { restart_requested = false } in
    let at : service_at (put_service after sid s') sid ≡ s' =
      get_or-set_self after.ctx.services sid s' cleared (in_table after.ctx.services sid runs) in
    runs_again awaits over (λ e. runs (sym (ap (λ (v : Service). v.pid) at) ∙ e))
      (ap (λ (v : Service). v.logger_started) at ∙ logged)
      (ap (λ (v : Service). v.restart_requested) at)

-- What an iteration of the main loop makes of a service of the table. One that has no process, and
-- that respawns or was asked to restart, is started as soon as more than 500 ms have gone by since its
-- last start: then it has a process and a logger, and the request is cleared; or its start failed, and
-- the state is the one that this start left. Any other service is left alone.
pub run_restart-AfterRestart :
    (os : Os) (sid : ℕ) (st : State)
    → sid < length st.ctx.services
    → AfterRestart os sid st (run_restart os sid st)
unfolding run_restart
run_restart-AfterRestart os sid st in_range =
    elim (Bool-cases (awaits_restart (service_at st sid))) [
      | inr not_awaited ↦ rw not_awaited (left_alone (inl not_awaited) refl)
      | inl awaits ↦ elim (Bool-cases (is_delay_over os st sid)) [
        | inr early ↦ rw (awaits, early) (left_alone (inr early) refl)
        | inl over ↦
            rw (awaits, over)
              (restarted-AfterRestart os sid st (start_service os sid (tick st)) awaits over refl
                (start_service-AfterStart os sid (tick st) in_range))
      ]
    ]
