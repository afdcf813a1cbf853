-- ===== src/MainLoop/Intervals.antt =====
-- What the main loop makes of a service with an interval.
use docker_baseimage.Base.{
  ℕ, suc, ◌*◌, ◌<◌, ◌≤◌, ◌≡◌, ◌≢◌, refl, ◌⊎◌, inl, inr, ltb, length, get_or-set_self, Bool-cases,
  arith,
}
use docker_baseimage.Exception.{Result}
use docker_baseimage.Service.{cleared}
use docker_baseimage.Process.{Os, State, tick, service_at, elapsed}
use docker_baseimage.Supervisor.{start_service}
use docker_baseimage.Supervisor.Start.{AfterStart, start_service-AfterStart}
use docker_baseimage.MainLoop.{is_due, run_interval}
use docker_baseimage.MainLoop.Exit.{is_due_exact}

-- The time since the service was started last, in milliseconds.
abbrev pub run_time : Os → ℕ → State → ℕ
run_time os sid st = elapsed (os.clock st.calls) (service_at st sid).start_time

-- The outcomes for one service, with their conditions.
pub data AfterInterval (os : Os) (sid : ℕ) (st after : State) : Type 0 where
  not_due :
      ((service_at st sid).interval ≡ 0)
        ⊎ (run_time os sid st < (service_at st sid).interval * 1000)
      → (after ≡ st) ⊎ (after ≡ tick st)
      → AfterInterval os sid st after
  still_running :
      0 < (service_at st sid).interval
      → (service_at st sid).interval * 1000 ≤ run_time os sid st
      → (service_at st sid).pid ≢ 0
      → service_at after sid ≡ record (service_at st sid) { start_time = os.clock (suc st.calls) }
      → AfterInterval os sid st after
  started_again :
      (r : Result (Unit {0}))
      → 0 < (service_at st sid).interval
      → (service_at st sid).interval * 1000 ≤ run_time os sid st
      → (service_at st sid).pid ≡ 0
      → start_service os sid (tick st) ≡ (after, r)
      → AfterStart os sid (tick st) after r
      → AfterInterval os sid st after

-- What an iteration of the main loop makes of a service of the table, with an interval of at most
-- 4294967 seconds, which does not wrap in milliseconds. Where it has no interval, or not the whole of it
-- has passed since the service's last start, nothing but the time is read. Else a service whose process
-- still runs only gets the present time as that of its start, and one without a process is started again,
-- with the outcomes of a start.
pub run_interval-AfterInterval :
    (os : Os) (sid : ℕ) (st : State)
    → sid < length st.ctx.services
    → (service_at st sid).interval < 4294968
    → AfterInterval os sid st (run_interval os sid st)
unfolding run_interval
run_interval-AfterInterval os sid st in_range fits =
    let s = service_at st sid in
    let exact = is_due_exact s (run_time os sid st) fits in
    elim (Bool-cases (ltb 0 s.interval)) [
      | inr no_interval ↦ rw no_interval (not_due (inl (ground (arith, no_interval))) (inl refl))
      | inl has_interval ↦
          let positive : 0 < s.interval = ground (arith, has_interval) in
          elim (Bool-cases (is_due s (run_time os sid st))) [
            | inr early ↦
                rw (has_interval, early) (not_due (inr (ground (arith, exact, early))) (inr refl))
            | inl due ↦
                let over : s.interval * 1000 ≤ run_time os sid st = ground (arith, exact, due) in
                elim (Bool-cases (ltb 0 s.pid)) [
                  | inl runs ↦
                      rw (has_interval, due, runs)
                        (still_running positive over (λ e. ground (arith, runs, e))
                          (get_or-set_self st.ctx.services sid
                            (record s { start_time = os.clock (suc st.calls) }) cleared in_range))
                  | inr idle ↦
                      rw (has_interval, due, idle)
                        (started_again (start_service os sid (tick st)).1 positive over
                          (ground (arith, idle)) refl
                          (start_service-AfterStart os sid (tick st) in_range))
                ]
          ]
    ]
