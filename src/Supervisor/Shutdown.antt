-- ===== src/Supervisor/Shutdown.antt =====
-- The signals of `cinit_shutdown`.
use docker_baseimage.Base.{
  ◌⊎◌, inl, inr, Bool, true, false, List, [], ◌∷◌, none, some, if◌then◌else◌,
}
use docker_baseimage.Process.{Event, signal_to_all, Os, State, emit}
use docker_baseimage.Supervisor.{
  sigterm, sigkill, child_handler, stop_all, kill_all, terminate_all, cinit_shutdown, reverse_onto,
  period_of,
}
use docker_baseimage.Supervisor.Quiet.{
  Quietly, Quietly-trans, child_handler-Quietly, stop_all-Quietly,
}

-- The events of a shutdown: none is a signal to every process, or one SIGTERM, or one SIGTERM and
-- then one SIGKILL. The latest event comes first.
abbrev pub Escalates : List Event → List Event → Type 0
Escalates before after =
    Quietly before after
    ⊎ ((m : List Event) × Quietly before m × Quietly (signal_to_all sigterm ∷ m) after)
    ⊎ ((m : List Event) × (n : List Event) × Quietly before m
        × Quietly (signal_to_all sigterm ∷ m) n
        × Quietly (signal_to_all sigkill ∷ n) after)

module _ (os : Os) where
  Escalates-if :
      (before : List Event) (b : Bool) (x y : State)
      → Escalates before x.events
      → Escalates before y.events
      → Escalates before (if b then x else y).events
  Escalates-if before true x y hx hy = hx
  Escalates-if before false x y hx hy = hy

  terminate_all-Escalates :
      (before : List Event) (st : State)
      → Quietly before st.events
      → Escalates before (terminate_all os st).events
  unfolding terminate_all kill_all
  terminate_all-Escalates before st h =
      let polled = child_handler os (some 0) none st in
      let asked = emit (signal_to_all sigterm) polled.0 in
      let waited = child_handler os (period_of polled.0.ctx.services_gracetime) none asked in
      let forced = emit (signal_to_all sigkill) waited.0 in
      let first =
        Quietly-trans before st.events polled.0.events h
          (child_handler-Quietly os (some 0) none st) in
      let second =
        child_handler-Quietly os (period_of polled.0.ctx.services_gracetime) none asked in
      Escalates-if before polled.1 polled.0 (if waited.1 then waited.0 else kill_all os waited.0)
        (inl first)
        (Escalates-if before waited.1 waited.0 (kill_all os waited.0)
          (inr (inl (polled.0.events, first, second)))
          (inr (
            inr (
              polled.0.events,
              waited.0.events,
              first,
              second,
              child_handler-Quietly os none none forced,
            ))))

  -- A shutdown sends no signal to every process, or one SIGTERM, or one SIGTERM and later one
  -- SIGKILL.
  pub cinit_shutdown-Escalates : (st : State) → Escalates st.events (cinit_shutdown os st).events
  unfolding cinit_shutdown
  cinit_shutdown-Escalates st =
      let stopped = stop_all os (reverse_onto st.ctx.start_order []) st in
      let quiet = stop_all-Quietly os (reverse_onto st.ctx.start_order []) st in
      Escalates-if st.events stopped.1 stopped.0 (terminate_all os stopped.0) (inl quiet)
        (terminate_all-Escalates st.events stopped.0 quiet)
