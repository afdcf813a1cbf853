-- ===== src/Supervisor/Killed.antt =====
-- What `handle_killed` does with a service that ended.
use docker_baseimage.Base.{
  ℕ, ◌<◌, ◌≡◌, refl, ap, ◌∙◌, inl, inr, Bool, true, false, not, ◌&&◌, ◌||◌, List, Option, none,
  some, if◌then◌else◌, length, set, set-set, get_or, get_or-set_self, Bool-cases,
}
use docker_baseimage.Text.{codes}
use docker_baseimage.Service.{Service, Context, cleared, find_service_by_pid}
use docker_baseimage.Process.{
  ExitStatus, killed, Os, State, service_at, put_service, shutdown_requested, close_fd,
}
use docker_baseimage.Supervisor.{
  code_or, join_logger, close_output, release, run_finish, request_if, request_by_service,
  handle_ended, handle_killed,
}

-- A service whose process ended has no process, no logger and no descriptor; its other settings
-- are as before.
abbrev pub ended : Bool → Service → Service
ended true s = record s { pid = 0; logger_exit = true; logger_started = false; output_fd = none }
ended false s = record s { pid = 0; logger_started = false; output_fd = none }

close_fd-ctx : (fd : Option ℕ) (st : State) → (close_fd fd st).ctx ≡ st.ctx
close_fd-ctx none st = refl
close_fd-ctx (some fd) st = refl

-- Two assignments to one entry, the second of which reads the first.
set-update :
    (ss : List Service) (i : ℕ) (s : Service) (f : Service → Service)
    → i < length ss
    → set (set ss i s) i (f (get_or (set ss i s) i cleared)) ≡ set ss i (f s)
set-update ss i s f h =
    ap (λ t. set (set ss i s) i (f t)) (get_or-set_self ss i s cleared h) ∙ set-set ss i s (f s)

abbrev without_logger : Service → Service
without_logger s = record s { logger_exit = true; logger_started = false }

abbrev without_fd : Service → Service
without_fd s = record s { output_fd = none }

close_output-services :
    (sid : ℕ) (st : State)
    → (close_output sid st).ctx.services ≡ set st.ctx.services sid (without_fd (service_at st sid))
close_output-services sid st =
    let s = service_at st sid in
    ap (λ (c : Context). set c.services sid (without_fd s)) (close_fd-ctx s.output_fd st)

module _ (sid : ℕ) (st : State) (in_range : sid < length st.ctx.services) where
  release_at :
      (b : Bool)
      → (service_at st sid).logger_started ≡ b
      → (close_output sid (
          join_logger sid b
            (put_service st sid (record (service_at st sid) { pid = 0 })))).ctx.services
        ≡ set st.ctx.services sid (ended b (service_at st sid))
  release_at true e =
      let s0 = record (service_at st sid) { pid = 0 } in
      let st0 = put_service st sid s0 in
      close_output-services sid (join_logger sid true st0)
      ∙ ap (λ X. set X sid (without_fd (get_or X sid cleared)))
          (set-update st.ctx.services sid s0 without_logger in_range)
      ∙ set-update st.ctx.services sid (without_logger s0) without_fd in_range
  release_at false e =
      let s = service_at st sid in
      close_output-services sid (put_service st sid (record s { pid = 0 }))
      ∙ set-update st.ctx.services sid (record s { pid = 0 }) without_fd in_range
      ∙ ap
          (λ b.
            set st.ctx.services sid (record s { pid = 0; logger_started = b; output_fd = none }))
          e

  release-services :
      (release sid st).ctx.services
      ≡ set st.ctx.services sid (ended (service_at st sid).logger_started (service_at st sid))
  unfolding release
  release-services = release_at (service_at st sid).logger_started refl

close_fd-flag : (fd : Option ℕ) (st : State) → (close_fd fd st).do_shutdown ≡ st.do_shutdown
close_fd-flag none st = refl
close_fd-flag (some fd) st = refl

join_logger-rest :
    (sid : ℕ) (b : Bool) (st : State)
    → ((join_logger sid b st).do_shutdown ≡ st.do_shutdown)
      × ((join_logger sid b st).ctx.exit_code ≡ st.ctx.exit_code)
join_logger-rest sid true st = (refl, refl)
join_logger-rest sid false st = (refl, refl)

release-rest :
    (sid : ℕ) (st : State)
    → ((release sid st).do_shutdown ≡ st.do_shutdown)
      × ((release sid st).ctx.exit_code ≡ st.ctx.exit_code)
unfolding release
release-rest sid st =
    let s = service_at st sid in
    let st1 = put_service st sid (record s { pid = 0 }) in
    let st2 = join_logger sid s.logger_started st1 in
    let s2 = service_at st2 sid in
    let joined = join_logger-rest sid s.logger_started st1 in
    (
      close_fd-flag s2.output_fd st2 ∙ joined.0,
      ap (λ (c : Context). c.exit_code) (close_fd-ctx s2.output_fd st2) ∙ joined.1,
    )

run_finish-rest :
    (os : Os) (sid : ℕ) (status : ExitStatus) (st : State)
    → ((run_finish os sid status st).ctx ≡ st.ctx)
      × ((run_finish os sid status st).do_shutdown ≡ st.do_shutdown)
unfolding run_finish
run_finish-rest os sid status st =
    elim (Bool-cases (
      os.chdir (service_at st sid).name
      && os.executable (service_at st sid).name (codes "finish"))) [
        | inl runs ↦ rw (runs) (refl, refl)
        | inr no_script ↦ rw (no_script) (refl, refl)
      ]

-- Whether the end of the service shuts the supervisor down.
abbrev pub ends_all : Service → Bool
ends_all s = not s.restart_requested && s.shutdown_on_terminate

-- The state after the service's process ended, where no signal came.
pub record Ended (status : ExitStatus) (sid : ℕ) (st after : State) : Type 0 where
  pub services :
      after.ctx.services
      ≡ set st.ctx.services sid (ended (service_at st sid).logger_started (service_at st sid))
  pub do_shutdown : after.do_shutdown ≡ (st.do_shutdown || ends_all (service_at st sid))
  pub exit_code : after.ctx.exit_code ≡ (
      if not st.do_shutdown && ends_all (service_at st sid)
      then code_or 1 status
      else st.ctx.exit_code)

ends_all-ended : (b : Bool) (s : Service) → ends_all (ended b s) ≡ ends_all s
ends_all-ended true s = refl
ends_all-ended false s = refl

requested_true : (d e : Bool) → true ≡ (not d && e) → true ≡ (d || e)
requested_true true e h = refl
requested_true false e h = h

requested_false : (d e : Bool) → false ≡ (not d && e) → d ≡ (d || e)
requested_false true e h = refl
requested_false false e h = h

request_if-Ended :
    (status : ExitStatus) (sid : ℕ) (st st' : State)
    → st'.ctx.services
      ≡ set st.ctx.services sid (ended (service_at st sid).logger_started (service_at st sid))
    → st'.do_shutdown ≡ st.do_shutdown
    → st'.ctx.exit_code ≡ st.ctx.exit_code
    → (b : Bool) → b ≡ (not st.do_shutdown && ends_all (service_at st sid))
    → Ended status sid st (request_if b (code_or 1 status) st')
unfolding request_if
request_if-Ended status sid st st' services flag code true e = record {
  services = services;
  do_shutdown = requested_true st.do_shutdown (ends_all (service_at st sid)) e;
  exit_code = ap (λ c. if c then code_or 1 status else st.ctx.exit_code) e;
}
request_if-Ended status sid st st' services flag code false e = record {
  services = services;
  do_shutdown = flag ∙ requested_false st.do_shutdown (ends_all (service_at st sid)) e;
  exit_code = code ∙ ap (λ c. if c then code_or 1 status else st.ctx.exit_code) e;
}

test : (d e : Bool) → (not (d || false) && e) ≡ (not d && e)
test true e = refl
test false e = refl

module _ (os : Os) (quiet : (n : ℕ) → os.signal_came n ≡ false) where
  request_by_service-Ended :
      (status : ExitStatus) (sid : ℕ) (st st' : State)
      → sid < length st.ctx.services
      → st'.ctx.services
        ≡ set st.ctx.services sid (ended (service_at st sid).logger_started (service_at st sid))
      → st'.do_shutdown ≡ st.do_shutdown
      → st'.ctx.exit_code ≡ st.ctx.exit_code
      → Ended status sid st (request_by_service os sid status st')
  unfolding request_by_service
  request_by_service-Ended status sid st st' in_range services flag code =
      let s = service_at st sid in
      let same : ends_all (service_at st' sid) ≡ ends_all s =
        ap (λ l. ends_all (get_or l sid cleared)) services
        ∙ ap ends_all
            (get_or-set_self st.ctx.services sid (ended s.logger_started s) cleared in_range)
        ∙ ends_all-ended s.logger_started s in
      request_if-Ended status sid st st' services flag code
        (not (shutdown_requested os st') && ends_all (service_at st' sid))
        (rw (quiet st'.calls, flag, same) (test st.do_shutdown (ends_all s)))

  -- Where the process of a service of the table ended and no signal comes, the service is without
  -- process, logger and descriptor, and no other setting or service changes. A shutdown is
  -- requested exactly where one was requested before, or the service shuts down on termination and
  -- was not asked to restart; in the second case the exit code is the service's, or 128 and the
  -- signal that killed it, unless a shutdown was requested before.
  pub handle_killed-Ended :
      (pid sid : ℕ) (status : ExitStatus) (st : State)
      → sid < length st.ctx.services
      → find_service_by_pid st.ctx.services pid ≡ some sid
      → Ended status sid st (handle_killed os (killed pid status) st)
  unfolding handle_killed handle_ended
  handle_killed-Ended pid sid status st in_range found =
      let st1 = release sid st in
      let st2 = run_finish os sid status st1 in
      let finished = run_finish-rest os sid status st1 in
      let released = release-rest sid st in
      rw (found) (
        request_by_service-Ended status sid st st2 in_range
          (ap (λ (c : Context). c.services) finished.0 ∙ release-services sid st in_range)
          (finished.1 ∙ released.0) (ap (λ (c : Context). c.exit_code) finished.0 ∙ released.1))
