-- ===== src/MainLoop/Exit.antt =====
-- Why the main loop ends, and what the services with an interval wait for.
use docker_baseimage.Base.{
  ℕ, ◌*◌, ◌%◌, ◌^◌, ◌<◌, ◌≡◌, refl, ap, Bool, true, false, not, ◌&&◌, List, [], ◌∷◌, Option, none,
  some, leb, if◌then◌else◌, take, drop, Bool-cases, inl, inr, arith,
}
use docker_baseimage.Text.{Bytes, codes, bytes_eq, trim, terminate_at_first_eol}
use docker_baseimage.Values.{c_string}
use docker_baseimage.Service.{Service, find_service, is_empty}
use docker_baseimage.Process.{Os, State, shutdown_requested}
use docker_baseimage.Supervisor.{child_handler}
use docker_baseimage.MainLoop.{
  Next, paused, shut_down, aborted, is_due, pause, run_command, restart_found, restart_pending,
  all_services, run_interval, run_restart, after_reaping, iteration, go_on, main_loop,
}

module _ (os : Os) where
  -- A shutdown was requested where the loop was left by a break.
  abbrev pub IsRequested : State × Next → Type 0
  IsRequested (st, shut_down) = shutdown_requested os st ≡ true
  IsRequested (st, paused) = Unit
  IsRequested (st, aborted) = Unit

  IsRequested-if :
      (b : Bool) (x y : State × Next)
      → IsRequested x
      → IsRequested y
      → IsRequested (if b then x else y)
  IsRequested-if true x y h k = h
  IsRequested-if false x y h k = k

  pause-IsRequested : (r : State × Next) → IsRequested r → IsRequested (pause r)
  pause-IsRequested (st, paused) h = tt
  pause-IsRequested (st, shut_down) h = h
  pause-IsRequested (st, aborted) h = tt

  run_command-IsRequested :
      (command : Option Bytes) (st : State) → IsRequested (run_command os command st)
  unfolding run_command
  run_command-IsRequested none st = tt
  run_command-IsRequested (some bytes) st =
      let buf = trim (terminate_at_first_eol (c_string bytes)) in
      let service = drop 8 buf in
      let found : State × Next =
        (restart_found os (find_service st.ctx.services service) st, paused) in
      IsRequested-if (not (bytes_eq (take 8 buf) (codes "restart:"))) (st, paused)
        (if is_empty service then (st, aborted) else found) tt
        (IsRequested-if (is_empty service) (st, aborted) found tt tt)

  after_reaping-IsRequested :
      (command : Option Bytes) (st : State) (all_terminated : Bool)
      → IsRequested (after_reaping os command (st, all_terminated))
  unfolding after_reaping
  after_reaping-IsRequested command st all_terminated =
      let st2 = all_services (run_restart os) (all_services (run_interval os) st) in
      elim (Bool-cases (shutdown_requested os st)) [
        | inl requested ↦ rw (requested) requested
        | inr calm ↦ elim (Bool-cases (all_terminated && not (restart_pending st))) [
          | inl over ↦ rw (calm, over) refl
          | inr busy ↦
              rw (calm, busy)
                (pause-IsRequested (run_command os command st2)
                  (run_command-IsRequested command st2))
        ]
      ]

  iteration-IsRequested :
      (command : Option Bytes) (st : State) → IsRequested (iteration os command st)
  unfolding iteration
  iteration-IsRequested command st =
      let reaped = child_handler os (some 0) none st in
      elim (Bool-cases (shutdown_requested os st)) [
        | inl requested ↦ rw (requested) requested
        | inr calm ↦ rw (calm) (after_reaping-IsRequested command reaped.0 reaped.1)
      ]

  go_on-IsRequested :
      (loop : State → State × Next) (r : State × Next)
      → ((st : State) → IsRequested (loop st))
      → IsRequested r
      → IsRequested (go_on loop r)
  go_on-IsRequested loop (st, paused) h k = h st
  go_on-IsRequested loop (st, shut_down) h k = k
  go_on-IsRequested loop (st, aborted) h k = tt

  -- Whenever the main loop is left by one of its breaks, a shutdown was requested: the assertion
  -- before `cinit_shutdown` holds.
  pub main_loop-IsRequested :
      (commands : List (Option Bytes)) (st : State) → IsRequested (main_loop os commands st)
  unfolding main_loop
  main_loop-IsRequested [] st = tt
  main_loop-IsRequested (command ∷ commands) st =
      go_on-IsRequested (λ (st' : State). main_loop os commands st') (iteration os command st)
        (λ st'. main_loop-IsRequested commands st') (iteration-IsRequested command st)

  -- Where a shutdown was requested before the loop, it is left at once.
  pub main_loop_requested :
      (command : Option Bytes) (commands : List (Option Bytes)) (st : State)
      → shutdown_requested os st ≡ true
      → main_loop os (command ∷ commands) st ≡ (st, shut_down)
  unfolding main_loop iteration
  main_loop_requested command commands st h = rw h refl

-- An interval of up to 4294967 seconds is waited for in full; the product with 1000 does not wrap.
pub is_due_exact :
    (s : Service) (time : ℕ) → s.interval < 4294968 → is_due s time ≡ leb (s.interval * 1000) time
is_due_exact s time h =
    let exact : s.interval * 1000 % 2 ^ 32 ≡ s.interval * 1000 = omega (arith, h) in
    ap (λ v. leb v time) exact
