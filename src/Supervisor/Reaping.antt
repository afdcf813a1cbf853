-- ===== src/Supervisor/Reaping.antt =====
-- Reaping: `child_handler`.
use docker_baseimage.Base.{ℕ, ◌≡◌, refl, true, false, List, [], ◌∷◌, Option, none, some}
use docker_baseimage.Process.{Reaped, no_child, no_change, killed, Os, State, tick, emit, slept}
use docker_baseimage.Supervisor.{Period, is_reaped, reap, child_handler, handle_killed}

module _ (os : Os) where
  -- The test for the service comes after the answer 0, where it cannot hold.
  not_reaped : (service : Option ℕ) (st : State) → is_reaped service no_change st ≡ false
  not_reaped none st = refl
  not_reaped (some sid) st = refl

  reap-none :
      (period : Period) (service : Option ℕ) (now : ℕ) (answers : List Reaped) (st : State)
      → reap os period service now answers st ≡ reap os period none now answers st
  unfolding reap
  reap-none period service now [] st = refl
  reap-none period service now (no_child ∷ answers) st = refl
  reap-none period service now (killed pid status ∷ answers) st =
      reap-none period service now answers (handle_killed os (killed pid status) (tick st))
  reap-none period service now (no_change ∷ answers) st =
      rw
        (
          not_reaped service (tick (tick st)),
          reap-none period service now answers (emit (slept 50) (tick (tick st))),
        )
        refl

  -- The service that `child_handler` is given makes no difference: reaping never stops earlier
  -- because that service was reaped.
  pub child_handler-none :
      (period : Period) (service : Option ℕ) (st : State)
      → child_handler os period service st ≡ child_handler os period none st
  unfolding child_handler
  child_handler-none period service st =
      reap-none period service (os.clock st.calls) st.reaps (tick st)

  reap_all :
      (service : Option ℕ) (now : ℕ) (answers : List Reaped) (st : State)
      → (reap os none service now answers st).1 ≡ true
  unfolding reap
  reap_all service now [] st = refl
  reap_all service now (no_child ∷ answers) st = refl
  reap_all service now (killed pid status ∷ answers) st =
      reap_all service now answers (handle_killed os (killed pid status) (tick st))
  reap_all service now (no_change ∷ answers) st =
      rw (not_reaped service (tick (tick st)))
        (reap_all service now answers (emit (slept 50) (tick (tick st))))

  -- With no period, `child_handler` returns only when no child is left.
  pub child_handler_all :
      (service : Option ℕ) (st : State) → (child_handler os none service st).1 ≡ true
  unfolding child_handler
  child_handler_all service st = reap_all service (os.clock st.calls) st.reaps (tick st)
