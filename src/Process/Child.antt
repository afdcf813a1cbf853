-- ===== src/Process/Child.antt =====
-- The child's side of `fork_and_exec`.
use docker_baseimage.Base.{
  ℕ, suc, ◌≡◌, refl, sym, ap, subst, ◌⊎◌, inl, inr, Bool, true, false, not, ◌||◌, List, [], ◌∷◌,
  ◌++◌, map, arith, append-nil, Option, none, some, ltb, if◌then◌else◌, length, All, Bool-cases,
}
use docker_baseimage.Base.Int.{ℤ}
use docker_baseimage.Text.{Bytes}
use docker_baseimage.Service.{Service}
use docker_baseimage.Process.{
  ChildStep, setpriority, umask, setgroups, setgid, setuid, ChildEnd, child_exited, became,
  is_umask, is_zero_int, chdir, when, do_steps, exec_end, child_steps, child_at, child, arguments,
  base_name, up_to_null, child_environment,
}

-- How the child may end, on whether each step succeeds and whether the execution does.
module _ (succeeds : ChildStep → Bool) (execs : Bool) (s : Service) where
  -- umask() never fails.
  abbrev pub IsDone : ChildStep → Type 0
  IsDone step = (is_umask step || succeeds step) ≡ true

  abbrev pub AllDone : List ChildStep → Type 0
  AllDone done = (done ≡ child_steps s) × All IsDone done

  -- The steps before the first one that failed.
  abbrev pub StopsAt : List ChildStep → List ChildStep → Type 0
  StopsAt done steps =
      (step : ChildStep) × (later : List ChildStep) × (steps ≡ done ++ step ∷ later)
      × All IsDone done
      × ((is_umask step || succeeds step) ≡ false)

  abbrev pub IsChildEnd : List Bytes → List ChildStep → ChildEnd → Type 0
  IsChildEnd environ done (became path argv env) =
      (execs ≡ true)
      × (s.run_abs_path ≡ some path)
      × AllDone done
      × (argv ≡ base_name path ∷ s.param_list)
      × (s.environment ≡ none ∷ [] → env ≡ [])
      × (s.environment ≡ [] → env ≡ environ ++ s.environment_extra)
      × ((v : Bytes) (vs : List Bytes) → s.environment ≡ map some (v ∷ vs) → env ≡ v ∷ vs)
  IsChildEnd environ done (child_exited status) =
      ((status ≡ 50) × (s.run_abs_path ≡ none) × (done ≡ []))
      ⊎ ((status ≡ 50) × StopsAt done (child_steps s))
      ⊎ ((status ≡ 126) × (execs ≡ false) × AllDone done)

  do_steps-cases :
      (end : ChildEnd) (steps : List ChildStep)
      → ((do_steps succeeds end steps ≡ (steps, end)) × All IsDone steps)
        ⊎ (((do_steps succeeds end steps).1 ≡ child_exited 50)
            × StopsAt (do_steps succeeds end steps).0 steps)
  unfolding do_steps
  do_steps-cases end [] = inl (refl, tt)
  do_steps-cases end (step ∷ steps) = elim (Bool-cases (is_umask step || succeeds step)) [
    | inr failed ↦ inr (rw (failed) (refl, (step, steps, refl, tt, failed)))
    | inl succeeded ↦ elim (do_steps-cases end steps) [
      | inl (same, all_done) ↦ inl (
        rw (succeeded) (ap (λ (r : List ChildStep × ChildEnd). (step ∷ r.0, r.1)) same),
        (succeeded, all_done),
      )
      | inr (stopped, (failing, later, split, done, failed)) ↦ inr (
          rw (succeeded)
            (stopped, (failing, later, ap (◌∷◌ step) split, (succeeded, done), failed)))
    ]
  ]

  environment-extra :
      (environ : List Bytes)
      → s.environment ≡ []
      → child_environment environ s ≡ environ ++ s.environment_extra
  unfolding child_environment
  environment-extra environ e = rw e (extra_or s.environment_extra)
    where
      extra_or :
          (extra : List Bytes)
          → (if ltb 0 (length extra) then environ ++ extra else environ) ≡ environ ++ extra
      extra_or [] = sym (append-nil environ)
      extra_or (v ∷ vs) =
          let some_extra : ltb 0 (suc (length vs)) ≡ true = ground arith in rw some_extra refl

  environment-empty :
      (environ : List Bytes) → s.environment ≡ none ∷ [] → child_environment environ s ≡ []
  unfolding child_environment
  environment-empty environ e = rw e refl

  up_to_null-map : (vs : List Bytes) → up_to_null (map some vs) ≡ vs
  up_to_null-map [] = refl
  up_to_null-map (v ∷ vs) = ap (◌∷◌ v) (up_to_null-map vs)

  environment-set :
      (environ : List Bytes) (v : Bytes) (vs : List Bytes)
      → s.environment ≡ map some (v ∷ vs)
      → child_environment environ s ≡ v ∷ vs
  unfolding child_environment
  environment-set environ v vs e =
      let set : ltb 0 (suc (length (map some vs))) ≡ true = ground arith in
      rw (e, set) (up_to_null-map (v ∷ vs))

  exec_end-IsChildEnd :
      (x : Bool) (environ : List Bytes) (path : Bytes)
      → execs ≡ x
      → s.run_abs_path ≡ some path
      → All IsDone (child_steps s)
      → IsChildEnd environ
          (child_steps s)
          (exec_end x path (arguments path s.param_list) (child_environment environ s))
  exec_end-IsChildEnd true environ path e h done = (
    e,
    h,
    (refl, done),
    refl,
    environment-empty environ,
    environment-extra environ,
    environment-set environ,
  )
  exec_end-IsChildEnd false environ path e h done = inr (inr (refl, e, (refl, done)))

  child_at-IsChildEnd :
      (environ : List Bytes) (o : Option Bytes)
      → s.run_abs_path ≡ o
      → IsChildEnd environ
          (child_at succeeds execs environ s o).0
          (child_at succeeds execs environ s o).1
  unfolding child_at
  child_at-IsChildEnd environ none h = inl (refl, h, refl)
  child_at-IsChildEnd environ (some path) h =
      let end = exec_end execs path (arguments path s.param_list) (child_environment environ s) in
      elim (do_steps-cases end (child_steps s)) [
        | inl (same, all_done) ↦
            subst (λ (r : List ChildStep × ChildEnd). IsChildEnd environ r.0 r.1) (sym same)
              (exec_end-IsChildEnd execs environ path refl h all_done)
        | inr (stopped, at) ↦
            subst (IsChildEnd environ (do_steps succeeds end (child_steps s)).0) (sym stopped)
              (inr (inl (refl, at)))
      ]

-- The child becomes the service's program only where each step that the settings ask for succeeded, in
-- their order, and the execution did: with its parameters behind its own name, and with the variables of
-- its environment (none where it is set and empty) or, where it is not set, cinit's and the extra ones.
-- It exits with 126 only where all the steps succeeded and the execution failed. Else it exits with 50:
-- where there is no program, with no step done; or at the first step that failed, after the ones before
-- it and with none behind it.
pub child-IsChildEnd :
    (succeeds : ChildStep → Bool) (execs : Bool) (environ : List Bytes) (s : Service)
    → IsChildEnd succeeds execs s environ
        (child succeeds execs environ s).0
        (child succeeds execs environ s).1
unfolding child
child-IsChildEnd succeeds execs environ s =
    child_at-IsChildEnd succeeds execs s environ s.run_abs_path refl

-- Neither a change of the groups nor of the priority.
abbrev pub IsUnprivileged : ChildStep → Type 0
IsUnprivileged (setgroups groups) = ⊥
IsUnprivileged (setgid gid) = ⊥
IsUnprivileged (setpriority priority) = ⊥
IsUnprivileged (setuid uid) = ⊥
IsUnprivileged (umask mask) = Unit {0}
IsUnprivileged (chdir directory) = Unit {0}

abbrev pub IsLastBefore : ChildStep → List ChildStep → Type 0
IsLastBefore (setuid uid) steps = All IsUnprivileged steps
IsLastBefore (setgroups groups) steps = Unit
IsLastBefore (setgid gid) steps = Unit
IsLastBefore (setpriority priority) steps = Unit
IsLastBefore (umask mask) steps = Unit
IsLastBefore (chdir directory) steps = Unit

-- After a change of the user there is no change of the groups, of the user or of the priority.
abbrev pub IsOrdered : List ChildStep → Type 0
IsOrdered [] = Unit {0}
IsOrdered (step ∷ steps) = IsLastBefore step steps × IsOrdered steps

module _ (priority : ℤ) (mask gid uid : ℕ) (groups : List ℕ) (directory : Bytes) where
  tail-IsOrdered : (u w : Bool) → IsOrdered (when u (setuid uid) ++ when w (chdir directory))
  tail-IsOrdered false false = tt
  tail-IsOrdered false true = (tt, tt)
  tail-IsOrdered true false = (tt, tt)
  tail-IsOrdered true true = ((tt, tt), (tt, tt))

  group-IsOrdered :
      (g u w : Bool)
      → IsOrdered (when g (setgid gid) ++ when u (setuid uid) ++ when w (chdir directory))
  group-IsOrdered false u w = tail-IsOrdered u w
  group-IsOrdered true u w = (tt, tail-IsOrdered u w)

  steps-IsOrdered :
      (p g u w : Bool)
      → IsOrdered (
          when p (setpriority priority)
          ++ umask mask ∷ setgroups groups ∷ when g (setgid gid)
          ++ when u (setuid uid)
          ++ when w (chdir directory))
  steps-IsOrdered false g u w = (tt, (tt, group-IsOrdered g u w))
  steps-IsOrdered true g u w = (tt, (tt, (tt, group-IsOrdered g u w)))

-- The child changes its priority and its groups before it gives up its user, whatever the settings.
pub child_steps-IsOrdered : (s : Service) → IsOrdered (child_steps s)
unfolding child_steps
child_steps-IsOrdered s =
    steps-IsOrdered s.priority s.umask s.gid s.uid s.sgid_list s.working_directory
      (not (is_zero_int s.priority)) (ltb 0 s.gid) (ltb 0 s.uid)
      (ltb 0 (length s.working_directory))
