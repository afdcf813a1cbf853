-- ===== src/Startup/Failures.antt =====
-- How `start_services` and its waits end.
use docker_baseimage.Base.{
  ℕ, ◌≡◌, refl, sym, ap, ◌∙◌, subst, ◌⊎◌, inl, inr, Bool, true, false, List, [], ◌∷◌, Option, none,
  some, if◌then◌else◌, Bool-cases,
}
use docker_baseimage.Exception.{Result, ok, throw, Message, failed_to_start}
use docker_baseimage.Process.{
  Waited, still_running, interrupted, wait_failed, terminated, Os, State, tick, service_at,
  shutdown_requested,
}
use docker_baseimage.Supervisor.{start_service}
use docker_baseimage.Startup.{
  is_success, wait_terminated, start_and_wait, or_ignored, next_service, start_in_order,
  start_services,
}

-- A failure is that of a service whose failures are not ignored, and names it.
abbrev pub IsReported : State × Result (Unit {0}) → Type 0
IsReported (st, ok u) = Unit {0}
IsReported (st, throw e) =
    (sid : ℕ) × (cause : Message) × (e ≡ failed_to_start (service_at st sid).name cause)
    × ((service_at st sid).ignore_failure ≡ false)

IsReported-if :
    (b : Bool) (x y : State × Result (Unit {0}))
    → IsReported x
    → IsReported y
    → IsReported (if b then x else y)
IsReported-if true x y h k = h
IsReported-if false x y h k = k

or_ignored-IsReported : (sid : ℕ) (r : State × Result (Unit {0})) → IsReported (or_ignored sid r)
or_ignored-IsReported sid (st, ok u) = tt
or_ignored-IsReported sid (st, throw e) = elim (Bool-cases (service_at st sid).ignore_failure) [
  | inl ignored ↦ rw (ignored) tt
  | inr reported ↦ rw (reported) (sid, e, refl, reported)
]

next_service-IsReported :
    (rest : State → State × Result (Unit {0})) (r : State × Result (Unit {0}))
    → ((st : State) → IsReported (rest st))
    → IsReported r
    → IsReported (next_service rest r)
next_service-IsReported rest (st, ok u) h k = h st
next_service-IsReported rest (st, throw e) h k = k

start_in_order-IsReported :
    (os : Os) (places : List (Option ℕ)) (st : State) → IsReported (start_in_order os places st)
unfolding start_in_order
start_in_order-IsReported os [] st = tt
start_in_order-IsReported os (none ∷ places) st = tt
start_in_order-IsReported os (some sid ∷ places) st =
    let rest : State → State × Result (Unit {0}) = λ st'. start_in_order os places st' in
    let started = next_service rest (or_ignored sid (start_and_wait os sid st)) in
    IsReported-if (service_at st sid).is_service_group (rest st)
      (if shutdown_requested os st then (st, ok tt) else started)
      (start_in_order-IsReported os places st)
      (IsReported-if (shutdown_requested os st) (st, ok tt) started tt
        (next_service-IsReported rest (or_ignored sid (start_and_wait os sid st))
          (λ st'. start_in_order-IsReported os places st')
          (or_ignored-IsReported sid (start_and_wait os sid st))))

-- The start of the services fails only with the failure of one whose failures are not ignored, and
-- the message names that service.
pub start_services-IsReported : (os : Os) (st : State) → IsReported (start_services os st)
unfolding start_services
start_services-IsReported os st = start_in_order-IsReported os st.ctx.start_order st

-- One of the answers is that the process succeeded.
abbrev pub Succeeds : List Waited → Type 0
Succeeds [] = ⊥
Succeeds (still_running ∷ ws) = Succeeds ws
Succeeds (interrupted ∷ ws) = Succeeds ws
Succeeds (wait_failed ∷ ws) = ⊥
Succeeds (terminated status ∷ ws) = is_success status ≡ true

-- The wait ends normally only where the process exited with 0, or where a shutdown was requested.
wait_terminated-Succeeds :
    (os : Os) (sid : ℕ) (ws : List Waited) (st : State)
    → (wait_terminated os sid ws st).1 ≡ ok tt
    → Succeeds ws ⊎ (shutdown_requested os (wait_terminated os sid ws st).0 ≡ true)
unfolding wait_terminated
wait_terminated-Succeeds os sid [] st e = cc
wait_terminated-Succeeds os sid (still_running ∷ ws) st e =
    wait_terminated-Succeeds os sid ws (tick st) e
wait_terminated-Succeeds os sid (wait_failed ∷ ws) st e = cc
wait_terminated-Succeeds os sid (interrupted ∷ ws) st e =
    let st' = record (tick st) { waits = ws } in
    elim (Bool-cases (shutdown_requested os st')) [
      | inl requested ↦ inr (rw (requested) requested)
      | inr calm ↦
          let same : wait_terminated os sid (interrupted ∷ ws) st ≡ wait_terminated os sid ws st' =
            rw (calm) refl in
          subst
            (λ (r : State × Result (Unit {0})). Succeeds ws ⊎ (shutdown_requested os r.0 ≡ true))
            (sym same)
            (wait_terminated-Succeeds os sid ws st'
              (sym (ap (λ (r : State × Result (Unit {0})). r.1) same) ∙ e))
    ]
wait_terminated-Succeeds os sid (terminated status ∷ ws) st e =
    elim (Bool-cases (is_success status)) [ inl success ↦ inl success | inr failure ↦ cc ]

-- What the loop does with a service whose start and wait gave `r`: it goes on, for one of three reasons,
-- or it ends with the failure.
abbrev pub Proceeds :
    Os
    → ℕ
    → List (Option ℕ)
    → List Waited
    → State × Result (Unit {0})
    → State × Result (Unit {0})
    → Type 0
Proceeds os sid places ws r end =
    ((end ≡ start_in_order os places r.0)
      × (Succeeds ws
          ⊎ (shutdown_requested os r.0 ≡ true)
          ⊎ ((service_at r.0 sid).ignore_failure ≡ true)))
    ⊎ ((cause : Message) × (r.1 ≡ throw cause)
        × ((service_at r.0 sid).ignore_failure ≡ false)
        × (end ≡ (r.0, throw (failed_to_start (service_at r.0 sid).name cause))))

next_service-Proceeds :
    (os : Os) (sid : ℕ) (places : List (Option ℕ)) (ws : List Waited)
    (r : State × Result (Unit {0}))
    → (r.1 ≡ ok tt → Succeeds ws ⊎ (shutdown_requested os r.0 ≡ true))
    → Proceeds os sid places ws r
        (next_service (λ (st' : State). start_in_order os places st') (or_ignored sid r))
next_service-Proceeds os sid places ws (st, ok u) h = elim (h refl) [
  | inl success ↦ inl (refl, inl success)
  | inr requested ↦ inl (refl, inr (inl requested))
]
next_service-Proceeds os sid places ws (st, throw e) h =
    elim (Bool-cases (service_at st sid).ignore_failure) [
      | inl ignored ↦ inl (rw ignored refl, inr (inr ignored))
      | inr reported ↦ inr (e, refl, reported, rw reported refl)
    ]

synced-wait :
    (os : Os) (sid : ℕ) (st st' : State)
    → start_service os sid st ≡ (st', ok tt)
    → (service_at st' sid).sync ≡ true
    → start_and_wait os sid st ≡ wait_terminated os sid st'.waits st'
synced-wait os sid st st' started synced = rw (started, synced) refl

-- Where a service with `sync` is no group and was started with no shutdown requested: the start-up goes on
-- behind it only if its process exited with 0, or a shutdown was requested while it was waited for, or its
-- failures are ignored; else the start-up ends there with its failure, which names it.
pub start_in_order-Proceeds :
    (os : Os) (sid : ℕ) (places : List (Option ℕ)) (st st' : State)
    → (service_at st sid).is_service_group ≡ false
    → shutdown_requested os st ≡ false
    → start_service os sid st ≡ (st', ok tt)
    → (service_at st' sid).sync ≡ true
    → Proceeds os sid places st'.waits
        (start_and_wait os sid st)
        (start_in_order os (some sid ∷ places) st)
unfolding start_in_order
start_in_order-Proceeds os sid places st st' no_group calm started synced =
    let same = synced-wait os sid st st' started synced in
    rw (no_group, calm)
      (next_service-Proceeds os sid places st'.waits (start_and_wait os sid st) (λ e.
        subst
          (λ (r : State × Result (Unit {0})).
            Succeeds st'.waits ⊎ (shutdown_requested os r.0 ≡ true))
          (sym same)
          (wait_terminated-Succeeds os sid st'.waits st'
            (sym (ap (λ (r : State × Result (Unit {0})). r.1) same) ∙ e))))
