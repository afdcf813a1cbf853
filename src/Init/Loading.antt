-- ===== src/Init/Loading.antt =====
-- The services that `main` loads, from an accepted command line on.
use docker_baseimage.Base.{
  ℕ, zero, suc, ◌+◌, ◌-◌, ◌≤◌, ◌≡◌, refl, sym, ap, ◌∙◌, subst, ◌⊎◌, inl, inr, Bool, true, false,
  List, [], ◌∷◌, ◌++◌, none, take, length-take, if◌then◌else◌, replicate, arith,
}
use docker_baseimage.Text.{Bytes, codes}
use docker_baseimage.Exception.{ok, throw, root_not_found}
use docker_baseimage.Service.{Context, cleared, initial_context, max_num_services, find_service}
use docker_baseimage.Service.Table.{IsPacked, num_unused, AllUnused}
use docker_baseimage.Load.Lists.{>>=-ok, ok-inj}
use docker_baseimage.Deps.{Walk, Walked, load_service_with_deps}
use docker_baseimage.Deps.Packed.{IsSound, load_service_with_deps-Keeps}
use docker_baseimage.Deps.Ordered.{name_at, entry, IsListed, Adds}
use docker_baseimage.Deps.Dependents.{AddsService}
use docker_baseimage.Deps.Fuel.{load_service_with_deps_fuel}
use docker_baseimage.Deps.Visits.{load_service_with_deps-AddsService}
use docker_baseimage.Process.{base_name}
use docker_baseimage.Arguments.{Setup, progname_size, initial_setup, parse_args}
use docker_baseimage.Arguments.Usable.{IsUsable, parse_args-IsAccepted}
use docker_baseimage.Init.{Env, configure, initial_walk, load_default}

if-ok :
    (b : Bool) (s s' : Setup) (path : Bytes)
    → (if b then ok s else throw (root_not_found path)) ≡ ok s'
    → s ≡ s'
if-ok true s s' path e = ok-inj e
if-ok false s s' path e = cc

configure-IsUsable : (env : Env) (s : Setup) → configure env ≡ ok s → IsUsable s
unfolding configure
configure-IsUsable env s e =
    let name = take (progname_size - 1) (base_name env.program) in
    let (s', parsed, entered) =
      >>=-ok (parse_args env.sys env.arguments env.operand (initial_setup name))
        (λ (v : Setup).
          if env.enters v.services_root then ok v else throw (root_not_found v.services_root))
        s e in
    let accepted =
      parse_args-IsAccepted env.sys env.arguments env.operand name s'
        (omega (arith, length-take (progname_size - 1) (base_name env.program))) parsed in
    subst IsUsable (if-ok (env.enters s'.services_root) s' s s'.services_root entered) accepted.0

replicate-AllUnused : (n : ℕ) → AllUnused (replicate n cleared)
replicate-AllUnused zero = tt
replicate-AllUnused (suc n) = (refl, replicate-AllUnused n)

-- The table and the start order at the start.
start-IsListed :
    (w : Walk)
    → w.ctx.services ≡ initial_context.services
    → w.ctx.start_order ≡ initial_context.start_order
    → IsListed w []
start-IsListed w table order = record {
  packed = subst IsPacked (sym table) (inr (refl, replicate-AllUnused 63));
  unused = 64;
  order_is = order;
  has_place = subst (λ ss. num_unused ss ≤ 64) (sym table) (omega arith);
  known = tt;
}

start-IsSound :
    (ctx : Context)
    → ctx.services ≡ initial_context.services
    → ctx.start_order ≡ initial_context.start_order
    → IsSound ctx
start-IsSound ctx table order = record {
  packed = subst IsPacked (sym table) (inr (refl, replicate-AllUnused 63));
  order = [];
  unused = 64;
  order_is = order;
  has_place = subst (λ ss. num_unused ss ≤ 64) (sym table) (omega arith);
}

suc_add : (n : ℕ) → suc n + 64 ≡ suc (n + 64)
suc_add n = omega arith

-- More fuel than the table has entries changes nothing.
module _ (env : Env) (s : Setup) (sound : IsSound s.ctx)
    (few : num_unused s.ctx.services ≤ 64) where
  abbrev pub load_with : ℕ → Walked
  load_with fuel =
      load_service_with_deps (env.root s.services_root) fuel (codes "default") none
        (initial_walk env s)

  load_with_fuel : (more fuel : ℕ) → fuel ≡ more + 64 → load_with fuel ≡ load_default env s
  unfolding load_default
  load_with_fuel zero fuel e = ap load_with e
  load_with_fuel (suc more) fuel e =
      ap load_with (e ∙ suc_add more)
      ∙ load_service_with_deps_fuel (env.root s.services_root) (more + 64) (codes "default") none
          (initial_walk env s) sound (omega (arith, few))
      ∙ load_with_fuel more (more + 64) refl

no_default :
    (w : Walk)
    → w.ctx.services ≡ initial_context.services
    → find_service w.ctx.services (codes "default") ≡ none
unfolding find_service
no_default w table = ap (λ ss. find_service ss (codes "default")) table

-- A load that ended normally added 'default' last, behind the services that were loaded for it, or
-- nothing, where 'default' is disabled.
abbrev pub StartsDefault : Walk → Walked → Type 0
StartsDefault w (w', throw e) = Unit {0}
StartsDefault w (w', ok u) =
    (Adds w w' [] [] []
      × (sid : ℕ) × (name_at w' sid ≡ codes "default")
      × ((entry w' sid).disabled ≡ true))
    ⊎ ((deps : List ℕ) × (sid : ℕ) × Adds w w' [] [] (deps ++ sid ∷ [])
        × (name_at w' sid ≡ codes "default"))

AddsService-StartsDefault :
    (w : Walk) (r : Walked)
    → find_service w.ctx.services (codes "default") ≡ none
    → AddsService (codes "default") w [] [] r
    → StartsDefault w r
AddsService-StartsDefault w (w', throw e) none_found h = tt
AddsService-StartsDefault w (w', ok u) none_found (inl (adds, inl (sid, found))) = cc
AddsService-StartsDefault w (w', ok u) none_found (inl (adds, inr (fresh, sid, named, off))) =
    inl (adds, sid, named, off)
AddsService-StartsDefault w (w', ok u) none_found (inr (deps, sid, adds, named, fresh)) =
    inr (deps, sid, adds, named)

-- The result of the load of 'default' and of all that it depends on.
pub record IsLoaded (env : Env) (s : Setup) : Type 0 where
  pub sound : IsSound (load_default env s).0.ctx
  pub enough :
      (fuel : ℕ)
      → max_num_services ≤ fuel
      → load_service_with_deps
          (env.root s.services_root)
          fuel
          (codes "default")
          none
          (initial_walk env s)
        ≡ load_default env s
  pub ordered : StartsDefault (initial_walk env s) (load_default env s)

-- From any command line that is accepted, the load leaves the used entries of the table together and a
-- well-formed start order, with a place for every unused entry; a deeper recursion than the 64 entries of the
-- table is never needed; and where the load ends normally, either 'default' is disabled and the start order
-- is empty, or the order ends with 'default', behind the services that were loaded for it, none of them
-- disabled.
pub configure-IsLoaded : (env : Env) (s : Setup) → configure env ≡ ok s → IsLoaded env s
unfolding load_default
configure-IsLoaded env s e =
    let (p, r, ab, g, t, m, table, order, x) = configure-IsUsable env s e in
    let sound = start-IsSound s.ctx table order in
    let few : num_unused s.ctx.services ≤ 64 =
      subst (λ ss. num_unused ss ≤ 64) (sym table) (omega arith) in
    record {
      sound =
          (load_service_with_deps-Keeps (env.root s.services_root) max_num_services
            (codes "default") none (initial_walk env s) sound).sound;
      enough = λ fuel le. load_with_fuel env s sound few (fuel - 64) fuel (omega (arith, le));
      ordered =
          AddsService-StartsDefault (initial_walk env s) (load_default env s)
            (no_default (initial_walk env s) table)
            (load_service_with_deps-AddsService (env.root s.services_root) max_num_services
              (codes "default") none (initial_walk env s) [] []
              (start-IsListed (initial_walk env s) table order) tt);
    }
