-- ===== src/Deps/Fuel.antt =====
-- The depth of `load_service_with_deps`: the fuel is enough.
use docker_baseimage.Base.{
  ℕ, zero, suc, ◌≤◌, ◌≡◌, ◌≢◌, refl, ap, ◌∙◌, Bool, true, false, not, List, [], ◌∷◌, Option, none,
  some, if◌then◌else◌, arith,
}
use docker_baseimage.Text.{Bytes}
use docker_baseimage.Exception.{
  Result, ok, throw, could_not_load_service, no_directory_stream, too_many_services,
}
use docker_baseimage.Values.{load_value_as_bool}
use docker_baseimage.Service.{Service, find_service, srv}
use docker_baseimage.Service.Table.{num_unused}
use docker_baseimage.Load.{DirEntry, load_service}
use docker_baseimage.Load.Entry.{AfterLoad, load_service-AfterLoad}
use docker_baseimage.Deps.{
  Root, Walk, Walked, is_skipped, proceed, without_suffix, load_dependency, load_dependencies,
  entries_of, visit_loaded, visit_found, visit, load_service_with_deps,
}
use docker_baseimage.Deps.Packed.{
  IsSound, Keeps, load_service_with_deps-Keeps, placed, placed-Keeps, one_fewer,
}

module _ (root : Root) (b : ℕ) where
  module _ (load load' : Bytes → Walk → Walked)
      (keeps : (name : Bytes) (w : Walk) → IsSound w.ctx → Keeps w (load name w).0)
      (same : (name : Bytes) (w : Walk)
        → IsSound w.ctx
        → suc (num_unused w.ctx.services) ≤ b
        → load name w ≡ load' name w) where
    proceed_same :
        (next next' : Walk → Walked) (w : Walk) (r : Walked)
        → ((w' : Walk) → IsSound w'.ctx → suc (num_unused w'.ctx.services) ≤ b → next w' ≡ next' w')
        → Keeps w r.0
        → suc (num_unused w.ctx.services) ≤ b
        → proceed next r ≡ proceed next' r
    proceed_same next next' w (w', ok u) h k le = h w' k.sound (omega (arith, k.no_more, le))
    proceed_same next next' w (w', throw e) h k le = refl

    load_dependency_same :
        (next next' : Walk → Walked) (name : Bytes) (r : Result (Bool × Bool)) (w : Walk)
        → ((w' : Walk) → IsSound w'.ctx → suc (num_unused w'.ctx.services) ≤ b → next w' ≡ next' w')
        → IsSound w.ctx
        → suc (num_unused w.ctx.services) ≤ b
        → load_dependency load next name r w ≡ load_dependency load' next' name r w
    unfolding load_dependency
    load_dependency_same next next' name (throw e) w h sound le = refl
    load_dependency_same next next' name (ok (is_set, false)) w h sound le = h w sound le
    load_dependency_same next next' name (ok (is_set, true)) w h sound le =
        let n = without_suffix name in
        proceed_same next next' w (load n w) h (keeps n w sound) le
        ∙ ap (proceed next') (same n w sound le)

    load_dependencies_same :
        (es : List DirEntry) (w : Walk)
        → IsSound w.ctx
        → suc (num_unused w.ctx.services) ≤ b
        → load_dependencies root load es w ≡ load_dependencies root load' es w
    unfolding load_dependencies
    load_dependencies_same [] w sound le = refl
    load_dependencies_same (e ∷ es) w sound le =
        let next : Walk → Walked = λ w'. load_dependencies root load es w' in
        let next' : Walk → Walked = λ w'. load_dependencies root load' es w' in
        let value = load_value_as_bool w.files e.0 (root.depends e.0) in
        elim (is_skipped e)
          as (λ x.
            (if x then next w else load_dependency load next e.0 value w)
            ≡ (if x then next' w else load_dependency load' next' e.0 value w)) [
              | true ↦ load_dependencies_same es w sound le
              | false ↦
                  load_dependency_same next next' e.0 value w
                    (λ w' s l. load_dependencies_same es w' s l) sound le
            ]

  module _ (load load' : Bytes → Option ℕ → Walk → Walked)
      (keeps : (name : Bytes) (dependent : Option ℕ) (w : Walk)
        → IsSound w.ctx
        → Keeps w (load name dependent w).0)
      (same : (name : Bytes) (dependent : Option ℕ) (w : Walk)
        → IsSound w.ctx
        → suc (num_unused w.ctx.services) ≤ b
        → load name dependent w ≡ load' name dependent w) where
    visit_loaded_same :
        (name : Bytes) (dependent : Option ℕ) (w : Walk) (services : List Service) (r : Result ℕ)
        → IsSound w.ctx
        → num_unused w.ctx.services ≤ b
        → find_service w.ctx.services name ≡ none
        → AfterLoad w.ctx.services name services r
        → visit_loaded root load name dependent w (services, r)
          ≡ visit_loaded root load' name dependent w (services, r)
    unfolding visit_loaded
    visit_loaded_same name dependent w services (throw e) sound le fresh after = refl
    visit_loaded_same name dependent w services (ok sid) sound le fresh after =
        let w' = placed root name dependent w services sid in
        let idle : Walked = (record w' { ctx = record w.ctx { services = services } }, ok tt) in
        let failed : Walked = (w', throw (could_not_load_service name no_directory_stream)) in
        let kept = placed-Keeps root name dependent w services sid sound fresh after in
        let fewer = one_fewer name w.ctx.services services sid fresh after in
        ap
          (λ r.
            if (srv services sid).disabled
            then idle
            else if not (root.opens name)
            then failed
            else r)
          (load_dependencies_same (λ n. load n (some sid)) (λ n. load' n (some sid))
            (λ n w'' s. keeps n (some sid) w'' s) (λ n w'' s l. same n (some sid) w'' s l)
            (entries_of (root.service_dir name)) w' kept.sound (omega (arith, fewer, le)))

    visit_found_same :
        (name : Bytes) (dependent : Option ℕ) (w : Walk) (o : Option ℕ)
        → name ≢ []
        → IsSound w.ctx
        → num_unused w.ctx.services ≤ b
        → find_service w.ctx.services name ≡ o
        → visit_found root load name dependent w o ≡ visit_found root load' name dependent w o
    unfolding visit_found
    visit_found_same name dependent w (some sid) named sound le found = refl
    visit_found_same name dependent w none named sound le fresh =
        let r = load_service w.ctx root.service_dir name in
        visit_loaded_same name dependent w r.0 r.1 sound le fresh
          (load_service-AfterLoad w.ctx root.service_dir name named sound.packed)

    visit_same :
        (name : Bytes) (dependent : Option ℕ) (w : Walk)
        → IsSound w.ctx
        → num_unused w.ctx.services ≤ b
        → visit root load name dependent w ≡ visit root load' name dependent w
    unfolding visit
    visit_same [] dependent w sound le = refl
    visit_same (c ∷ name) dependent w sound le =
        visit_found_same (c ∷ name) dependent w (find_service w.ctx.services (c ∷ name)) (λ e. cc)
          sound le refl

-- On a sound table and start order, fuel of at least the number of unused entries is enough for the
-- depth of the recursive calls: one unit more changes nothing.
pub load_service_with_deps_fuel :
    (root : Root) (fuel : ℕ) (name : Bytes) (dependent : Option ℕ) (w : Walk)
    → IsSound w.ctx
    → num_unused w.ctx.services ≤ fuel
    → load_service_with_deps root (suc fuel) name dependent w
      ≡ load_service_with_deps root fuel name dependent w
unfolding load_service_with_deps
load_service_with_deps_fuel root zero name dependent w sound le =
    visit_same root 0 (load_service_with_deps root zero) (λ n d w'. (w', throw too_many_services))
      (λ n d w' s. load_service_with_deps-Keeps root zero n d w' s)
      (λ n d w' s l. absurd (omega arith)) name dependent w sound le
load_service_with_deps_fuel root (suc fuel) name dependent w sound le =
    visit_same root (suc fuel) (load_service_with_deps root (suc fuel))
      (load_service_with_deps root fuel)
      (λ n d w' s. load_service_with_deps-Keeps root (suc fuel) n d w' s)
      (λ n d w' s l. load_service_with_deps_fuel root fuel n d w' s (omega (arith, l))) name
      dependent w sound le
