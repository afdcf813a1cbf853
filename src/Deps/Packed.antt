-- ===== src/Deps/Packed.antt =====
-- The service table and the start order while services and their dependencies are loaded.
use docker_baseimage.Base.{
  ℕ, zero, suc, ◌≤◌, ◌≡◌, ◌≢◌, refl, ap, ◌∙◌, subst, Bool, true, false, not, List, [], ◌∷◌, ◌++◌,
  Option, none, some, if◌then◌else◌, arith,
}
use docker_baseimage.Text.{Bytes}
use docker_baseimage.Exception.{
  Result, ok, throw, could_not_load_service, no_directory_stream, too_many_services,
}
use docker_baseimage.Values.{load_value_as_bool}
use docker_baseimage.Service.{Service, Context, find_service, srv}
use docker_baseimage.Service.Table.{IsPacked, num_unused}
use docker_baseimage.Load.{DirEntry, load_service}
use docker_baseimage.Load.Entry.{AfterLoad, and_taken, load_service-AfterLoad}
use docker_baseimage.Order.{add_to_start_order}
use docker_baseimage.Order.Insertion.{order_of, add_to_start_order-Inserted}
use docker_baseimage.Deps.{
  Root, Walk, Walked, is_skipped, proceed, without_suffix, load_dependency, load_dependencies,
  files_of, entries_of, visit_loaded, visit_found, visit, load_service_with_deps,
}

-- The table is packed, and the start order holds some services, then places that are not used, as
-- many as the table has unused entries, or more.
pub record IsSound (ctx : Context) : Type 0 where
  pub packed : IsPacked ctx.services
  pub order : List ℕ
  pub unused : ℕ
  pub order_is : ctx.start_order ≡ order_of order unused
  pub has_place : num_unused ctx.services ≤ unused

-- What a load of services keeps.
pub record Keeps (before after : Walk) : Type 0 where
  pub sound : IsSound after.ctx
  pub no_more : num_unused after.ctx.services ≤ num_unused before.ctx.services

pub Keeps-refl : (w : Walk) → IsSound w.ctx → Keeps w w
Keeps-refl w h = record { sound = h; no_more = omega arith }

Keeps-trans : (a b c : Walk) → Keeps a b → Keeps b c → Keeps a c
Keeps-trans a b c h k = record { sound = k.sound; no_more = omega (arith, h.no_more, k.no_more) }

Keeps-if :
    (w : Walk) (b : Bool) (x y : Walked)
    → Keeps w x.0
    → Keeps w y.0
    → Keeps w (if b then x else y).0
Keeps-if w true x y h k = h
Keeps-if w false x y h k = k

-- A place is left for the service that took an entry.
add_to_start_order-order_of :
    (places : List (Option ℕ)) (order : List ℕ) (unused n sid : ℕ) (dependent : Option ℕ)
    → places ≡ order_of order unused
    → suc n ≤ unused
    → (order' : List ℕ) × (unused' : ℕ) × (add_to_start_order places sid dependent
        ≡ order_of order' unused')
      × (n ≤ unused')
add_to_start_order-order_of places order zero n sid dependent e h = absurd (omega arith)
add_to_start_order-order_of places order (suc k) n sid dependent e h =
    let i = add_to_start_order-Inserted order k sid dependent in
    (
      i.earlier ++ sid ∷ i.later,
      k,
      ap (λ l. add_to_start_order l sid dependent) e ∙ i.inserted,
      omega arith,
    )

pub one_fewer :
    (name : Bytes) (before services : List Service) (sid : ℕ)
    → find_service before name ≡ none
    → AfterLoad before name services (ok sid)
    → num_unused before ≡ suc (num_unused services)
one_fewer name before services sid fresh after =
    subst (λ o. num_unused before ≡ and_taken o (num_unused services)) fresh after.3

-- The walk once the service is in the table and in the start order.
abbrev pub placed : Root → Bytes → Option ℕ → Walk → List Service → ℕ → Walk
placed root name dependent w services sid = record {
  ctx = record w.ctx {
    services = services;
    start_order = add_to_start_order w.ctx.start_order sid dependent;
  };
  files = files_of (root.service_dir name) w.files;
}

pub placed-Keeps :
    (root : Root) (name : Bytes) (dependent : Option ℕ) (w : Walk) (services : List Service)
    (sid : ℕ)
    → IsSound w.ctx
    → find_service w.ctx.services name ≡ none
    → AfterLoad w.ctx.services name services (ok sid)
    → Keeps w (placed root name dependent w services sid)
placed-Keeps root name dependent w services sid sound fresh after =
    let fewer = one_fewer name w.ctx.services services sid fresh after in
    let order =
      add_to_start_order-order_of w.ctx.start_order sound.order sound.unused (num_unused services)
        sid dependent sound.order_is (omega (arith, fewer, sound.has_place)) in
    record {
      sound = record {
        packed = after.0;
        order = order.0;
        unused = order.1;
        order_is = order.2;
        has_place = order.3;
      };
      no_more = omega (arith, fewer);
    }

module _ (root : Root) where
  module _ (load : Bytes → Walk → Walked)
      (keeps : (name : Bytes) (w : Walk) → IsSound w.ctx → Keeps w (load name w).0) where
    proceed-Keeps :
        (next : Walk → Walked) (w : Walk) (r : Walked)
        → ((w' : Walk) → IsSound w'.ctx → Keeps w' (next w').0)
        → Keeps w r.0
        → Keeps w (proceed next r).0
    proceed-Keeps next w (w', ok u) h k = Keeps-trans w w' (next w').0 k (h w' k.sound)
    proceed-Keeps next w (w', throw e) h k = k

    load_dependency-Keeps :
        (next : Walk → Walked) (name : Bytes) (r : Result (Bool × Bool)) (w : Walk)
        → ((w' : Walk) → IsSound w'.ctx → Keeps w' (next w').0)
        → IsSound w.ctx
        → Keeps w (load_dependency load next name r w).0
    unfolding load_dependency
    load_dependency-Keeps next name (throw e) w h sound = Keeps-refl w sound
    load_dependency-Keeps next name (ok (is_set, false)) w h sound = h w sound
    load_dependency-Keeps next name (ok (is_set, true)) w h sound =
        proceed-Keeps next w (load (without_suffix name) w) h (keeps (without_suffix name) w sound)

    load_dependencies-Keeps :
        (es : List DirEntry) (w : Walk)
        → IsSound w.ctx
        → Keeps w (load_dependencies root load es w).0
    unfolding load_dependencies
    load_dependencies-Keeps [] w sound = Keeps-refl w sound
    load_dependencies-Keeps (e ∷ es) w sound =
        let next : Walk → Walked = λ w'. load_dependencies root load es w' in
        let value = load_value_as_bool w.files e.0 (root.depends e.0) in
        elim (is_skipped e)
          as (λ b. Keeps w (if b then next w else load_dependency load next e.0 value w).0) [
            | true ↦ load_dependencies-Keeps es w sound
            | false ↦
                load_dependency-Keeps next e.0 value w (λ w' s. load_dependencies-Keeps es w' s)
                  sound
          ]

  module _ (load : Bytes → Option ℕ → Walk → Walked)
      (keeps : (name : Bytes) (dependent : Option ℕ) (w : Walk)
        → IsSound w.ctx
        → Keeps w (load name dependent w).0) where
    visit_loaded-Keeps :
        (name : Bytes) (dependent : Option ℕ) (w : Walk) (services : List Service) (r : Result ℕ)
        → IsSound w.ctx
        → find_service w.ctx.services name ≡ none
        → AfterLoad w.ctx.services name services r
        → Keeps w (visit_loaded root load name dependent w (services, r)).0
    unfolding visit_loaded
    visit_loaded-Keeps name dependent w services (throw e) sound fresh after = record {
      sound = record {
        packed = after.0;
        order = sound.order;
        unused = sound.unused;
        order_is = sound.order_is;
        has_place = omega (arith, after.1, sound.has_place);
      };
      no_more = omega (arith, after.1);
    }
    visit_loaded-Keeps name dependent w services (ok sid) sound fresh after =
        let w' = placed root name dependent w services sid in
        let idle : Walk = record w' { ctx = record w.ctx { services = services } } in
        let fewer = one_fewer name w.ctx.services services sid fresh after in
        let idle_kept : Keeps w idle = record {
          sound = record {
            packed = after.0;
            order = sound.order;
            unused = sound.unused;
            order_is = sound.order_is;
            has_place = omega (arith, fewer, sound.has_place);
          };
          no_more = omega (arith, fewer);
        } in
        let kept = placed-Keeps root name dependent w services sid sound fresh after in
        let deps =
          load_dependencies root (λ n. load n (some sid)) (entries_of (root.service_dir name)) w' in
        let failed : Walked = (w', throw (could_not_load_service name no_directory_stream)) in
        Keeps-if w (srv services sid).disabled (idle, ok tt)
          (if not (root.opens name) then failed else deps) idle_kept
          (Keeps-if w (not (root.opens name)) failed deps kept (
            Keeps-trans w w' deps.0 kept (
              load_dependencies-Keeps (λ n. load n (some sid)) (λ n w'' s. keeps n (some sid) w'' s)
                (entries_of (root.service_dir name)) w' kept.sound)))

    visit_found-Keeps :
        (name : Bytes) (dependent : Option ℕ) (w : Walk) (o : Option ℕ)
        → name ≢ []
        → IsSound w.ctx
        → find_service w.ctx.services name ≡ o
        → Keeps w (visit_found root load name dependent w o).0
    unfolding visit_found
    visit_found-Keeps name dependent w (some sid) named sound found = Keeps-refl w sound
    visit_found-Keeps name dependent w none named sound fresh =
        let r = load_service w.ctx root.service_dir name in
        visit_loaded-Keeps name dependent w r.0 r.1 sound fresh
          (load_service-AfterLoad w.ctx root.service_dir name named sound.packed)

    visit-Keeps :
        (name : Bytes) (dependent : Option ℕ) (w : Walk)
        → IsSound w.ctx
        → Keeps w (visit root load name dependent w).0
    unfolding visit
    visit-Keeps [] dependent w sound = Keeps-refl w sound
    visit-Keeps (c ∷ name) dependent w sound =
        visit_found-Keeps (c ∷ name) dependent w (find_service w.ctx.services (c ∷ name)) (λ e. cc)
          sound refl

-- Loading a service and all that it depends on, however the load ends, keeps the used entries of
-- the table together and the start order well-formed: some services, then places that are not used,
-- at least as many as the table has unused entries, so that no service is ever lost from a full
-- order.
pub load_service_with_deps-Keeps :
    (root : Root) (fuel : ℕ) (name : Bytes) (dependent : Option ℕ) (w : Walk)
    → IsSound w.ctx
    → Keeps w (load_service_with_deps root fuel name dependent w).0
unfolding load_service_with_deps
load_service_with_deps-Keeps root zero name dependent w sound =
    visit-Keeps root (λ n d w'. (w', throw too_many_services)) (λ n d w' s. Keeps-refl w' s) name
      dependent w sound
load_service_with_deps-Keeps root (suc fuel) name dependent w sound =
    visit-Keeps root (load_service_with_deps root fuel)
      (λ n d w' s. load_service_with_deps-Keeps root fuel n d w' s) name dependent w sound
