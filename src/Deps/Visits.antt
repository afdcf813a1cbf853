-- ===== src/Deps/Visits.antt =====
-- The start order after `load_service_with_deps`.
use docker_baseimage.Base.{
  ℕ, zero, suc, ◌≤◌, ◌≡◌, ◌≢◌, refl, sym, ap, ◌∙◌, subst, inl, inr, Bool, true, false, not, List,
  [], ◌∷◌, ◌++◌, append-nil, append_assoc, Option, none, some, if◌then◌else◌, ◌==◌, ==_iff,
  get_or-set_ne, All, All-append, Bool-cases, arith,
}
use docker_baseimage.Text.{Bytes}
use docker_baseimage.Exception.{
  Result, ok, throw, could_not_load_service, no_directory_stream, too_many_services,
}
use docker_baseimage.Service.{Service, cleared, find_service, srv}
use docker_baseimage.Service.Table.{num_unused, find_service-name}
use docker_baseimage.Load.{load_service}
use docker_baseimage.Load.Entry.{AfterLoad, WasFree, load_service-AfterLoad}
use docker_baseimage.Order.{add_to_start_order}
use docker_baseimage.Order.Insertion.{order_of, add_to_start_order-boundary, add_to_start_order-end}
use docker_baseimage.Deps.{
  Root, Walk, Walked, load_dependencies, entries_of, visit_loaded, visit_found, visit,
  load_service_with_deps,
}
use docker_baseimage.Deps.Packed.{placed, one_fewer}
use docker_baseimage.Deps.Ordered.{
  name_at, IsEnabled, name_kept, IsEnabled-kept, IsListed, KeepsEntries, Adds, IsBoundary,
  All-weaken, All-front, All-back, free_before, KeepsEntries-trans, Adds-refl,
}
-- A loop over dependencies that ended normally added services before the dependent.
use docker_baseimage.Deps.Dependents.{AddsAll, AddsService, LoadsService, load_dependencies-AddsAll}

known_after :
    (w w' : Walk) (l : List ℕ)
    → KeepsEntries w w'
    → All (λ sid. name_at w sid ≢ []) l
    → All (λ sid. name_at w' sid ≢ []) l
known_after w w' l kept h =
    All-weaken (λ sid. name_at w sid ≢ []) (λ sid. name_at w' sid ≢ []) l
      (λ sid known e. known (free_before w w' sid kept e)) h

add_at_boundary :
    (places : List (Option ℕ)) (done path : List ℕ) (dependent : Option ℕ) (unused n sid : ℕ)
    → places ≡ order_of (done ++ path) unused
    → suc n ≤ unused
    → IsBoundary done path dependent
    → (k : ℕ) × (add_to_start_order places sid dependent ≡ order_of (done ++ sid ∷ path) k)
      × (n ≤ k)
add_at_boundary places done path dependent zero n sid e h b = absurd (omega arith)
add_at_boundary places done [] (some q) (suc k) n sid e h b = absurd b
add_at_boundary places done (p ∷ path) none (suc k) n sid e h b = absurd b
add_at_boundary places done [] none (suc k) n sid e h b = (
  k,
  ap (λ l. add_to_start_order l sid none) (e ∙ ap (λ l. order_of l (suc k)) (append-nil done))
      ∙ add_to_start_order-end done k sid,
  omega arith,
)
add_at_boundary places done (p ∷ path) (some q) (suc k) n sid e h b = (
  k,
  ap (λ l. add_to_start_order l sid (some q))
        (e ∙ ap (λ x. order_of (done ++ x ∷ path) (suc k)) b.0)
      ∙ add_to_start_order-boundary done path k sid q b.1
      ∙ ap (λ x. order_of (done ++ sid ∷ x ∷ path) k) (sym b.0),
  omega arith,
)

-- The facts on the table after a service was put into a free entry.
module _ (w w' : Walk) (name : Bytes) (sid : ℕ) (named : name ≢ [])
    (fresh : find_service w.ctx.services name ≡ none)
    (after : AfterLoad w.ctx.services name w'.ctx.services (ok sid)) where
  was_free : name_at w sid ≡ []
  was_free = subst (λ o. WasFree o (srv w.ctx.services sid)) fresh after.4

  has_name : name_at w' sid ≡ name
  has_name = find_service-name w'.ctx.services name sid after.1

  others_kept : KeepsEntries w w'
  others_kept x = elim (Bool-cases (sid == x)) [
    | inl same ↦ inl (subst (λ i. name_at w i ≡ []) ((==_iff sid x).0 same) was_free)
    | inr other ↦ inr (
        ap (λ l. srv l x) after.2
        ∙ get_or-set_ne w.ctx.services sid x (srv w'.ctx.services sid) cleared
            (λ e. ground (arith, other, e)))
  ]

  is_named : name_at w' sid ≢ []
  is_named e = named (sym has_name ∙ e)

  -- The services loaded for it stand before it.
  add_itself :
      (done path : List ℕ) (r : Walked)
      → IsEnabled w' sid
      → AddsAll w' done (sid ∷ path) r
      → AddsService name w done path r
  add_itself done path (w'', throw e) enabled h = tt
  add_itself done path (w'', ok u) enabled (deps, h) =
      let same : (done ++ deps) ++ sid ∷ path ≡ (done ++ (deps ++ sid ∷ [])) ++ path =
        append_assoc done deps (sid ∷ path)
        ∙ ap (◌++◌ done) (sym (append_assoc deps (sid ∷ []) path))
        ∙ sym (append_assoc done (deps ++ sid ∷ []) path) in
      inr (
        deps,
        sid,
        record {
          listed = subst (IsListed w'') same h.listed;
          were_free =
              All-append (λ x. name_at w x ≡ []) deps (sid ∷ [])
                (All-weaken (λ x. name_at w' x ≡ []) (λ x. name_at w x ≡ []) deps
                  (λ x e. free_before w w' x others_kept e) h.were_free)
                (was_free, tt);
          enabled =
              All-append (IsEnabled w'') deps (sid ∷ []) h.enabled
                (IsEnabled-kept w' w'' sid h.kept is_named enabled, tt);
          kept = KeepsEntries-trans w w' w'' others_kept h.kept;
        },
        elim (h.kept sid) [
          | inl free ↦ absurd (is_named free)
          | inr still ↦ name_kept w' w'' sid still ∙ has_name
        ],
        fresh,
      )

AddsService-if :
    (name : Bytes) (w : Walk) (done path : List ℕ) (b : Bool) (x y : Walked)
    → (b ≡ true → AddsService name w done path x)
    → (b ≡ false → AddsService name w done path y)
    → AddsService name w done path (if b then x else y)
AddsService-if name w done path true x y h k = h refl
AddsService-if name w done path false x y h k = k refl

module _ (root : Root) (load : Bytes → Option ℕ → Walk → Walked)
    (loads : (path : List ℕ) (dependent : Option ℕ)
      → LoadsService root path dependent (λ name w. load name dependent w)) where
  visit_loaded-AddsService :
      (name : Bytes) (dependent : Option ℕ) (w : Walk) (services : List Service) (r : Result ℕ)
      (done path : List ℕ)
      → name ≢ []
      → IsListed w (done ++ path)
      → IsBoundary done path dependent
      → find_service w.ctx.services name ≡ none
      → AfterLoad w.ctx.services name services r
      → AddsService name w done path (visit_loaded root load name dependent w (services, r))
  unfolding visit_loaded
  visit_loaded-AddsService name dependent w services (throw e) done path named listed b fresh
        after =
      tt
  visit_loaded-AddsService name dependent w services (ok sid) done path named listed b fresh after =
      let w' = placed root name dependent w services sid in
      let idle : Walk = record w' { ctx = record w.ctx { services = services } } in
      let fewer = one_fewer name w.ctx.services services sid fresh after in
      let free = was_free w w' name sid named fresh after in
      let has = has_name w w' name sid named fresh after in
      let kept = others_kept w w' name sid named fresh after in
      let place =
        add_at_boundary w.ctx.start_order done path dependent listed.unused (num_unused services)
          sid listed.order_is (omega (arith, fewer, listed.has_place)) b in
      let known = known_after w w' (done ++ path) kept listed.known in
      let idle_adds : Adds w idle done path [] = record {
        listed =
            subst (λ l. IsListed idle (l ++ path)) (sym (append-nil done))
              (record {
                packed = after.0;
                unused = listed.unused;
                order_is = listed.order_is;
                has_place = omega (arith, fewer, listed.has_place);
                known = known;
              });
        were_free = tt;
        enabled = tt;
        kept = kept;
      } in
      let listed' : IsListed w' (done ++ sid ∷ path) = record {
        packed = after.0;
        unused = place.0;
        order_is = place.1;
        has_place = place.2;
        known =
            All-append (λ x. name_at w' x ≢ []) done (sid ∷ path)
              (All-front (λ x. name_at w' x ≢ []) done path known)
              (
                is_named w w' name sid named fresh after,
                All-back (λ x. name_at w' x ≢ []) done path known,
              );
      } in
      let apart : All (λ x. x ≢ sid) done =
        All-weaken (λ x. name_at w x ≢ []) (λ x. x ≢ sid) done
          (λ x h e. h (ap (name_at w) e ∙ free))
          (All-front (λ x. name_at w x ≢ []) done path listed.known) in
      let deps =
        load_dependencies root (λ n. load n (some sid)) (entries_of (root.service_dir name)) w' in
      let failed : Walked = (w', throw (could_not_load_service name no_directory_stream)) in
      AddsService-if name w done path (srv services sid).disabled (idle, ok tt)
        (if not (root.opens name) then failed else deps)
        (λ off. inl (idle_adds, inr (fresh, sid, has, off)))
        (λ on.
          AddsService-if name w done path (not (root.opens name)) failed deps (λ e. tt)
            (λ e. add_itself w w' name sid named fresh after done path deps on (
              load_dependencies-AddsAll root (sid ∷ path) (some sid) (λ n. load n (some sid))
                (entries_of (root.service_dir name)) w' done (loads (sid ∷ path) (some sid)) listed'
                (refl, apart))))

  visit_found-AddsService :
      (name : Bytes) (dependent : Option ℕ) (w : Walk) (o : Option ℕ) (done path : List ℕ)
      → name ≢ []
      → IsListed w (done ++ path)
      → IsBoundary done path dependent
      → find_service w.ctx.services name ≡ o
      → AddsService name w done path (visit_found root load name dependent w o)
  unfolding visit_found
  visit_found-AddsService name dependent w (some sid) done path named listed b found =
      inl (Adds-refl w done path listed, inl (sid, found))
  visit_found-AddsService name dependent w none done path named listed b fresh =
      let r = load_service w.ctx root.service_dir name in
      visit_loaded-AddsService name dependent w r.0 r.1 done path named listed b fresh
        (load_service-AfterLoad w.ctx root.service_dir name named listed.packed)

  visit-AddsService :
      (name : Bytes) (dependent : Option ℕ) (w : Walk) (done path : List ℕ)
      → IsListed w (done ++ path)
      → IsBoundary done path dependent
      → AddsService name w done path (visit root load name dependent w)
  unfolding visit
  visit-AddsService [] dependent w done path listed b = tt
  visit-AddsService (c ∷ name) dependent w done path listed b =
      visit_found-AddsService (c ∷ name) dependent w (find_service w.ctx.services (c ∷ name)) done
        path (λ e. cc) listed b refl

-- Dependencies stand before their dependents. Where the dependent is the first of the part `path`
-- of the start order (or there is neither), a load that ends normally leaves the order as it was, only
-- because the service was in the table before or because it is disabled; or the service was not in the
-- table, and the load puts between the part `done` and the dependent the services that were loaded on
-- the way, and behind these, directly before the dependent, the service itself. None of the services
-- that are put in was in the table before, and none is disabled; the entries of the table that were used
-- are as they were.
pub load_service_with_deps-AddsService :
    (root : Root) (fuel : ℕ) (name : Bytes) (dependent : Option ℕ) (w : Walk) (done path : List ℕ)
    → IsListed w (done ++ path)
    → IsBoundary done path dependent
    → AddsService name w done path (load_service_with_deps root fuel name dependent w)
unfolding load_service_with_deps
load_service_with_deps-AddsService root zero name dependent w done path listed b =
    visit-AddsService root (λ n d w'. (w', throw too_many_services)) (λ p d n w' done' l b'. tt)
      name dependent w done path listed b
load_service_with_deps-AddsService root (suc fuel) name dependent w done path listed b =
    visit-AddsService root (load_service_with_deps root fuel)
      (λ p d n w' done' l b'. load_service_with_deps-AddsService root fuel n d w' done' p l b') name
      dependent w done path listed b
