-- ===== src/Deps/Dependents.antt =====
-- The walk of `load_service_with_deps`: what it adds to the start order, and where.
use docker_baseimage.Base.{
  ℕ, ◌≡◌, ◌⊎◌, inl, inr, Bool, true, false, List, [], ◌∷◌, ◌++◌, Option, none, some, if◌then◌else◌,
}
use docker_baseimage.Text.{Bytes}
use docker_baseimage.Exception.{Result, ok, throw}
use docker_baseimage.Values.{load_value_as_bool}
use docker_baseimage.Service.{find_service}
use docker_baseimage.Load.{DirEntry}
use docker_baseimage.Deps.{
  Root, Walk, Walked, is_skipped, proceed, without_suffix, load_dependency, load_dependencies,
}
use docker_baseimage.Deps.Ordered.{
  name_at, entry, IsListed, Adds, IsBoundary, Adds-refl, Adds-trans, IsBoundary-append,
}

-- A loop over dependencies that ended normally added services before the dependent.
abbrev pub AddsAll : Walk → List ℕ → List ℕ → Walked → Type 0
AddsAll w done path (w', ok u) = (new : List ℕ) × Adds w w' done path new
AddsAll w done path (w', throw e) = Unit {0}

-- Why a load adds nothing: the service was in the table before, or it is disabled (and in the table now).
abbrev pub IsNotAdded : Bytes → Walk → Walk → Type 0
IsNotAdded name w w' =
    ((sid : ℕ) × (find_service w.ctx.services name ≡ some sid))
    ⊎ ((find_service w.ctx.services name ≡ none)
        × (sid : ℕ) × (name_at w' sid ≡ name)
        × ((entry w' sid).disabled ≡ true))

-- A load that ended normally added nothing, for one of these reasons, or it added the services loaded for
-- it and then the service of that name, which was not in the table.
abbrev pub AddsService : Bytes → Walk → List ℕ → List ℕ → Walked → Type 0
AddsService name w done path (w', ok u) =
    (Adds w w' done path [] × IsNotAdded name w w')
    ⊎ ((deps : List ℕ) × (sid : ℕ) × Adds w w' done path (deps ++ sid ∷ [])
        × (name_at w' sid ≡ name)
        × (find_service w.ctx.services name ≡ none))
AddsService name w done path (w', throw e) = Unit {0}

AddsService-AddsAll :
    (name : Bytes) (w : Walk) (done path : List ℕ) (r : Walked)
    → AddsService name w done path r
    → AddsAll w done path r
AddsService-AddsAll name w done path (w', ok u) (inl (h, why)) = ([], h)
AddsService-AddsAll name w done path (w', ok u) (inr (deps, sid, h, e, fresh)) =
    (deps ++ sid ∷ [], h)
AddsService-AddsAll name w done path (w', throw e) h = tt

-- The part before, and then the rest.
AddsAll-after :
    (w w' : Walk) (done path new : List ℕ) (r : Walked)
    → Adds w w' done path new
    → AddsAll w' (done ++ new) path r
    → AddsAll w done path r
AddsAll-after w w' done path new (w'', ok u) h (more, k) =
    (new ++ more, Adds-trans w w' w'' done path new more h k)
AddsAll-after w w' done path new (w'', throw e) h k = tt

module _ (root : Root) (path : List ℕ) (dependent : Option ℕ) where
  -- What is assumed of a function that loads one service, or goes on with a loop.
  abbrev pub LoadsService : (Bytes → Walk → Walked) → Type 0
  LoadsService load =
      (name : Bytes) (w : Walk) (done : List ℕ)
      → IsListed w (done ++ path)
      → IsBoundary done path dependent
      → AddsService name w done path (load name w)

  abbrev Continues : (Walk → Walked) → Type 0
  Continues next =
      (w : Walk) (done : List ℕ)
      → IsListed w (done ++ path)
      → IsBoundary done path dependent
      → AddsAll w done path (next w)

  proceed-AddsAll :
      (next : Walk → Walked) (w : Walk) (done : List ℕ) (r : Walked)
      → Continues next
      → IsListed w (done ++ path)
      → IsBoundary done path dependent
      → AddsAll w done path r
      → AddsAll w done path (proceed next r)
  proceed-AddsAll next w done (w', throw e) h listed b k = tt
  proceed-AddsAll next w done (w', ok u) h listed b (new, k) =
      AddsAll-after w w' done path new (next w') k (
        h w' (done ++ new) k.listed
          (IsBoundary-append w done path new dependent listed k.were_free b))

  load_dependency-AddsAll :
      (load : Bytes → Walk → Walked) (next : Walk → Walked) (name : Bytes)
      (r : Result (Bool × Bool)) (w : Walk) (done : List ℕ)
      → LoadsService load
      → Continues next
      → IsListed w (done ++ path)
      → IsBoundary done path dependent
      → AddsAll w done path (load_dependency load next name r w)
  unfolding load_dependency
  load_dependency-AddsAll load next name (throw e) w done h k listed b = tt
  load_dependency-AddsAll load next name (ok (is_set, false)) w done h k listed b =
      k w done listed b
  load_dependency-AddsAll load next name (ok (is_set, true)) w done h k listed b =
      let n = without_suffix name in
      proceed-AddsAll next w done (load n w) k listed b
        (AddsService-AddsAll n w done path (load n w) (h n w done listed b))

  pub load_dependencies-AddsAll :
      (load : Bytes → Walk → Walked) (es : List DirEntry) (w : Walk) (done : List ℕ)
      → LoadsService load
      → IsListed w (done ++ path)
      → IsBoundary done path dependent
      → AddsAll w done path (load_dependencies root load es w)
  unfolding load_dependencies
  load_dependencies-AddsAll load [] w done h listed b = ([], Adds-refl w done path listed)
  load_dependencies-AddsAll load (e ∷ es) w done h listed b =
      let next : Walk → Walked = λ w'. load_dependencies root load es w' in
      let value = load_value_as_bool w.files e.0 (root.depends e.0) in
      elim (is_skipped e)
        as (λ x.
          AddsAll w done path (if x then next w else load_dependency load next e.0 value w)) [
            | true ↦ load_dependencies-AddsAll load es w done h listed b
            | false ↦
                load_dependency-AddsAll load next e.0 value w done h
                  (λ w' done' l b'. load_dependencies-AddsAll load es w' done' h l b') listed b
          ]
