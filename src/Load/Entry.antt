-- ===== src/Load/Entry.antt =====
-- What `load_service` leaves of the service table.
use docker_baseimage.Base.{
  ℕ, suc, ◌<◌, ◌≡◌, ◌≢◌, refl, sym, ap, ◌∙◌, subst, Bool, true, false, List, [], Option, none, some,
  leb, if◌then◌else◌, length, set, get_or-set_self, set-get_or, arith,
}
use docker_baseimage.Text.{Bytes, bytes_eq}
use docker_baseimage.Exception.{Result, ok, throw, name_too_long}
use docker_baseimage.Service.{
  Service, Context, cleared, find_from, find_service, alloc_service_index, srv,
}
use docker_baseimage.Service.Table.{
  IsPacked, num_unused, alloc_service_index-Place, unload_service-Cleared,
}
use docker_baseimage.Load.{
  ServiceDir, fill_service, store_service, add_at, add_service, load_or_find, load_service,
  name_size,
}
use docker_baseimage.Load.Settings.{fill_service-IsLoaded}

-- With the entry that a load takes: one where the service was not in the table yet.
abbrev pub and_taken : Option ℕ → ℕ → ℕ
and_taken none n = suc n
and_taken (some sid) n = n

-- The entry that a load takes was not used.
abbrev pub WasFree : Option ℕ → Service → Type 0
WasFree none s = s.name ≡ []
WasFree (some sid) s = Unit {0}

-- The table after a service was loaded, or after the load failed.
abbrev pub AfterLoad : List Service → Bytes → List Service → Result ℕ → Type 0
AfterLoad before name after (ok sid) =
    IsPacked after
    × (find_service after name ≡ some sid)
    × (after ≡ set before sid (srv after sid))
    × (num_unused before ≡ and_taken (find_service before name) (num_unused after))
    × WasFree (find_service before name) (srv before sid)
AfterLoad before name after (throw e) =
    IsPacked after
    × (num_unused after ≡ num_unused before)
    × ((other : Bytes) → find_service after other ≡ find_service before other)

store_service-AfterLoad :
    (ctx : Context) (dir : ServiceDir) (name : Bytes) (sid : ℕ) (r : Result Service)
    → name ≢ []
    → IsPacked ctx.services
    → find_service ctx.services name ≡ none
    → alloc_service_index ctx.services ≡ some sid
    → fill_service ctx dir name ≡ r
    → AfterLoad ctx.services name (store_service ctx sid r).0 (store_service ctx sid r).1
unfolding store_service find_service
store_service-AfterLoad ctx dir name sid (throw m) named packed fresh free e =
    unload_service-Cleared ctx.services sid packed free
store_service-AfterLoad ctx dir name sid (ok s) named packed fresh free e =
    let loaded = fill_service-IsLoaded ctx dir name s e in
    let is_named : s.name ≢ [] = λ h. named (sym loaded.named ∙ h) in
    let fresh' : find_service ctx.services s.name ≡ none =
      subst (λ n. find_service ctx.services n ≡ none) (sym loaded.named) fresh in
    let place = alloc_service_index-Place s is_named ctx.services sid packed fresh' free in
    let here : place.index ≡ sid = omega (arith, place.index_is) in
    let in_range : sid < length ctx.services = omega (arith, place.in_range) in
    (
      subst (λ i. IsPacked (set ctx.services i s)) here place.packed,
      subst (λ i. find_from (λ e. bytes_eq e.name name) 0 (set ctx.services i s) ≡ some sid) here
          (subst
            (λ n. find_from (λ e. bytes_eq e.name n) 0 (set ctx.services place.index s) ≡ some sid)
            loaded.named place.found),
      ap (set ctx.services sid) (sym (get_or-set_self ctx.services sid s cleared in_range)),
      subst
          (λ i.
            num_unused ctx.services
            ≡ and_taken (find_service ctx.services name) (num_unused (set ctx.services i s)))
          here (rw (fresh) place.fewer),
      rw (fresh) (subst (λ i. (srv ctx.services i).name ≡ []) here place.was_unused),
    )

module _ (ctx : Context) (name : Bytes) (named : name ≢ []) (packed : IsPacked ctx.services)
    (fresh : find_service ctx.services name ≡ none) where
  add_at-AfterLoad :
      (dir : ServiceDir) (o : Option ℕ)
      → alloc_service_index ctx.services ≡ o
      → AfterLoad ctx.services name (add_at ctx dir name o).0 (add_at ctx dir name o).1
  unfolding add_at
  add_at-AfterLoad dir none full = (packed, refl, λ other. refl)
  add_at-AfterLoad dir (some sid) free =
      store_service-AfterLoad ctx dir name sid (fill_service ctx dir name) named packed fresh free
        refl

  add_service-AfterLoad :
      (dir : Option ServiceDir)
      → AfterLoad ctx.services name (add_service ctx dir name).0 (add_service ctx dir name).1
  unfolding add_service
  add_service-AfterLoad none = (packed, refl, λ other. refl)
  add_service-AfterLoad (some dir) = add_at-AfterLoad dir (alloc_service_index ctx.services) refl

load_or_find-AfterLoad :
    (ctx : Context) (dirs : Bytes → Option ServiceDir) (name : Bytes) (o : Option ℕ)
    → name ≢ []
    → IsPacked ctx.services
    → find_service ctx.services name ≡ o
    → AfterLoad ctx.services name (load_or_find ctx dirs name o).0 (load_or_find ctx dirs name o).1
unfolding load_or_find
load_or_find-AfterLoad ctx dirs name (some sid) named packed found = (
  packed,
  found,
  sym (set-get_or ctx.services sid cleared),
  ap (λ o. and_taken o (num_unused ctx.services)) (sym found),
  rw (found) tt,
)
load_or_find-AfterLoad ctx dirs name none named packed fresh =
    let after : Bool → List Service × Result ℕ =
      λ b. if b then (ctx.services, throw name_too_long) else add_service ctx (dirs name) name in
    elim (leb name_size (length name))
      as (λ b. AfterLoad ctx.services name (after b).0 (after b).1) [
        | true ↦ (packed, refl, λ other. refl)
        | false ↦ add_service-AfterLoad ctx name named packed fresh (dirs name)
      ]

-- Loading a service, of a name that is not empty, keeps the used entries of a packed table
-- together. When it succeeds, its result is the index under which the table has the name, every
-- other entry is as before, and an entry that was not used is taken exactly where the name was not
-- in the table. When it fails, on whichever branch, every search by name gives what it gave before
-- and no entry is taken.
pub load_service-AfterLoad :
    (ctx : Context) (dirs : Bytes → Option ServiceDir) (name : Bytes)
    → name ≢ []
    → IsPacked ctx.services
    → AfterLoad ctx.services name (load_service ctx dirs name).0 (load_service ctx dirs name).1
unfolding load_service
load_service-AfterLoad ctx dirs name named packed =
    load_or_find-AfterLoad ctx dirs name (find_service ctx.services name) named packed refl

-- A service that was loaded is found the next time: the second load, whatever the directories then
-- hold, gives the same index and changes nothing.
pub load_service_again :
    (ctx : Context) (dirs dirs' : Bytes → Option ServiceDir) (name : Bytes)
    (services : List Service) (sid : ℕ)
    → name ≢ []
    → IsPacked ctx.services
    → load_service ctx dirs name ≡ (services, ok sid)
    → load_service (record ctx { services = services }) dirs' name ≡ (services, ok sid)
unfolding load_service load_or_find
load_service_again ctx dirs dirs' name services sid named packed e =
    let after =
      subst (λ (r : List Service × Result ℕ). AfterLoad ctx.services name r.0 r.1) e
        (load_service-AfterLoad ctx dirs name named packed) in
    rw (after.1) refl
