-- ===== src/Service/Table.antt =====
-- The used entries of the service table come first, and the searches agree with that.
use docker_baseimage.Base.{
  ℕ, suc, if◌then◌else◌, ◌+◌, ◌<◌, ◌≡◌, refl, subst, inl, inr, ◌⊎◌, Bool, true, Bool-cases, List,
  [], ◌∷◌, ◌≢◌, ◌↔◌, none, some, arith, length, get_or, set, All,
}
use docker_baseimage.Text.{Bytes, bytes_eq}
use docker_baseimage.Service.{
  Service, cleared, is_empty, find_from, find_service, alloc_from, alloc_service_index,
  unload_service, srv,
}

-- No used entry stands behind an unused one.
abbrev pub AllUnused : List Service → Type 0
AllUnused = All (λ s. s.name ≡ [])

abbrev pub IsPacked : List Service → Type 0
IsPacked [] = Unit {0}
IsPacked (s ∷ ss) = (s.name ≢ []) × IsPacked ss ⊎ (s.name ≡ []) × AllUnused ss

pub bytes_eq_iff : (a b : Bytes) → (bytes_eq a b ≡ true) ↔ (a ≡ b)
bytes_eq_iff [] [] = ground arith
bytes_eq_iff [] (y ∷ b) = ground arith
bytes_eq_iff (x ∷ a) [] = ground arith
bytes_eq_iff (x ∷ a) (y ∷ b) = ground (arith, bytes_eq_iff a b)

AllUnused-IsPacked : (ss : List Service) → AllUnused ss → IsPacked ss
AllUnused-IsPacked [] h = tt
AllUnused-IsPacked (s ∷ ss) h = inr h

Bytes-cases : (s : Bytes) → (s ≡ []) ⊎ ((c : ℕ) × (t : Bytes) × (s ≡ c ∷ t))
Bytes-cases [] = inl refl
Bytes-cases (c ∷ t) = inr (c, t, refl)

IsPacked-tail : (s : Service) (ss : List Service) → IsPacked (s ∷ ss) → IsPacked ss
IsPacked-tail s ss (inl (a, b)) = b
IsPacked-tail s ss (inr (a, b)) = AllUnused-IsPacked ss b

AllUnused-head : (s : Service) (ss : List Service) → s.name ≡ [] → IsPacked (s ∷ ss) → AllUnused ss
AllUnused-head s ss e (inl (a, b)) = absurd (a e)
AllUnused-head s ss e (inr (a, b)) = b

-- The number of unused entries.
abbrev pub num_unused : List Service → ℕ
num_unused [] = 0
num_unused (s ∷ ss) = (if is_empty s.name then 1 else 0) + num_unused ss

-- The place that `alloc_from` finds: unused, with no unused place before it.
pub record Place (ss : List Service) (i sid : ℕ) (v : Service) : Type 0 where
  pub index : ℕ
  pub index_is : sid ≡ i + index
  pub in_range : index < length ss
  pub was_unused : (get_or ss index cleared).name ≡ []
  pub packed : IsPacked (set ss index v)
  pub fewer : num_unused ss ≡ suc (num_unused (set ss index v))
  pub found : find_from (λ s. bytes_eq s.name v.name) i (set ss index v) ≡ some sid

module _ (v : Service) (named : v.name ≢ []) where
  alloc_from-Place :
      (ss : List Service) (i sid : ℕ)
      → IsPacked ss
      → find_from (λ s. bytes_eq s.name v.name) i ss ≡ none
      → alloc_from i ss ≡ some sid
      → Place ss i sid v
  unfolding alloc_from find_from
  alloc_from-Place [] i sid h none_before e = cc
  alloc_from-Place (s ∷ ss) i sid h none_before e = elim (Bytes-cases s.name) [
    | inl unused ↦
        let here : i ≡ sid = ground (arith, unused, e) in
        let fresh = (bytes_eq_iff v.name v.name).1 refl in
        record {
          index = 0;
          index_is = omega arith;
          in_range = omega arith;
          was_unused = unused;
          packed = inl (named, AllUnused-IsPacked ss (AllUnused-head s ss unused h));
          fewer = ground (arith, unused, named, Bytes-cases v.name);
          found = ground (arith, fresh, here, named, Bytes-cases v.name);
        }
    | inr (c, t, used) ↦
        let rest =
          alloc_from-Place ss (suc i) sid (IsPacked-tail s ss h) (ground (arith, used, none_before))
            (ground (arith, used, e)) in
        record {
          index = suc rest.index;
          index_is = omega (arith, rest.index_is);
          in_range = omega (arith, rest.in_range);
          was_unused = rest.was_unused;
          packed = inl (λ empty. cc, rest.packed);
          fewer = ground (arith, used, rest.fewer);
          found = ground (arith, used, none_before, rest.found);
        }
  ]

  -- Where a packed table has an unused entry and no service of a name that is not empty, putting a
  -- service of that name into the entry that `alloc_service_index` returns keeps the table packed,
  -- overwrites no service, and makes the service the one that `find_service` finds under the name.
  pub alloc_service_index-Place :
      (ss : List Service) (sid : ℕ)
      → IsPacked ss
      → find_service ss v.name ≡ none
      → alloc_service_index ss ≡ some sid
      → Place ss 0 sid v
  unfolding alloc_service_index find_service
  alloc_service_index-Place ss sid h none_before e = alloc_from-Place ss 0 sid h none_before e

-- Clearing the entry that was just allocated again changes no search.
record Cleared (ss : List Service) (i sid : ℕ) : Type 0 where
  pub index : ℕ
  pub index_is : sid ≡ i + index
  pub packed : IsPacked (set ss index cleared)
  pub as_many : num_unused (set ss index cleared) ≡ num_unused ss
  pub found :
      (test : Service → Bool) → find_from test i (set ss index cleared) ≡ find_from test i ss

alloc_from-Cleared :
    (ss : List Service) (i sid : ℕ) → IsPacked ss → alloc_from i ss ≡ some sid → Cleared ss i sid
unfolding alloc_from find_from
alloc_from-Cleared [] i sid h e = cc
alloc_from-Cleared (s ∷ ss) i sid h e = elim (Bytes-cases s.name) [
  | inl unused ↦
      let here : i ≡ sid = ground (arith, unused, e) in
      record {
        index = 0;
        index_is = omega arith;
        packed = inr (refl, AllUnused-head s ss unused h);
        as_many = ground (arith, unused);
        found = λ test. ground (arith, unused);
      }
  | inr (c, t, used) ↦
      let rest =
        alloc_from-Cleared ss (suc i) sid (IsPacked-tail s ss h) (ground (arith, used, e)) in
      record {
        index = suc rest.index;
        index_is = omega (arith, rest.index_is);
        packed = inl (λ empty. cc, rest.packed);
        as_many = ground (arith, rest.as_many);
        found = λ test. ground (arith, used, rest.found test);
      }
]

pub unload_service-Cleared :
    (ss : List Service) (sid : ℕ)
    → IsPacked ss
    → alloc_service_index ss ≡ some sid
    → IsPacked (unload_service ss sid)
      × (num_unused (unload_service ss sid) ≡ num_unused ss)
      × ((name : Bytes) → find_service (unload_service ss sid) name ≡ find_service ss name)
unfolding alloc_service_index unload_service find_service
unload_service-Cleared ss sid h e =
    let c = alloc_from-Cleared ss 0 sid h e in
    let here : c.index ≡ sid = omega (arith, c.index_is) in
    (
      subst (λ i. IsPacked (set ss i cleared)) here c.packed,
      subst (λ i. num_unused (set ss i cleared) ≡ num_unused ss) here c.as_many,
      λ name.
          subst
            (λ i.
              find_from (λ s. bytes_eq s.name name) 0 (set ss i cleared)
              ≡ find_from (λ s. bytes_eq s.name name) 0 ss)
            here (c.found (λ s. bytes_eq s.name name)),
    )

record Found (test : Service → Bool) (ss : List Service) (i sid : ℕ) : Type 0 where
  pub index : ℕ
  pub index_is : sid ≡ i + index
  pub passes : test (get_or ss index cleared) ≡ true

find_from-Found :
    (test : Service → Bool) (ss : List Service) (i sid : ℕ)
    → find_from test i ss ≡ some sid
    → Found test ss i sid
unfolding find_from
find_from-Found test [] i sid e = cc
find_from-Found test (s ∷ ss) i sid e = elim (Bytes-cases s.name) [
  | inl unused ↦ cc
  | inr (c, t, used) ↦ elim (Bool-cases (test s)) [
    | inl passes ↦
        let here : i ≡ sid = ground (arith, used, passes, e) in
        record { index = 0; index_is = omega arith; passes = passes }
    | inr fails ↦
        let rest = find_from-Found test ss (suc i) sid (ground (arith, used, fails, e)) in
        record {
          index = suc rest.index;
          index_is = omega (arith, rest.index_is);
          passes = rest.passes;
        }
  ]
]

-- The service that is found has the name.
pub find_service-name :
    (ss : List Service) (name : Bytes) (sid : ℕ)
    → find_service ss name ≡ some sid
    → (srv ss sid).name ≡ name
unfolding find_service
find_service-name ss name sid e =
    let f = find_from-Found (λ s. bytes_eq s.name name) ss 0 sid e in
    let here : f.index ≡ sid = omega (arith, f.index_is) in
    subst (λ i. (get_or ss i cleared).name ≡ name) here
      ((bytes_eq_iff (get_or ss f.index cleared).name name).0 f.passes)
