-- ===== src/Order/Insertion.antt =====
-- The place that a service takes in the start order.
use docker_baseimage.Base.{
  ℕ, zero, suc, ◌==◌, ==_iff, ==_refl, ◌≡◌, ◌≢◌, refl, ap, ◌⊎◌, inl, inr, true, false, List, [],
  ◌∷◌, ◌++◌, Option, none, some, map, replicate, All, Bool-cases, arith,
}
use docker_baseimage.Order.{is_service, move_right, add_to_start_order}

-- The start order that holds the given services in its first places.
abbrev pub order_of : List ℕ → ℕ → List (Option ℕ)
order_of l unused = map some l ++ replicate unused none

-- The services after the insertion: in the same order, with the new one directly before the
-- service that needs it, or at the end where that one is not in the list.
pub record Inserted (l : List ℕ) (unused service : ℕ) (before_service : Option ℕ) : Type 0 where
  pub earlier : List ℕ
  pub later : List ℕ
  pub parts : l ≡ earlier ++ later
  pub inserted :
      add_to_start_order (order_of l (suc unused)) service before_service
      ≡ order_of (earlier ++ service ∷ later) unused
  pub none_earlier : All (λ a. before_service ≢ some a) earlier
  pub directly :
      (later ≡ []) ⊎ ((b : ℕ) × (rest : List ℕ) × (before_service ≡ some b) × (later ≡ b ∷ rest))

move_right-replicate : (k : ℕ) → move_right none (replicate k none) ≡ replicate k none
unfolding move_right
move_right-replicate zero = refl
move_right-replicate (suc k) = ap (◌∷◌ none) (move_right-replicate k)

-- The entry that falls out at the end was not used.
move_right-order :
    (o : Option ℕ) (l : List ℕ) (k : ℕ) → move_right o (order_of l (suc k)) ≡ o ∷ order_of l k
unfolding move_right
move_right-order o [] k = ap (◌∷◌ o) (move_right-replicate k)
move_right-order o (a ∷ l) k = ap (◌∷◌ o) (move_right-order (some a) l k)

is_service_iff : (a : ℕ) (o : Option ℕ) → is_service (some a) o ≡ true → o ≡ some a
is_service_iff a none h = cc
is_service_iff a (some b) h = ground (arith, h)

is_service-false : (a : ℕ) (o : Option ℕ) → is_service (some a) o ≡ false → o ≢ some a
is_service-false a none h e = cc
is_service-false a (some b) h e = let same : b ≡ a = cc in ground (arith, h, same)

-- Where a place is left, a service is added directly before the service that needs it, at its
-- first occurrence, or at the end where that one is not in the order; the others keep their order
-- and none is lost.
pub add_to_start_order-Inserted :
    (l : List ℕ) (unused service : ℕ) (before_service : Option ℕ)
    → Inserted l unused service before_service
unfolding add_to_start_order
add_to_start_order-Inserted [] unused service before_service = record {
  earlier = [];
  later = [];
  parts = refl;
  inserted = refl;
  none_earlier = tt;
  directly = inl refl;
}
add_to_start_order-Inserted (a ∷ l) unused service before_service =
    elim (Bool-cases (is_service (some a) before_service)) [
      | inl here ↦ record {
        earlier = [];
        later = a ∷ l;
        parts = refl;
        inserted = rw (here) (ap (◌∷◌ (some service)) (move_right-order (some a) l unused));
        none_earlier = tt;
        directly = inr (a, l, is_service_iff a before_service here, refl);
      }
      | inr further ↦
          let rest = add_to_start_order-Inserted l unused service before_service in
          record {
            earlier = a ∷ rest.earlier;
            later = rest.later;
            parts = ap (◌∷◌ a) rest.parts;
            inserted = rw (further) (ap (◌∷◌ (some a)) rest.inserted);
            none_earlier = (is_service-false a before_service further, rest.none_earlier);
            directly = rest.directly;
          }
    ]

-- The dependent's first place is where the rest of the order begins.
pub add_to_start_order-boundary :
    (done rest : List ℕ) (unused service dependent : ℕ)
    → All (λ a. a ≢ dependent) done
    → add_to_start_order (order_of (done ++ dependent ∷ rest) (suc unused)) service (some dependent)
      ≡ order_of (done ++ service ∷ dependent ∷ rest) unused
unfolding add_to_start_order
add_to_start_order-boundary [] rest unused service dependent h =
    rw (==_refl dependent) (ap (◌∷◌ (some service)) (move_right-order (some dependent) rest unused))
add_to_start_order-boundary (a ∷ done) rest unused service dependent h =
    elim (Bool-cases (a == dependent)) [
      | inl here ↦ absurd (h.0 ((==_iff a dependent).0 here))
      | inr further ↦
          rw (further)
            (ap (◌∷◌ (some a)) (add_to_start_order-boundary done rest unused service dependent h.1))
    ]

pub add_to_start_order-end :
    (done : List ℕ) (unused service : ℕ)
    → add_to_start_order (order_of done (suc unused)) service none
      ≡ order_of (done ++ service ∷ []) unused
unfolding add_to_start_order
add_to_start_order-end [] unused service = refl
add_to_start_order-end (a ∷ done) unused service =
    ap (◌∷◌ (some a)) (add_to_start_order-end done unused service)
