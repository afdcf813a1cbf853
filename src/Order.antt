-- ===== src/Order.antt =====
-- The start order of src/cinit/cinit.c: `add_to_start_order`.
pub mod Insertion
use docker_baseimage.Base.{
  ℕ, zero, suc, ◌+◌, ◌≤◌, ◌<◌, ◌≡◌, ◌≢◌, refl, sym, ap, ◌∙◌, inl, inr, Bool, true, false, List, [],
  ◌∷◌, ◌++◌, Option, none, some, ◌==◌, ==_iff, ==_refl, if◌then◌else◌, length, map, replicate, All,
  Bool-cases, arith,
}

-- An entry equals a service index: a place that is not used (-1) is no service.
abbrev pub is_service : Option ℕ → Option ℕ → Bool
is_service none none = true
is_service none (some b) = false
is_service (some a) none = false
is_service (some a) (some b) = a == b

-- The inner loop: every entry moves to the right by one position, and the last one is lost.
pub move_right : Option ℕ → List (Option ℕ) → List (Option ℕ)
move_right o [] = []
move_right o (p ∷ ps) = o ∷ move_right p ps

unfoldable pub add_to_start_order : List (Option ℕ) → ℕ → Option ℕ → List (Option ℕ)
unfolding move_right
add_to_start_order [] service before_service = []
add_to_start_order (none ∷ os) service before_service = some service ∷ os
add_to_start_order (some o ∷ os) service before_service =
    let rest = add_to_start_order os service before_service in
    if is_service (some o) before_service
    then move_right (some service) (some o ∷ os)
    else some o ∷ rest
