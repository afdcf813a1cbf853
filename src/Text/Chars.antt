-- ===== src/Text/Chars.antt =====
-- `remove_duplicated_char` and `remove_all_char` against plain recursions.
use docker_baseimage.Base.{
  ℕ, zero, suc, ◌≤◌, ◌≡◌, refl, ap, ◌∙◌, inl, inr, false, [], ◌∷◌, arith, if◌then◌else◌, length,
  ◌==◌, Bool-cases, All,
}
use docker_baseimage.Text.{
  Bytes, is_duplicated, at_next, remove_duplicated_fuel, remove_duplicated_char, remove_all_fuel,
  remove_all_char,
}

-- One of each run of `c`s is kept, and every other byte.
abbrev pub squeeze : ℕ → Bytes → Bytes
squeeze c [] = []
squeeze c (x ∷ s) = if is_duplicated c x s then squeeze c s else x ∷ squeeze c s

-- No two `c`s stand side by side.
abbrev pub IsSqueezed : ℕ → Bytes → Type 0
IsSqueezed c [] = Unit {0}
IsSqueezed c (x ∷ s) = (is_duplicated c x s ≡ false) × IsSqueezed c s

abbrev pub without : ℕ → Bytes → Bytes
without c [] = []
without c (x ∷ s) = if x == c then without c s else x ∷ without c s

module _ (c : ℕ) where
  -- Squeezing keeps the first byte.
  squeeze-cons : (x : ℕ) (s : Bytes) → (t : Bytes) × (squeeze c (x ∷ s) ≡ x ∷ t)
  squeeze-cons x [] = ([], refl)
  squeeze-cons x (y ∷ s) = elim (Bool-cases (is_duplicated c x (y ∷ s))) [
    | inl e ↦ let (t, f) = squeeze-cons y s in (t, rw e (f ∙ ap (λ z. z ∷ t) (ground (arith, e))))
    | inr e ↦ (squeeze c (y ∷ s), rw e)
  ]

  is_duplicated-squeeze :
      (x : ℕ) (s : Bytes) → is_duplicated c x (squeeze c s) ≡ is_duplicated c x s
  is_duplicated-squeeze x [] = refl
  is_duplicated-squeeze x (y ∷ s) = let (t, e) = squeeze-cons y s in rw e

  pub squeeze-IsSqueezed : (s : Bytes) → IsSqueezed c (squeeze c s)
  squeeze-IsSqueezed [] = tt
  squeeze-IsSqueezed (x ∷ s) = elim (Bool-cases (is_duplicated c x s)) [
    | inl e ↦ rw e (squeeze-IsSqueezed s)
    | inr e ↦ rw e (is_duplicated-squeeze x s ∙ e, squeeze-IsSqueezed s)
  ]

  squeeze_fixed : (s : Bytes) → IsSqueezed c s → squeeze c s ≡ s
  squeeze_fixed [] h = refl
  squeeze_fixed (x ∷ s) h = rw h.0 (ap (◌∷◌ x) (squeeze_fixed s h.1))

  length-squeeze : (s : Bytes) → length (squeeze c s) ≤ length s
  length-squeeze [] = omega arith
  length-squeeze (x ∷ s) = ground (arith, length-squeeze s)

  -- The call on `s + 1` leaves a string as it is once the loop has squeezed it.
  at_next-squeeze :
      (f : ℕ) (u : Bytes)
      → ((t : Bytes) → length t ≤ f → remove_duplicated_fuel f t c ≡ squeeze c t)
      → IsSqueezed c u
      → length u ≤ suc f
      → at_next (λ t. remove_duplicated_fuel f t c) u ≡ u
  at_next-squeeze f [] ih q h = refl
  at_next-squeeze f (x ∷ t) ih q h = ap (◌∷◌ x) (ih t (omega arith) ∙ squeeze_fixed t q.1)

  remove_duplicated_fuel-squeeze :
      (f : ℕ) (s : Bytes) → length s ≤ f → remove_duplicated_fuel f s c ≡ squeeze c s
  unfolding remove_duplicated_fuel
  remove_duplicated_fuel-squeeze zero [] h = refl
  remove_duplicated_fuel-squeeze zero (x ∷ s) h = absurd (omega arith)
  remove_duplicated_fuel-squeeze (suc f) [] h = refl
  remove_duplicated_fuel-squeeze (suc f) (x ∷ s) h = elim (Bool-cases (is_duplicated c x s)) [
    | inl e ↦
        let ih = remove_duplicated_fuel-squeeze f in
        rw (e, ih s (omega arith))
          (at_next-squeeze f (squeeze c s) ih (squeeze-IsSqueezed s)
            (omega (arith, length-squeeze s)))
    | inr e ↦ rw e (ap (◌∷◌ x) (remove_duplicated_fuel-squeeze f s (omega arith)))
  ]

-- Every run of `c`s becomes one `c`, and nothing else changes.
pub remove_duplicated_char-squeeze :
    (s : Bytes) (c : ℕ)
    → (remove_duplicated_char s c ≡ squeeze c s) × IsSqueezed c (remove_duplicated_char s c)
unfolding remove_duplicated_char
remove_duplicated_char-squeeze s c =
    let e = remove_duplicated_fuel-squeeze c (length s) s (omega arith) in
    (e, rw e (squeeze-IsSqueezed c s))

module _ (c : ℕ) where
  without-Unequal : (s : Bytes) → All (λ b. (b == c) ≡ false) (without c s)
  without-Unequal [] = tt
  without-Unequal (x ∷ s) = elim (Bool-cases (x == c)) [
    | inl e ↦ rw e (without-Unequal s)
    | inr e ↦ rw e (e, without-Unequal s)
  ]

  without_absent : (s : Bytes) → All (λ b. (b == c) ≡ false) s → without c s ≡ s
  without_absent [] h = refl
  without_absent (x ∷ s) h = rw h.0 (ap (◌∷◌ x) (without_absent s h.1))

  length-without : (s : Bytes) → length (without c s) ≤ length s
  length-without [] = omega arith
  length-without (x ∷ s) = ground (arith, length-without s)

  at_next-without :
      (f : ℕ) (u : Bytes)
      → ((t : Bytes) → length t ≤ f → remove_all_fuel f t c ≡ without c t)
      → All (λ b. (b == c) ≡ false) u
      → length u ≤ suc f
      → at_next (λ t. remove_all_fuel f t c) u ≡ u
  at_next-without f [] ih q h = refl
  at_next-without f (x ∷ t) ih q h = ap (◌∷◌ x) (ih t (omega arith) ∙ without_absent t q.1)

  remove_all_fuel-without : (f : ℕ) (s : Bytes) → length s ≤ f → remove_all_fuel f s c ≡ without c s
  unfolding remove_all_fuel
  remove_all_fuel-without zero [] h = refl
  remove_all_fuel-without zero (x ∷ s) h = absurd (omega arith)
  remove_all_fuel-without (suc f) [] h = refl
  remove_all_fuel-without (suc f) (x ∷ s) h = elim (Bool-cases (x == c)) [
    | inl e ↦
        let ih = remove_all_fuel-without f in
        rw (e, ih s (omega arith))
          (at_next-without f (without c s) ih (without-Unequal s) (omega (arith, length-without s)))
    | inr e ↦ rw e (ap (◌∷◌ x) (remove_all_fuel-without f s (omega arith)))
  ]

-- Exactly the bytes other than `c` stay, in their order.
pub remove_all_char-without :
    (s : Bytes) (c : ℕ)
    → (remove_all_char s c ≡ without c s) × All (λ b. (b == c) ≡ false) (remove_all_char s c)
unfolding remove_all_char
remove_all_char-without s c =
    let e = remove_all_fuel-without c (length s) s (omega arith) in (e, rw e (without-Unequal c s))
