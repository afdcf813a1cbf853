-- ===== src/Convert/Names.antt =====
-- Conversions that read words: Booleans, users and groups.
use docker_baseimage.Base.{
  ℕ, ◌≡◌, refl, All, true, false, Option, none, some, [], ◌∷◌, map, arith, ltb, ◌==◌, if◌then◌else◌,
  ◌⊎◌, inl, inr, Bool-cases, Option-cases,
}
use docker_baseimage.Text.{Bytes, to_lower, bytes_eq, bytes_case_eq, is_digit}
use docker_baseimage.Exception.{ok, throw, out_of_range, unknown_user}
use docker_baseimage.Convert.{
  string_to_bool, string_to_uid, all_digits, digits_only, is_digit_of, uint_mod,
}
use docker_baseimage.Convert.Digits.{value, IsNumeral}
use docker_baseimage.Convert.Numbers.{string_to_uint-numeral}

to_lower_idem : (c : ℕ) → to_lower (to_lower c) ≡ to_lower c
to_lower_idem c = ground arith

bytes_case_eq-to_lower : (s t : Bytes) → bytes_case_eq (map to_lower s) t ≡ bytes_case_eq s t
bytes_case_eq-to_lower [] [] = refl
bytes_case_eq-to_lower [] (y ∷ t) = refl
bytes_case_eq-to_lower (x ∷ s) [] = refl
bytes_case_eq-to_lower (x ∷ s) (y ∷ t) = rw (to_lower_idem x, bytes_case_eq-to_lower s t)

to_lower_digit : (c d : ℕ) → is_digit d ≡ true → (to_lower c == d) ≡ (c == d)
to_lower_digit c d h = ground arith

bytes_eq-to_lower :
    (s : Bytes) (d : ℕ)
    → is_digit d ≡ true
    → bytes_eq (map to_lower s) (d ∷ []) ≡ bytes_eq s (d ∷ [])
bytes_eq-to_lower [] d h = refl
bytes_eq-to_lower (x ∷ []) d h = rw (to_lower_digit x d h)
bytes_eq-to_lower (x ∷ y ∷ s) d h = rw (to_lower_digit x d h)

-- The case of letters does not matter to `string_to_bool`.
pub string_to_bool-to_lower : (s : Bytes) → string_to_bool (map to_lower s) ≡ string_to_bool s
unfolding string_to_bool
string_to_bool-to_lower s =
    simp (bytes_case_eq-to_lower s, bytes_eq-to_lower s b'1' refl, bytes_eq-to_lower s b'0' refl)

all_digits-All : (s : Bytes) → all_digits s ≡ true → All (λ c. is_digit_of 10 c ≡ true) s
all_digits-All [] h = tt
all_digits-All (c ∷ s) h = (ground arith, all_digits-All s (ground arith))

digits_only-IsNumeral : (s : Bytes) → digits_only s ≡ true → IsNumeral 10 s
digits_only-IsNumeral [] h = cc
digits_only-IsNumeral (c ∷ s) h = (λ e. cc, all_digits-All (c ∷ s) h)

-- A name of digits only is the user's number, and the user database is not asked; any other name
-- is looked up there, and a name that it does not know is an error.
pub string_to_uid_cases :
    (getpwnam : Bytes → Option ℕ) (s : Bytes)
    → ((digits_only s ≡ true)
        × (string_to_uid getpwnam s
            ≡ (if ltb (value 10 s) uint_mod then ok (value 10 s) else throw out_of_range)))
      ⊎ ((digits_only s ≡ false)
          × (((uid : ℕ) × (getpwnam s ≡ some uid) × (string_to_uid getpwnam s ≡ ok uid))
              ⊎ ((getpwnam s ≡ none) × (string_to_uid getpwnam s ≡ throw (unknown_user s)))))
unfolding string_to_uid
string_to_uid_cases getpwnam s = elim (Bool-cases (digits_only s)) [
  | inl e ↦ inl (e, rw e (string_to_uint-numeral s (digits_only-IsNumeral s e)))
  | inr e ↦ inr (
    e,
    elim (Option-cases (getpwnam s)) [
      | inl f ↦ inr (f, rw (e, f))
      | inr (uid, f) ↦ inl (uid, f, rw (e, f))
    ],
  )
]
